-- ===== src/Heap/Layout/Tuples.antt =====
-- A whole tuple, its header and its payload, as `store_tuple` lays it out.
use kdbs.Common.{ℕ, ◌+◌, ◌≤◌, ◌≡◌, ◌∙◌, ◌⊎◌, inl, List, arith, length}
use kdbs.Common.Bytes.{Bytes, load, load-store_self, load-store_apart}
use kdbs.Heap.Layout.{
  TupleHdr, tuple_hdr_size, slot_ptr, load_meta, load_slot, load_tuple_hdr, store_tuple_hdr,
  store_tuple,
}
use kdbs.Heap.Layout.Access.{
  TupleHdrFits, load-store_tuple_hdr, load_meta-store_tuple_hdr, load_meta-store,
  load_slot-store_tuple_hdr, load_slot-store, load_tuple_hdr-store_tuple_hdr, load_tuple_hdr-store,
  load_bytes-store_tuple_hdr,
}

module _ (p : Bytes) (off : ℕ) (t : TupleHdr) (bs : List ℕ) where
  abbrev hdr_stored : Bytes
  hdr_stored = store_tuple_hdr p off t

  pub load_meta-store_tuple : 49 ≤ off → load_meta (store_tuple p off t bs) ≡ load_meta p
  unfolding store_tuple
  load_meta-store_tuple h =
      load_meta-store hdr_stored (off + tuple_hdr_size) bs (omega arith)
      ∙ load_meta-store_tuple_hdr p off t h

  pub load_slot-store_tuple :
      (i : ℕ) → slot_ptr i + 5 ≤ off → load_slot (store_tuple p off t bs) i ≡ load_slot p i
  unfolding store_tuple
  load_slot-store_tuple i h =
      load_slot-store hdr_stored i (off + tuple_hdr_size) bs (omega arith)
      ∙ load_slot-store_tuple_hdr p i off t h

  pub load_tuple_hdr-store_tuple : TupleHdrFits t → load_tuple_hdr (store_tuple p off t bs) off ≡ t
  unfolding store_tuple
  load_tuple_hdr-store_tuple h =
      load_tuple_hdr-store hdr_stored off (off + tuple_hdr_size) bs (inl (omega arith))
      ∙ load-store_tuple_hdr p off t h

  pub load_payload-store_tuple :
      (n : ℕ) → length bs ≡ n → load (store_tuple p off t bs) (off + tuple_hdr_size) n ≡ bs
  unfolding store_tuple
  load_payload-store_tuple n h = load-store_self hdr_stored (off + tuple_hdr_size) bs n h

  pub load_bytes-store_tuple :
      (o n : ℕ)
      → (o + n ≤ off) ⊎ (off + tuple_hdr_size + length bs ≤ o)
      → load (store_tuple p off t bs) o n ≡ load p o n
  unfolding store_tuple
  load_bytes-store_tuple o n h =
      load-store_apart hdr_stored (off + tuple_hdr_size) bs o n (omega arith)
      ∙ load_bytes-store_tuple_hdr p o n off t (omega arith)

  pub load_tuple_hdr-store_tuple_apart :
      (o : ℕ)
      → (o + tuple_hdr_size ≤ off) ⊎ (off + tuple_hdr_size + length bs ≤ o)
      → load_tuple_hdr (store_tuple p off t bs) o ≡ load_tuple_hdr p o
  unfolding store_tuple
  load_tuple_hdr-store_tuple_apart o h =
      load_tuple_hdr-store hdr_stored o (off + tuple_hdr_size) bs (omega arith)
      ∙ load_tuple_hdr-store_tuple_hdr p o off t (omega arith)
