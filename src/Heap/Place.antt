-- ===== src/Heap/Place.antt =====
-- The writes of an insertion: what they leave of the page, and the invariant.
use kdbs.Common.{ℕ, ◌+◌, ◌≤◌, ◌<◌, ◌≡◌, ◌∙◌, inr, List, arith, length}
use kdbs.Common.Bytes.{Bytes, load}
use kdbs.Heap.Layout.{
  Meta, TupleHdr, tuple_hdr_size, load_meta, load_slot, store_slot, load_tuple_hdr, store_tuple,
}
use kdbs.Heap.Layout.Access.{
  TupleHdrFits, load-store_meta, load-store_slot, load_slot-store_meta, load_slot-store_slot_ne,
  load_tuple_hdr-store_meta, load_tuple_hdr-store_slot, load_bytes-store_meta,
  load_bytes-store_slot,
}
use kdbs.Heap.Layout.Tuples.{
  load_slot-store_tuple, load_tuple_hdr-store_tuple, load_payload-store_tuple,
  load_bytes-store_tuple, load_tuple_hdr-store_tuple_apart,
}
use kdbs.Heap.Inv.{IsValid}
use kdbs.Heap.{new_upper, new_slot, new_meta, place_tuple}

-- An insertion that has room: slot, header and payload fit between `lower` and `upper`.
pub record HasRoom (p : Bytes) (t : TupleHdr) (bs : List ℕ) : Type 0 where
  pub valid : IsValid p
  pub fits : TupleHdrFits t
  pub len : length bs ≡ t.data_len
  pub gap : 33 + t.data_len + (load_meta p).lower ≤ (load_meta p).upper

module _ (p : Bytes) (t : TupleHdr) (bs : List ℕ) (h : HasRoom p t bs) where
  open h use {valid, fits, len, gap}

  abbrev old_meta : Meta
  old_meta = load_meta p

  abbrev placed : Bytes
  placed = place_tuple p old_meta t bs

  -- No 16-bit assignment wraps.
  pub new_upper_lem : new_upper old_meta t + tuple_hdr_size + t.data_len ≡ old_meta.upper
  new_upper_lem = let a = valid.room in let b = valid.tail in let c = gap in omega arith

  abbrev stored : Bytes
  stored = store_tuple p (new_upper old_meta t) t bs

  pub load_meta-place : load_meta placed ≡ new_meta old_meta t
  unfolding place_tuple
  load_meta-place =
      let z = valid.spare in
      load-store_meta (store_slot stored old_meta.nr_slots (new_slot old_meta t))
        (new_meta old_meta t) (omega arith)

  pub new_meta_lem :
      ((load_meta placed).nr_slots ≡ old_meta.nr_slots + 1)
      × ((load_meta placed).lower ≡ old_meta.lower + 5)
      × ((load_meta placed).upper + tuple_hdr_size + t.data_len ≡ old_meta.upper)
      × ((load_meta placed).reserved ≡ 0)
  new_meta_lem =
      let a = valid.room in
      let b = valid.tail in
      let c = gap in
      let d = valid.directory in
      let e = new_upper_lem in
      rw load_meta-place (omega arith, omega arith, omega arith, valid.spare)

  pub load_slot-place_new : load_slot placed old_meta.nr_slots ≡ new_slot old_meta t
  unfolding place_tuple
  load_slot-place_new =
      load_slot-store_meta (store_slot stored old_meta.nr_slots (new_slot old_meta t))
        old_meta.nr_slots (new_meta old_meta t)
      ∙ load-store_slot stored old_meta.nr_slots (new_slot old_meta t) (omega arith)

  pub load_slot-place_old : (j : ℕ) → j < old_meta.nr_slots → load_slot placed j ≡ load_slot p j
  unfolding place_tuple
  load_slot-place_old j l =
      let a = valid.directory in
      let b = gap in
      let e = new_upper_lem in
      load_slot-store_meta (store_slot stored old_meta.nr_slots (new_slot old_meta t)) j
        (new_meta old_meta t)
      ∙ load_slot-store_slot_ne stored old_meta.nr_slots j (new_slot old_meta t) (omega arith)
      ∙ load_slot-store_tuple p (new_upper old_meta t) t bs j (omega arith)

  -- What lies above the old `upper` is left alone.
  pub load_bytes-place : (o n : ℕ) → old_meta.upper ≤ o → load placed o n ≡ load p o n
  unfolding place_tuple
  load_bytes-place o n l =
      let a = valid.directory in
      let b = gap in
      let e = new_upper_lem in
      let f = len in
      load_bytes-store_meta (store_slot stored old_meta.nr_slots (new_slot old_meta t)) o n
        (new_meta old_meta t) (omega arith)
      ∙ load_bytes-store_slot stored o n old_meta.nr_slots (new_slot old_meta t) (omega arith)
      ∙ load_bytes-store_tuple p (new_upper old_meta t) t bs o n (inr (omega arith))

  pub load_tuple_hdr-place :
      (o : ℕ) → old_meta.upper ≤ o → load_tuple_hdr placed o ≡ load_tuple_hdr p o
  unfolding place_tuple
  load_tuple_hdr-place o l =
      let a = valid.directory in
      let b = gap in
      let e = new_upper_lem in
      let f = len in
      load_tuple_hdr-store_meta (store_slot stored old_meta.nr_slots (new_slot old_meta t)) o
        (new_meta old_meta t) (omega arith)
      ∙ load_tuple_hdr-store_slot stored o old_meta.nr_slots (new_slot old_meta t) (omega arith)
      ∙ load_tuple_hdr-store_tuple_apart p (new_upper old_meta t) t bs o (inr (omega arith))

  pub load_tuple_hdr-place_new : load_tuple_hdr placed (new_upper old_meta t) ≡ t
  unfolding place_tuple
  load_tuple_hdr-place_new =
      let a = valid.directory in
      let b = gap in
      let e = new_upper_lem in
      load_tuple_hdr-store_meta (store_slot stored old_meta.nr_slots (new_slot old_meta t))
        (new_upper old_meta t) (new_meta old_meta t) (omega arith)
      ∙ load_tuple_hdr-store_slot stored (new_upper old_meta t) old_meta.nr_slots
          (new_slot old_meta t) (omega arith)
      ∙ load_tuple_hdr-store_tuple p (new_upper old_meta t) t bs fits

  pub load_payload-place_new : load placed (new_upper old_meta t + tuple_hdr_size) t.data_len ≡ bs
  unfolding place_tuple
  load_payload-place_new =
      let a = valid.directory in
      let b = gap in
      let e = new_upper_lem in
      load_bytes-store_meta (store_slot stored old_meta.nr_slots (new_slot old_meta t))
        (new_upper old_meta t + tuple_hdr_size) t.data_len (new_meta old_meta t) (omega arith)
      ∙ load_bytes-store_slot stored (new_upper old_meta t + tuple_hdr_size) t.data_len
          old_meta.nr_slots (new_slot old_meta t) (omega arith)
      ∙ load_payload-store_tuple p (new_upper old_meta t) t bs t.data_len len
