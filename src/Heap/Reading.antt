-- ===== src/Heap/Reading.antt =====
-- Reading a tuple, and every operation at a slot that stands for none.
use kdbs.Common.{
  ℕ, zero, suc, ◌+◌, ◌-◌, ◌≤◌, ◌<◌, ◌≡◌, ap, ◌∙◌, inl, inr, List, ◌∷◌, ◌++◌, Option, none, some,
  arith, ok, err, enoent, enospc,
}
use kdbs.Common.Bytes.{Bytes, load}
use kdbs.Page.{Frame}
use kdbs.Heap.Layout.{TupleHdr, tuple_hdr_size, load_slot}
use kdbs.Heap.Inv.{tuple_at, tuple_of, live_slot_err}
use kdbs.Heap.Changes.{tuple_at_inv}
use kdbs.Heap.{
  read_tuple, heap_read_tuple, heap_delete_tuple, delete_tuple, heap_overwrite_tuple,
  overwrite_tuple, heap_slot_capacity, slot_capacity,
}

load_append : (p : Bytes) (o a b : ℕ) → load p o (a + b) ≡ load p o a ++ load p (o + a) b
unfolding load
load_append p o zero b =
    let x : zero + b ≡ b = omega arith in let y : o + zero ≡ o = omega arith in rw (x, y)
load_append p o (suc a) b =
    let x : suc a + b ≡ suc (a + b) = omega arith in
    let y : o + suc a ≡ suc o + a = omega arith in
    rw (x, y) (ap (◌∷◌ (p o)) (load_append p (suc o) a b))

module _ (f : Frame) (i : ℕ) (t : TupleHdr) (bs : List ℕ) (n : ℕ)
    (has : tuple_at f.bytes i ≡ some (t, bs)) where
  -- Reading a stored tuple into a buffer of at least its length returns its header and its
  -- payload; the rest of the buffer is filled from the bytes behind the payload.
  pub read_returns :
      t.data_len ≤ n
      → heap_read_tuple (some f) i (some n)
        ≡ ok (
          t,
          bs
              ++ load f.bytes
                  ((load_slot f.bytes i).offset + tuple_hdr_size + t.data_len)
                  (n - t.data_len),
        )
  unfolding heap_read_tuple read_tuple
  read_returns h =
      let e = tuple_at_inv f.bytes i has in
      let o = (load_slot f.bytes i).offset + tuple_hdr_size in
      let k : n ≡ t.data_len + (n - t.data_len) = omega arith in
      let l : load f.bytes o n ≡ bs ++ load f.bytes (o + t.data_len) (n - t.data_len) =
        ap (load f.bytes o) k
        ∙ load_append f.bytes o t.data_len (n - t.data_len)
        ∙ ap (λ xs. xs ++ load f.bytes (o + t.data_len) (n - t.data_len)) e.2 in
      ground (arith, e.0, e.1, l)

  -- A smaller buffer is refused with -ENOSPC.
  pub read_refuses : n < t.data_len → heap_read_tuple (some f) i (some n) ≡ err enospc
  unfolding heap_read_tuple read_tuple
  read_refuses h = let e = tuple_at_inv f.bytes i has in ground (arith, e.0, e.1)

-- At a slot number that stands for no tuple, reading, deleting, overwriting and asking for the
-- capacity all return -ENOENT, and the frame stays.
missing_refused :
    (f : Frame) (i : ℕ) (out_buf : Option ℕ) (new : List ℕ) (n xmin xmax undo_ptr : ℕ)
    → tuple_at f.bytes i ≡ none
    → (heap_read_tuple (some f) i out_buf ≡ err enoent)
      × (heap_delete_tuple (some f) i xmax ≡ (some f, err enoent))
      × (heap_overwrite_tuple (some f) i (some new) n xmin xmax undo_ptr ≡ (some f, err enoent))
      × (heap_slot_capacity (some f) i ≡ err enoent)
unfolding heap_read_tuple read_tuple heap_delete_tuple delete_tuple heap_overwrite_tuple
    overwrite_tuple heap_slot_capacity slot_capacity tuple_at tuple_of
missing_refused f i out_buf new n xmin xmax undo_ptr h = elim (live_slot_err f.bytes i) [
  | inl e ↦ cc (rw e at h)
  | inr e ↦ (ground (arith, e), ground (arith, e), ground (arith, e), ground (arith, e))
]
