-- ===== src/Heap/Layout/Access.antt =====
-- Reading the structs of a page back after a write: a struct is read as it was written, and a
-- write leaves the structs that it does not meet.
use kdbs.Common.{ℕ, ◌+◌, ◌^◌, ◌≤◌, ◌<◌, ◌≡◌, refl, ap, ◌≢◌, ◌⊎◌, inl, inr, List, arith, length}
use kdbs.Common.Bytes.{Bytes, store, load}
use kdbs.Common.Fields.{
  read-write_struct, read_struct-store_apart, read-write_apart, load-write_apart, read_struct_congr,
}
use kdbs.Heap.Layout.{
  Meta, Slot, TupleHdr, meta_widths, slot_widths, tuple_hdr_widths, meta_offset, slot_ptr, meta_of,
  slot_of, tuple_hdr_of, meta_values, slot_values, tuple_hdr_values, load_meta, store_meta,
  load_slot, store_slot, load_tuple_hdr, store_tuple_hdr,
}

-- The fields are within their widths.
abbrev pub MetaFits : Meta → Type 0
MetaFits m = (m.nr_slots < 2 ^ 16) × (m.lower < 2 ^ 16) × (m.upper < 2 ^ 16) × (m.reserved < 2 ^ 16)

abbrev pub SlotFits : Slot → Type 0
SlotFits s = (s.offset < 2 ^ 16) × (s.length < 2 ^ 16) × (s.flags < 2 ^ 8)

abbrev pub TupleHdrFits : TupleHdr → Type 0
TupleHdrFits t =
    (t.xmin < 2 ^ 64)
    × (t.xmax < 2 ^ 64)
    × (t.undo_ptr < 2 ^ 64)
    × (t.data_len < 2 ^ 16)
    × (t.flags < 2 ^ 8)
    × (t.reserved < 2 ^ 8)

module _ (p : Bytes) where
  pub load-store_meta : (m : Meta) → MetaFits m → load_meta (store_meta p m) ≡ m
  unfolding load_meta store_meta
  load-store_meta m h =
      ap meta_of (read-write_struct meta_widths p meta_offset (meta_values m) refl (omega arith))

  pub load-store_slot : (i : ℕ) (s : Slot) → SlotFits s → load_slot (store_slot p i s) i ≡ s
  unfolding load_slot store_slot
  load-store_slot i s h =
      ap slot_of (read-write_struct slot_widths p (slot_ptr i) (slot_values s) refl (omega arith))

  pub load-store_tuple_hdr :
      (off : ℕ) (t : TupleHdr) → TupleHdrFits t → load_tuple_hdr (store_tuple_hdr p off t) off ≡ t
  unfolding load_tuple_hdr store_tuple_hdr
  load-store_tuple_hdr off t h =
      ap tuple_hdr_of
        (read-write_struct tuple_hdr_widths p off (tuple_hdr_values t) refl (omega arith))

  pub load_meta-store_slot : (i : ℕ) (s : Slot) → load_meta (store_slot p i s) ≡ load_meta p
  unfolding load_meta store_slot
  load_meta-store_slot i s = ap meta_of (
      read-write_apart meta_widths slot_widths p (slot_ptr i) (slot_values s) meta_offset refl
        (inl (omega arith)))

  pub load_meta-store_tuple_hdr :
      (off : ℕ) (t : TupleHdr) → 49 ≤ off → load_meta (store_tuple_hdr p off t) ≡ load_meta p
  unfolding load_meta store_tuple_hdr
  load_meta-store_tuple_hdr off t h = ap meta_of (
      read-write_apart meta_widths tuple_hdr_widths p off (tuple_hdr_values t) meta_offset refl
        (inl (omega arith)))

  pub load_meta-store :
      (off : ℕ) (bs : List ℕ) → 49 ≤ off → load_meta (store p off bs) ≡ load_meta p
  unfolding load_meta
  load_meta-store off bs h =
      ap meta_of (read_struct-store_apart meta_widths p off bs meta_offset (inl (omega arith)))

  pub load_slot-store_meta : (i : ℕ) (m : Meta) → load_slot (store_meta p m) i ≡ load_slot p i
  unfolding load_slot store_meta
  load_slot-store_meta i m = ap slot_of (
      read-write_apart slot_widths meta_widths p meta_offset (meta_values m) (slot_ptr i) refl
        (inr (omega arith)))

  pub load_slot-store_slot_ne :
      (i j : ℕ) (s : Slot) → i ≢ j → load_slot (store_slot p i s) j ≡ load_slot p j
  unfolding load_slot store_slot
  load_slot-store_slot_ne i j s h = ap slot_of (
      read-write_apart slot_widths slot_widths p (slot_ptr i) (slot_values s) (slot_ptr j) refl
        (apart i j h))
    where
      apart : (i j : ℕ) → i ≢ j → (slot_ptr j + 5 ≤ slot_ptr i) ⊎ (slot_ptr i + 5 ≤ slot_ptr j)
      apart i j h = grind arith

  pub load_slot-store_tuple_hdr :
      (i off : ℕ) (t : TupleHdr)
      → slot_ptr i + 5 ≤ off
      → load_slot (store_tuple_hdr p off t) i ≡ load_slot p i
  unfolding load_slot store_tuple_hdr
  load_slot-store_tuple_hdr i off t h = ap slot_of (
      read-write_apart slot_widths tuple_hdr_widths p off (tuple_hdr_values t) (slot_ptr i) refl
        (inl (omega arith)))

  pub load_slot-store :
      (i off : ℕ) (bs : List ℕ)
      → slot_ptr i + 5 ≤ off
      → load_slot (store p off bs) i ≡ load_slot p i
  unfolding load_slot
  load_slot-store i off bs h =
      ap slot_of (read_struct-store_apart slot_widths p off bs (slot_ptr i) (inl (omega arith)))

  pub load_tuple_hdr-store_meta :
      (off : ℕ) (m : Meta) → 49 ≤ off → load_tuple_hdr (store_meta p m) off ≡ load_tuple_hdr p off
  unfolding load_tuple_hdr store_meta
  load_tuple_hdr-store_meta off m h = ap tuple_hdr_of (
      read-write_apart tuple_hdr_widths meta_widths p meta_offset (meta_values m) off refl
        (inr (omega arith)))

  pub load_tuple_hdr-store_slot :
      (off i : ℕ) (s : Slot)
      → slot_ptr i + 5 ≤ off
      → load_tuple_hdr (store_slot p i s) off ≡ load_tuple_hdr p off
  unfolding load_tuple_hdr store_slot
  load_tuple_hdr-store_slot off i s h = ap tuple_hdr_of (
      read-write_apart tuple_hdr_widths slot_widths p (slot_ptr i) (slot_values s) off refl
        (inr (omega arith)))

  pub load_tuple_hdr-store_tuple_hdr :
      (o off : ℕ) (t : TupleHdr)
      → (o + 28 ≤ off) ⊎ (off + 28 ≤ o)
      → load_tuple_hdr (store_tuple_hdr p off t) o ≡ load_tuple_hdr p o
  unfolding load_tuple_hdr store_tuple_hdr
  load_tuple_hdr-store_tuple_hdr o off t h = ap tuple_hdr_of (
      read-write_apart tuple_hdr_widths tuple_hdr_widths p off (tuple_hdr_values t) o refl
        (omega arith))

  pub load_tuple_hdr-store :
      (o off : ℕ) (bs : List ℕ)
      → (o + 28 ≤ off) ⊎ (off + length bs ≤ o)
      → load_tuple_hdr (store p off bs) o ≡ load_tuple_hdr p o
  unfolding load_tuple_hdr
  load_tuple_hdr-store o off bs h =
      ap tuple_hdr_of (read_struct-store_apart tuple_hdr_widths p off bs o (omega arith))

  pub load_bytes-store_meta : (o n : ℕ) (m : Meta) → 49 ≤ o → load (store_meta p m) o n ≡ load p o n
  unfolding store_meta
  load_bytes-store_meta o n m h =
      load-write_apart meta_widths p meta_offset (meta_values m) o n refl (inr (omega arith))

  pub load_bytes-store_slot :
      (o n i : ℕ) (s : Slot) → slot_ptr i + 5 ≤ o → load (store_slot p i s) o n ≡ load p o n
  unfolding store_slot
  load_bytes-store_slot o n i s h =
      load-write_apart slot_widths p (slot_ptr i) (slot_values s) o n refl (inr (omega arith))

  pub load_bytes-store_tuple_hdr :
      (o n off : ℕ) (t : TupleHdr)
      → (o + n ≤ off) ⊎ (off + 28 ≤ o)
      → load (store_tuple_hdr p off t) o n ≡ load p o n
  unfolding store_tuple_hdr
  load_bytes-store_tuple_hdr o n off t h =
      load-write_apart tuple_hdr_widths p off (tuple_hdr_values t) o n refl (omega arith)

-- Pages that agree on a struct's bytes agree on the struct.
module _ (p q : Bytes) where
  pub load_meta_congr : load p meta_offset 8 ≡ load q meta_offset 8 → load_meta p ≡ load_meta q
  unfolding load_meta
  load_meta_congr e = ap meta_of (read_struct_congr meta_widths p q meta_offset e)

  pub load_slot_congr :
      (i : ℕ) → load p (slot_ptr i) 5 ≡ load q (slot_ptr i) 5 → load_slot p i ≡ load_slot q i
  unfolding load_slot
  load_slot_congr i e = ap slot_of (read_struct_congr slot_widths p q (slot_ptr i) e)

  pub load_tuple_hdr_congr :
      (o : ℕ) → load p o 28 ≡ load q o 28 → load_tuple_hdr p o ≡ load_tuple_hdr q o
  unfolding load_tuple_hdr
  load_tuple_hdr_congr o e = ap tuple_hdr_of (read_struct_congr tuple_hdr_widths p q o e)
