-- ===== src/Heap/Changes.antt =====
-- The operations on an existing tuple: delete, overwrite, retire, and reading it.
use kdbs.Common.{
  ℕ, ◌+◌, ◌-◌, ◌*◌, ◌^◌, ◌≤◌, ◌<◌, ◌≡◌, ◌∙◌, inl, inr, ◌≢◌, List, Option, some, arith, ok, err,
  enospc, length, take, length-take,
}
use kdbs.Common.Bytes.{Bytes, load}
use kdbs.Page.{Frame, set_page_dirty}
use kdbs.Heap.Layout.{
  Slot, TupleHdr, tuple_hdr_size, next_page_offset, load_meta, load_slot, load_tuple_hdr,
  store_tuple_hdr, store_tuple,
}
use kdbs.Heap.Layout.Access.{
  TupleHdrFits, load-store_tuple_hdr, load_meta-store_tuple_hdr, load_slot-store_tuple_hdr,
  load_tuple_hdr-store_tuple_hdr, load_bytes-store_tuple_hdr,
}
use kdbs.Heap.Layout.Tuples.{
  load_meta-store_tuple, load_slot-store_tuple, load_tuple_hdr-store_tuple,
  load_payload-store_tuple, load_bytes-store_tuple, load_tuple_hdr-store_tuple_apart,
}
use kdbs.Heap.Inv.{IsValid, tuple_at, tuple_of, live_slot_ok, live_slot_err, live_slot_inv}
use kdbs.Heap.Edit.{Edit, edit-IsValid, tuple_at-edit_ne, tuple_at-edit_self, load_next-edit}
use kdbs.Heap.Insertion.{Stamps}
use kdbs.Heap.{
  slot_capacity, heap_slot_capacity, live_slot, load_next, tuple_hdr, payload, delete_tuple,
  heap_delete_tuple, overwrite_tuple, heap_overwrite_tuple,
}

-- The page `q` is valid and has `x` in slot `i`; the other slots, the meta and the link are those
-- of `p`.
pub record Replaced (p q : Bytes) (i : ℕ) (x : Option (TupleHdr × List ℕ)) : Type 0 where
  pub valid : IsValid q
  pub meta : load_meta q ≡ load_meta p
  pub new : tuple_at q i ≡ x
  pub others : (j : ℕ) → j ≢ i → tuple_at q j ≡ tuple_at p j
  pub link : load_next q ≡ load_next p

module _ (p : Bytes) (v : IsValid p) (i : ℕ) (s : Slot) (found : live_slot p i ≡ ok s) where
  -- The slot entries end where the tuple area begins.
  slot_below : (j : ℕ) → j < (load_meta p).nr_slots → 49 + j * 5 + 5 ≤ (load_slot p i).offset
  slot_below j l =
      let f = live_slot_inv p i found in
      let w = (v.inside i f.0 f.1).above in let a = v.directory in let b = v.room in omega arith

  area_below : 49 ≤ (load_slot p i).offset
  area_below =
      let f = live_slot_inv p i found in
      let w = (v.inside i f.0 f.1).above in let a = v.directory in let b = v.room in omega arith

  pub hdr-Edit :
      (t : TupleHdr)
      → TupleHdrFits t
      → t.data_len ≡ (load_tuple_hdr p (load_slot p i).offset).data_len
      → Edit p (store_tuple_hdr p (load_slot p i).offset t) i
  hdr-Edit t fits e =
      let f = live_slot_inv p i found in
      let w = (v.inside i f.0 f.1).holds in
      record {
        valid = v;
        counted = f.0;
        live = f.1;
        meta = load_meta-store_tuple_hdr p (load_slot p i).offset t area_below;
        slots = λ j l. load_slot-store_tuple_hdr p j (load_slot p i).offset t (slot_below j l);
        bytes = λ o n h. load_bytes-store_tuple_hdr p o n (load_slot p i).offset t (omega arith);
        hdrs = λ o h. load_tuple_hdr-store_tuple_hdr p o (load_slot p i).offset t (omega arith);
        holds = rw (load-store_tuple_hdr p (load_slot p i).offset t fits) (omega arith);
        hdr_fits = rw (load-store_tuple_hdr p (load_slot p i).offset t fits) fits;
      }

  pub tuple-Edit :
      (t : TupleHdr) (bs : List ℕ)
      → TupleHdrFits t
      → length bs ≡ t.data_len
      → tuple_hdr_size + t.data_len ≤ (load_slot p i).length
      → Edit p (store_tuple p (load_slot p i).offset t bs) i
  tuple-Edit t bs fits e room =
      let f = live_slot_inv p i found in
      record {
        valid = v;
        counted = f.0;
        live = f.1;
        meta = load_meta-store_tuple p (load_slot p i).offset t bs area_below;
        slots = λ j l. load_slot-store_tuple p (load_slot p i).offset t bs j (slot_below j l);
        bytes = λ o n h. load_bytes-store_tuple p (load_slot p i).offset t bs o n (omega arith);
        hdrs =
            λ o h. load_tuple_hdr-store_tuple_apart p (load_slot p i).offset t bs o (omega arith);
        holds = rw (load_tuple_hdr-store_tuple p (load_slot p i).offset t bs fits) room;
        hdr_fits = rw (load_tuple_hdr-store_tuple p (load_slot p i).offset t bs fits) fits;
      }

  tuple_at_found :
      tuple_at p i
      ≡ some (
        load_tuple_hdr p (load_slot p i).offset,
        load p
            ((load_slot p i).offset + tuple_hdr_size)
            (load_tuple_hdr p (load_slot p i).offset).data_len,
      )
  unfolding tuple_at tuple_of
  tuple_at_found = let f = live_slot_inv p i found in rw (live_slot_ok p i f.0 f.1)

-- A slot that stands for a tuple is live, and the tuple is what lies there.
pub tuple_at_inv :
    (p : Bytes) (i : ℕ) {t : TupleHdr} {bs : List ℕ}
    → tuple_at p i ≡ some (t, bs)
    → (live_slot p i ≡ ok (load_slot p i))
      × (load_tuple_hdr p (load_slot p i).offset ≡ t)
      × (load p ((load_slot p i).offset + tuple_hdr_size) t.data_len ≡ bs)
unfolding tuple_at tuple_of
tuple_at_inv p i {t} {bs} h = elim (live_slot_err p i) [
  | inl e ↦
      let h' = rw e at h in
      let th : load_tuple_hdr p (load_slot p i).offset ≡ t = ground arith in
      (e, th, rw (← th) (ground arith))
  | inr e ↦ cc (rw e at h)
]

module _ (f : Frame) (v : IsValid f.bytes) (i : ℕ) (t : TupleHdr) (bs : List ℕ)
    (has : tuple_at f.bytes i ≡ some (t, bs)) where
  abbrev p : Bytes
  p = f.bytes

  abbrev off : ℕ
  off = (load_slot p i).offset

  found : live_slot p i ≡ ok (load_slot p i)
  found = (tuple_at_inv p i has).0

  hdr_found : load_tuple_hdr p off ≡ t
  hdr_found = (tuple_at_inv p i has).1

  payload_found : load p (off + tuple_hdr_size) t.data_len ≡ bs
  payload_found = (tuple_at_inv p i has).2

  pub found_fits : TupleHdrFits t
  found_fits = let l = live_slot_inv p i found in rw (← hdr_found) (v.inside i l.0 l.1).hdr_fits

  -- Deleting a row of a valid page with a u64 transaction id succeeds: the page stays valid, the
  -- row's header has the id as `xmax` and is otherwise as before, its payload, the other rows, the
  -- meta and the link are kept.
  pub delete_marks :
      (xmax : ℕ)
      → xmax < 2 ^ 64
      → (g : Frame) × (heap_delete_tuple (some f) i xmax ≡ (some g, ok tt))
        × Replaced f.bytes g.bytes i (some (record t { xmax = xmax }, bs))
  unfolding heap_delete_tuple delete_tuple
  delete_marks xmax u =
      let t' : TupleHdr = record t { xmax = xmax } in
      let q : Bytes = store_tuple_hdr p off t' in
      let fits : TupleHdrFits t' = let a = found_fits in omega arith in
      let e = hdr-Edit p v i (load_slot p i) found t' fits (rw hdr_found) in
      (
        set_page_dirty (record f { bytes = q }),
        ground (arith, found, hdr_found),
        record {
          valid = edit-IsValid p q i e;
          meta = e.meta;
          new =
              tuple_at-edit_self p q i e
              ∙ rw (
                load-store_tuple_hdr p off t' fits,
                load_bytes-store_tuple_hdr p (off + tuple_hdr_size) t.data_len off t'
                    (inr (omega arith)),
                payload_found,
              );
          others = tuple_at-edit_ne p q i e;
          link = load_next-edit p q i e;
        },
      )

  -- The capacity that is reported is what the slot reserves behind the header; the stored
  -- payload fits it.
  pub capacity_lem :
      (heap_slot_capacity (some f) i ≡ ok ((load_slot p i).length - tuple_hdr_size))
      × (t.data_len + tuple_hdr_size ≤ (load_slot p i).length)
      × ((load_slot p i).length ≤ next_page_offset)
  unfolding heap_slot_capacity slot_capacity
  capacity_lem =
      let l = live_slot_inv p i found in
      let w = v.inside i l.0 l.1 in
      let a = w.holds in
      let b = w.below in
      let c : t.data_len + tuple_hdr_size ≤ (load_slot p i).length =
        rw (← hdr_found) (omega arith) in
      (ground (arith, found), c, omega arith)

  module _ (new : List ℕ) (n xmin xmax undo_ptr : ℕ) where
    -- On a live tuple of a valid page, a payload within the slot's capacity, from a buffer of at
    -- least its length and with u64 stamps, is written in place: the slot stands for the new
    -- header and payload, and every other slot, the directory and the link stay.
    pub overwrite_replaces :
        Stamps xmin xmax undo_ptr
        → n ≤ length new
        → (cap : ℕ) → heap_slot_capacity (some f) i ≡ ok cap
        → n ≤ cap
        → (g : Frame) × (heap_overwrite_tuple (some f) i (some new) n xmin xmax undo_ptr
            ≡ (some g, ok tt))
          × Replaced f.bytes g.bytes i (some (tuple_hdr xmin xmax undo_ptr n, take n new))
    unfolding heap_overwrite_tuple overwrite_tuple
    overwrite_replaces st src cap capacity fit =
        let t' : TupleHdr = tuple_hdr xmin xmax undo_ptr n in
        let q : Bytes = store_tuple p off t' (take n new) in
        let c = capacity_lem in
        let room : tuple_hdr_size + n ≤ (load_slot p i).length = ground (arith, c.0) in
        let len : length (take n new) ≡ n = omega (arith, length-take n new) in
        let fits : TupleHdrFits t' =
          (st.xmin_fits, st.xmax_fits, st.undo_fits, omega arith, omega arith, omega arith) in
        let e = tuple-Edit p v i (load_slot p i) found t' (take n new) fits len room in
        (
          set_page_dirty (record f { bytes = q }),
          ground (arith, found),
          record {
            valid = edit-IsValid p q i e;
            meta = e.meta;
            new =
                tuple_at-edit_self p q i e
                ∙ rw (
                  load_tuple_hdr-store_tuple p off t' (take n new) fits,
                  load_payload-store_tuple p off t' (take n new) n len,
                );
            others = tuple_at-edit_ne p q i e;
            link = load_next-edit p q i e;
          },
        )

    -- A payload above the capacity is refused with -ENOSPC, and the frame stays, as long as
    -- header and payload together are below 2 ^ 16 bytes.
    pub overwrite_refuses :
        (cap : ℕ)
        → heap_slot_capacity (some f) i ≡ ok cap
        → cap < n
        → tuple_hdr_size + n < 2 ^ 16
        → heap_overwrite_tuple (some f) i (some new) n xmin xmax undo_ptr ≡ (some f, err enospc)
    unfolding heap_overwrite_tuple overwrite_tuple
    overwrite_refuses cap capacity over small =
        let c = capacity_lem in
        let d : cap ≡ (load_slot p i).length - tuple_hdr_size = ground (arith, c.0) in
        ground (arith, found)

    -- From 65508 bytes on the u16 sum of header and payload wraps: the overwrite of any live
    -- tuple of a valid page is accepted, and what it writes runs past the end of the page.
    overwrite_overruns :
        65508 ≤ n
        → n < 2 ^ 16
        → n ≤ length new
        → ((heap_overwrite_tuple (some f) i (some new) n xmin xmax undo_ptr).1 ≡ ok tt)
          × (8192 < off + tuple_hdr_size + length (payload (some new) n))
    unfolding heap_overwrite_tuple overwrite_tuple
    overwrite_overruns big u16_n src =
        let c = capacity_lem in (ground (arith, found), omega (arith, length-take n new))
