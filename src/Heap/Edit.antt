-- ===== src/Heap/Edit.antt =====
-- A write inside the space that one live slot reserves: the other tuples, the directory and the
-- link stay, and the page stays valid.
use kdbs.Common.{
  ℕ, ◌+◌, ◌≤◌, ◌<◌, ◌≡◌, ap, ◌⊎◌, inl, inr, ◌≢◌, [], ◌∷◌, get_or, some, arith, ltb, Bool-cases,
}
use native.Mathlib.Decide.{ℕ_discrete}
use kdbs.Common.Bytes.{Bytes, load}
use kdbs.Common.Fields.{read_struct_congr}
use kdbs.Heap.Layout.{tuple_hdr_size, next_page_offset, load_meta, load_slot, load_tuple_hdr}
use kdbs.Heap.Layout.Access.{TupleHdrFits}
use kdbs.Heap.Inv.{
  IsValid, IsLive, Within, tuple_at, tuple_of, live_slot_congr, live_slot_err, live_slot_inv,
  live_slot_ok, live_slot_beyond,
}
use kdbs.Heap.{live_slot, load_next}

-- The page `q` comes from `p` by a write within the extent of slot `i`.
pub record Edit (p q : Bytes) (i : ℕ) : Type 0 where
  pub valid : IsValid p
  pub counted : i < (load_meta p).nr_slots
  pub live : IsLive (load_slot p i)
  pub meta : load_meta q ≡ load_meta p
  pub slots : (j : ℕ) → j < (load_meta p).nr_slots → load_slot q j ≡ load_slot p j
  pub bytes :
      (o n : ℕ)
      → (o + n ≤ (load_slot p i).offset) ⊎ ((load_slot p i).offset + (load_slot p i).length ≤ o)
      → load q o n ≡ load p o n
  pub hdrs :
      (o : ℕ)
      → (o + 28 ≤ (load_slot p i).offset) ⊎ ((load_slot p i).offset + (load_slot p i).length ≤ o)
      → load_tuple_hdr q o ≡ load_tuple_hdr p o
  pub holds :
      tuple_hdr_size + (load_tuple_hdr q (load_slot p i).offset).data_len ≤ (load_slot p i).length
  pub hdr_fits : TupleHdrFits (load_tuple_hdr q (load_slot p i).offset)

module _ (p q : Bytes) (i : ℕ) (h : Edit p q i) where
  open h use {valid, counted, live, meta, slots, bytes, hdrs, holds, hdr_fits}

  -- The extent of another live slot is on one side.
  beside :
      (j : ℕ)
      → j < (load_meta p).nr_slots
      → IsLive (load_slot p j)
      → j ≢ i
      → ((load_slot p j).offset + (load_slot p j).length ≤ (load_slot p i).offset)
        ⊎ ((load_slot p i).offset + (load_slot p i).length ≤ (load_slot p j).offset)
  beside j l u ne = elim (Bool-cases (ltb j i)) [
    | inl less ↦ inr (valid.apart j i (ground arith) counted u live)
    | inr more ↦ inl (valid.apart i j (ground arith) l live u)
  ]

  hdr-beside :
      (j : ℕ)
      → j < (load_meta p).nr_slots
      → IsLive (load_slot p j)
      → j ≢ i
      → load_tuple_hdr q (load_slot p j).offset ≡ load_tuple_hdr p (load_slot p j).offset
  hdr-beside j l u ne =
      let w = (valid.inside j l u).holds in
      let b = beside j l u ne in hdrs (load_slot p j).offset (omega arith)

  -- The header of any live slot's tuple after the edit.
  edit-hdr :
      (j : ℕ)
      → j < (load_meta p).nr_slots
      → IsLive (load_slot p j)
      → (tuple_hdr_size + (load_tuple_hdr q (load_slot p j).offset).data_len
          ≤ (load_slot p j).length)
        × TupleHdrFits (load_tuple_hdr q (load_slot p j).offset)
  edit-hdr j l u = elim (ℕ_discrete j i) [
    | yes e ↦ rw e (holds, hdr_fits)
    | no ne ↦ let w = valid.inside j l u in rw (hdr-beside j l u ne) (w.holds, w.hdr_fits)
  ]

  edit-Within : (j : ℕ) → j < (load_meta q).nr_slots → IsLive (load_slot q j) → Within q j
  edit-Within j k u =
      let l = rw meta at k in
      let e = slots j l in
      let u' = rw e at u in
      let w = valid.inside j l u' in
      let t = edit-hdr j l u' in
      record {
        above = rw (meta, e) w.above;
        below = rw e w.below;
        holds = rw e t.0;
        hdr_fits = rw e t.1;
      }

  pub edit-IsValid : IsValid q
  edit-IsValid = record {
    directory = rw meta valid.directory;
    room = rw meta valid.room;
    tail = rw meta valid.tail;
    spare = rw meta valid.spare;
    slot_fits = λ j k. let l = rw meta at k in rw (slots j l) (valid.slot_fits j l);
    inside = edit-Within;
    apart = λ a b l k u w.
        let k' = rw meta at k in
        let ea = slots a (omega arith) in
        let eb = slots b k' in rw (ea, eb) (valid.apart a b l k' (rw ea at u) (rw eb at w));
  }

  pub live_slot-edit : (j : ℕ) → live_slot q j ≡ live_slot p j
  live_slot-edit j = elim (Bool-cases (ltb j (load_meta p).nr_slots)) [
    | inl l ↦ live_slot_congr q p j (slots j (ground arith)) (rw meta)
    | inr l ↦
        rw (live_slot_beyond p j (ground arith)) (live_slot_beyond q j (rw meta (ground arith)))
  ]

  pub tuple_at-edit_ne : (j : ℕ) → j ≢ i → tuple_at q j ≡ tuple_at p j
  unfolding tuple_at tuple_of
  tuple_at-edit_ne j ne = elim (live_slot_err p j) [
    | inl e ↦
        let v = live_slot_inv p j e in
        let w = (valid.inside j v.0 v.1).holds in
        let b = beside j v.0 v.1 ne in
        rw (live_slot-edit j, e, hdr-beside j v.0 v.1 ne)
          (ap (λ l. some (load_tuple_hdr p (load_slot p j).offset, l))
            (bytes ((load_slot p j).offset + tuple_hdr_size) _ (omega arith)))
    | inr e ↦ rw (live_slot-edit j, e)
  ]

  -- The edited slot stands for what now lies there.
  pub tuple_at-edit_self :
      tuple_at q i
      ≡ some (
        load_tuple_hdr q (load_slot p i).offset,
        load q
            ((load_slot p i).offset + tuple_hdr_size)
            (load_tuple_hdr q (load_slot p i).offset).data_len,
      )
  unfolding tuple_at tuple_of
  tuple_at-edit_self = rw (live_slot-edit i, live_slot_ok p i counted live)

  pub load_next-edit : load_next q ≡ load_next p
  unfolding load_next
  load_next-edit =
      let b = (valid.inside i counted live).below in
      ap (λ vs. get_or vs 0 0)
        (read_struct_congr (8 ∷ []) q p next_page_offset (bytes next_page_offset 8 (inr b)))
