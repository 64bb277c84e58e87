-- ===== src/Heap/Insert.antt =====
-- `heap_insert_tuple_ex`: when it succeeds, what it stores, and what it leaves.
use kdbs.Common.{
  ℕ, ◌+◌, ◌≤◌, ◌<◌, ◌≡◌, ap, ◌∙◌, ◌⊎◌, inl, inr, ◌≢◌, List, [], ◌∷◌, get_or, some, arith, ok, ltb,
  Bool-cases,
}
use kdbs.Common.Bytes.{Bytes}
use kdbs.Heap.Layout.{
  TupleHdr, tuple_hdr_size, next_page_offset, load_meta, load_slot, load_tuple_hdr,
}
use kdbs.Heap.Layout.Access.{SlotFits}
use kdbs.Heap.Inv.{
  IsValid, IsLive, Within, tuple_at, tuple_of, live_slot_congr, live_slot_ok, live_slot_err,
  live_slot_inv, live_slot_beyond,
}
use kdbs.Heap.Place.{
  HasRoom, new_upper_lem, new_meta_lem, load_slot-place_new, load_slot-place_old, load_bytes-place,
  load_tuple_hdr-place, load_tuple_hdr-place_new, load_payload-place_new,
}
use kdbs.Common.Fields.{read_struct_congr}
use kdbs.Heap.{is_dead, load_next, live_slot, new_slot, place_tuple}

module _ (p : Bytes) (t : TupleHdr) (bs : List ℕ) (h : HasRoom p t bs) where
  open h use {valid, fits, len, gap}

  abbrev placed : Bytes
  placed = place_tuple p (load_meta p) t bs

  abbrev count : ℕ
  count = (load_meta p).nr_slots

  newest : (i : ℕ) → i < count + 1 → (i < count) ⊎ (i ≡ count)
  newest i l = grind arith

  place_new-Within : Within placed count
  place_new-Within =
      let e = new_upper_lem p t bs h in
      let m = new_meta_lem p t bs h in
      let a = valid.tail in
      record {
        above = rw (load_slot-place_new p t bs h) (omega arith);
        below = rw (load_slot-place_new p t bs h) (omega arith);
        holds = rw (load_slot-place_new p t bs h, load_tuple_hdr-place_new p t bs h) (omega arith);
        hdr_fits = rw (load_slot-place_new p t bs h, load_tuple_hdr-place_new p t bs h) fits;
      }

  place_old-Within : (i : ℕ) → i < count → IsLive (load_slot placed i) → Within placed i
  place_old-Within i l live =
      let e = load_slot-place_old p t bs h i l in
      let w = valid.inside i l (rw e at live) in
      let m = new_meta_lem p t bs h in
      let a = w.above in
      record {
        above = rw e (omega arith);
        below = rw e w.below;
        holds = rw (e, load_tuple_hdr-place p t bs h (load_slot p i).offset w.above) w.holds;
        hdr_fits = rw (e, load_tuple_hdr-place p t bs h (load_slot p i).offset w.above) w.hdr_fits;
      }

  place-inside :
      (i : ℕ) → i < (load_meta placed).nr_slots → IsLive (load_slot placed i) → Within placed i
  place-inside i l live =
      let m = new_meta_lem p t bs h in
      elim (newest i (omega arith)) [
        | inl old ↦ place_old-Within i old live
        | inr e ↦ rw e place_new-Within
      ]

  place-SlotFits : (i : ℕ) → i < (load_meta placed).nr_slots → SlotFits (load_slot placed i)
  place-SlotFits i l =
      let m = new_meta_lem p t bs h in
      let e = new_upper_lem p t bs h in
      let a = valid.tail in
      elim (newest i (omega arith)) [
        | inl old ↦ rw (load_slot-place_old p t bs h i old) (valid.slot_fits i old)
        | inr new ↦ rw (new, load_slot-place_new p t bs h) (omega arith)
      ]

  place-apart :
      (i j : ℕ)
      → i < j
      → j < (load_meta placed).nr_slots
      → IsLive (load_slot placed i)
      → IsLive (load_slot placed j)
      → (load_slot placed j).offset + (load_slot placed j).length ≤ (load_slot placed i).offset
  place-apart i j l k u w =
      let m = new_meta_lem p t bs h in
      let e = new_upper_lem p t bs h in
      let d = load_slot-place_old p t bs h i (omega arith) in
      let u' = rw d at u in
      elim (newest j (omega arith)) [
        | inl old ↦
            let c = load_slot-place_old p t bs h j old in
            rw (c, d) (valid.apart i j l old u' (rw c at w))
        | inr new ↦
            let o = (valid.inside i (omega arith) u').above in
            rw (new, load_slot-place_new p t bs h, d) (omega arith)
      ]

  -- The invariant is kept.
  pub place-IsValid : IsValid placed
  place-IsValid =
      let m = new_meta_lem p t bs h in
      let a = valid.directory in
      let b = valid.tail in
      let c = gap in
      record {
        directory = omega arith;
        room = omega arith;
        tail = omega arith;
        spare = m.3;
        slot_fits = place-SlotFits;
        inside = place-inside;
        apart = place-apart;
      }

  place-live_new : live_slot placed count ≡ ok (new_slot (load_meta p) t)
  unfolding is_dead
  place-live_new =
      let m = new_meta_lem p t bs h in
      let e = load_slot-place_new p t bs h in
      let a = valid.tail in
      let c = gap in live_slot_ok placed count (omega arith) (rw e (ground arith)) ∙ ap ok e

  -- The new slot holds the new tuple.
  pub tuple_at-place_new : tuple_at placed count ≡ some (t, bs)
  unfolding tuple_at tuple_of
  tuple_at-place_new =
      rw (place-live_new, load_tuple_hdr-place_new p t bs h, load_payload-place_new p t bs h)

  place-live_old : (j : ℕ) → j ≢ count → live_slot placed j ≡ live_slot p j
  place-live_old j ne = elim (Bool-cases (ltb j count)) [
    | inl old ↦
        let m = new_meta_lem p t bs h in
        live_slot_congr placed p j (load_slot-place_old p t bs h j (ground arith)) (ground arith)
    | inr new ↦
        let m = new_meta_lem p t bs h in
        rw (live_slot_beyond placed j (ground arith), live_slot_beyond p j (ground arith))
  ]

  -- Every other slot stands for what it stood for.
  pub tuple_at-place_old : (j : ℕ) → j ≢ count → tuple_at placed j ≡ tuple_at p j
  unfolding tuple_at tuple_of
  tuple_at-place_old j ne = elim (live_slot_err p j) [
    | inl e ↦
        let i = live_slot_inv p j e in
        let w = valid.inside j i.0 i.1 in
        let a = w.above in
        rw (place-live_old j ne, e, load_tuple_hdr-place p t bs h (load_slot p j).offset w.above)
          (ap (λ l. some (load_tuple_hdr p (load_slot p j).offset, l))
            (load_bytes-place p t bs h ((load_slot p j).offset + tuple_hdr_size) _ (omega arith)))
    | inr e ↦ rw (place-live_old j ne, e)
  ]

  pub load_next-place : load_next placed ≡ load_next p
  unfolding load_next
  load_next-place =
      ap (λ vs. get_or vs 0 0)
        (read_struct_congr (8 ∷ []) placed p next_page_offset
          (load_bytes-place p t bs h next_page_offset 8 valid.tail))
