-- ===== src/Heap/Retire.antt =====
-- `heap_retire_slot`: the slot is dead from then on, and nothing else changes.
use kdbs.Common.{
  ℕ, ◌+◌, ◌*◌, ◌≤◌, ◌<◌, ◌≡◌, sym, ap, inl, inr, ◌≢◌, true, [], ◌∷◌, get_or, none, some, arith, ok,
  set_bit,
}
use kdbs.Common.Bytes.{Bytes}
use kdbs.Common.Fields.{read_struct_congr}
use native.Mathlib.Decide.{ℕ_discrete}
use kdbs.Page.{Frame, set_page_dirty}
use kdbs.Heap.Layout.{
  Slot, tuple_hdr_size, next_page_offset, load_meta, load_slot, store_slot, load_tuple_hdr,
}
use kdbs.Heap.Layout.Access.{
  SlotFits, load-store_slot, load_slot-store_slot_ne, load_meta-store_slot,
  load_tuple_hdr-store_slot, load_bytes-store_slot,
}
use kdbs.Heap.Inv.{
  IsValid, IsLive, Within, tuple_at, tuple_of, live_slot_congr, live_slot_err, live_slot_inv,
}
use kdbs.Heap.Changes.{Replaced}
use kdbs.Heap.{is_dead, live_slot, load_next, retire_slot, heap_retire_slot}

module _ (p : Bytes) (v : IsValid p) (i : ℕ) (counted : i < (load_meta p).nr_slots) where
  abbrev dead : Slot
  dead = record (load_slot p i) { length = 0; flags = set_bit (load_slot p i).flags 0 }

  abbrev retired : Bytes
  retired = store_slot p i dead

  dead_fits : SlotFits dead
  dead_fits = let a = v.slot_fits i counted in ground arith

  load_slot-retired : load_slot retired i ≡ dead
  load_slot-retired = load-store_slot p i dead dead_fits

  retired-dead : is_dead (load_slot retired i) ≡ true
  unfolding is_dead
  retired-dead = rw load_slot-retired (ground arith)

  load_slot-other : (j : ℕ) → j ≢ i → load_slot retired j ≡ load_slot p j
  load_slot-other j ne = load_slot-store_slot_ne p i j dead (λ e. ne (sym e))

  meta-retired : load_meta retired ≡ load_meta p
  meta-retired = load_meta-store_slot p i dead

  -- The directory ends below any tuple.
  beyond : 49 + i * 5 + 5 ≤ (load_meta p).upper
  beyond = let a = v.directory in let b = v.room in omega arith

  -- A slot that is live afterwards is another one, and was live before.
  live-other : (j : ℕ) → IsLive (load_slot retired j) → j ≢ i
  live-other j u e = cc (retired-dead, rw e at u)

  retired-Within :
      (j : ℕ) → j < (load_meta retired).nr_slots → IsLive (load_slot retired j) → Within retired j
  retired-Within j k u =
      let e = load_slot-other j (live-other j u) in
      let w = v.inside j (rw meta-retired at k) (rw e at u) in
      let a = w.above in
      let b = beyond in
      let h = load_tuple_hdr-store_slot p (load_slot p j).offset i dead (omega arith) in
      record {
        above = rw (meta-retired, e) w.above;
        below = rw e w.below;
        holds = rw (e, h) w.holds;
        hdr_fits = rw (e, h) w.hdr_fits;
      }

  retired-SlotFits : (j : ℕ) → j < (load_meta retired).nr_slots → SlotFits (load_slot retired j)
  retired-SlotFits j k = elim (ℕ_discrete j i) [
    | yes e ↦ rw (e, load_slot-retired) dead_fits
    | no ne ↦ rw (load_slot-other j ne) (v.slot_fits j (rw meta-retired at k))
  ]

  retired-IsValid : IsValid retired
  retired-IsValid = record {
    directory = rw meta-retired v.directory;
    room = rw meta-retired v.room;
    tail = rw meta-retired v.tail;
    spare = rw meta-retired v.spare;
    slot_fits = retired-SlotFits;
    inside = retired-Within;
    apart = λ a b l k u w.
        let ea = load_slot-other a (live-other a u) in
        let eb = load_slot-other b (live-other b w) in
        rw (ea, eb) (v.apart a b l (rw meta-retired at k) (rw ea at u) (rw eb at w));
  }

  live_slot-retired : (j : ℕ) → j ≢ i → live_slot retired j ≡ live_slot p j
  live_slot-retired j ne = live_slot_congr retired p j (load_slot-other j ne) (rw meta-retired)

  tuple_at-retired_ne : (j : ℕ) → j ≢ i → tuple_at retired j ≡ tuple_at p j
  unfolding tuple_at tuple_of
  tuple_at-retired_ne j ne = elim (live_slot_err p j) [
    | inl e ↦
        let l = live_slot_inv p j e in
        let w = (v.inside j l.0 l.1).above in
        let b = beyond in
        let o = (load_slot p j).offset in
        rw (live_slot-retired j ne, e, load_tuple_hdr-store_slot p o i dead (omega arith))
          (ap (λ l. some (load_tuple_hdr p o, l))
            (load_bytes-store_slot p (o + tuple_hdr_size) _ i dead (omega arith)))
    | inr e ↦ rw (live_slot-retired j ne, e)
  ]

  tuple_at-retired : tuple_at retired i ≡ none
  unfolding tuple_at tuple_of live_slot
  tuple_at-retired = ground (arith, retired-dead)

  load_next-retired : load_next retired ≡ load_next p
  unfolding load_next
  load_next-retired =
      let a = v.tail in
      let b = beyond in
      ap (λ vs. get_or vs 0 0)
        (read_struct_congr (8 ∷ []) retired p next_page_offset
          (load_bytes-store_slot p next_page_offset 8 i dead (omega arith)))

-- Retiring any slot in range of a valid page succeeds: the slot stands for no tuple afterwards,
-- and the invariant, every other tuple, the slot count and the link are kept.
pub retire_frees :
    (f : Frame) (i : ℕ)
    → IsValid f.bytes
    → i < (load_meta f.bytes).nr_slots
    → (g : Frame) × (heap_retire_slot (some f) i ≡ (some g, ok tt))
      × Replaced f.bytes g.bytes i none
unfolding heap_retire_slot retire_slot
retire_frees f i v counted = (
  set_page_dirty (record f { bytes = retired f.bytes v i counted }),
  ground arith,
  record {
    valid = retired-IsValid f.bytes v i counted;
    meta = meta-retired f.bytes v i counted;
    new = tuple_at-retired f.bytes v i counted;
    others = tuple_at-retired_ne f.bytes v i counted;
    link = load_next-retired f.bytes v i counted;
  },
)
