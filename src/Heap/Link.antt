-- ===== src/Heap/Link.antt =====
-- A fresh heap page, and the link to the next page of the chain.
use kdbs.Common.{
  ℕ, ◌+◌, ◌^◌, ◌≤◌, ◌<◌, ◌≡◌, refl, ap, ◌∙◌, inl, inr, [], ◌∷◌, get_or, none, some, arith, ok,
  set_bit, Bool-cases, ltb,
}
use kdbs.Common.Bytes.{Bytes, load}
use kdbs.Common.Fields.{load-write_apart, read-write_struct}
use kdbs.Page.{Frame, PageHdr, flag_init, set_page_dirty, store_page_hdr}
use kdbs.Heap.Layout.{
  tuple_hdr_size, slot_ptr, next_page_offset, load_meta, store_meta, load_slot, load_tuple_hdr,
}
use kdbs.Heap.Layout.Access.{
  load-store_meta, load_meta_congr, load_slot_congr, load_tuple_hdr_congr,
}
use kdbs.Heap.Inv.{
  IsValid, IsLive, Within, tuple_at, tuple_of, live_slot_congr, live_slot_err, live_slot_inv,
  live_slot_beyond,
}
use kdbs.Heap.{
  live_slot, empty_meta, load_next, store_next, init_page_as, heap_init_page_as,
  heap_set_next_page_id, heap_get_next_page_id,
}

load_next-store_next : (p : Bytes) (id : ℕ) → id < 2 ^ 64 → load_next (store_next p id) ≡ id
unfolding load_next store_next
load_next-store_next p id h =
    ap (λ vs. get_or vs 0 0)
      (read-write_struct (8 ∷ []) p next_page_offset (id ∷ []) refl (omega arith, tt))

-- The link lies behind everything else.
load-store_next :
    (p : Bytes) (id o n : ℕ) → o + n ≤ next_page_offset → load (store_next p id) o n ≡ load p o n
unfolding store_next
load-store_next p id o n h = load-write_apart (8 ∷ []) p next_page_offset (id ∷ []) o n refl (inl h)

module _ (p : Bytes) (id : ℕ) where
  abbrev linked : Bytes
  linked = store_next p id

  load_meta-store_next : load_meta linked ≡ load_meta p
  load_meta-store_next = load_meta_congr linked p (load-store_next p id 41 8 (omega arith))

  module _ (v : IsValid p) where
    load_slot-store_next : (j : ℕ) → j < (load_meta p).nr_slots → load_slot linked j ≡ load_slot p j
    load_slot-store_next j l =
        let a = v.directory in
        let b = v.room in
        let c = v.tail in
        load_slot_congr linked p j (load-store_next p id (slot_ptr j) 5 (omega arith))

    hdr-store_next :
        (j : ℕ)
        → j < (load_meta p).nr_slots
        → IsLive (load_slot p j)
        → load_tuple_hdr linked (load_slot p j).offset ≡ load_tuple_hdr p (load_slot p j).offset
    hdr-store_next j l u =
        let w = v.inside j l u in
        let a = w.holds in
        let b = w.below in
        load_tuple_hdr_congr linked p (load_slot p j).offset
          (load-store_next p id (load_slot p j).offset 28 (omega arith))

    linked-Within :
        (j : ℕ) → j < (load_meta linked).nr_slots → IsLive (load_slot linked j) → Within linked j
    linked-Within j k u =
        let l = rw load_meta-store_next at k in
        let e = load_slot-store_next j l in
        let u' = rw e at u in
        let w = v.inside j l u' in
        let h = hdr-store_next j l u' in
        record {
          above = rw (load_meta-store_next, e) w.above;
          below = rw e w.below;
          holds = rw (e, h) w.holds;
          hdr_fits = rw (e, h) w.hdr_fits;
        }

    linked-IsValid : IsValid linked
    linked-IsValid = record {
      directory = rw load_meta-store_next v.directory;
      room = rw load_meta-store_next v.room;
      tail = rw load_meta-store_next v.tail;
      spare = rw load_meta-store_next v.spare;
      slot_fits = λ j k.
          let l = rw load_meta-store_next at k in rw (load_slot-store_next j l) (v.slot_fits j l);
      inside = linked-Within;
      apart = λ a b l k u w.
          let k' = rw load_meta-store_next at k in
          let ea = load_slot-store_next a (omega arith) in
          let eb = load_slot-store_next b k' in
          rw (ea, eb) (v.apart a b l k' (rw ea at u) (rw eb at w));
    }

    live_slot-store_next : (j : ℕ) → live_slot linked j ≡ live_slot p j
    live_slot-store_next j = elim (Bool-cases (ltb j (load_meta p).nr_slots)) [
      | inl l ↦
          live_slot_congr linked p j (load_slot-store_next j (ground arith))
            (rw load_meta-store_next)
      | inr l ↦
          rw (live_slot_beyond p j (ground arith))
            (live_slot_beyond linked j (rw load_meta-store_next (ground arith)))
    ]

    tuple_at-store_next : (j : ℕ) → tuple_at linked j ≡ tuple_at p j
    unfolding tuple_at tuple_of
    tuple_at-store_next j = elim (live_slot_err p j) [
      | inl e ↦
          let l = live_slot_inv p j e in
          let w = v.inside j l.0 l.1 in
          let a = w.holds in
          let b = w.below in
          let o = (load_slot p j).offset in
          rw (live_slot-store_next j, e, hdr-store_next j l.0 l.1)
            (ap (λ l. some (load_tuple_hdr p o, l))
              (load-store_next p id (o + tuple_hdr_size) _ (omega arith)))
      | inr e ↦ rw (live_slot-store_next j, e)
    ]

-- Setting the next-page link of a valid page to a u64 succeeds: the link reads back, the page
-- stays valid, and every slot stands for what it stood for.
set_next_links :
    (f : Frame) (id : ℕ)
    → IsValid f.bytes
    → id < 2 ^ 64
    → (g : Frame) × (heap_set_next_page_id (some f) id ≡ (some g, ok tt))
      × (heap_get_next_page_id (some g) ≡ id)
      × IsValid g.bytes
      × ((j : ℕ) → tuple_at g.bytes j ≡ tuple_at f.bytes j)
unfolding heap_set_next_page_id heap_get_next_page_id
set_next_links f id v h = (
  set_page_dirty (record f { bytes = linked f.bytes id }),
  refl,
  load_next-store_next f.bytes id h,
  linked-IsValid f.bytes id v,
  tuple_at-store_next f.bytes id v,
)

empty-IsValid : (p : Bytes) → load_meta p ≡ empty_meta → IsValid p
empty-IsValid p e = record {
  directory = rw e (omega arith);
  room = rw e (omega arith);
  tail = rw e (omega arith);
  spare = rw e refl;
  slot_fits = λ i h. absurd (none_below i (rw e at h));
  inside = λ i h u. absurd (none_below i (rw e at h));
  apart = λ i j l h u w. absurd (none_below j (rw e at h));
}
  where
    none_below : (i : ℕ) → i < 0 → ⊥
    none_below i h = omega arith

-- The directory of an initialised page is empty.
pub load_meta-init : (f : Frame) (type : ℕ) → load_meta (init_page_as f type).bytes ≡ empty_meta
unfolding init_page_as
load_meta-init f type =
    let h : PageHdr = record f.hdr { page_type = type; flags = set_bit f.hdr.flags flag_init } in
    let base : Bytes = store_meta (store_page_hdr f.bytes h) empty_meta in
    load_meta-store_next base 0
    ∙ load-store_meta (store_page_hdr f.bytes h) empty_meta (omega arith)

pub init-IsValid : (f : Frame) (type : ℕ) → IsValid (init_page_as f type).bytes
init-IsValid f type = empty-IsValid (init_page_as f type).bytes (load_meta-init f type)

pub tuple_at-init : (f : Frame) (type i : ℕ) → tuple_at (init_page_as f type).bytes i ≡ none
unfolding tuple_at tuple_of
tuple_at-init f type i =
    rw (live_slot_beyond (init_page_as f type).bytes i (rw (load_meta-init f type) (omega arith)))

-- Initialising a page, whatever its bytes were, makes it a valid empty page of the given type
-- with no next page: no slot number stands for a tuple.
init_is_empty :
    (f : Frame) (type : ℕ)
    → (g : Frame) × (heap_init_page_as (some f) type ≡ some g)
      × IsValid g.bytes
      × ((load_meta g.bytes).nr_slots ≡ 0)
      × ((i : ℕ) → tuple_at g.bytes i ≡ none)
      × (heap_get_next_page_id (some g) ≡ 0)
      × (g.hdr.page_type ≡ type)
unfolding heap_init_page_as heap_get_next_page_id init_page_as
init_is_empty f type =
    let h : PageHdr = record f.hdr { page_type = type; flags = set_bit f.hdr.flags flag_init } in
    let base : Bytes = store_meta (store_page_hdr f.bytes h) empty_meta in
    let e = load_meta-init f type in
    (
      init_page_as f type,
      refl,
      init-IsValid f type,
      rw e refl,
      tuple_at-init f type,
      load_next-store_next base 0 (omega arith),
      refl,
    )
