-- ===== src/Heap/Samples.antt =====
-- Small heap pages for tests, with the facts about them that the theorems ask for.
use kdbs.Common.{
  ℕ, ◌+◌, ◌≤◌, ◌<◌, ◌≡◌, refl, List, [], ◌∷◌, none, some, arith, ok, replicate, length,
  length-replicate, subst, ◌∙◌, ap, sym,
}
use kdbs.Page.{PageHdr, Frame}
use kdbs.Heap.Layout.{TupleHdr, load_meta, load_slot}
use kdbs.Heap.Inv.{IsValid, tuple_at}
use kdbs.Heap.Place.{HasRoom, new_meta_lem, load_slot-place_new}
use kdbs.Heap.Insert.{place-IsValid, tuple_at-place_new}
use kdbs.Heap.Insertion.{Stamps}
use kdbs.Heap.Changes.{capacity_lem}
use kdbs.Heap.Link.{load_meta-init, init-IsValid, tuple_at-init}
use kdbs.Heap.{new_slot, tuple_hdr, place_tuple, init_page_as, heap_slot_capacity}

abbrev pub no_hdr : PageHdr
no_hdr = record { page_type = 0; crc = 0; flags = 0; reserved1 = 0 }

abbrev pub blank : Frame
blank = record { page_id = 7; hdr = no_hdr; bytes = λ _. 0 }

abbrev pub fresh : Frame
fresh = init_page_as blank 4

abbrev pub row : List ℕ
row = 1 ∷ 2 ∷ 3 ∷ []

abbrev pub row_hdr : TupleHdr
row_hdr = tuple_hdr 5 0 0 3

pub fresh-HasRoom : HasRoom fresh.bytes row_hdr row
fresh-HasRoom = record {
  valid = init-IsValid blank 4;
  fits = omega arith;
  len = refl;
  gap = rw (load_meta-init blank 4) (omega arith);
}

-- A page with one row in slot 0.
abbrev pub filled : Frame
filled = record fresh { bytes = place_tuple fresh.bytes (load_meta fresh.bytes) row_hdr row }

pub filled-IsValid : IsValid filled.bytes
filled-IsValid = place-IsValid fresh.bytes row_hdr row fresh-HasRoom

pub filled_row : tuple_at filled.bytes 0 ≡ some (row_hdr, row)
filled_row =
    let z : (load_meta fresh.bytes).nr_slots ≡ 0 = rw (load_meta-init blank 4) in
    subst (λ k. tuple_at filled.bytes k ≡ some (row_hdr, row)) z
      (tuple_at-place_new fresh.bytes row_hdr row fresh-HasRoom)

-- Zero bytes, as many as asked for.
pub zeros : ℕ → List ℕ
zeros n = replicate n 0

pub length-zeros : (n : ℕ) → length (zeros n) ≡ n
unfolding zeros
length-zeros n = length-replicate n 0

pub stamps : Stamps 5 0 0
stamps = omega arith

pub fresh_room : 36 + (load_meta fresh.bytes).lower ≤ (load_meta fresh.bytes).upper
fresh_room = rw (load_meta-init blank 4) (omega arith)

pub fresh_full : (load_meta fresh.bytes).upper < 33 + 8160 + (load_meta fresh.bytes).lower
fresh_full = rw (load_meta-init blank 4) (omega arith)

pub filled_counted : 0 < (load_meta filled.bytes).nr_slots
filled_counted = omega (arith, (new_meta_lem fresh.bytes row_hdr row fresh-HasRoom).0)

pub fresh_empty : (i : ℕ) → tuple_at fresh.bytes i ≡ none
fresh_empty = tuple_at-init blank 4

pub filled_slot : load_slot filled.bytes 0 ≡ record { offset = 8153; length = 31; flags = 0 }
filled_slot =
    let m = load_meta-init blank 4 in
    let z : (load_meta fresh.bytes).nr_slots ≡ 0 = rw m in
    let u : (load_meta fresh.bytes).upper ≡ 8184 = rw m in
    subst (λ k. load_slot filled.bytes k ≡ record { offset = 8153; length = 31; flags = 0 }) z
      (load_slot-place_new fresh.bytes row_hdr row fresh-HasRoom
        ∙ subst
            (λ k.
              new_slot (record { nr_slots = 0; lower = 0; upper = k; reserved = 0 }) row_hdr
              ≡ record { offset = 8153; length = 31; flags = 0 })
            (sym u) refl)

pub filled_slot_length : (load_slot filled.bytes 0).length ≡ 31
filled_slot_length = ap (λ s. s.length) filled_slot

pub filled_capacity : heap_slot_capacity (some filled) 0 ≡ ok 3
filled_capacity =
    let e = (capacity_lem filled filled-IsValid 0 row_hdr row filled_row).0 in
    rw filled_slot_length at e

pub filled_lower : (load_meta filled.bytes).lower ≡ 54
filled_lower =
    let m = load_meta-init blank 4 in
    let z : (load_meta fresh.bytes).lower ≡ 49 = rw m in
    omega (arith, (new_meta_lem fresh.bytes row_hdr row fresh-HasRoom).1)

pub filled_upper : (load_meta filled.bytes).upper ≡ 8153
filled_upper =
    let m = load_meta-init blank 4 in
    let z : (load_meta fresh.bytes).upper ≡ 8184 = rw m in
    omega (arith, (new_meta_lem fresh.bytes row_hdr row fresh-HasRoom).2)
