-- ===== src/Heap/Inv.antt =====
-- The representation invariant of a heap page, and the page seen as numbered tuples.
use kdbs.Common.{
  ℕ, ◌+◌, ◌*◌, ◌≤◌, ◌<◌, ◌≡◌, ◌⊎◌, false, List, Option, none, some, arith, Result, ok, err, leb,
  enoent,
}
use kdbs.Common.Bytes.{Bytes, load}
use kdbs.Heap.Layout.{
  Slot, TupleHdr, area_offset, slot_size, tuple_hdr_size, next_page_offset, load_meta, load_slot,
  load_tuple_hdr,
}
use kdbs.Heap.Layout.Access.{SlotFits, TupleHdrFits}
use kdbs.Heap.{is_dead, live_slot}

abbrev pub IsLive : Slot → Type 0
IsLive s = is_dead s ≡ false

-- A live tuple lies in the tuple area, and its payload within the space that its slot reserves.
pub record Within (p : Bytes) (i : ℕ) : Type 0 where
  pub above : (load_meta p).upper ≤ (load_slot p i).offset
  pub below : (load_slot p i).offset + (load_slot p i).length ≤ next_page_offset
  pub holds :
      tuple_hdr_size + (load_tuple_hdr p (load_slot p i).offset).data_len ≤ (load_slot p i).length
  pub hdr_fits : TupleHdrFits (load_tuple_hdr p (load_slot p i).offset)

pub record IsValid (p : Bytes) : Type 0 where
  pub directory : (load_meta p).lower ≡ area_offset + (load_meta p).nr_slots * slot_size
  pub room : (load_meta p).lower ≤ (load_meta p).upper
  pub tail : (load_meta p).upper ≤ next_page_offset
  pub spare : (load_meta p).reserved ≡ 0
  pub slot_fits : (i : ℕ) → i < (load_meta p).nr_slots → SlotFits (load_slot p i)
  pub inside : (i : ℕ) → i < (load_meta p).nr_slots → IsLive (load_slot p i) → Within p i
  -- A later tuple lies below an earlier one, so no two share a byte.
  pub apart :
      (i j : ℕ)
      → i < j
      → j < (load_meta p).nr_slots
      → IsLive (load_slot p i)
      → IsLive (load_slot p j)
      → (load_slot p j).offset + (load_slot p j).length ≤ (load_slot p i).offset

-- What a slot number stands for: nothing, or a header with a payload.
unfoldable pub tuple_of : Bytes → Result Slot → Option (TupleHdr × List ℕ)
tuple_of p (err e) = none
tuple_of p (ok s) =
    let t = load_tuple_hdr p s.offset in some (t, load p (s.offset + tuple_hdr_size) t.data_len)

unfoldable pub tuple_at : Bytes → ℕ → Option (TupleHdr × List ℕ)
tuple_at p i = tuple_of p (live_slot p i)

-- The three outcomes of looking a slot up.
pub live_slot_ok :
    (p : Bytes) (i : ℕ)
    → i < (load_meta p).nr_slots
    → IsLive (load_slot p i)
    → live_slot p i ≡ ok (load_slot p i)
unfolding live_slot
live_slot_ok p i h l = ground arith

pub live_slot_inv :
    (p : Bytes) (i : ℕ) {s : Slot}
    → live_slot p i ≡ ok s
    → (i < (load_meta p).nr_slots) × IsLive (load_slot p i) × (s ≡ load_slot p i)
unfolding live_slot
live_slot_inv p i h = ground arith

pub live_slot_err :
    (p : Bytes) (i : ℕ) → (live_slot p i ≡ ok (load_slot p i)) ⊎ (live_slot p i ≡ err enoent)
unfolding live_slot
live_slot_err p i = ground arith

-- Pages that agree on a slot agree on whether it is live.
pub live_slot_congr :
    (p q : Bytes) (i : ℕ)
    → load_slot p i ≡ load_slot q i
    → leb (load_meta p).nr_slots i ≡ leb (load_meta q).nr_slots i
    → live_slot p i ≡ live_slot q i
unfolding live_slot
live_slot_congr p q i e h = ground arith

pub live_slot_beyond : (p : Bytes) (i : ℕ) → (load_meta p).nr_slots ≤ i → live_slot p i ≡ err enoent
unfolding live_slot
live_slot_beyond p i h = ground arith
