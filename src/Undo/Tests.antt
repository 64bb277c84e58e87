-- ===== src/Undo/Tests.antt =====
-- Updates of a small page: the theorems at concrete frames.
use kdbs.Common.{ℕ, ◌≤◌, List, [], ◌∷◌, some, arith, ok, length}
use kdbs.Page.{Frame}
use kdbs.Heap.Layout.{Tid, load_meta}
use kdbs.Heap.Changes.{Replaced}
use kdbs.Heap.Link.{load_meta-init, init-IsValid}
use kdbs.Heap.Samples.{
  blank, filled, filled-IsValid, filled_row, filled_capacity, row, row_hdr, filled_lower,
  filled_upper, length-zeros, zeros,
}
use kdbs.Heap.{init_page_as}
use kdbs.Undo.{UndoEntry}
use kdbs.Undo.Entry.{EntryFits}
use kdbs.Undo.Update.{Ready, Updates, update_in_place, old_entry, new_hdr}
use kdbs.Undo.Relocate.{Moved, update_moves}

-- An empty undo page.
abbrev undo_page : Frame
undo_page = init_page_as (record blank { page_id = 8 }) 5

abbrev cell : Tid
cell = record { page_id = 7; slot = 0 }

-- The tuple that `filled` holds, as an undo entry.
abbrev sample_entry : UndoEntry
sample_entry = old_entry 100 cell row_hdr row 9

sample_entry-EntryFits : EntryFits sample_entry
sample_entry-EntryFits = omega (arith, length-zeros 253)

ready : (new : List ℕ) (n : ℕ) → n ≤ length new → Ready filled undo_page 0 row_hdr row new n 3 9 100
unfolding init_page_as
ready new n h = record {
  target_valid = filled-IsValid;
  undo_valid = init-IsValid (record blank { page_id = 8 }) 5;
  has = filled_row;
  small = omega arith;
  capacity = filled_capacity;
  undo_room = rw (load_meta-init (record blank { page_id = 8 }) 5) (omega arith);
  source = h;
  xid_fits = omega arith;
  owner_fits = omega arith;
  target_id_fits = omega arith;
  undo_id_fits = omega arith;
}

abbrev short : List ℕ
short = 4 ∷ 5 ∷ []

abbrev long : List ℕ
long = 4 ∷ 5 ∷ 6 ∷ 7 ∷ []

short-Ready : Ready filled undo_page 0 row_hdr row short 2 3 9 100
short-Ready = ready short 2 (omega arith)

long-Ready : Ready filled undo_page 0 row_hdr row long 4 3 9 100
long-Ready = ready long 4 (omega arith)

huge-Ready : Ready filled undo_page 0 row_hdr row (zeros 8160) 8160 3 9 100
huge-Ready = ready (zeros 8160) 8160 (omega (arith, length-zeros 8160))

update_in_place_example :
    Updates filled undo_page 0 row_hdr row short 2 3 9 100
      (ok (record { page_id = filled.page_id; slot = 0 }))
      (λ g.
        Replaced filled.bytes g.bytes 0
          (some (new_hdr filled undo_page 0 row_hdr row short 2 3 9 100 short-Ready, short)))
update_in_place_example =
    update_in_place filled undo_page 0 row_hdr row short 2 3 9 100 short-Ready (omega arith)

update_moves_example :
    Updates filled undo_page 0 row_hdr row long 4 3 9 100
      (ok (record { page_id = filled.page_id; slot = (load_meta filled.bytes).nr_slots }))
      (λ g.
        Moved filled.bytes g.bytes 0
          (new_hdr filled undo_page 0 row_hdr row long 4 3 9 100 long-Ready)
          long)
update_moves_example =
    update_moves filled undo_page 0 row_hdr row long 4 3 9 100 long-Ready (omega arith)
      (rw (filled_lower, filled_upper) (omega arith))
