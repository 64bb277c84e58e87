-- ===== src/Heap/Tests.antt =====
-- Small heap pages: runs of the operations, and the theorems at concrete pages.
use kdbs.Common.{◌≡◌, ◌↔◌, refl, true, [], ◌∷◌, none, some, arith, ok}
use kdbs.Common.Bytes.{store, load}
use kdbs.Common.Fields.{read_struct, write_struct, encode_fields, decode_fields, le_bytes, le_value}
use kdbs.Page.{Frame, store_page_hdr}
use kdbs.Heap.Layout.{
  Tid, load_meta, store_meta, load_slot, store_slot, load_tuple_hdr, store_tuple_hdr, store_tuple,
}
use kdbs.Heap.Insertion.{Inserted, insert_stores, has_space-iff-insert}
use kdbs.Heap.Changes.{Replaced, delete_marks}
use kdbs.Heap.Retire.{retire_frees}
use kdbs.Heap.Link.{init-IsValid}
use kdbs.Heap.{
  live_slot, is_dead, is_heap_insert_possible, tuple_hdr, place_tuple, init_page_as, store_next,
  insert_tuple_ex, heap_init_page, heap_init_page_as, heap_insert_tuple, heap_insert_tuple_ex,
  heap_read_tuple, heap_delete_tuple, heap_retire_slot, heap_has_space, read_tuple,
}
use kdbs.Heap.Samples.{
  blank, fresh, row, row_hdr, filled, filled-IsValid, filled_row, stamps, fresh_room,
  filled_counted,
}

-- Two rows, read back.
run_two :
    heap_read_tuple
      (heap_insert_tuple
        (heap_insert_tuple (heap_init_page (some blank)) (some row) 3 5).0
        (some (9 ∷ []))
        1
        6).0
      1
      (some 1)
    ≡ ok (tuple_hdr 6 0 0 1, 9 ∷ [])
unfolding heap_read_tuple read_tuple live_slot is_dead heap_insert_tuple heap_insert_tuple_ex
    insert_tuple_ex is_heap_insert_possible place_tuple heap_init_page heap_init_page_as
    init_page_as store_next load_meta store_meta load_slot store_slot load_tuple_hdr store_tuple_hdr
    store_tuple store_page_hdr read_struct write_struct encode_fields decode_fields le_bytes
    le_value store load
run_two = refl

insert_stores_example :
    (g : Frame) × (heap_insert_tuple_ex (some fresh) (some row) 3 5 0 0
      ≡ (some g, ok (record { page_id = fresh.page_id; slot = (load_meta fresh.bytes).nr_slots })))
    × Inserted fresh.bytes g.bytes (load_meta fresh.bytes).nr_slots row_hdr row
insert_stores_example =
    insert_stores fresh row 3 5 0 0 (init-IsValid blank 4) (omega arith) stamps fresh_room

has_space-iff-insert_example :
    (heap_has_space (some fresh) 3 ≡ true)
    ↔ ((tid : Tid) × ((heap_insert_tuple_ex (some fresh) (some row) 3 5 0 0).1 ≡ ok tid))
has_space-iff-insert_example =
    has_space-iff-insert fresh row 3 5 0 0 (init-IsValid blank 4) (omega arith)

delete_marks_example :
    (g : Frame) × (heap_delete_tuple (some filled) 0 9 ≡ (some g, ok tt))
    × Replaced filled.bytes g.bytes 0 (some (record row_hdr { xmax = 9 }, row))
delete_marks_example = delete_marks filled filled-IsValid 0 row_hdr row filled_row 9 (omega arith)

retire_frees_example :
    (g : Frame) × (heap_retire_slot (some filled) 0 ≡ (some g, ok tt))
    × Replaced filled.bytes g.bytes 0 none
retire_frees_example = retire_frees filled 0 filled-IsValid filled_counted
