-- ===== src/Heap/Layout.antt =====
-- The structs inside a heap page, include/linux/kds_heap.h, and their places.
pub mod Access
pub mod Tuples
use kdbs.Common.{ℕ, ◌+◌, ◌*◌, List, [], ◌∷◌, get_or}
use kdbs.Common.Bytes.{Bytes, store}
use kdbs.Common.Fields.{read_struct, write_struct}

-- `kds_heap_page_meta_t`.
pub record Meta : Type 0 where
  pub nr_slots : ℕ
  pub lower : ℕ
  pub upper : ℕ
  pub reserved : ℕ

-- `kds_heap_slot_t`.
pub record Slot : Type 0 where
  pub offset : ℕ
  pub length : ℕ
  pub flags : ℕ

-- `kds_heap_tuple_hdr_t`.
pub record TupleHdr : Type 0 where
  pub xmin : ℕ
  pub xmax : ℕ
  pub undo_ptr : ℕ
  pub data_len : ℕ
  pub flags : ℕ
  pub reserved : ℕ

-- `kds_heap_tid_t`.
pub record Tid : Type 0 where
  pub page_id : ℕ
  pub slot : ℕ

abbrev pub meta_widths : List ℕ
meta_widths = 2 ∷ 2 ∷ 2 ∷ 2 ∷ []

abbrev pub slot_widths : List ℕ
slot_widths = 2 ∷ 2 ∷ 1 ∷ []

abbrev pub tuple_hdr_widths : List ℕ
tuple_hdr_widths = 8 ∷ 8 ∷ 8 ∷ 2 ∷ 1 ∷ 1 ∷ []

abbrev pub meta_offset : ℕ
meta_offset = 41

-- KDS_HEAP_AREA_OFFSET: the slot directory begins here.
abbrev pub area_offset : ℕ
area_offset = 49

abbrev pub slot_size : ℕ
slot_size = 5

abbrev pub tuple_hdr_size : ℕ
tuple_hdr_size = 28

-- KDS_HEAP_NEXT_PAGE_OFFSET: the link to the next page fills the last 8 bytes.
abbrev pub next_page_offset : ℕ
next_page_offset = 8184

abbrev pub meta_values : Meta → List ℕ
meta_values m = m.nr_slots ∷ m.lower ∷ m.upper ∷ m.reserved ∷ []

abbrev pub meta_of : List ℕ → Meta
meta_of vs = record {
  nr_slots = get_or vs 0 0;
  lower = get_or vs 1 0;
  upper = get_or vs 2 0;
  reserved = get_or vs 3 0;
}

abbrev pub slot_values : Slot → List ℕ
slot_values s = s.offset ∷ s.length ∷ s.flags ∷ []

abbrev pub slot_of : List ℕ → Slot
slot_of vs = record { offset = get_or vs 0 0; length = get_or vs 1 0; flags = get_or vs 2 0 }

abbrev pub tuple_hdr_values : TupleHdr → List ℕ
tuple_hdr_values t = t.xmin ∷ t.xmax ∷ t.undo_ptr ∷ t.data_len ∷ t.flags ∷ t.reserved ∷ []

abbrev pub tuple_hdr_of : List ℕ → TupleHdr
tuple_hdr_of vs = record {
  xmin = get_or vs 0 0;
  xmax = get_or vs 1 0;
  undo_ptr = get_or vs 2 0;
  data_len = get_or vs 3 0;
  flags = get_or vs 4 0;
  reserved = get_or vs 5 0;
}

unfoldable pub load_meta : Bytes → Meta
load_meta p = meta_of (read_struct meta_widths p meta_offset)

unfoldable pub store_meta : Bytes → Meta → Bytes
store_meta p m = write_struct meta_widths p meta_offset (meta_values m)

-- `heap_slot_ptr`.
abbrev pub slot_ptr : ℕ → ℕ
slot_ptr idx = area_offset + idx * slot_size

unfoldable pub load_slot : Bytes → ℕ → Slot
load_slot p idx = slot_of (read_struct slot_widths p (slot_ptr idx))

unfoldable pub store_slot : Bytes → ℕ → Slot → Bytes
store_slot p idx s = write_struct slot_widths p (slot_ptr idx) (slot_values s)

unfoldable pub load_tuple_hdr : Bytes → ℕ → TupleHdr
load_tuple_hdr p off = tuple_hdr_of (read_struct tuple_hdr_widths p off)

unfoldable pub store_tuple_hdr : Bytes → ℕ → TupleHdr → Bytes
store_tuple_hdr p off t = write_struct tuple_hdr_widths p off (tuple_hdr_values t)

-- The header and, behind it, the payload.
unfoldable pub store_tuple : Bytes → ℕ → TupleHdr → List ℕ → Bytes
store_tuple p off t payload = store (store_tuple_hdr p off t) (off + tuple_hdr_size) payload
