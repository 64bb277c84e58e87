-- ===== src/Heap.antt =====
-- Slotted heap pages: kernel/kds/heap.c, over the bytes of the page. A 16-bit quantity is a
-- number below 2 ^ 16, with the wrap-around of each assignment written out.
pub mod Layout
pub mod Inv
pub mod Place
pub mod Insert
pub mod Insertion
pub mod Edit
pub mod Changes
pub mod Retire
pub mod Link
pub mod Reading
pub mod Samples
mod Tests
use kdbs.Common.{
  ℕ, ◌+◌, ◌-◌, ◌%◌, ◌^◌, Bool, true, false, not, ◌&&◌, ◌||◌, List, [], ◌∷◌, Option, none, some, ltb,
  leb, ◌==◌, if◌then◌else◌, test_bit, set_bit, take, get_or, Result, ok, err, Errno, einval, enoent,
  enospc,
}
use kdbs.Common.Bytes.{Bytes, store, load}
use kdbs.Common.Fields.{read_struct, write_struct}
use kdbs.Page.{
  page_size, page_type_heap, flag_init, PageHdr, Frame, set_page_dirty, with_frame, store_page_hdr,
}
use Layout.{
  Meta, Slot, TupleHdr, Tid, area_offset, slot_size, tuple_hdr_size, next_page_offset, load_meta,
  store_meta, load_slot, store_slot, load_tuple_hdr, store_tuple_hdr, store_tuple,
}

abbrev pub u16 : ℕ → ℕ
u16 n = n % 2 ^ 16

-- `(u16)(a - b)`, for 16-bit `a` and `b`.
abbrev pub sub16 : ℕ → ℕ → ℕ
sub16 a b = (a + 2 ^ 16 - b) % 2 ^ 16

unfoldable pub is_heap_insert_possible : Meta → ℕ → Bool
is_heap_insert_possible m needed = leb needed (sub16 m.upper m.lower)

-- A slot that `flags & KDS_HEAP_SLOT_DEAD` or a zero length marks as dead.
unfoldable pub is_dead : Slot → Bool
is_dead s = test_bit s.flags 0 || s.length == 0

abbrev pub empty_meta : Meta
empty_meta = record { nr_slots = 0; lower = area_offset; upper = next_page_offset; reserved = 0 }

-- The next-page link, a u64 in the last 8 bytes.
unfoldable pub load_next : Bytes → ℕ
load_next p = get_or (read_struct (8 ∷ []) p next_page_offset) 0 0

unfoldable pub store_next : Bytes → ℕ → Bytes
store_next p id = write_struct (8 ∷ []) p next_page_offset (id ∷ [])

unfoldable pub init_page_as : Frame → ℕ → Frame
init_page_as f type =
    let h : PageHdr = record f.hdr { page_type = type; flags = set_bit f.hdr.flags flag_init } in
    record f { hdr = h; bytes = store_next (store_meta (store_page_hdr f.bytes h) empty_meta) 0 }

unfoldable pub heap_init_page_as : Option Frame → ℕ → Option Frame
heap_init_page_as none type = none
heap_init_page_as (some f) type = some (init_page_as f type)

unfoldable pub heap_init_page : Option Frame → Option Frame
heap_init_page frame = heap_init_page_as frame page_type_heap

unfoldable pub free_space : Bytes → ℕ
free_space p = let m = load_meta p in if ltb m.lower m.upper then sub16 m.upper m.lower else 0

unfoldable pub heap_free_space : Option Frame → ℕ
heap_free_space none = 0
heap_free_space (some f) = free_space f.bytes

unfoldable pub heap_nr_slots : Option Frame → ℕ
heap_nr_slots none = 0
heap_nr_slots (some f) = (load_meta f.bytes).nr_slots

-- The header that a fresh version of a tuple gets.
abbrev pub tuple_hdr : ℕ → ℕ → ℕ → ℕ → TupleHdr
tuple_hdr xmin xmax undo_ptr data_len = record {
  xmin = xmin;
  xmax = xmax;
  undo_ptr = undo_ptr;
  data_len = data_len;
  flags = 0;
  reserved = 0;
}

-- The NULL test on `data`.
abbrev pub no_data : Option (List ℕ) → ℕ → Bool
no_data none data_len = ltb 0 data_len
no_data (some bs) data_len = false

-- `memcpy(dst, data, data_len)`; nothing is copied at length 0.
abbrev pub payload : Option (List ℕ) → ℕ → List ℕ
payload none data_len = []
payload (some bs) data_len = take data_len bs

-- `new_upper`, the new slot and the new page metadata of an insertion.
abbrev pub new_upper : Meta → TupleHdr → ℕ
new_upper m t = sub16 m.upper (tuple_hdr_size + t.data_len)

abbrev pub new_slot : Meta → TupleHdr → Slot
new_slot m t = record {
  offset = new_upper m t;
  length = u16 (tuple_hdr_size + t.data_len);
  flags = 0;
}

abbrev pub new_meta : Meta → TupleHdr → Meta
new_meta m t = record m {
  nr_slots = u16 (m.nr_slots + 1);
  lower = u16 (m.lower + slot_size);
  upper = new_upper m t;
}

-- The writes of an insertion that has room: the tuple, its slot, the metadata.
unfoldable pub place_tuple : Bytes → Meta → TupleHdr → List ℕ → Bytes
place_tuple p m t bs =
    store_meta (store_slot (store_tuple p (new_upper m t) t bs) m.nr_slots (new_slot m t))
      (new_meta m t)

-- `needed` of an insertion, a u16.
abbrev pub needed : ℕ → ℕ
needed data_len = u16 (slot_size + tuple_hdr_size + data_len)

unfoldable pub insert_tuple_ex : Frame → Option (List ℕ) → ℕ → ℕ → ℕ → ℕ → Frame × Result Tid
insert_tuple_ex f bs data_len xmin xmax undo_ptr =
    let m = load_meta f.bytes in
    if no_data bs data_len
    then (f, err einval)
    else if ltb page_size data_len
    then (f, err einval)
    else if not (is_heap_insert_possible m (needed data_len))
    then (f, err enospc)
    else (
      set_page_dirty (record f {
        bytes = place_tuple f.bytes m (tuple_hdr xmin xmax undo_ptr data_len) (payload bs data_len);
      }),
      ok (record { page_id = f.page_id; slot = m.nr_slots }),
    )

unfoldable pub heap_insert_tuple_ex :
    Option Frame → Option (List ℕ) → ℕ → ℕ → ℕ → ℕ → Option Frame × Result Tid
heap_insert_tuple_ex frame bs data_len xmin xmax undo_ptr =
    with_frame frame λ f. insert_tuple_ex f bs data_len xmin xmax undo_ptr

unfoldable pub heap_insert_tuple :
    Option Frame → Option (List ℕ) → ℕ → ℕ → Option Frame × Result Tid
heap_insert_tuple frame bs data_len xmin = heap_insert_tuple_ex frame bs data_len xmin 0 0

-- The slot that an operation works on: in range and not dead.
unfoldable pub live_slot : Bytes → ℕ → Result Slot
live_slot p slot_idx =
    let s = load_slot p slot_idx in
    if leb (load_meta p).nr_slots slot_idx
    then err enoent
    else if is_dead s
    then err enoent
    else ok s

-- The sum `28 + new_data_len` is taken as a u16 before it is compared.
unfoldable pub overwrite_tuple :
    Frame → ℕ → Option (List ℕ) → ℕ → ℕ → ℕ → ℕ → Frame × Result (Unit {0})
overwrite_tuple f slot_idx bs new_data_len xmin xmax undo_ptr =
    if no_data bs new_data_len then (f, err einval) else elim (live_slot f.bytes slot_idx) [
      | err e ↦ (f, err e)
      | ok s ↦ if ltb s.length (u16 (tuple_hdr_size + new_data_len)) then (f, err enospc) else (
        set_page_dirty (record f {
          bytes =
              store_tuple f.bytes s.offset (tuple_hdr xmin xmax undo_ptr new_data_len)
                (payload bs new_data_len);
        }),
        ok tt,
      )
    ]

unfoldable pub heap_overwrite_tuple :
    Option Frame → ℕ → Option (List ℕ) → ℕ → ℕ → ℕ → ℕ → Option Frame × Result (Unit {0})
heap_overwrite_tuple frame slot_idx bs new_data_len xmin xmax undo_ptr =
    with_frame frame λ f. overwrite_tuple f slot_idx bs new_data_len xmin xmax undo_ptr

unfoldable pub retire_slot : Frame → ℕ → Frame × Result (Unit {0})
retire_slot f slot_idx =
    let s = load_slot f.bytes slot_idx in
    if leb (load_meta f.bytes).nr_slots slot_idx then (f, err enoent) else (
      set_page_dirty (record f {
        bytes = store_slot f.bytes slot_idx (record s { length = 0; flags = set_bit s.flags 0 });
      }),
      ok tt,
    )

unfoldable pub heap_retire_slot : Option Frame → ℕ → Option Frame × Result (Unit {0})
heap_retire_slot frame slot_idx = with_frame frame λ f. retire_slot f slot_idx

unfoldable pub slot_capacity : Bytes → ℕ → Result ℕ
slot_capacity p slot_idx = elim (live_slot p slot_idx) [
  | err e ↦ err e
  | ok s ↦ ok (sub16 s.length tuple_hdr_size)
]

unfoldable pub heap_slot_capacity : Option Frame → ℕ → Result ℕ
heap_slot_capacity none slot_idx = err einval
heap_slot_capacity (some f) slot_idx = slot_capacity f.bytes slot_idx

unfoldable pub heap_get_next_page_id : Option Frame → ℕ
heap_get_next_page_id none = 0
heap_get_next_page_id (some f) = load_next f.bytes

unfoldable pub heap_set_next_page_id : Option Frame → ℕ → Option Frame × Result (Unit {0})
heap_set_next_page_id frame id =
    with_frame frame λ f. (set_page_dirty (record f { bytes = store_next f.bytes id }), ok tt)

-- `none` for `out_buf` is NULL; `some n` is a buffer of `n` bytes, all of which are filled.
unfoldable pub read_tuple : Bytes → ℕ → Option ℕ → Bool → Result (TupleHdr × List ℕ)
read_tuple p slot_idx out_buf raise_not_size_matched = elim (live_slot p slot_idx) [
  | err e ↦ err e
  | ok s ↦
      let t = load_tuple_hdr p s.offset in
      elim out_buf [
        | none ↦ ok (t, [])
        | some out_buf_size ↦
            if ltb out_buf_size t.data_len && raise_not_size_matched
            then err enospc
            else ok (t, load p (s.offset + tuple_hdr_size) out_buf_size)
      ]
]

unfoldable pub heap_read_tuple : Option Frame → ℕ → Option ℕ → Result (TupleHdr × List ℕ)
heap_read_tuple none slot_idx out_buf = err einval
heap_read_tuple (some f) slot_idx out_buf = read_tuple f.bytes slot_idx out_buf true

-- `out_buf_size` is compared before anything else; the buffer may be NULL.
unfoldable pub heap_read_tuple_pk : Option Frame → ℕ → Bool → ℕ → Result (TupleHdr × List ℕ)
heap_read_tuple_pk frame slot_idx has_buf out_buf_size =
    if not (out_buf_size == 8) then err enospc else elim frame [
      | none ↦ err einval
      | some f ↦ read_tuple f.bytes slot_idx (if has_buf then some out_buf_size else none) false
    ]

unfoldable pub delete_tuple : Frame → ℕ → ℕ → Frame × Result (Unit {0})
delete_tuple f slot_idx xmax = elim (live_slot f.bytes slot_idx) [
  | err e ↦ (f, err e)
  | ok s ↦
      let t = record (load_tuple_hdr f.bytes s.offset) { xmax = xmax } in
      (set_page_dirty (record f { bytes = store_tuple_hdr f.bytes s.offset t }), ok tt)
]

unfoldable pub heap_delete_tuple : Option Frame → ℕ → ℕ → Option Frame × Result (Unit {0})
heap_delete_tuple frame slot_idx xmax = with_frame frame λ f. delete_tuple f slot_idx xmax

unfoldable pub heap_has_space : Option Frame → ℕ → Bool
heap_has_space none data_len = false
heap_has_space (some f) data_len =
    if ltb page_size data_len then false else leb (needed data_len) (free_space f.bytes)
