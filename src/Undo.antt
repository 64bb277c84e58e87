-- ===== src/Undo.antt =====
-- Updates that keep the old version: kernel/kds/undo.c, include/linux/kds_undo.h and the packing
-- of a tuple address in include/linux/kds_heap.h. The target frame and the undo frame are two
-- different pages. Whether `kmalloc` finds memory is an argument.
pub mod Entry
pub mod Update
pub mod Relocate
mod Tests
use kdbs.Common.{
  ℕ, ◌+◌, ◌-◌, ◌*◌, ◌/◌, ◌%◌, ◌^◌, Bool, true, false, not, ◌&&◌, List, [], ◌∷◌, ◌++◌, Option, none,
  some, ltb, leb, if◌then◌else◌, take, drop, replicate, get_or, length, Result, ok, err, Errno,
  einval, enomem, emsgsize,
}
use kdbs.Common.Fields.{encode_fields, decode_fields}
use kdbs.Page.{Frame, with_frame}
use kdbs.Heap.Layout.{TupleHdr, Tid}
use kdbs.Heap.{
  no_data, payload, insert_tuple_ex, overwrite_tuple, retire_slot, slot_capacity, read_tuple,
  heap_read_tuple,
}

abbrev pub op_update : ℕ
op_update = 1

-- KDS_UNDO_MAX_OLD_DATA.
abbrev pub max_old_data : ℕ
max_old_data = 256

-- `kds_undo_entry_t`; `old_data` always has 256 bytes.
pub record UndoEntry : Type 0 where
  pub owner_oid : ℕ
  pub old_tid : Tid
  pub prev_undo_ptr : ℕ
  pub xmin : ℕ
  pub xmax : ℕ
  pub operation : ℕ
  pub old_data_len : ℕ
  pub old_data : List ℕ

-- The widths before `old_data`. `kds_heap_tid_t` is not packed: six bytes of padding end it.
abbrev pub entry_widths : List ℕ
entry_widths = 8 ∷ 8 ∷ 2 ∷ 6 ∷ 8 ∷ 8 ∷ 8 ∷ 1 ∷ 2 ∷ []

abbrev pub entry_fixed_size : ℕ
entry_fixed_size = 51

-- `sizeof(kds_undo_entry_t)`.
abbrev pub entry_size : ℕ
entry_size = 307

abbrev pub entry_values : UndoEntry → List ℕ
entry_values e =
    e.owner_oid ∷ e.old_tid.page_id ∷ e.old_tid.slot ∷ 0 ∷ e.prev_undo_ptr ∷ e.xmin ∷ e.xmax
    ∷ e.operation ∷ e.old_data_len ∷ []

unfoldable pub encode_entry : UndoEntry → List ℕ
encode_entry e = encode_fields entry_widths (entry_values e) ++ e.old_data

abbrev entry_of : List ℕ → List ℕ → UndoEntry
entry_of vs bs = record {
  owner_oid = get_or vs 0 0;
  old_tid = record { page_id = get_or vs 1 0; slot = get_or vs 2 0 };
  prev_undo_ptr = get_or vs 4 0;
  xmin = get_or vs 5 0;
  xmax = get_or vs 6 0;
  operation = get_or vs 7 0;
  old_data_len = get_or vs 8 0;
  old_data = bs;
}

-- What the 307 bytes mean when they are read as the struct again.
unfoldable pub decode_entry : List ℕ → UndoEntry
decode_entry bs =
    entry_of (decode_fields entry_widths (take entry_fixed_size bs)) (drop entry_fixed_size bs)

-- `memset` to zero, then a copy of `old_data_len` bytes to the front.
abbrev pub padded : List ℕ → ℕ → List ℕ
padded bs len = take len bs ++ replicate (max_old_data - len) 0

-- `kds_heap_tid_pack`: 48 bits of page id below 16 bits of slot number.
unfoldable pub heap_tid_pack : Tid → ℕ
heap_tid_pack tid = tid.page_id % 2 ^ 48 + tid.slot * 2 ^ 48

unfoldable pub heap_tid_unpack : ℕ → Tid
heap_tid_unpack packed = record { page_id = packed % 2 ^ 48; slot = packed / 2 ^ 48 % 2 ^ 16 }

unfoldable pub write_entry :
    Frame → ℕ → Tid → ℕ → ℕ → ℕ → ℕ → Option (List ℕ) → ℕ → ℕ → Frame × Result Tid
write_entry undo owner_oid old_tid prev_undo_ptr xmin xmax operation bs old_data_len write_xid =
    if ltb max_old_data old_data_len
    then (undo, err emsgsize)
    else if no_data bs old_data_len
    then (undo, err einval)
    else insert_tuple_ex undo
        (some (
          encode_entry (record {
            owner_oid = owner_oid;
            old_tid = old_tid;
            prev_undo_ptr = prev_undo_ptr;
            xmin = xmin;
            xmax = xmax;
            operation = operation;
            old_data_len = old_data_len;
            old_data = payload bs old_data_len ++ replicate (max_old_data - old_data_len) 0;
          })))
        entry_size write_xid 0 0

unfoldable pub undo_write_entry :
    Option Frame → ℕ → Tid → ℕ → ℕ → ℕ → ℕ → Option (List ℕ) → ℕ → ℕ → Option Frame × Result Tid
undo_write_entry undo owner_oid old_tid prev_undo_ptr xmin xmax operation bs old_data_len
      write_xid =
    with_frame undo λ f.
      write_entry f owner_oid old_tid prev_undo_ptr xmin xmax operation bs old_data_len write_xid

unfoldable pub undo_read_entry : Option Frame → ℕ → Result UndoEntry
undo_read_entry undo slot = elim (heap_read_tuple undo slot (some entry_size)) [
  | err e ↦ err e
  | ok (hdr, bs) ↦ ok (decode_entry bs)
]

-- The old version as `kds_heap_update_tuple` reads it: its header, then, if there is a payload,
-- a buffer of that size and the payload.
unfoldable pub read_old : Bool → Frame → ℕ → Result (TupleHdr × Option (List ℕ))
read_old kmalloc target slot_idx = elim (read_tuple target.bytes slot_idx none true) [
  | err e ↦ err e
  | ok (hdr, _) ↦
      if ltb max_old_data hdr.data_len
      then err emsgsize
      else if not (ltb 0 hdr.data_len)
      then ok (hdr, none)
      else if not kmalloc
      then err enomem
      else elim (read_tuple target.bytes slot_idx (some hdr.data_len) true) [
        | err e ↦ err e
        | ok (hdr', bs) ↦ ok (hdr', some bs)
      ]
]

unfoldable pub write_in_place : Frame → ℕ → Option (List ℕ) → ℕ → ℕ → ℕ → Frame × Result Tid
write_in_place target slot_idx bs new_data_len xid undo_ptr =
    let (target', r) = overwrite_tuple target slot_idx bs new_data_len xid 0 undo_ptr in
    elim r [
      | err e ↦ (target', err e)
      | ok _ ↦ (target', ok (record { page_id = target.page_id; slot = slot_idx }))
    ]

unfoldable pub relocate : Frame → ℕ → Option (List ℕ) → ℕ → ℕ → ℕ → Frame × Result Tid
relocate target slot_idx bs new_data_len xid undo_ptr =
    let (target', r) = retire_slot target slot_idx in
    elim r [
      | err e ↦ (target', err e)
      | ok _ ↦ insert_tuple_ex target' bs new_data_len xid 0 undo_ptr
    ]

-- The new version goes in place if it fits, else into a new slot after the old one is retired.
unfoldable pub write_new : Frame → ℕ → Option (List ℕ) → ℕ → ℕ → ℕ → Frame × Result Tid
unfolding write_in_place relocate
write_new target slot_idx bs new_data_len xid undo_ptr =
    elim (slot_capacity target.bytes slot_idx) [
      | err e ↦ (target, err e)
      | ok old_capacity ↦
          if leb new_data_len old_capacity
          then write_in_place target slot_idx bs new_data_len xid undo_ptr
          else relocate target slot_idx bs new_data_len xid undo_ptr
    ]

unfoldable pub update_tuple :
    Bool → Frame → ℕ → Option (List ℕ) → ℕ → ℕ → ℕ → Frame → Frame × Frame × Result Tid
update_tuple kmalloc target slot_idx bs new_data_len xid owner_oid undo =
    if no_data bs new_data_len
    then (target, undo, err einval)
    else elim (read_old kmalloc target slot_idx) [
      | err e ↦ (target, undo, err e)
      | ok (hdr, old) ↦
          let (undo', w) =
            write_entry undo owner_oid (record { page_id = target.page_id; slot = slot_idx })
              hdr.undo_ptr hdr.xmin xid op_update old hdr.data_len xid in
          elim w [
            | err e ↦ (target, undo', err e)
            | ok undo_tid ↦
                let (target', r) =
                  write_new target slot_idx bs new_data_len xid (heap_tid_pack undo_tid) in
                (target', undo', r)
          ]
    ]

-- `kds_heap_update_tuple`: the frames afterwards, the target first, and the new address.
unfoldable pub heap_update_tuple :
    Bool
    → Option Frame
    → ℕ
    → Option (List ℕ)
    → ℕ
    → ℕ
    → ℕ
    → Option Frame
    → Option Frame × Option Frame × Result Tid
heap_update_tuple kmalloc none slot_idx bs new_data_len xid owner_oid undo =
    (none, undo, err einval)
heap_update_tuple kmalloc (some target) slot_idx bs new_data_len xid owner_oid none =
    (some target, none, err einval)
heap_update_tuple kmalloc (some target) slot_idx bs new_data_len xid owner_oid (some undo) =
    let (target', undo', r) =
      update_tuple kmalloc target slot_idx bs new_data_len xid owner_oid undo in
    (some target', some undo', r)
