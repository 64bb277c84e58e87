-- ===== src/Undo/Entry.antt =====
-- Undo entries as bytes, and a tuple address as one number.
use kdbs.Common.{ℕ, ◌^◌, ◌<◌, ◌≡◌, refl, List, arith, length, length-append}
use kdbs.Common.Fields.{
  encode_fields, decode_fields, decode-encode_fields, length-encode_fields, take_append,
  drop_append,
}
use kdbs.Heap.Layout.{Tid}
use kdbs.Undo.{
  UndoEntry, entry_widths, entry_values, entry_fixed_size, entry_size, max_old_data, encode_entry,
  decode_entry, heap_tid_pack, heap_tid_unpack,
}

-- The fields are within their widths, and `old_data` has its 256 bytes.
pub record EntryFits (e : UndoEntry) : Type 0 where
  pub owner : e.owner_oid < 2 ^ 64
  pub page : e.old_tid.page_id < 2 ^ 64
  pub slot : e.old_tid.slot < 2 ^ 16
  pub prev : e.prev_undo_ptr < 2 ^ 64
  pub xmin : e.xmin < 2 ^ 64
  pub xmax : e.xmax < 2 ^ 64
  pub operation : e.operation < 2 ^ 8
  pub len : e.old_data_len < 2 ^ 16
  pub bytes : length e.old_data ≡ max_old_data

pub length-encode_entry :
    (e : UndoEntry) → length e.old_data ≡ max_old_data → length (encode_entry e) ≡ entry_size
unfolding encode_entry
length-encode_entry e h = omega (
  arith,
  length-append (encode_fields entry_widths (entry_values e)) e.old_data,
  length-encode_fields entry_widths (entry_values e) refl,
)

-- An entry whose fields fit is read back from its bytes.
pub decode-encode_entry : (e : UndoEntry) → EntryFits e → decode_entry (encode_entry e) ≡ e
unfolding decode_entry encode_entry
decode-encode_entry e h =
    let b : List ℕ = encode_fields entry_widths (entry_values e) in
    let l : length b ≡ entry_fixed_size = length-encode_fields entry_widths (entry_values e) refl in
    let d : decode_fields entry_widths b ≡ entry_values e =
      decode-encode_fields entry_widths (entry_values e) (omega arith) in
    rw (take_append b e.old_data entry_fixed_size l, drop_append b e.old_data entry_fixed_size l, d)

-- An address with a page id below 2 ^ 48 and a 16-bit slot number survives packing, and the
-- packed form is a u64.
pub tid_unpack-pack :
    (tid : Tid)
    → tid.page_id < 2 ^ 48
    → tid.slot < 2 ^ 16
    → (heap_tid_unpack (heap_tid_pack tid) ≡ tid) × (heap_tid_pack tid < 2 ^ 64)
unfolding heap_tid_unpack heap_tid_pack
tid_unpack-pack tid a b = (ground arith, omega arith)
