-- ===== src/BufPool.antt =====
-- The buffer pool: kernel/kds/page_mgr.c over the block device. A frame is named by its number.
-- The kernel's hash table is a partial function from page ids to frame numbers, and the device a
-- function from sectors to the logical page that starts there.
pub mod Inv
pub mod Frames
pub mod Held
pub mod Loading
pub mod Service
pub mod Refusal
pub mod Flush
pub mod WriteBack
pub mod Supply
pub mod Tests
use kdbs.Common.{
  ℕ, zero, suc, ◌+◌, ◌-◌, ◌%◌, ◌^◌, Bool, true, false, not, ◌&&◌, ◌||◌, List, [], ◌∷◌, ◌++◌, Option,
  none, some, ltb, ◌==◌, if◌then◌else◌, test_bit, set_bit, clear_bit, Errno, Result, ok, err,
  einval, enodev, enomem, enoent, enospc, eexist,
}
use kdbs.Common.Bytes.{Bytes}
use kdbs.Page.{
  PageHdr, page_size, page_sector, flag_alloc, flag_dirty, store_page_hdr, load_page_hdr,
}

-- KDS_BUF_NR_FRAMES.
abbrev pub nr_frames : ℕ
nr_frames = 4096

pub data FrameState : Type 0 where
  free loading valid : FrameState

abbrev pub is_free : FrameState → Bool
is_free free = true
is_free loading = false
is_free valid = false

abbrev pub is_valid : FrameState → Bool
is_valid free = false
is_valid loading = false
is_valid valid = true

-- `kds_page_t`, the content-lock object of a frame: id, header and the reference count, a 64-bit
-- number.
pub record Content : Type 0 where
  pub id : ℕ
  pub hdr : PageHdr
  pub refcnt : ℕ

-- `kds_frame_t`: `kp` is `none` for NULL; `bytes` is the buffer `page`.
pub record BufFrame : Type 0 where
  pub state : FrameState
  pub page_id : ℕ
  pub kp : Option Content
  pub bytes : Bytes

pub record BufPool : Type 0 where
  pub frames : ℕ → BufFrame
  pub map : ℕ → Option ℕ
  pub free_frames : List ℕ
  pub nr_free : ℕ
  pub disk : ℕ → Bytes

-- What a call meets outside the pool: whether the device is there and memory can be had for the
-- buffer, the content object and the table's entry, the errors of the device and the table, what a
-- fresh content object holds in the reserved bytes of its header, and what other threads do to the
-- pool while the disk is read or written.
pub record Env : Type 0 where
  pub bdev : Bool
  pub pages_ok : Bool
  pub kp_ok : Bool
  pub entry_ok : Bool
  pub read_error : Option Errno
  pub write_error : Option Errno
  pub insert_error : Option Errno
  pub stale : ℕ
  pub others : BufPool → BufPool

abbrev pub put_frame : BufPool → ℕ → BufFrame → BufPool
put_frame p i f = record p { frames = λ j. if j == i then f else p.frames j }

abbrev pub put_map : BufPool → ℕ → ℕ → BufPool
put_map p id i = record p { map = λ k. if k == id then some i else p.map k }

abbrev pub empty_frame : BufFrame
empty_frame = record { state = free; page_id = 0; kp = none; bytes = λ _. 0 }

-- The numbers from `i` on, `n` of them.
unfoldable pub numbers_from : ℕ → ℕ → List ℕ
numbers_from i zero = []
numbers_from i (suc n) = i ∷ numbers_from (i + 1) n

unfoldable pub pool_init : (ℕ → Bytes) → BufPool
pool_init disk = record {
  frames = λ _. empty_frame;
  map = λ _. none;
  free_frames = numbers_from 0 nr_frames;
  nr_free = nr_frames;
  disk = disk;
}

abbrev pub pop_frame : BufPool → List ℕ → BufPool × Option ℕ
pop_frame p [] = (p, none)
pop_frame p (i ∷ rest) = (record p { free_frames = rest; nr_free = p.nr_free - 1 }, some i)

unfoldable pub take_free_frame : BufPool → BufPool × Option ℕ
take_free_frame p = pop_frame p p.free_frames

unfoldable pub return_free_frame : BufPool → ℕ → BufPool
return_free_frame p i = record p {
  free_frames = p.free_frames ++ (i ∷ []);
  nr_free = p.nr_free + 1;
}

-- The reference count of a content object, changed.
abbrev pub count_with : (ℕ → ℕ) → Option Content → Option Content
count_with f none = none
count_with f (some c) = some (record c { refcnt = f c.refcnt })

-- `kds_buf_pin` and `kds_buf_unpin`. A frame of the table has its content object.
unfoldable pub buf_pin : BufPool → ℕ → BufPool
buf_pin p i =
    let f = p.frames i in put_frame p i (record f { kp = count_with (λ n. (n + 1) % 2 ^ 64) f.kp })

unfoldable pub buf_unpin : BufPool → ℕ → BufPool
buf_unpin p i =
    let f = p.frames i in
    put_frame p i (record f { kp = count_with (λ n. (n + 2 ^ 64 - 1) % 2 ^ 64) f.kp })

-- The frame is set to FREE and goes to the end of the free list.
abbrev pub give_back : BufPool → ℕ → BufFrame → BufPool
give_back p i f = return_free_frame (put_frame p i (record f { state = free; page_id = 0 })) i

-- The same where the buffer and the content object are freed before.
abbrev pub discard : BufPool → ℕ → BufPool
discard p i = give_back p i (record (p.frames i) { kp = none })

-- `kds_frame_read_from_disk`; `none` is success.
unfoldable pub frame_read_from_disk : Env → BufPool → ℕ → ℕ → BufPool × Option Errno
frame_read_from_disk env p i page_id =
    let f = p.frames i in
    let bytes = p.disk (page_sector page_id) in
    let content : Content = record { id = page_id; hdr = load_page_hdr bytes; refcnt = 0 } in
    if not env.bdev
    then (p, some enodev)
    else if not env.pages_ok
    then (p, some enomem)
    else elim env.read_error [
      | some e ↦ (p, some e)
      | none ↦
          if not env.kp_ok
          then (put_frame p i (record f { kp = none }), some enomem)
          else (put_frame p i (record f { kp = some content; bytes = bytes }), none)
    ]

-- `kds_buf_register_frame`.
unfoldable pub register_frame : Env → BufPool → ℕ → BufPool × Option Errno
register_frame env p i =
    let f = p.frames i in
    if not env.entry_ok then (p, some enomem) else elim (p.map f.page_id) [
      | some j ↦ (p, some eexist)
      | none ↦ elim env.insert_error [
        | some e ↦ (p, some e)
        | none ↦
            (buf_pin (put_frame (put_map p f.page_id i) i (record f { state = valid })) i, none)
      ]
    ]

-- `kds_buf_lookup` on a pool that is there.
unfoldable pub buf_lookup : BufPool → ℕ → BufPool × Option ℕ
buf_lookup p page_id = elim (p.map page_id) [ none ↦ (p, none) | some i ↦ (buf_pin p i, some i) ]

-- What the second lookup after -EEXIST returns.
abbrev pub or_enoent : BufPool × Option ℕ → BufPool × Result ℕ
or_enoent (p, none) = (p, err enoent)
or_enoent (p, some i) = (p, ok i)

-- The end of `kds_buf_lookup_or_load`, from the result of the registration on.
unfoldable pub load_registered : BufPool → ℕ → ℕ → Option Errno → BufPool × Result ℕ
load_registered p i page_id none = (p, ok i)
load_registered p i page_id (some eexist) = or_enoent (buf_lookup (discard p i) page_id)
load_registered p i page_id (some e) = (discard p i, err e)

-- The part that reads the page, in the frame `i` that was taken.
unfoldable pub load_frame : Env → BufPool → ℕ → ℕ → BufPool × Result ℕ
load_frame env p i page_id =
    let p1 = put_frame p i (record (p.frames i) { state = loading; page_id = page_id }) in
    let (p2, ret) = frame_read_from_disk env p1 i page_id in
    let p3 = env.others p2 in
    let (p4, registered) = register_frame env p3 i in
    elim ret [
      | some e ↦ (give_back p3 i (p3.frames i), err e)
      | none ↦ load_registered p4 i page_id registered
    ]

abbrev pub load_taken : Env → ℕ → BufPool × Option ℕ → BufPool × Result ℕ
load_taken env page_id (p, none) = (p, err enospc)
load_taken env page_id (p, some i) = load_frame env p i page_id

-- `kds_buf_lookup_or_load` on a pool that is there.
unfoldable pub buf_lookup_or_load : Env → BufPool → ℕ → BufPool × Result ℕ
buf_lookup_or_load env p page_id = elim (p.map page_id) [
  | some i ↦ (buf_pin p i, ok i)
  | none ↦ load_taken env page_id (take_free_frame p)
]

abbrev pub put_disk : BufPool → ℕ → Bytes → BufPool
put_disk p id bytes = record p { disk = λ s. if s == page_sector id then bytes else p.disk s }

-- The header of a new page: the type INVALID and the flags ALLOC and DIRTY.
abbrev pub new_hdr : ℕ → PageHdr
new_hdr stale = record {
  page_type = 0;
  crc = 0;
  flags = set_bit (set_bit 0 flag_alloc) flag_dirty;
  reserved1 = stale;
}

abbrev pub clean : PageHdr → PageHdr
clean h = record h { flags = clear_bit h.flags flag_dirty }

-- The end of `kds_buf_alloc_new`.
unfoldable pub new_registered : BufPool → ℕ → Option Errno → BufPool × Result ℕ
new_registered p i none = (p, ok i)
new_registered p i (some e) = (discard p i, err e)

-- The part of `kds_buf_alloc_new` in the frame `i` that was taken. That there is no device, where
-- the code panics, is not modelled.
unfoldable pub new_frame : Env → BufPool → ℕ → ℕ → BufPool × Result ℕ
new_frame env p i page_id =
    let f : BufFrame = record (p.frames i) { state = loading; page_id = page_id } in
    let hdr = new_hdr env.stale in
    let bytes = store_page_hdr (λ _. 0) hdr in
    let content : Content = record { id = page_id; hdr = hdr; refcnt = 0 } in
    let written : Content = record content { hdr = clean hdr } in
    let p1 = env.others (put_frame p i (record f { kp = some content; bytes = bytes })) in
    let p2 = put_disk (put_frame p1 i (record (p1.frames i) { kp = some written })) page_id bytes in
    let (p3, registered) = register_frame env p2 i in
    if not env.pages_ok
    then (give_back (put_frame p i f) i f, err enomem)
    else if not env.kp_ok
    then (discard (put_frame p i f) i, err enomem)
    else elim env.write_error [
      | some e ↦ (discard p1 i, err e)
      | none ↦ new_registered p3 i registered
    ]

abbrev pub new_taken : Env → ℕ → BufPool × Option ℕ → BufPool × Result ℕ
new_taken env page_id (p, none) = (p, err enospc)
new_taken env page_id (p, some i) = new_frame env p i page_id

-- `kds_buf_alloc_new` on a pool that is there.
unfoldable pub buf_alloc_new : Env → BufPool → ℕ → BufPool × Result ℕ
buf_alloc_new env p page_id = elim (p.map page_id) [
  | some i ↦ (buf_unpin (buf_pin p i) i, err eexist)
  | none ↦ new_taken env page_id (take_free_frame p)
]

-- `kds_frame_get_write_ptr` and `kds_frame_get_read_ptr`: the offset of the pointer that is given.
unfoldable pub frame_get_ptr : ℕ → ℕ → Result ℕ
frame_get_ptr offset size =
    if ltb page_size ((offset + size) % 2 ^ 64) then err einval else ok offset

abbrev pub dirty_content : Option Content → Option Content
dirty_content none = none
dirty_content (some c) =
    some (record c { hdr = record c.hdr { flags = set_bit c.hdr.flags flag_dirty } })

unfoldable pub frame_put_write_ptr : BufPool → ℕ → BufPool
frame_put_write_ptr p i = let f = p.frames i in put_frame p i (record f { kp = dirty_content f.kp })

-- `kds_frame_flush` on the content object of frame `i`.
unfoldable pub flush_content : Env → BufPool → ℕ → Option Content → BufPool × Option Errno
flush_content env p i none = (p, some einval)
flush_content env p i (some c) =
    let f = p.frames i in
    let bytes = store_page_hdr f.bytes c.hdr in
    let cleaned : Content = record c { hdr = clean c.hdr } in
    if not (test_bit c.hdr.flags flag_dirty) then (p, none) else elim env.write_error [
      | some e ↦ (put_frame p i (record f { bytes = bytes }), some e)
      | none ↦ (
        put_disk (put_frame p i (record f { bytes = bytes; kp = some cleaned })) f.page_id bytes,
        none,
      )
    ]

unfoldable pub frame_flush : Env → BufPool → ℕ → BufPool × Option Errno
frame_flush env p i = flush_content env p i (p.frames i).kp

abbrev pub is_dirty : Option Content → Bool
is_dirty none = false
is_dirty (some c) = test_bit c.hdr.flags flag_dirty

-- The loop of `kds_buf_flush_dirty_frames` over `left` frames from `i` on.
unfoldable pub flush_from : Env → ℕ → ℕ → BufPool → BufPool
flush_from env zero i p = p
flush_from env (suc left) i p =
    let f = p.frames i in
    let flushed = buf_unpin (frame_flush env (buf_pin p i) i).0 i in
    flush_from env left (i + 1) (if is_valid f.state && is_dirty f.kp then flushed else p)

unfoldable pub flush_dirty_frames : Env → BufPool → BufPool
flush_dirty_frames env p = flush_from env nr_frames 0 p

-- How many of `left` frames from `i` on are in a state.
unfoldable pub count_states : (FrameState → Bool) → ℕ → ℕ → BufPool → ℕ
count_states test zero i p = 0
count_states test (suc left) i p =
    (if test (p.frames i).state then 1 else 0) + count_states test left (i + 1) p

-- `kds_buf_pool_get_stats`: the numbers of all, of free and of valid frames; `none` is no pool.
unfoldable pub get_stats : Option BufPool → ℕ × ℕ × ℕ
get_stats none = (nr_frames, 0, 0)
get_stats (some p) =
    (nr_frames, count_states is_free nr_frames 0 p, count_states is_valid nr_frames 0 p)

-- The calls where there may be no pool.
unfoldable pub lookup_or_load : Env → Option BufPool → ℕ → Option BufPool × Result ℕ
lookup_or_load env none page_id = (none, err enodev)
lookup_or_load env (some p) page_id = let (p', r) = buf_lookup_or_load env p page_id in (some p', r)

unfoldable pub alloc_new : Env → Option BufPool → ℕ → Option BufPool × Result ℕ
alloc_new env none page_id = (none, err enodev)
alloc_new env (some p) page_id = let (p', r) = buf_alloc_new env p page_id in (some p', r)
