-- ===== src/Wal/Pages.antt =====
-- The pages of the write-ahead log: flushing the buffer to them and checkpoints, in
-- kernel/kds/wal.c. A page is its header and its payload; the buffer pool and the page allocator
-- are seen through the pages that they give.
use kdbs.Common.{
  ℕ, zero, suc, ◌+◌, ◌-◌, ◌%◌, ◌^◌, List, [], ◌∷◌, ◌++◌, min, leb, ◌==◌, if◌then◌else◌, Option,
  none, some, Errno, Result, ok, err, enospc, enomem, enosys, Bool, not, ◌&&◌,
}
use kdbs.Common.Bytes.{Bytes, store, load}
use kdbs.Common.Fields.{le_bytes}
use kdbs.Wal.{Wal, RecHdr, buf_size, lsn_make, wal_append}

-- KDS_WAL_PAGE_PAYLOAD: 8192 bytes less the common header and the header of the log page.
abbrev pub payload_size : ℕ
payload_size = 8119

-- `kds_wal_page_hdr_t`, and the payload behind it.
pub record LogPage : Type 0 where
  pub seg_no : ℕ
  pub start_lsn : ℕ
  pub used_bytes : ℕ
  pub next_wal_page_id : ℕ
  pub pad : ℕ
  pub payload : Bytes

-- The log's pages in the buffer pool and on disk, and the ids of the pages that the allocator gives
-- next, which has none to give when the list is empty.
pub record LogStore : Type 0 where
  pub pages : ℕ → LogPage
  pub disk : ℕ → LogPage
  pub supply : List ℕ

-- What fails: loading a page into the pool, and writing one to disk.
pub record LogEnv : Type 0 where
  pub load_error : ℕ → Option Errno
  pub write_fails : ℕ → Bool

abbrev pub put_page : LogStore → ℕ → LogPage → LogStore
put_page st id p = record st { pages = λ j. if j == id then p else st.pages j }

-- `kds_frame_flush`, whose result the log ignores.
abbrev pub frame_flush : LogEnv → LogStore → ℕ → LogStore
frame_flush env st id = record st {
  disk = λ j. if j == id && not (env.write_fails id) then st.pages id else st.disk j;
}

abbrev pub fresh_page : ℕ → ℕ → LogPage
fresh_page seg_no start_lsn = record {
  seg_no = seg_no;
  start_lsn = start_lsn;
  used_bytes = 0;
  next_wal_page_id = 0;
  pad = 0;
  payload = λ _. 0;
}

-- `wal_alloc_page` and its callers up to the id of the new page.
abbrev pub alloc_from : LogStore → ℕ → ℕ → List ℕ → Option (LogStore × ℕ)
alloc_from st seg_no start_lsn [] = none
alloc_from st seg_no start_lsn (id ∷ ids) =
    some (record (put_page st id (fresh_page seg_no start_lsn)) { supply = ids }, id)

unfoldable pub wal_alloc_page : LogStore → ℕ → ℕ → Option (LogStore × ℕ)
wal_alloc_page st seg_no start_lsn = alloc_from st seg_no start_lsn st.supply

-- The old tail is linked to the new page where it can be loaded.
abbrev pub link_page : LogStore → Option Errno → ℕ → ℕ → LogStore
link_page st (some e) old new = st
link_page st none old new = put_page st old (record (st.pages old) { next_wal_page_id = new })

abbrev pub flush_if : LogEnv → LogStore → Option Errno → ℕ → LogStore
flush_if env st (some e) id = st
flush_if env st none id = frame_flush env st id

abbrev pub bump_seg : Wal → Wal
bump_seg w = record w { tail_seg_no = (w.tail_seg_no + 1) % 2 ^ 64 }

-- The end of the tail page is taken for the start of the new one.
abbrev pub alloc_tail : Wal → LogStore → Option (LogStore × ℕ)
alloc_tail w st = wal_alloc_page st (bump_seg w).tail_seg_no (lsn_make w.tail_page_id w.tail_used)

abbrev pub set_tail : Wal → ℕ → Wal
set_tail w id = record (bump_seg w) { tail_page_id = id; tail_used = 0 }

-- What one round of the loop of `kds_wal_flush` does: it goes on after writing some bytes, leaves
-- the loop, or returns an error.
pub data Turn : Type 0 where
  more : Wal → LogStore → ℕ → Turn
  stops : Wal → LogStore → Turn
  fails : Wal → LogStore → Errno → Turn

-- The tail page is full before anything is written.
abbrev pub grow : LogEnv → Wal → LogStore → Option (LogStore × ℕ) → Turn
grow env w st none = fails (bump_seg w) st enospc
grow env w st (some (st', id)) =
    more (set_tail w id) (link_page st' (env.load_error w.tail_page_id) w.tail_page_id id) 0

-- It is full after the write.
abbrev pub next_tail : LogEnv → Wal → LogStore → ℕ → Option (LogStore × ℕ) → Turn
next_tail env w st n none = stops (bump_seg w) st
next_tail env w st n (some (st', id)) =
    let e = env.load_error w.tail_page_id in
    more (set_tail w id) (flush_if env (link_page st' e w.tail_page_id id) e w.tail_page_id) n

-- The bytes of the ring from an absolute offset on, copied in two parts where they run over its end.
unfoldable pub ring_copy : Bytes → ℕ → ℕ → List ℕ
ring_copy b off n =
    let i = off % buf_size in
    let first = buf_size - i in
    if leb (i + n) buf_size then load b i n else load b i first ++ load b 0 (n - first)

abbrev pub fill_page : LogPage → List ℕ → ℕ → LogPage
fill_page p bs n = record p {
  payload = store p.payload p.used_bytes bs;
  used_bytes = (p.used_bytes + n) % 2 ^ 32;
}

abbrev pub space_of : LogPage → ℕ
space_of p = (payload_size + 2 ^ 32 - p.used_bytes) % 2 ^ 32

-- A chunk is written to the tail page.
abbrev pub write_chunk : LogEnv → Wal → LogStore → ℕ → ℕ → LogStore
write_chunk env w st start chunk =
    let id = w.tail_page_id in
    let p = fill_page (st.pages id) (ring_copy w.buf start chunk) chunk in
    frame_flush env (put_page st id p) id

abbrev pub unless_failed : Wal → LogStore → Option Errno → Turn → Turn
unless_failed w st (some e) loaded = fails w st e
unless_failed w st none loaded = loaded

unfoldable pub wal_turn : LogEnv → Wal → LogStore → ℕ → ℕ → Turn
wal_turn env w st start left =
    let id = w.tail_page_id in
    let space = space_of (st.pages id) in
    let chunk = min left space in
    let st1 = write_chunk env w st start chunk in
    let w1 = record w { tail_used = (st1.pages id).used_bytes } in
    let full = next_tail env w1 st1 chunk (alloc_tail w1 st1) in
    let room = if leb payload_size w1.tail_used then full else more w1 st1 chunk in
    let grown = grow env w st (alloc_tail w st) in
    let loaded = if space == 0 then grown else room in unless_failed w st (env.load_error id) loaded

abbrev pub Flushed : Type 0
Flushed = Option (Wal × LogStore × Option Errno)

abbrev pub after_turn : (Wal → LogStore → ℕ → Flushed) → Turn → Flushed
after_turn rest (more w st n) = rest w st n
after_turn rest (stops w st) = some (w, st, none)
after_turn rest (fails w st e) = some (w, st, some e)

-- The loop, with fuel: the state at its end and the error that it returns, if it does; `none` means
-- that the fuel ran out.
unfoldable pub flush_loop : LogEnv → ℕ → Wal → LogStore → ℕ → ℕ → Flushed
flush_loop env zero w st start left = none
flush_loop env (suc fuel) w st start left =
    let rest =
      λ (w' : Wal) (st' : LogStore) (n : ℕ). flush_loop env fuel w' st' (start + n) (left - n) in
    if left == 0 then some (w, st, none) else after_turn rest (wal_turn env w st start left)

-- What follows the loop: the offset goes to the end that was taken at the start.
abbrev pub finish_flush : Wal → LogStore → ℕ → Flushed → Wal × LogStore × Result (Unit {0})
finish_flush w st end none = (w, st, err enosys)
finish_flush w st end (some (w', st', some e)) = (w', st', err e)
finish_flush w st end (some (w', st', none)) =
    (record w' { flush_off = end; flush_lsn = lsn_make w'.tail_page_id w'.tail_used }, st', ok tt)

-- `kds_wal_flush`; two rounds for each byte and one more are enough.
unfoldable pub wal_flush : LogEnv → Wal → LogStore → Wal × LogStore × Result (Unit {0})
wal_flush env w st =
    let left = (w.write_off + 2 ^ 64 - w.flush_off) % 2 ^ 64 in
    if w.flush_off == w.write_off
    then (w, st, ok tt)
    else finish_flush w st w.write_off (flush_loop env (left + left + 2) w st w.flush_off left)

-- `kds_wal_init`, given whether memory could be had: the log starts with one page.
abbrev pub first_state : ℕ → Wal
first_state id = record {
  buf = λ _. 0;
  write_off = 0;
  flush_off = 0;
  current_lsn = 0;
  prev_lsn = 0;
  tail_page_id = id;
  tail_used = 0;
  tail_seg_no = 1;
  flush_lsn = 0;
  checkpointed_lsn = 0;
}

abbrev pub init_from : Option (LogStore × ℕ) → Result (Wal × LogStore)
init_from none = err enospc
init_from (some (st, id)) =
    let p = record (st.pages id) { start_lsn = lsn_make id 0 } in
    ok (first_state id, put_page st id p)

unfoldable pub wal_init : Bool → LogStore → Result (Wal × LogStore)
wal_init memory st = if memory then init_from (wal_alloc_page st 1 0) else err enomem

-- `kds_wal_checkpoint` with the time of the clock, up to the write of the superblock.
module _ (crc32c : ℕ → List ℕ → ℕ) where
  abbrev pub checkpoint_hdr : RecHdr
  checkpoint_hdr = record {
    lsn = 0;
    prev_lsn = 0;
    xid = 0;
    type = 6;
    pad = 0;
    body_len = 16;
    crc = 0;
  }

  abbrev pub flush_checkpoint :
      Wal × LogStore × Result (Unit {0}) → Wal × LogStore × Result (Unit {0})
  flush_checkpoint (w, st, err e) = (w, st, err e)
  flush_checkpoint (w, st, ok u) = (record w { checkpointed_lsn = w.flush_lsn }, st, ok u)

  abbrev pub append_checkpoint :
      LogEnv → LogStore → Wal × Result ℕ → Wal × LogStore × Result (Unit {0})
  append_checkpoint env st (w, err e) = (w, st, err e)
  append_checkpoint env st (w, ok lsn) = flush_checkpoint (wal_flush env w st)

  unfoldable pub wal_checkpoint :
      LogEnv → Wal → LogStore → ℕ → ℕ → Wal × LogStore × Result (Unit {0})
  wal_checkpoint env w st data_flush_lsn time =
      append_checkpoint env st
        (wal_append crc32c w checkpoint_hdr (le_bytes 8 data_flush_lsn ++ le_bytes 8 time))
