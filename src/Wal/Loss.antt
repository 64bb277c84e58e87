-- ===== src/Wal/Loss.antt =====
-- What a flush of the write-ahead log of kernel/kds/wal.c loses where no new page can be had.
use kdbs.Common.{
  ℕ, zero, suc, ◌+◌, ◌-◌, ◌*◌, ◌%◌, ◌^◌, ◌<◌, ◌≡◌, refl, ap, ◌∙◌, true, false, List, [], ◌++◌,
  length, arith, ◌==◌, leb, none, ok,
}
use kdbs.Wal.{Wal, lsn_make}
use kdbs.Wal.Ring.{ring_read}
use kdbs.Wal.Append.{IsWal}
use kdbs.Wal.Pages.{
  LogStore, LogEnv, payload_size, wal_turn, flush_loop, wal_flush, after_turn, wal_alloc_page,
  alloc_from, next_tail, bump_seg, stops,
}
use kdbs.Wal.Saved.{written-Carries}
use kdbs.Wal.Growth.{IsLog, text_of, written-IsLog, written_text}
use kdbs.Wal.Turns.{chunk, chunk_fits, st1, w1, used_is, room_turn}
use kdbs.Wal.Flush.{Ends, Appended, finish-Ends, flush_appends}

module _ (env : LogEnv) (fine : (id : ℕ) → env.load_error id ≡ none) (w : Wal) (st : LogStore)
    (older : List ℕ) (v : IsLog w st older)
    (partly : (st.pages w.tail_page_id).used_bytes < payload_size)
    (none_left : st.supply ≡ []) where
  abbrev space : ℕ
  space = payload_size - (st.pages w.tail_page_id).used_bytes

  module _ (start left : ℕ) (beyond : space < left) where
    abbrev after : Wal
    after = bump_seg (w1 env fine w st older start left v partly)

    abbrev filled : LogStore
    filled = st1 env fine w st older start left v partly

    all_space : chunk env fine w st older start left v partly ≡ space
    all_space = omega (arith, beyond)

    turn_stops : wal_turn env w st start left ≡ stops after filled
    unfolding wal_alloc_page
    turn_stops =
        let used = used_is env fine w st older start left v partly in
        let is_full : leb payload_size (w1 env fine w st older start left v partly).tail_used
            ≡ true =
          ground (arith, used, all_space, partly) in
        let n = chunk env fine w st older start left v partly in
        let u = w1 env fine w st older start left v partly in
        let seg = (bump_seg u).tail_seg_no in
        let lsn = lsn_make u.tail_page_id u.tail_used in
        room_turn env fine w st older start left v partly
        ∙ rw is_full (
            ap (λ (xs : List ℕ). next_tail env u filled n (alloc_from filled seg lsn xs)) none_left)

    loop_stops :
        (fuel : ℕ)
        → 0 < fuel
        → Ends env w st older start space (flush_loop env fuel w st start left)
    unfolding flush_loop
    loop_stops zero h = absurd (omega (arith, h))
    loop_stops (suc fuel) h =
        let some_left : (left == 0) ≡ false = ground (arith, beyond) in
        let fits = chunk_fits env fine w st older start left v partly in
        let n = chunk env fine w st older start left v partly in
        let l = written-IsLog env w st older start n v fits after.tail_used in
        record {
          last = after;
          store = filled;
          chain = older;
          is = rw some_left (
              ap
                (after_turn λ (w' : Wal) (st' : LogStore) (k : ℕ).
                  flush_loop env fuel w' st' (start + k) (left - k))
                turn_stops);
          log = record { fits = l.fits; apart = l.apart; fresh = l.fresh; linked = l.linked };
          text =
              written_text env w st older start n v fits
              ∙ ap (λ (k : ℕ). text_of w st older ++ ring_read w.buf start k) all_space;
          same = record { buf = refl; write_off = refl };
          carries = written-Carries env w st older v start n fits;
        }

-- Where all pages load, the tail page of a linked log is not full but has less room than the buffer
-- has bytes, at an offset below 2 ^ 64, and the allocator has no page, a flush succeeds all the
-- same: the log in memory has as many of the bytes as the page had room for, and the buffer counts
-- as empty, so the others are lost.
-- A linked log is one whose pages are linked in order and hold no more than they have room for,
-- whose buffer's offsets are in order, and to which the allocator's pages are new.
pub flush_loses :
    (env : LogEnv) (w : Wal) (st : LogStore) (older : List ℕ)
    → ((id : ℕ) → env.load_error id ≡ none)
    → IsWal w
    → w.write_off < 2 ^ 64
    → IsLog w st older
    → (st.pages w.tail_page_id).used_bytes < payload_size
    → st.supply ≡ []
    → payload_size - (st.pages w.tail_page_id).used_bytes < w.write_off - w.flush_off
    → let (w', st', r) = wal_flush env w st in
      (r ≡ ok tt)
      × Appended env w st older (payload_size - (st.pages w.tail_page_id).used_bytes) w' st'
unfolding wal_flush
flush_loses env w st older fine b small v partly none_left beyond =
    let o = b.ordered in
    let n = w.write_off - w.flush_off in
    let size : (w.write_off + 2 ^ 64 - w.flush_off) % 2 ^ 64 ≡ n = omega (arith, o, small) in
    let some_left : (w.flush_off == w.write_off) ≡ false = ground (arith, beyond) in
    rw (some_left, size)
      (finish-Ends env w st older w.flush_off (payload_size - (st.pages w.tail_page_id).used_bytes)
        w.write_off (flush_loop env (n + n + 2) w st w.flush_off n) refl
        (loop_stops env fine w st older v partly none_left w.flush_off n beyond (n + n + 2)
          (omega arith))
        refl)

-- Where all pages load, no write reaches the disk, the offset of the buffer lies below 2 ^ 64 and the
-- allocator has as many pages as the buffered bytes fill, a flush of a linked log succeeds all the
-- same and the buffer counts as empty, but no page on the disk has changed.
flush_unwritten :
    (env : LogEnv) (w : Wal) (st : LogStore) (older : List ℕ)
    → ((id : ℕ) → env.load_error id ≡ none)
    → ((id : ℕ) → env.write_fails id ≡ true)
    → IsWal w
    → w.write_off < 2 ^ 64
    → IsLog w st older
    → (st.pages w.tail_page_id).used_bytes + (w.write_off - w.flush_off)
      < payload_size * (length st.supply + 1)
    → let (w', st', r) = wal_flush env w st in
      (r ≡ ok tt)
      × (w'.flush_off ≡ w.write_off)
      × (w'.write_off ≡ w.write_off)
      × ((id : ℕ) → st'.disk id ≡ st.disk id)
flush_unwritten env w st older fine fails b small v enough =
    let (r, a) = flush_appends env fine w st older b small v enough in
    (r, a.emptied, a.kept, a.carries.unwritten fails)
