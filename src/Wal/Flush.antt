-- ===== src/Wal/Flush.antt =====
-- What a flush of the write-ahead log of kernel/kds/wal.c adds to the text of its pages.
use kdbs.Common.{
  ℕ, zero, suc, ◌+◌, ◌-◌, ◌*◌, ◌%◌, ◌^◌, ◌≤◌, ◌<◌, ◌≡◌, refl, sym, ap, subst, ◌∙◌, inl, inr, List,
  ◌∷◌, ◌++◌, length, arith, ◌==◌, Bool-cases, ==_iff, some, none, ok,
}
use mathlib.Core.List.{append-nil, append_assoc}
use kdbs.Common.Bytes.{Bytes}
use kdbs.Wal.{Wal}
use kdbs.Wal.Ring.{ring_read, ring_read_append}
use kdbs.Wal.Append.{IsWal}
use kdbs.Wal.Pages.{
  LogPage, LogStore, LogEnv, payload_size, flush_loop, wal_flush, after_turn, Flushed, finish_flush,
}
use kdbs.Wal.Saved.{Carries, Carries-refl, Carries-trans}
use kdbs.Wal.Growth.{IsLog, text_of, is_full}
use kdbs.Wal.Turns.{SameBuffer}
use kdbs.Wal.Rounds.{turn-GoesOn}

-- The end of the loop.
pub record Ends (env : LogEnv) (w : Wal) (st : LogStore) (older : List ℕ) (start left : ℕ)
    (r : Flushed) : Type 0 where
  pub last : Wal
  pub store : LogStore
  pub chain : List ℕ
  pub is : r ≡ some (last, store, none)
  pub log : IsLog last store chain
  pub text : text_of last store chain ≡ text_of w st older ++ ring_read w.buf start left
  pub same : SameBuffer w last
  pub carries : Carries env st (w.tail_page_id ∷ older) store (last.tail_page_id ∷ chain)

-- The log has the first `n` bytes of the buffer in addition, and the buffer counts as empty.
pub record Appended (env : LogEnv) (w : Wal) (st : LogStore) (older : List ℕ) (n : ℕ) (w' : Wal)
    (st' : LogStore) : Type 0 where
  pub emptied : w'.flush_off ≡ w.write_off
  pub kept : w'.write_off ≡ w.write_off
  pub chain : List ℕ
  pub log : IsLog w' st' chain
  pub text : text_of w' st' chain ≡ text_of w st older ++ ring_read w.buf w.flush_off n
  pub carries : Carries env st (w.tail_page_id ∷ older) st' (w'.tail_page_id ∷ chain)

pub finish-Ends :
    (env : LogEnv) (w : Wal) (st : LogStore) (older : List ℕ) (start left end : ℕ) (r : Flushed)
    → start ≡ w.flush_off
    → Ends env w st older start left r
    → end ≡ w.write_off
    → let (w', st', x) = finish_flush w st end r in
      (x ≡ ok tt) × Appended env w st older left w' st'
finish-Ends env w st older start left end r first h whole =
    subst
      (λ (q : Flushed).
        let (w', st', x) = finish_flush w st end q in
        (x ≡ ok tt) × Appended env w st older left w' st')
      (sym h.is)
      (
        refl,
        record {
          emptied = whole;
          kept = h.same.write_off;
          chain = h.chain;
          log = record {
            fits = h.log.fits;
            apart = h.log.apart;
            fresh = h.log.fresh;
            linked = h.log.linked;
          };
          text = h.text ∙ ap (λ (o : ℕ). text_of w st older ++ ring_read w.buf o left) first;
          carries = record { saves = h.carries.saves; unwritten = h.carries.unwritten };
        },
      )

pub is_full_le : (p : LogPage) → is_full p ≤ 1
is_full_le p = ground arith

module _ (env : LogEnv) (fine : (id : ℕ) → env.load_error id ≡ none) where
  loop-Ends :
      (fuel : ℕ) (w : Wal) (st : LogStore) (older : List ℕ) (start left : ℕ)
      → IsLog w st older
      → (st.pages w.tail_page_id).used_bytes + left < payload_size * (length st.supply + 1)
      → 2 * left + is_full (st.pages w.tail_page_id) < fuel
      → Ends env w st older start left (flush_loop env fuel w st start left)
  unfolding flush_loop ring_read
  loop-Ends zero w st older start left v enough h = absurd (omega (arith, h))
  loop-Ends (suc fuel) w st older start left v enough h = elim (Bool-cases (left == 0)) [
    | inl e ↦
        let none_left = (==_iff left 0).0 e in
        record {
          last = w;
          store = st;
          chain = older;
          is = rw e refl;
          log = v;
          text = sym (
              ap (λ (n : ℕ). text_of w st older ++ ring_read w.buf start n) none_left
              ∙ append-nil (text_of w st older));
          same = record { buf = refl; write_off = refl };
          carries = Carries-refl env st (w.tail_page_id ∷ older);
        }
    | inr e ↦
        let g = turn-GoesOn env fine w st older start left v (ground (arith, e)) enough in
        let n = g.written_bytes in
        let falls = g.falls in
        let rest =
          loop-Ends fuel g.next g.store g.chain (start + n) (left - n) g.log g.supplied
            (omega (arith, falls, h)) in
        record {
          last = rest.last;
          store = rest.store;
          chain = rest.chain;
          is = rw e (
              ap
                (after_turn λ (w' : Wal) (st' : LogStore) (k : ℕ).
                  flush_loop env fuel w' st' (start + k) (left - k))
                g.is_more
              ∙ rest.is);
          log = rest.log;
          text =
              rest.text
              ∙ ap
                  (λ (b : Bytes).
                    text_of g.next g.store g.chain ++ ring_read b (start + n) (left - n))
                  g.same.buf
              ∙ ap (λ (xs : List ℕ). xs ++ ring_read w.buf (start + n) (left - n)) g.text
              ∙ append_assoc (text_of w st older) (ring_read w.buf start n)
                  (ring_read w.buf (start + n) (left - n))
              ∙ ap (λ (xs : List ℕ). text_of w st older ++ xs)
                  (sym (ring_read_append w.buf start n (left - n))
                    ∙ ap (ring_read w.buf start) (let le = g.within in omega (arith, le)));
          same = record {
            buf = rest.same.buf ∙ g.same.buf;
            write_off = rest.same.write_off ∙ g.same.write_off;
          };
          carries =
              Carries-trans env st g.store rest.store (w.tail_page_id ∷ older)
                (g.next.tail_page_id ∷ g.chain) (rest.last.tail_page_id ∷ rest.chain) g.carries
                rest.carries;
        }
  ]

  -- A flush of a log whose pages load, and whose allocator has the pages that the buffered bytes
  -- fill, succeeds: the text of the log then is that of before and the bytes that were
  -- buffered, its pages are linked and end in the tail, and nothing is left in the buffer.
  pub flush_appends :
      (w : Wal) (st : LogStore) (older : List ℕ)
      → IsWal w
      → w.write_off < 2 ^ 64
      → IsLog w st older
      → (st.pages w.tail_page_id).used_bytes + (w.write_off - w.flush_off)
        < payload_size * (length st.supply + 1)
      → let (w', st', r) = wal_flush env w st in
        (r ≡ ok tt) × Appended env w st older (w.write_off - w.flush_off) w' st'
  unfolding wal_flush ring_read
  flush_appends w st older b small v enough =
      let o = b.ordered in
      let size : (w.write_off + 2 ^ 64 - w.flush_off) % 2 ^ 64 ≡ w.write_off - w.flush_off =
        omega (arith, o, small) in
      elim (Bool-cases (w.flush_off == w.write_off)) [
        | inl e ↦
            let all_out : w.write_off - w.flush_off ≡ 0 = ground (arith, e) in
            rw (e, all_out)
              (
                refl,
                record {
                  emptied = (==_iff w.flush_off w.write_off).0 e;
                  kept = refl;
                  chain = older;
                  log = v;
                  text = sym (append-nil (text_of w st older));
                  carries = Carries-refl env st (w.tail_page_id ∷ older);
                },
              )
        | inr e ↦
            let n = w.write_off - w.flush_off in
            let full = is_full_le (st.pages w.tail_page_id) in
            rw (e, size)
              (finish-Ends env w st older w.flush_off n w.write_off
                (flush_loop env (n + n + 2) w st w.flush_off n) refl
                (loop-Ends (n + n + 2) w st older w.flush_off n v enough (omega (arith, full)))
                refl)
      ]
