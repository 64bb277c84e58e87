-- ===== src/Wal/Rounds.antt =====
-- Every round of the loop of `kds_wal_flush` in kernel/kds/wal.c goes on, where nothing fails.
use kdbs.Common.{
  ℕ, ◌+◌, ◌*◌, ◌≤◌, ◌<◌, ◌≡◌, refl, sym, ap, ◌∙◌, inl, inr, true, false, List, ◌∷◌, length, arith,
  ◌==◌, Bool-cases, List-cases, leb, none, Option, Errno,
}
use mathlib.Core.List.{append-nil}
use kdbs.Wal.{Wal, lsn_make}
use kdbs.Wal.Ring.{ring_read}
use kdbs.Wal.Pages.{
  LogPage, LogStore, LogEnv, payload_size, put_page, fresh_page, set_tail, bump_seg, alloc_from,
  wal_alloc_page, link_page, more, space_of, wal_turn, next_tail, grow, frame_flush, flush_if,
}
use kdbs.Wal.Growth.{
  IsLog, text_of, grown, grown_page, grown-IsLog, grown_text, written-IsLog, written_text,
}
use kdbs.Wal.Saved.{written-Carries, grown-Carries, linked-Carries, Carries-trans}
use kdbs.Wal.Turns
use kdbs.Wal.Turns.{SameBuffer, GoesOn}

module _ (env : LogEnv) (fine : (id : ℕ) → env.load_error id ≡ none) (w : Wal) (st : LogStore)
    (older : List ℕ) (start left : ℕ) (v : IsLog w st older) (some_left : 0 < left)
    (enough : (st.pages w.tail_page_id).used_bytes + left
      < payload_size * (length st.supply + 1)) where
  abbrev tail : LogPage
  tail = st.pages w.tail_page_id

  full_turn :
      payload_size ≤ tail.used_bytes
      → GoesOn env w st older start left (wal_turn env w st start left)
  unfolding wal_alloc_page ring_read
  full_turn full = elim (List-cases st.supply) [
    | inl none_left ↦ absurd (omega (arith, ap length none_left, enough, some_left, full))
    | inr (id, ids, e) ↦
        let fits = v.fits in
        let seg = (bump_seg w).tail_seg_no in
        let lsn = lsn_make w.tail_page_id w.tail_used in
        let no_space : (space_of tail == 0) ≡ true = ground (arith, full, fits) in
        let f = fine w.tail_page_id in
        let page = grown_page w st older id seg lsn ids v e in
        let was_full : leb payload_size tail.used_bytes ≡ true = ground (arith, full) in
        record {
          next = set_tail w id;
          store = grown w st older id seg lsn ids;
          chain = w.tail_page_id ∷ older;
          written_bytes = 0;
          is_more =
              Turns.turn_is_grow env fine w st older start left v no_space
              ∙ ap (λ (xs : List ℕ). grow env w st (alloc_from st seg lsn xs)) e
              ∙ ap
                  (λ (o : Option Errno).
                    more (set_tail w id)
                      (link_page (record (put_page st id (fresh_page seg lsn)) { supply = ids }) o
                        w.tail_page_id id)
                      0)
                  f;
          log = grown-IsLog w st older id seg lsn ids v e;
          text = grown_text w st older id seg lsn ids v e ∙ sym (append-nil (text_of w st older));
          same = record { buf = refl; write_off = refl };
          within = omega arith;
          falls = rw page (rw was_full (omega arith));
          supplied = rw page (omega (arith, enough, full, ap length e));
          carries = grown-Carries env w st older v id seg lsn ids e;
        }
  ]

  module _ (partly : (st.pages w.tail_page_id).used_bytes < payload_size) where
    abbrev chunk : ℕ
    chunk = Turns.chunk env fine w st older start left v partly

    abbrev st1 : LogStore
    st1 = Turns.st1 env fine w st older start left v partly

    abbrev w1 : Wal
    w1 = Turns.w1 env fine w st older start left v partly

    partial_turn :
        w1.tail_used < payload_size
        → GoesOn env w st older start left (wal_turn env w st start left)
    partial_turn small =
        let not_full : leb payload_size w1.tail_used ≡ false = ground (arith, small) in
        let was : leb payload_size tail.used_bytes ≡ false = ground (arith, partly) in
        let all : chunk ≡ left =
          omega (arith, small, (Turns.used_is env fine w st older start left v partly), partly) in
        record {
          next = w1;
          store = st1;
          chain = older;
          written_bytes = chunk;
          is_more = (Turns.room_turn env fine w st older start left v partly) ∙ rw not_full refl;
          log =
              written-IsLog env w st older start chunk v
                (Turns.chunk_fits env fine w st older start left v partly) w1.tail_used;
          text =
              written_text env w st older start chunk v
                (Turns.chunk_fits env fine w st older start left v partly);
          same = record { buf = refl; write_off = refl };
          within = omega arith;
          falls = rw (not_full, was) (omega (arith, all, some_left));
          supplied =
              omega (arith, all, enough, Turns.used_is env fine w st older start left v partly);
          carries =
              written-Carries env w st older v start chunk
                (Turns.chunk_fits env fine w st older start left v partly);
        }

    filling_turn :
        payload_size ≤ w1.tail_used
        → GoesOn env w st older start left (wal_turn env w st start left)
    unfolding wal_alloc_page
    filling_turn large = elim (List-cases st.supply) [
      | inl none_left ↦ absurd (
          omega (
            arith,
            ap length none_left,
            enough,
            some_left,
            large,
            Turns.used_is env fine w st older start left v partly,
          ))
      | inr (id, ids, e) ↦
          let seg = (bump_seg w1).tail_seg_no in
          let lsn = lsn_make w1.tail_page_id w1.tail_used in
          let f = fine w.tail_page_id in
          let v1 =
            written-IsLog env w st older start chunk v
              (Turns.chunk_fits env fine w st older start left v partly) w1.tail_used in
          let page = grown_page w1 st1 older id seg lsn ids v1 e in
          let is_now_full : leb payload_size w1.tail_used ≡ true = ground (arith, large) in
          let was : leb payload_size tail.used_bytes ≡ false = ground (arith, partly) in
          let some_chunk : 0 < chunk = omega (arith, some_left, partly) in
          record {
            next = set_tail w1 id;
            store = frame_flush env (grown w1 st1 older id seg lsn ids) w.tail_page_id;
            chain = w.tail_page_id ∷ older;
            written_bytes = chunk;
            is_more =
                (Turns.room_turn env fine w st older start left v partly)
                ∙ rw is_now_full (
                    ap (λ (xs : List ℕ). next_tail env w1 st1 chunk (alloc_from st1 seg lsn xs)) e
                    ∙ ap
                        (λ (o : Option Errno).
                          more (set_tail w1 id)
                            (flush_if env
                              (link_page
                                (record (put_page st1 id (fresh_page seg lsn)) { supply = ids }) o
                                w.tail_page_id id)
                              o w.tail_page_id)
                            chunk)
                        f);
            log =
                let l = grown-IsLog w1 st1 older id seg lsn ids v1 e in
                record { fits = l.fits; apart = l.apart; fresh = l.fresh; linked = l.linked };
            text =
                grown_text w1 st1 older id seg lsn ids v1 e
                ∙ written_text env w st older start chunk v
                    (Turns.chunk_fits env fine w st older start left v partly);
            same = record { buf = refl; write_off = refl };
            within = omega arith;
            falls = rw page (rw was (omega (arith, some_chunk)));
            supplied = rw page (
                omega (
                  arith,
                  enough,
                  ap length e,
                  large,
                  Turns.used_is env fine w st older start left v partly,
                ));
            carries =
                Carries-trans env st st1
                  (frame_flush env (grown w1 st1 older id seg lsn ids) w.tail_page_id)
                  (w.tail_page_id ∷ older) (w.tail_page_id ∷ older) (id ∷ (w.tail_page_id ∷ older))
                  (written-Carries env w st older v start chunk
                    (Turns.chunk_fits env fine w st older start left v partly))
                  (linked-Carries env w1 st1 older v1 id seg lsn ids e);
          }
    ]

  pub turn-GoesOn : GoesOn env w st older start left (wal_turn env w st start left)
  turn-GoesOn = elim (Bool-cases (leb payload_size tail.used_bytes)) [
    | inl e ↦ full_turn (ground (arith, e))
    | inr e ↦
        let partly : tail.used_bytes < payload_size = ground (arith, e) in
        elim (Bool-cases (leb payload_size (w1 partly).tail_used)) [
          | inl h ↦ filling_turn partly (ground (arith, h))
          | inr h ↦ partial_turn partly (ground (arith, h))
        ]
  ]
