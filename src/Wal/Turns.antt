-- ===== src/Wal/Turns.antt =====
-- One round of the loop of `kds_wal_flush` in kernel/kds/wal.c.
use kdbs.Common.{
  ℕ, ◌+◌, ◌-◌, ◌*◌, ◌≤◌, ◌<◌, ◌≡◌, refl, ap, ◌∙◌, true, false, List, ◌∷◌, ◌++◌, length, arith, ◌==◌,
  if◌then◌else◌, leb, min, none,
}
use kdbs.Wal.{Wal}
use kdbs.Wal.Ring.{ring_read}
use kdbs.Wal.Pages.{
  LogPage, LogStore, LogEnv, payload_size, alloc_tail, Turn, more, space_of, write_chunk, wal_turn,
  next_tail, grow,
}
use kdbs.Wal.Saved.{Carries}
use kdbs.Wal.Growth.{IsLog, text_of, is_full, written, written_page, filled_used}

-- The buffer and its offsets.
pub record SameBuffer (w w' : Wal) : Type 0 where
  pub buf : w'.buf ≡ w.buf
  pub write_off : w'.write_off ≡ w.write_off

-- A round of the loop that goes on.
pub record GoesOn (env : LogEnv) (w : Wal) (st : LogStore) (older : List ℕ) (start left : ℕ)
    (t : Turn) : Type 0 where
  pub next : Wal
  pub store : LogStore
  pub chain : List ℕ
  pub written_bytes : ℕ
  pub is_more : t ≡ more next store written_bytes
  pub log : IsLog next store chain
  pub text : text_of next store chain ≡ text_of w st older ++ ring_read w.buf start written_bytes
  pub same : SameBuffer w next
  pub within : written_bytes ≤ left
  pub falls :
      2 * (left - written_bytes) + is_full (store.pages next.tail_page_id)
      < 2 * left + is_full (st.pages w.tail_page_id)
  pub supplied :
      (store.pages next.tail_page_id).used_bytes + (left - written_bytes)
      < payload_size * (length store.supply + 1)
  pub carries : Carries env st (w.tail_page_id ∷ older) store (next.tail_page_id ∷ chain)

module _ (env : LogEnv) (fine : (id : ℕ) → env.load_error id ≡ none) (w : Wal) (st : LogStore)
    (older : List ℕ) (start left : ℕ) (v : IsLog w st older) where
  abbrev pub tail : LogPage
  tail = st.pages w.tail_page_id

  pub turn_is_grow :
      (space_of tail == 0) ≡ true → wal_turn env w st start left ≡ grow env w st (alloc_tail w st)
  unfolding wal_turn
  turn_is_grow h = let f = fine w.tail_page_id in rw (f, h) refl

  turn_is_room :
      (space_of tail == 0) ≡ false
      → let chunk = min left (space_of tail) in
        let st1 = write_chunk env w st start chunk in
        let w1 = record w { tail_used = (st1.pages w.tail_page_id).used_bytes } in
        wal_turn env w st start left ≡ (
          if leb payload_size w1.tail_used
          then next_tail env w1 st1 chunk (alloc_tail w1 st1)
          else more w1 st1 chunk)
  unfolding wal_turn
  turn_is_room h = let f = fine w.tail_page_id in rw (f, h) refl

  module _ (partly : tail.used_bytes < payload_size) where
    abbrev pub chunk : ℕ
    chunk = min left (payload_size - tail.used_bytes)

    pub space_is : space_of tail ≡ payload_size - tail.used_bytes
    space_is = omega (arith, partly)

    pub chunk_fits : tail.used_bytes + chunk ≤ payload_size
    chunk_fits = omega (arith, partly)

    abbrev pub st1 : LogStore
    st1 = written env w st older start chunk v chunk_fits

    abbrev pub w1 : Wal
    w1 = record w { tail_used = (st1.pages w.tail_page_id).used_bytes }

    pub used_is : w1.tail_used ≡ tail.used_bytes + chunk
    used_is =
        ap (λ (p : LogPage). p.used_bytes) (written_page env w st older start chunk v chunk_fits)
        ∙ filled_used env w st older start chunk v chunk_fits

    pub room_turn : wal_turn env w st start left ≡ (
        if leb payload_size w1.tail_used
        then next_tail env w1 st1 chunk (alloc_tail w1 st1)
        else more w1 st1 chunk)
    room_turn =
        let some_space : (space_of tail == 0) ≡ false = ground (arith, space_is, partly) in
        turn_is_room some_space ∙ ap at_chunk (ap (min left) space_is)
      where
        at_chunk : ℕ → Turn
        at_chunk n =
            let s1 = write_chunk env w st start n in
            let u = record w { tail_used = (s1.pages w.tail_page_id).used_bytes } in
            if leb payload_size u.tail_used
            then next_tail env u s1 n (alloc_tail u s1)
            else more u s1 n
