-- ===== src/PageAlloc/Queue.antt =====
-- The ring is a queue of at most 127 staged frames.
use kdbs.Common.{
  ℕ, zero, suc, ◌+◌, ◌%◌, ◌<◌, ◌≡◌, ◌≢◌, ◌↔◌, refl, sym, ap, ◌∙◌, true, false, List, [], ◌∷◌, ◌++◌,
  Option, none, some, arith, length, get_or, set, length-set, get_or-set_self, get_or-set_ne,
}
use mathlib.Core.Path.{ap₂}
use kdbs.PageAlloc.Places.{
  Ring, ring_size, ring_is_full, ring_count, ring_free_slots, ring_push, ring_take,
}

-- The `n` places from `at` on, going round.
abbrev pub staged_from : List (Option ℕ) → ℕ → ℕ → List (Option ℕ)
staged_from places at zero = []
staged_from places at (suc n) = get_or places at none ∷ staged_from places ((at + 1) % ring_size) n

-- What the ring holds, the next frame to be handed out first.
abbrev pub staged : Ring → List (Option ℕ)
staged r = staged_from r.places r.cursor (ring_count r)

pub record IsRing (r : Ring) : Type 0 where
  pub size : length r.places ≡ ring_size
  pub cursor_in : r.cursor < ring_size
  pub reserved_in : r.reserved < ring_size

-- A write outside the window does not show.
staged_from-set_outside :
    (places : List (Option ℕ)) (x : Option ℕ) (i : ℕ) (n at : ℕ)
    → at < ring_size
    → ((k : ℕ) → k < n → (at + k) % ring_size ≢ i)
    → staged_from (set places i x) at n ≡ staged_from places at n
staged_from-set_outside places x i zero at h out = refl
staged_from-set_outside places x i (suc n) at h out =
    let here : at ≢ i = (λ e. out 0 (omega arith) (omega arith)) in
    ap₂ ◌∷◌ (get_or-set_ne places i at x none (λ e. here (sym e))) (
      staged_from-set_outside places x i n ((at + 1) % ring_size) (omega arith)
        (λ k l e. out (suc k) (omega arith) (omega arith)))

-- A write just behind the window extends it.
staged_from-set_next :
    (places : List (Option ℕ)) (x : Option ℕ) (i n at : ℕ)
    → length places ≡ ring_size
    → at < ring_size
    → n < 127
    → i ≡ (at + n) % ring_size
    → staged_from (set places i x) at (suc n) ≡ staged_from places at n ++ (x ∷ [])
staged_from-set_next places x i zero at s h k e =
    let here : i ≡ at = omega arith in rw (here, get_or-set_self places at x none (omega arith))
staged_from-set_next places x i (suc n) at s h k e =
    ap₂ ◌∷◌ (get_or-set_ne places i at x none (omega arith)) (
      staged_from-set_next places x i n ((at + 1) % ring_size) s (omega arith) (omega arith)
        (omega arith))

-- The count, the free places and the full test agree: at most 127 frames are staged.
pub ring_counts :
    (r : Ring)
    → IsRing r
    → (ring_count r + ring_free_slots r ≡ 127) × ((ring_is_full r ≡ true) ↔ (ring_count r ≡ 127))
unfolding ring_count ring_free_slots ring_is_full
ring_counts r v =
    let a = v.cursor_in in
    let b = v.reserved_in in (omega arith, (λ e. ground arith, λ e. ground arith))

module _ (r : Ring) (v : IsRing r) where
  pub push-count :
      (frame : ℕ)
      → ring_is_full r ≡ false
      → (ring_count (ring_push r frame) ≡ suc (ring_count r))
        × (ring_count r < 127)
        × (r.reserved ≡ (r.cursor + ring_count r) % ring_size)
  unfolding ring_count ring_push ring_is_full
  push-count frame h =
      let a = v.cursor_in in
      let b = v.reserved_in in
      let c : (r.reserved + 1) % ring_size ≢ r.cursor = ground arith in
      (omega arith, omega arith, omega arith)

  -- Unless the ring is full, a push puts the frame behind all that are staged.
  pub push_stages :
      (frame : ℕ)
      → ring_is_full r ≡ false
      → IsRing (ring_push r frame) × (staged (ring_push r frame) ≡ staged r ++ (some frame ∷ []))
  unfolding ring_push
  push_stages frame h =
      let a = v.cursor_in in
      let b = v.reserved_in in
      let c = push-count frame h in
      (
        record {
          size = length-set r.places r.reserved (some frame) ∙ v.size;
          cursor_in = v.cursor_in;
          reserved_in = omega arith;
        },
        rw c.0 (
            staged_from-set_next r.places (some frame) r.reserved (ring_count r) r.cursor v.size
              v.cursor_in c.1 c.2),
      )

  pub take-count :
      ring_count r ≢ 0
      → (ring_count r ≡ suc (ring_count (ring_take r).0)) × (ring_count (ring_take r).0 < 127)
  unfolding ring_count ring_take
  take-count h = let a = v.cursor_in in let b = v.reserved_in in (omega arith, omega arith)

  -- Unless the ring is empty, a take hands out the frame that was staged first.
  pub take_hands_out :
      ring_count r ≢ 0
      → IsRing (ring_take r).0 × (staged r ≡ (ring_take r).1 ∷ staged (ring_take r).0)
  unfolding ring_take
  take_hands_out h =
      let a = v.cursor_in in
      let c = take-count h in
      (
        record {
          size = length-set r.places r.cursor none ∙ v.size;
          cursor_in = omega arith;
          reserved_in = v.reserved_in;
        },
        rw c.0 (
            ap (◌∷◌ (get_or r.places r.cursor none)) (
              sym (
                staged_from-set_outside r.places none r.cursor (ring_count (ring_take r).0)
                  ((r.cursor + 1) % ring_size) (omega arith) (λ k l e. omega arith)))),
      )

pub length-staged_from :
    (places : List (Option ℕ)) (at n : ℕ) → length (staged_from places at n) ≡ n
length-staged_from places at zero = refl
length-staged_from places at (suc n) = ap suc (length-staged_from places ((at + 1) % ring_size) n)
