-- ===== src/PageAlloc/Handout.antt =====
-- What taking frames from the ring does: `kds_page_alloc` and the shutdown.
use kdbs.Common.{
  ℕ, zero, suc, ◌≤◌, ◌≡◌, ◌≢◌, refl, sym, ap, ◌∙◌, inl, inr, false, List, [], ◌∷◌, Option, none,
  some, arith, length, ◌==◌, ==_iff, Bool-cases, Option-cases,
}
use kdbs.PageAlloc.Places.{Ring, ring_count, ring_take}
use kdbs.PageAlloc.Queue.{
  IsRing, staged, staged_from, take-count, take_hands_out, length-staged_from,
}
use kdbs.PageAlloc.{Pool, Allocator, page_alloc, drain}

abbrev head_of : {A : Type 0} (x : A) → List A → A
head_of x [] = x
head_of x (y ∷ ys) = y

abbrev tail_of : {A : Type 0} → List A → List A
tail_of [] = []
tail_of (x ∷ xs) = xs

-- The pins that the frames in a list of places hold are given back.
abbrev pub unpin_all : {S : Type 0} → Pool S → List (Option ℕ) → S → S
unpin_all ops [] pool = pool
unpin_all ops (none ∷ places) pool = unpin_all ops places pool
unpin_all ops (some f ∷ places) pool = unpin_all ops places (ops.unpin pool f)

staged_empty : (r : Ring) → ring_count r ≡ 0 → staged r ≡ []
staged_empty r h = ap (staged_from r.places r.cursor) h

module _ {S : Type 0} (ops : Pool S) where
  -- Where a frame is staged first, `kds_page_alloc` returns it, gives its header the type asked
  -- for, and leaves the others staged in their order. The superblock is not touched.
  pub page_alloc_hands_out :
      (a : Allocator S) (type f : ℕ) (rest : List (Option ℕ))
      → IsRing a.ring
      → staged a.ring ≡ some f ∷ rest
      → let (a', got) = page_alloc ops a type in
        (got ≡ some f)
        × IsRing a'.ring
        × (staged a'.ring ≡ rest)
        × (a'.pool ≡ ops.set_type a.pool f type)
        × (a'.sb ≡ a.sb)
  unfolding page_alloc
  page_alloc_hands_out a type f rest v h =
      let n : length (staged a.ring) ≡ suc (length rest) = ap length h in
      let c : ring_count a.ring ≢ 0 =
        omega (arith, n, length-staged_from a.ring.places a.ring.cursor (ring_count a.ring)) in
      let z : (ring_count a.ring == 0) ≡ false = ground (arith, c) in
      let t = take_hands_out a.ring v c in
      let e = sym t.1 ∙ h in
      let e1 : (ring_take a.ring).1 ≡ some f = ap (head_of none) e in
      rw (page_alloc, z, e1) (refl, t.0, ap tail_of e, refl, refl)

  -- The shutdown loop ends with an empty ring in as many rounds as frames are staged, and gives
  -- back the pin of every staged frame, in their order.
  pub drain_empties :
      (rounds : ℕ) (a : Allocator S)
      → IsRing a.ring
      → ring_count a.ring ≤ rounds
      → (ring_count (drain ops rounds a).ring ≡ 0)
        × ((drain ops rounds a).pool ≡ unpin_all ops (staged a.ring) a.pool)
  unfolding drain
  drain_empties zero a v h =
      let z : ring_count a.ring ≡ 0 = omega (arith, h) in
      (z, sym (ap (λ s. unpin_all ops s a.pool) (staged_empty a.ring z)))
  drain_empties (suc rounds) a v h = elim (Bool-cases (ring_count a.ring == 0)) [
    | inl e ↦
        let z : ring_count a.ring ≡ 0 = (==_iff (ring_count a.ring) 0).0 e in
        rw (drain, e) (z, sym (ap (λ s. unpin_all ops s a.pool) (staged_empty a.ring z)))
    | inr e ↦
        let c : ring_count a.ring ≢ 0 = ground (arith, e) in
        let t = take_hands_out a.ring v c in
        let n = take-count a.ring v c in
        elim (Option-cases (ring_take a.ring).1) [
          | inl q ↦
              let ih =
                drain_empties rounds (record a { ring = (ring_take a.ring).0 }) t.0
                  (omega (arith, n.0, h)) in
              rw (drain, e, q)
                (
                  ih.0,
                  ih.1
                      ∙ sym (
                          ap (λ s. unpin_all ops s a.pool)
                            (t.1 ∙ ap (λ x. x ∷ staged (ring_take a.ring).0) q)),
                )
          | inr (f, q) ↦
              let ih =
                drain_empties rounds
                  (record a { ring = (ring_take a.ring).0; pool = ops.unpin a.pool f }) t.0
                  (omega (arith, n.0, h)) in
              rw (drain, e, q)
                (
                  ih.0,
                  ih.1
                      ∙ sym (
                          ap (λ s. unpin_all ops s a.pool)
                            (t.1 ∙ ap (λ x. x ∷ staged (ring_take a.ring).0) q)),
                )
        ]
  ]
