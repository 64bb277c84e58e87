-- ===== src/Wal/Ring.antt =====
-- The ring of kernel/kds/wal.c as the sequence of the bytes that are buffered.
use kdbs.Common.{
  ℕ, zero, suc, ◌+◌, ◌-◌, ◌%◌, ◌≤◌, ◌<◌, ◌≡◌, refl, sym, ap, ◌∙◌, inl, inr, true, false, List, [],
  ◌∷◌, ◌++◌, length, length-take, get_or, take, drop, arith, ltb, leb, Bool-cases,
}
use kdbs.Common.Bytes.{Bytes, store, store_inside, store_outside}
use kdbs.Wal.{buf_size, ring_write}

-- The `n` bytes from an absolute offset on.
unfoldable pub ring_read : Bytes → ℕ → ℕ → List ℕ
ring_read b off zero = []
ring_read b off (suc n) = b (off % buf_size) ∷ ring_read b (off + 1) n

get_or-take : (n i d : ℕ) (bs : List ℕ) → i < n → get_or (take n bs) i d ≡ get_or bs i d
get_or-take zero i d bs h = absurd (omega arith)
get_or-take (suc n) i d [] h = refl
get_or-take (suc n) zero d (b ∷ bs) h = refl
get_or-take (suc n) (suc i) d (b ∷ bs) h = get_or-take n i d bs (omega arith)

get_or-drop : (n i d : ℕ) (bs : List ℕ) → get_or (drop n bs) i d ≡ get_or bs (n + i) d
get_or-drop zero i d bs = let e : 0 + i ≡ i = omega arith in rw (e) refl
get_or-drop (suc n) i d [] = refl
get_or-drop (suc n) i d (b ∷ bs) =
    let e : suc n + i ≡ suc (n + i) = omega arith in rw (e) (get_or-drop n i d bs)

length-drop : (n : ℕ) (bs : List ℕ) → length (drop n bs) ≡ length bs - n
length-drop zero bs = omega arith
length-drop (suc n) [] = omega arith
length-drop (suc n) (b ∷ bs) = omega (arith, length-drop n bs)

-- The two kinds of a copy.
module _ (b : Bytes) (off : ℕ) (bs : List ℕ) where
  abbrev in_two : ℕ → Bytes
  in_two first = store (store b (off % buf_size) (take first bs)) 0 (drop first bs)

  in_one_part :
      off % buf_size + length bs ≤ buf_size → ring_write b off bs ≡ store b (off % buf_size) bs
  unfolding ring_write
  in_one_part h =
      let t : leb (off % buf_size + length bs) buf_size ≡ true = ground arith in rw (t) refl

  in_two_parts :
      buf_size < off % buf_size + length bs
      → ring_write b off bs ≡ in_two (buf_size - off % buf_size)
  unfolding ring_write
  in_two_parts h =
      let t : leb (off % buf_size + length bs) buf_size ≡ false = ground arith in rw (t) refl

  module _ (p : ℕ) (small : length bs ≤ buf_size) where
    -- A place of the ring after a copy: the byte of the copy that falls on it, if one does.
    pub write_at :
        off ≤ p
        → p < off + length bs
        → (d : ℕ) → ring_write b off bs (p % buf_size) ≡ get_or bs (p - off) d
    write_at lo hi d = elim (Bool-cases (leb (off % buf_size + length bs) buf_size)) [
      | inl e ↦
          let place : p % buf_size ≡ off % buf_size + (p - off) = ground arith in
          ap (λ (q : Bytes). q (p % buf_size)) (in_one_part (ground arith))
          ∙ ap (store b (off % buf_size) bs) place
          ∙ store_inside b (off % buf_size) bs (p - off) d (omega (arith, hi, lo))
      | inr e ↦
          let first = buf_size - off % buf_size in
          let wraps : buf_size < off % buf_size + length bs = ground arith in
          ap (λ (q : Bytes). q (p % buf_size)) (in_two_parts wraps)
          ∙ elim (Bool-cases (ltb (p - off) first)) [
            | inl f ↦
                let place : p % buf_size ≡ off % buf_size + (p - off) = ground arith in
                let t = length-take first bs in
                store_outside (store b (off % buf_size) (take first bs)) 0 (drop first bs)
                  (p % buf_size)
                  (inr (let l = length-drop first bs in omega (arith, l, place, small)))
                ∙ ap (store b (off % buf_size) (take first bs)) place
                ∙ store_inside b (off % buf_size) (take first bs) (p - off) d (ground (arith, t))
                ∙ get_or-take first (p - off) d bs (ground arith)
            | inr f ↦
                let place : p % buf_size ≡ 0 + (p - off - first) = ground arith in
                let l = length-drop first bs in
                let whole : first + (p - off - first) ≡ p - off = ground arith in
                ap (in_two first) place
                ∙ store_inside (store b (off % buf_size) (take first bs)) 0 (drop first bs)
                    (p - off - first) d (omega (arith, l, hi, lo, wraps))
                ∙ get_or-drop first (p - off - first) d bs
                ∙ ap (λ k. get_or bs k d) whole
          ]
    ]

    pub write_apart :
        p < off
        → off + length bs ≤ p + buf_size
        → ring_write b off bs (p % buf_size) ≡ b (p % buf_size)
    write_apart lo hi = elim (Bool-cases (leb (off % buf_size + length bs) buf_size)) [
      | inl e ↦
          ap (λ (q : Bytes). q (p % buf_size)) (in_one_part (ground arith))
          ∙ store_outside b (off % buf_size) bs (p % buf_size)
              (elim (Bool-cases (ltb (p % buf_size) (off % buf_size))) [
                | inl h ↦ inl (ground arith)
                | inr h ↦ inr (ground arith)
              ])
      | inr e ↦
          let first = buf_size - off % buf_size in
          let wraps : buf_size < off % buf_size + length bs = ground arith in
          let l = length-drop first bs in
          let t = length-take first bs in
          ap (λ (q : Bytes). q (p % buf_size)) (in_two_parts wraps)
          ∙ store_outside (store b (off % buf_size) (take first bs)) 0 (drop first bs)
              (p % buf_size) (inr (omega (arith, l, lo, hi, wraps)))
          ∙ store_outside b (off % buf_size) (take first bs) (p % buf_size)
              (inl (omega (arith, lo, hi, wraps)))
    ]

ring_read_get :
    (q : Bytes) (off : ℕ) (bs : List ℕ)
    → ((i : ℕ) → i < length bs → q ((off + i) % buf_size) ≡ get_or bs i 0)
    → ring_read q off (length bs) ≡ bs
unfolding ring_read
ring_read_get q off [] h = refl
ring_read_get q off (c ∷ bs) h =
    let here : off + 0 ≡ off = omega arith in
    let first : q (off % buf_size) ≡ c =
      ap (λ k. q (k % buf_size)) (sym here) ∙ h 0 (omega arith) in
    rw (first) (
      ap (◌∷◌ c) (
        ring_read_get q (off + 1) bs (λ i l.
          let e : off + 1 + i ≡ off + suc i = omega arith in
          ap (λ k. q (k % buf_size)) e ∙ h (suc i) (omega (arith, l)))))

ring_read_congr :
    (q b : Bytes) (off n : ℕ)
    → ((p : ℕ) → off ≤ p → p < off + n → q (p % buf_size) ≡ b (p % buf_size))
    → ring_read q off n ≡ ring_read b off n
unfolding ring_read
ring_read_congr q b off zero h = refl
ring_read_congr q b off (suc n) h = rw (h off (omega arith) (omega arith)) (
    ap (◌∷◌ (b (off % buf_size)))
      (ring_read_congr q b (off + 1) n (λ p l r. h p (omega (arith, l)) (omega (arith, r)))))

pub ring_read_append :
    (q : Bytes) (off m n : ℕ)
    → ring_read q off (m + n) ≡ ring_read q off m ++ ring_read q (off + m) n
unfolding ring_read
ring_read_append q off zero n =
    let a : 0 + n ≡ n = omega arith in let b : off + 0 ≡ off = omega arith in rw (a, b) refl
ring_read_append q off (suc m) n =
    let a : suc m + n ≡ suc (m + n) = omega arith in
    let b : off + suc m ≡ off + 1 + m = omega arith in
    rw (a, b) (ap (◌∷◌ (q (off % buf_size))) (ring_read_append q (off + 1) m n))

-- A copy to the ring goes behind the bytes that are buffered, where they leave room for it.
pub write_appends :
    (b : Bytes) (flush off : ℕ) (bs : List ℕ)
    → flush ≤ off
    → off - flush + length bs ≤ buf_size
    → ring_read (ring_write b off bs) flush (off - flush + length bs)
      ≡ ring_read b flush (off - flush) ++ bs
write_appends b flush off bs before room =
    let q = ring_write b off bs in
    let small : length bs ≤ buf_size = omega (arith, room) in
    let start : flush + (off - flush) ≡ off = omega (arith, before) in
    ring_read_append q flush (off - flush) (length bs)
    ∙ ap (λ xs. xs ++ ring_read q (flush + (off - flush)) (length bs))
        (ring_read_congr q b flush (off - flush) (λ p l r.
          write_apart b off bs p small (omega (arith, r, before)) (omega (arith, l, room, before))))
    ∙ ap (λ k. ring_read b flush (off - flush) ++ ring_read q k (length bs)) start
    ∙ ap (λ xs. ring_read b flush (off - flush) ++ xs)
        (ring_read_get q off bs (λ i l.
          let e : off + i - off ≡ i = omega arith in
          write_at b off bs (off + i) small (omega arith) (omega (arith, l)) 0
          ∙ ap (λ k. get_or bs k 0) e))
