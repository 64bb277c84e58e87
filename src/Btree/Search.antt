-- ===== src/Btree/Search.antt =====
-- Where a key stands among the keys of a node.
use kdbs.Common.{
  ℕ, zero, suc, ◌+◌, ◌-◌, ◌/◌, ◌≤◌, ◌<◌, ◌≡◌, refl, arith, inl, inr, ltb, leb, ◌==◌, Bool-cases,
  ltb→lt, ==_iff, ◌⊎◌, ◌≢◌, ap,
}
use kdbs.Btree.Node.{
  at_count, at_key, search_from, btree_search_position, binary_from, btree_search_position_binary,
}

-- The keys of a node grow strictly.
abbrev pub IsSorted : (ℕ → ℕ) → Type 0
IsSorted w = (i j : ℕ) → i < j → j < w at_count → w (at_key i) < w (at_key j)

-- `p` is the first place among `n` keys whose key is not below `key`.
pub record IsPosition (w : ℕ → ℕ) (key n p : ℕ) : Type 0 where
  pub within : p ≤ n
  pub below : (i : ℕ) → i < p → w (at_key i) < key
  pub reached : p < n → key ≤ w (at_key p)

-- `below` for one more place.
below_next :
    (w : ℕ → ℕ) (key i : ℕ)
    → ((j : ℕ) → j < i → w (at_key j) < key)
    → w (at_key i) < key
    → (j : ℕ) → j < i + 1
    → w (at_key j) < key
below_next w key i below l j h = elim (Bool-cases (j == i)) [
  | inl e ↦ (let q : j ≡ i = (==_iff j i).0 e in rw q l)
  | inr e ↦ below j (ground (arith, h, e))
]

search_from_lem :
    (w : ℕ → ℕ) (key n left i : ℕ)
    → n ≡ i + left
    → ((j : ℕ) → j < i → w (at_key j) < key)
    → IsPosition w key n (search_from w key left i)
unfolding search_from
search_from_lem w key n zero i s below = record {
  within = omega (arith, s);
  below = below;
  reached = λ h. omega (arith, h, s);
}
search_from_lem w key n (suc left) i s below = elim (Bool-cases (leb key (w (at_key i)))) [
  | inl e ↦
      rw (search_from, e)
        (record { within = omega (arith, s); below = below; reached = λ h. ground (arith, e) })
  | inr e ↦
      rw (search_from, e)
        (search_from_lem w key n left (i + 1) (omega (arith, s))
          (below_next w key i below (ground (arith, e))))
]

-- The position that `btree_search_position` returns is the first whose key is not below the key
-- looked for, or the number of keys where there is none.
pub search-IsPosition :
    (w : ℕ → ℕ) (key : ℕ) → IsPosition w key (w at_count) (btree_search_position w key)
unfolding btree_search_position
search-IsPosition w key =
    search_from_lem w key (w at_count) (w at_count) 0 (omega arith) (λ j h. omega (arith, h))

module _ (w : ℕ → ℕ) (key n : ℕ) where
  not_before : (p q : ℕ) → IsPosition w key n p → IsPosition w key n q → q ≤ p
  not_before p q a b = elim (Bool-cases (ltb p q)) [
    | inl e ↦
        let l = ltb→lt p q e in
        omega (arith, l, b.below p l, a.reached (omega (arith, l, b.within)))
    | inr e ↦ ground (arith, e)
  ]

  pub position_unique : (p q : ℕ) → IsPosition w key n p → IsPosition w key n q → p ≡ q
  position_unique p q a b = omega (arith, not_before p q a b, not_before q p b a)

  closed :
      (left stop pos : ℕ)
      → stop ≤ n
      → left ≡ stop
      → (pos ≡ left) ⊎ (pos ≡ stop)
      → ((j : ℕ) → j < left → w (at_key j) < key)
      → (stop < n → key ≤ w (at_key stop))
      → IsPosition w key n pos
  closed left stop pos a b d below above =
      let e : pos ≡ left = omega (arith, b, d) in
      let e' : pos ≡ stop = omega (arith, b, d) in
      record {
        within = omega (arith, a, e');
        below = λ j h. below j (omega (arith, h, e));
        reached = λ h. rw e' (above (omega (arith, h, e')));
      }

  -- Every key up to one below `key` is below `key`.
  under_mid :
      ((i j : ℕ) → i < j → j < n → w (at_key i) < w (at_key j))
      → (m : ℕ) → m < n
      → w (at_key m) < key
      → (j : ℕ) → j < m + 1
      → w (at_key j) < key
  under_mid s m h l = below_next w key m (λ j g. omega (arith, s j m g h, l)) l

  binary_from_lem :
      (fuel left stop pos : ℕ)
      → ((i j : ℕ) → i < j → j < n → w (at_key i) < w (at_key j))
      → stop ≤ n
      → left ≤ stop
      → stop - left ≤ fuel
      → (pos ≡ left) ⊎ (pos ≡ stop)
      → ((j : ℕ) → j < left → w (at_key j) < key)
      → (stop < n → key ≤ w (at_key stop))
      → IsPosition w key n (binary_from fuel w key left stop pos)
  unfolding binary_from
  binary_from_lem zero left stop pos s a b c d below above =
      closed left stop pos a (omega (arith, b, c)) d below above
  binary_from_lem (suc fuel) left stop pos s a b c d below above =
      let mid = (left + (stop - 1)) / 2 in
      elim (Bool-cases (ltb left stop)) [
        | inr e ↦ rw (binary_from, e) (closed left stop pos a (ground (arith, b, e)) d below above)
        | inl e ↦
            let l = ltb→lt left stop e in
            elim (Bool-cases (ltb key (w (at_key mid)))) [
              | inl k ↦
                  rw (binary_from, e, k)
                    (binary_from_lem fuel left mid mid s (omega (arith, a, l)) (omega (arith, l))
                      (omega (arith, c, l)) (inr refl) below (λ h. ground (arith, k)))
              | inr k ↦ elim (Bool-cases (ltb (w (at_key mid)) key)) [
                | inl k' ↦
                    let under = ltb→lt (w (at_key mid)) key k' in
                    rw (binary_from, e, k, k')
                      (binary_from_lem fuel (mid + 1) stop (mid + 1) s a (omega (arith, l))
                        (omega (arith, c, l)) (inl refl)
                        (under_mid s mid (omega (arith, a, l)) under) above)
                | inr k' ↦
                    let same : w (at_key mid) ≡ key = ground (arith, k, k') in
                    rw (binary_from, e, k, k')
                      (record {
                        within = omega (arith, a, l);
                        below = λ j h. omega (arith, s j mid h (omega (arith, a, l)), same);
                        reached = λ h. omega (arith, same);
                      })
              ]
            ]
      ]

-- On strictly sorted keys the binary search of a node returns the same position as the linear one.
pub binary_agrees :
    (w : ℕ → ℕ) (key : ℕ)
    → IsSorted w
    → btree_search_position_binary w key ≡ btree_search_position w key
unfolding btree_search_position_binary
binary_agrees w key s =
    position_unique w key (w at_count) (btree_search_position_binary w key)
      (btree_search_position w key)
      (binary_from_lem w key (w at_count) (w at_count) 0 (w at_count) 0 s (omega arith)
        (omega arith) (omega arith) (inl refl) (λ j h. omega (arith, h)) (λ h. omega (arith, h)))
      (search-IsPosition w key)

module _ (w : ℕ → ℕ) (key : ℕ) (sorted : IsSorted w)
    (fresh : (i : ℕ) → i < w at_count → w (at_key i) ≢ key) where
  -- The keys from the position on are above the key.
  pub above : (i : ℕ) → btree_search_position w key ≤ i → i < w at_count → key < w (at_key i)
  above i a b =
      let p = btree_search_position w key in
      let f = search-IsPosition w key in
      let l = f.reached (omega (arith, a, b)) in
      let n = fresh p (omega (arith, a, b)) in
      elim (Bool-cases (i == p)) [
        | inl q ↦ let z : i ≡ p = (==_iff i p).0 q in ground (arith, l, n, ap (λ x. w (at_key x)) z)
        | inr q ↦ omega (arith, l, sorted p i (ground (arith, q, a)) b)
      ]
