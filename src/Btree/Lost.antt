-- ===== src/Btree/Lost.antt =====
-- What splitting a full node does to the keys.
use kdbs.Common.{
  ℕ, suc, ◌-◌, ◌≤◌, ◌<◌, ◌≡◌, ◌≢◌, refl, arith, inl, inr, ltb, ◌==◌, if◌then◌else◌, Bool-cases,
}
use kdbs.Btree.Node.{
  at_count, at_key, btree_search_position, btree_node_insert_at, shift_up, copy_words,
}
use kdbs.Btree.Search.{IsSorted, above, search-IsPosition}
use kdbs.Btree.Slots.{shift_up-full_key}
use kdbs.Btree.Rebalance.{split_words}

shift_up-none : (pos : ℕ) (w : ℕ → ℕ) (j : ℕ) → shift_up 0 pos w j ≡ w j
unfolding shift_up
shift_up-none pos w j = refl

module _ (w : ℕ → ℕ) (pos key slot : ℕ) (full : w at_count ≡ 4) (h : pos ≤ 4) where
  full_insert-key :
      (i : ℕ)
      → i < 4
      → btree_node_insert_at w pos key slot (at_key i)
        ≡ (if ltb i pos then w (at_key i) else if i == pos then key else w (at_key (i - 1)))
  unfolding btree_node_insert_at
  full_insert-key i l = elim (Bool-cases (pos == 4)) [
    | inl e ↦
        let z : w at_count - pos ≡ 0 = ground (arith, e, full) in
        rw z (ground (arith, e, l, shift_up-none pos w (at_key i)))
    | inr e ↦
        let z : w at_count - pos ≡ suc (3 - pos) = ground (arith, e, full, h) in
        rw z (ground (arith, shift_up-full_key (3 - pos) pos w i (ground (arith, e, h)) l, e, l, h))
  ]

module _ (w : ℕ → ℕ) (key slot : ℕ) (full : w at_count ≡ 4) (sorted : IsSorted w)
    (fresh : (i : ℕ) → i < 4 → w (at_key i) ≢ key) where
  below_greatest :
      let pos = btree_search_position w key in
      (i : ℕ)
      → i < 4
      → btree_node_insert_at w pos key slot (at_key i) < (if pos == 4 then key else w (at_key 3))
  below_greatest i l =
      let pos = btree_search_position w key in
      let f = search-IsPosition w key in
      let h : pos ≤ 4 = omega (arith, f.within, full) in
      let k = full_insert-key w pos key slot full h i l in
      elim (Bool-cases (pos == 4)) [
        | inl e ↦ ground (arith, k, e, l, f.below i (ground (arith, e, l)))
        | inr e ↦
            let g =
              above w key sorted (λ j m. fresh j (omega (arith, m, full))) 3 (ground (arith, e, h))
                (omega (arith, full)) in
            elim (Bool-cases (ltb i pos)) [
              | inl u ↦
                  let s = sorted i 3 (ground (arith, u, e, h)) (omega (arith, full)) in
                  ground (arith, k, e, u, s)
              | inr u ↦ elim (Bool-cases (i == pos)) [
                | inl u' ↦ ground (arith, k, e, u, u', g)
                | inr u' ↦
                    let s = sorted (i - 1) 3 (ground (arith, u, u', l)) (omega (arith, full)) in
                    ground (arith, k, e, u, u', s)
              ]
            ]
      ]

-- Inserting into a full node and splitting it, as `kds_btree_cursor_insert` does, loses a key: of
-- the five keys, the greatest is above both keys of the left node, above the key of the right node
-- and above the promoted key, and so in none of these places.
pub split_loses :
    (w : ℕ → ℕ) (key slot id new_id : ℕ)
    → w at_count ≡ 4
    → IsSorted w
    → ((i : ℕ) → i < 4 → w (at_key i) ≢ key)
    → let pos = btree_search_position w key in
      let s = split_words (btree_node_insert_at w pos key slot) id new_id in
      let greatest = if pos == 4 then key else w (at_key 3) in
      (s.left at_count ≡ 2)
      × (s.left (at_key 0) < greatest)
      × (s.left (at_key 1) < greatest)
      × (s.promoted_key < greatest)
      × (s.right at_count ≡ 1)
      × (s.right (at_key 0) < greatest)
unfolding split_words copy_words
split_loses w key slot id new_id full sorted fresh =
    let b = below_greatest w key slot full sorted fresh in
    (refl, b 0 (omega arith), b 1 (omega arith), b 2 (omega arith), refl, b 3 (omega arith))
