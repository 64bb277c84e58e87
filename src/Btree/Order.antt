-- ===== src/Btree/Order.antt =====
-- Searching a node after an insertion: its keys stay sorted, and what a lookup takes from a leaf.
use kdbs.Common.{ℕ, ◌-◌, ◌<◌, ◌≢◌, arith, inl, inr, ltb, ◌==◌, Bool-cases}
use kdbs.Btree.Node.{at_count, at_key, btree_search_position, btree_node_insert_at}
use kdbs.Btree.Search.{IsSorted, above, search-IsPosition}
use kdbs.Btree.Slots.{insert-key, insert-count}

module _ (w : ℕ → ℕ) (key slot : ℕ) (room : w at_count < 4) (sorted : IsSorted w)
    (fresh : (i : ℕ) → i < w at_count → w (at_key i) ≢ key) where
  -- Inserting a key that is not there yet, at the position searched for, keeps the keys sorted.
  pub insert-IsSorted : IsSorted (btree_node_insert_at w (btree_search_position w key) key slot)
  insert-IsSorted i j l m =
      let p = btree_search_position w key in
      let f = search-IsPosition w key in
      let h = f.within in
      let c = insert-count w p key slot room h in
      let ki = insert-key w p key slot room h i (omega (arith, c, l, m, room)) in
      let kj = insert-key w p key slot room h j (omega (arith, c, m, room)) in
      elim (Bool-cases (ltb i p)) [
        | inl u ↦ elim (Bool-cases (ltb j p)) [
          | inl u' ↦ ground (arith, ki, kj, u, u', sorted i j l (ground (arith, h, u')))
          | inr u' ↦ elim (Bool-cases (j == p)) [
            | inl u'' ↦ ground (arith, ki, kj, u, u', u'', f.below i (ground (arith, u)))
            | inr u'' ↦
                let g =
                  above w key sorted fresh (j - 1) (ground (arith, u', u''))
                    (omega (arith, c, l, m)) in
                ground (arith, ki, kj, u, u', u'', c, m, f.below i (ground (arith, u)), g)
          ]
        ]
        | inr u ↦
            let g =
              above w key sorted fresh (j - 1) (ground (arith, u, l)) (omega (arith, c, l, m)) in
            elim (Bool-cases (i == p)) [
              | inl u' ↦ ground (arith, ki, kj, u, u', c, l, m, g)
              | inr u' ↦
                  let s =
                    sorted (i - 1) (j - 1) (ground (arith, u, u', l)) (omega (arith, c, l, m)) in
                  ground (arith, ki, kj, u, u', c, l, m, s)
            ]
      ]
