-- ===== src/Btree/Removal.antt =====
-- What removing from a node does to its keys and slots.
use kdbs.Common.{
  ℕ, zero, suc, ◌+◌, ◌-◌, ◌%◌, ◌^◌, ◌≤◌, ◌<◌, ◌≡◌, refl, arith, inl, inr, ltb, leb, ◌==◌, ◌&&◌,
  if◌then◌else◌,
}
use kdbs.Btree.Node.{
  at_count, at_level, at_next, at_prev, at_key, at_slot, put, shift_down, btree_node_remove_at,
  btree_node_insert_at,
}
use kdbs.Btree.Slots.{insert-key, insert-slot, insert-count, insert-rest}

shift_down_lem :
    (n i end : ℕ) (w : ℕ → ℕ) (j : ℕ)
    → end ≡ i + n
    → shift_down n i w j ≡ (if leb i j && ltb j end then w (j + 1) else w j)
unfolding shift_down
shift_down_lem zero i end w j e = ground (arith, e)
shift_down_lem (suc n) i end w j e =
    let ih = shift_down_lem n (i + 1) end (put w i (w (i + 1))) j (omega (arith, e)) in
    ground (arith, ih, e)

-- Removing at a position of a node with one to four keys, and what it moves.
module _ (w : ℕ → ℕ) (pos : ℕ) (some_key : 0 < w at_count) (few : w at_count ≤ 4)
    (h : pos < w at_count) where
  keys_down :
      (j : ℕ)
      → shift_down ((w at_count + 2 ^ 64 - 1) % 2 ^ 64 - pos) (at_key pos) w j
        ≡ (if leb (at_key pos) j && ltb j (at_key (w at_count - 1)) then w (j + 1) else w j)
  keys_down j =
      shift_down_lem ((w at_count + 2 ^ 64 - 1) % 2 ^ 64 - pos) (at_key pos)
        (at_key (w at_count - 1)) w j (omega (arith, some_key, few, h))

  remove_lem :
      (j : ℕ)
      → btree_node_remove_at w pos j ≡ (
          if j == at_count
          then w at_count - 1
          else if leb (at_key pos) j && ltb j (at_key (w at_count - 1))
          then w (j + 1)
          else if leb (at_slot (pos + 1)) j && ltb j (at_slot (w at_count))
          then w (j + 1)
          else w j)
  unfolding btree_node_remove_at
  remove_lem j =
      let w1 = shift_down ((w at_count + 2 ^ 64 - 1) % 2 ^ 64 - pos) (at_key pos) w in
      let c : w1 at_count ≡ w at_count = ground (arith, keys_down at_count) in
      let b =
        shift_down_lem (w1 at_count - (pos + 1)) (at_slot (pos + 1)) (at_slot (w at_count)) w1 in
      let b1 = b j (omega (arith, c, h)) in
      let b2 = b at_count (omega (arith, c, h)) in
      ground (arith, b1, b2, c, keys_down j, keys_down (j + 1), few, some_key, h)

-- Removing what was just inserted gives the node back: its level, number of keys, keys, slots and
-- links. (The words behind the last key and the last slot may differ.)
remove-insert :
    (w : ℕ → ℕ) (pos key slot : ℕ)
    → w at_count < 4
    → pos ≤ w at_count
    → let w' = btree_node_remove_at (btree_node_insert_at w pos key slot) pos in
      (w' at_count ≡ w at_count)
      × ((i : ℕ) → i < w at_count → w' (at_key i) ≡ w (at_key i))
      × ((i : ℕ) → i ≤ w at_count → w' (at_slot i) ≡ w (at_slot i))
      × (w' at_level ≡ w at_level)
      × (w' at_next ≡ w at_next)
      × (w' at_prev ≡ w at_prev)
remove-insert w pos key slot room h =
    let w1 = btree_node_insert_at w pos key slot in
    let c = insert-count w pos key slot room h in
    let r = remove_lem w1 pos (omega (arith, c)) (omega (arith, c, room)) (omega (arith, c, h)) in
    (
      ground (arith, r at_count, c),
      (λ i l. ground (
        arith,
        r (at_key i),
        c,
        l,
        insert-key w pos key slot room h i (omega (arith, l, room)),
        insert-key w pos key slot room h (i + 1) (omega (arith, l, room)),
      )),
      (λ i l. ground (
        arith,
        r (at_slot i),
        c,
        l,
        insert-slot w pos key slot room h i (omega (arith, l, room)),
        insert-slot w pos key slot room h (i + 1) (omega (arith, l, room)),
      )),
      ground (arith, r at_level, c, insert-rest w pos key slot room h 0 (inl refl)),
      ground (arith, r at_next, c, insert-rest w pos key slot room h 11 (inr (inl refl)), room),
      ground (arith, r at_prev, c, insert-rest w pos key slot room h 12 (inr (inr refl)), room),
    )
