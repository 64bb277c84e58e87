-- ===== src/Btree/Slots.antt =====
-- What inserting into a node does to its keys and slots.
use kdbs.Common.{
  ◌⊎◌, ap, ℕ, zero, suc, ◌+◌, ◌-◌, ◌≤◌, ◌<◌, ◌≡◌, refl, arith, inl, inr, ltb, leb, ◌==◌, ◌&&◌,
  if◌then◌else◌, Bool-cases, ==_iff,
}
use kdbs.Btree.Node.{
  put, at_count, at_key, at_slot, at_next, at_level, at_prev, shift_up, btree_node_insert_at,
}

shift_up_lem :
    (n pos c : ℕ) (w : ℕ → ℕ) (j : ℕ)
    → c ≡ pos + n
    → c < 4
    → shift_up n pos w j ≡ (
        if ltb (at_key pos) j && leb j (at_key c)
        then w (j - 1)
        else if ltb (at_slot (pos + 1)) j && leb j (at_slot (c + 1))
        then w (j - 1)
        else w j)
unfolding shift_up
shift_up_lem zero pos c w j e h = ground (arith, e)
shift_up_lem (suc n) pos c w j e h =
    let w1 = put w (at_key (pos + suc n)) (w (at_key (pos + n))) in
    let w2 = put w1 (at_slot (pos + suc n + 1)) (w1 (at_slot (pos + suc n))) in
    let ih = shift_up_lem n pos (pos + n) w2 j refl (omega (arith, e, h)) in
    ground (arith, ih, e, h)

module _ (w : ℕ → ℕ) (pos key slot : ℕ) (room : w at_count < 4) (h : pos ≤ w at_count) where
  shifted :
      (j : ℕ)
      → shift_up (w at_count - pos) pos w j ≡ (
          if ltb (at_key pos) j && leb j (at_key (w at_count))
          then w (j - 1)
          else if ltb (at_slot (pos + 1)) j && leb j (at_slot (w at_count + 1))
          then w (j - 1)
          else w j)
  shifted j = shift_up_lem (w at_count - pos) pos (w at_count) w j (omega (arith, h)) room

  pub insert-key :
      (i : ℕ)
      → i < 4
      → btree_node_insert_at w pos key slot (at_key i) ≡ (
          if ltb i pos
          then w (at_key i)
          else if i == pos
          then key
          else if leb i (w at_count)
          then w (at_key (i - 1))
          else w (at_key i))
  unfolding btree_node_insert_at
  insert-key i l = ground (arith, shifted (at_key i), l, h, room)

  pub insert-slot :
      (i : ℕ)
      → i < 5
      → btree_node_insert_at w pos key slot (at_slot i) ≡ (
          if leb i pos
          then w (at_slot i)
          else if i == pos + 1
          then slot
          else if leb i (w at_count + 1)
          then w (at_slot (i - 1))
          else w (at_slot i))
  unfolding btree_node_insert_at
  insert-slot i l = ground (arith, shifted (at_slot i), l, h, room)

  pub insert-count : btree_node_insert_at w pos key slot at_count ≡ w at_count + 1
  unfolding btree_node_insert_at
  insert-count = ground (arith, shifted at_count, room)

  pub insert-rest :
      (j : ℕ) → (j ≡ 0) ⊎ (j ≡ 11) ⊎ (j ≡ 12) → btree_node_insert_at w pos key slot j ≡ w j
  unfolding btree_node_insert_at
  insert-rest j c = ground (arith, shifted j, c, room, h)

-- An insertion at a position of a node with fewer than four keys puts the key there and the slot
-- one place further, moves what stood from there on up by one place, counts the key, and leaves
-- the level and the links alone.
pub insert_puts :
    (w : ℕ → ℕ) (pos key slot : ℕ)
    → w at_count < 4
    → pos ≤ w at_count
    → let w' = btree_node_insert_at w pos key slot in
      (w' at_count ≡ w at_count + 1)
      × (w' (at_key pos) ≡ key)
      × (w' (at_slot (pos + 1)) ≡ slot)
      × ((i : ℕ) → i < pos → w' (at_key i) ≡ w (at_key i))
      × ((i : ℕ) → pos ≤ i → i < w at_count → w' (at_key (i + 1)) ≡ w (at_key i))
      × ((i : ℕ) → i ≤ pos → w' (at_slot i) ≡ w (at_slot i))
      × ((i : ℕ) → pos < i → i ≤ w at_count → w' (at_slot (i + 1)) ≡ w (at_slot i))
      × (w' at_level ≡ w at_level)
      × (w' at_next ≡ w at_next)
      × (w' at_prev ≡ w at_prev)
insert_puts w pos key slot room h = (
  insert-count w pos key slot room h,
  ground (arith, insert-key w pos key slot room h pos (omega (arith, room, h))),
  ground (arith, insert-slot w pos key slot room h (pos + 1) (omega (arith, room, h))),
  (λ i l. ground (arith, insert-key w pos key slot room h i (omega (arith, room, h, l)), l)),
  (λ i l l'.
      ground (arith, insert-key w pos key slot room h (i + 1) (omega (arith, room, l')), l, l')),
  (λ i l. ground (arith, insert-slot w pos key slot room h i (omega (arith, room, h, l)), l)),
  (λ i l l'.
      ground (arith, insert-slot w pos key slot room h (i + 1) (omega (arith, room, l')), l, l')),
  insert-rest w pos key slot room h 0 (inl refl),
  insert-rest w pos key slot room h 11 (inr (inl refl)),
  insert-rest w pos key slot room h 12 (inr (inr refl)),
)

shift_up-full :
    (n pos : ℕ) (w : ℕ → ℕ)
    → pos + n ≡ 3
    → (shift_up (suc n) pos w 6 ≡ w 5) × (shift_up (suc n) pos w 11 ≡ w 10)
unfolding shift_up
shift_up-full n pos w h =
    let w1 = put w (at_key (pos + suc n)) (w (at_key (pos + n))) in
    let w2 = put w1 (at_slot (pos + suc n + 1)) (w1 (at_slot (pos + suc n))) in
    let a = shift_up_lem n pos 3 w2 6 (omega (arith, h)) (omega arith) in
    let b = shift_up_lem n pos 3 w2 11 (omega (arith, h)) (omega arith) in
    let k : at_key (pos + n) ≡ 5 = omega (arith, h) in
    let s : at_slot (pos + suc n) ≡ 10 = omega (arith, h) in
    (ground (arith, a, h, ap w k), ground (arith, b, h, ap w s))

-- The keys after the loop on a full node.
pub shift_up-full_key :
    (n pos : ℕ) (w : ℕ → ℕ) (i : ℕ)
    → pos + n ≡ 3
    → i < 4
    → shift_up (suc n) pos w (at_key i) ≡ (if ltb pos i then w (at_key (i - 1)) else w (at_key i))
unfolding shift_up
shift_up-full_key n pos w i h l =
    let w1 = put w (at_key (pos + suc n)) (w (at_key (pos + n))) in
    let w2 = put w1 (at_slot (pos + suc n + 1)) (w1 (at_slot (pos + suc n))) in
    ground (arith, shift_up_lem n pos 3 w2 (at_key i) (omega (arith, h)) (omega arith), h, l)

-- An insertion at a position of a full node, as a split begins with, runs over both arrays: the
-- first slot is replaced by the last key, and the link to the next node by the last slot. Behind
-- all keys these are the new key and the new slot.
pub insert_overruns :
    (w : ℕ → ℕ) (pos key slot : ℕ)
    → w at_count ≡ 4
    → pos ≤ 4
    → let w' = btree_node_insert_at w pos key slot in
      (w' (at_slot 0) ≡ (if pos == 4 then key else w (at_key 3)))
      × (w' at_next ≡ (if pos == 4 then slot else w (at_slot 4)))
unfolding btree_node_insert_at shift_up
insert_overruns w pos key slot full h = elim (Bool-cases (pos == 4)) [
  | inl e ↦
      let z : w at_count - pos ≡ 0 = ground (arith, e, full) in
      let p : pos ≡ 4 = (==_iff pos 4).0 e in rw (z, p) (refl, refl)
  | inr e ↦
      let z : w at_count - pos ≡ suc (3 - pos) = ground (arith, e, full, h) in
      let (a, b) = shift_up-full (3 - pos) pos w (ground (arith, e, h)) in
      rw z (ground (arith, a, e, h), ground (arith, b, e, h))
]
