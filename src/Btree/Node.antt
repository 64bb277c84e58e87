-- ===== src/Btree/Node.antt =====
-- The words of a B-tree node in memory, by their number: `kds_btree_node_t`. The 13 words lie one
-- behind the other (level, key_count, keys[4], slots[5], next, prev), so that keys[4] is slots[0]
-- and slots[5] is next; an access past an array reaches what stands there, as in the packed struct.
use kdbs.Common.{
  ℕ, zero, suc, ◌+◌, ◌-◌, ◌/◌, ◌%◌, ◌^◌, Bool, Option, none, some, ltb, leb, ◌==◌, if◌then◌else◌,
}

-- BTREE_MAX_KEYS; BTREE_MIN_KEYS is half of it.
abbrev pub max_keys : ℕ
max_keys = 4

abbrev pub min_keys : ℕ
min_keys = 2

-- A write of one word.
abbrev pub put : (ℕ → ℕ) → ℕ → ℕ → ℕ → ℕ
put w i x j = if j == i then x else w j

abbrev pub at_level : ℕ
at_level = 0

abbrev pub at_count : ℕ
at_count = 1

abbrev pub at_key : ℕ → ℕ
at_key i = 2 + i

abbrev pub at_slot : ℕ → ℕ
at_slot i = 6 + i

abbrev pub at_next : ℕ
at_next = 11

abbrev pub at_prev : ℕ
at_prev = 12

-- The loop of `btree_search_position` over `left` keys from `i` on.
unfoldable pub search_from : (ℕ → ℕ) → ℕ → ℕ → ℕ → ℕ
search_from w key zero i = i
search_from w key (suc left) i =
    let later = search_from w key left (i + 1) in if leb key (w (at_key i)) then i else later

unfoldable pub btree_search_position : (ℕ → ℕ) → ℕ → ℕ
btree_search_position w key = search_from w key (w at_count) 0

-- The loop of `btree_search_position_binary`. `right` can be -1 there, so `stop` is `right` + 1.
unfoldable pub binary_from : ℕ → (ℕ → ℕ) → ℕ → ℕ → ℕ → ℕ → ℕ
binary_from zero w key left stop pos = pos
binary_from (suc fuel) w key left stop pos =
    let mid = (left + (stop - 1)) / 2 in
    let lower = binary_from fuel w key left mid mid in
    let upper = binary_from fuel w key (mid + 1) stop (mid + 1) in
    if ltb left stop
    then (if ltb key (w (at_key mid))
        then lower
        else if ltb (w (at_key mid)) key
        then upper
        else mid)
    else pos

-- Fuel for as many rounds as there are keys.
unfoldable pub btree_search_position_binary : (ℕ → ℕ) → ℕ → ℕ
btree_search_position_binary w key = binary_from (w at_count) w key 0 (w at_count) 0

-- `keys[i] = keys[i - 1]; slots[i + 1] = slots[i]` for `i` from `pos + n` down to `pos + 1`.
unfoldable pub shift_up : ℕ → ℕ → (ℕ → ℕ) → ℕ → ℕ
shift_up zero pos w = w
shift_up (suc n) pos w =
    let w1 = put w (at_key (pos + suc n)) (w (at_key (pos + n))) in
    let w2 = put w1 (at_slot (pos + suc n + 1)) (w1 (at_slot (pos + suc n))) in shift_up n pos w2

unfoldable pub btree_node_insert_at : (ℕ → ℕ) → ℕ → ℕ → ℕ → ℕ → ℕ
btree_node_insert_at w pos key slot =
    let w1 = shift_up (w at_count - pos) pos w in
    let w2 = put w1 (at_key pos) key in
    let w3 = put w2 (at_slot (pos + 1)) slot in put w3 at_count ((w3 at_count + 1) % 2 ^ 64)

-- `a[i] = a[i + 1]` for `n` places from `i` on; `i` is a word's number.
unfoldable pub shift_down : ℕ → ℕ → (ℕ → ℕ) → ℕ → ℕ
shift_down zero i w = w
shift_down (suc n) i w = shift_down n (i + 1) (put w i (w (i + 1)))

-- The bound of the first loop wraps where there is no key.
unfoldable pub btree_node_remove_at : (ℕ → ℕ) → ℕ → ℕ → ℕ
btree_node_remove_at w pos =
    let w1 = shift_down ((w at_count + 2 ^ 64 - 1) % 2 ^ 64 - pos) (at_key pos) w in
    let w2 = shift_down (w1 at_count - (pos + 1)) (at_slot (pos + 1)) w1 in
    put w2 at_count ((w2 at_count + 2 ^ 64 - 1) % 2 ^ 64)

unfoldable pub btree_node_is_underflow : (ℕ → ℕ) → Bool
btree_node_is_underflow w = ltb (w at_count) min_keys

-- `a[i] = a[i - 1]` for `n` places, the last being `i + n`; `i` is a word's number.
unfoldable pub shift_right : ℕ → ℕ → (ℕ → ℕ) → ℕ → ℕ
shift_right zero i w = w
shift_right (suc n) i w = shift_right n i (put w (i + suc n) (w (i + n)))

-- `n` words of `from` behind `j` copied behind `i`.
unfoldable pub copy_words : ℕ → ℕ → ℕ → (ℕ → ℕ) → (ℕ → ℕ) → ℕ → ℕ
copy_words zero i j w from = w
copy_words (suc n) i j w from = copy_words n (i + 1) (j + 1) (put w i (from j)) from

-- The value that `kds_index_search` (kernel/kds/relation.c) takes from a leaf: the slot with the
-- number of the first key equal to the one looked for, among `left` keys from `i` on.
unfoldable pub match_from : (ℕ → ℕ) → ℕ → ℕ → ℕ → Option ℕ
match_from w key zero i = none
match_from w key (suc left) i =
    let later = match_from w key left (i + 1) in if w (at_key i) == key then some i else later
