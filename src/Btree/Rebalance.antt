-- ===== src/Btree/Rebalance.antt =====
-- How words move between the nodes of a B-tree: splits, redistributions and merges. These are the
-- assignments of the functions of kernel/kds/btree.c; the module Tree stores the nodes. The callers see to it that a node that gives an entry has one, so that
-- `key_count - 1` does not wrap as an index.
use kdbs.Common.{ℕ, zero, suc, ◌+◌, ◌-◌, ◌/◌, ◌%◌, ◌^◌, ◌==◌, if◌then◌else◌}
use kdbs.Btree.Node.{
  put, at_level, at_count, at_key, at_slot, at_next, at_prev, max_keys, shift_down, shift_right,
  copy_words, btree_node_remove_at,
}

-- The counter of a node one up and one down.
abbrev pub count_up : (ℕ → ℕ) → ℕ → ℕ
count_up w = put w at_count ((w at_count + 1) % 2 ^ 64)

abbrev pub count_down : (ℕ → ℕ) → ℕ → ℕ
count_down w = put w at_count ((w at_count + 2 ^ 64 - 1) % 2 ^ 64)

-- What a split makes of a node.
pub record SplitResult : Type 0 where
  pub left : ℕ → ℕ
  pub right : ℕ → ℕ
  pub promoted_key : ℕ

abbrev pub mid_key : ℕ
mid_key = max_keys / 2

-- `btree_split_node` on the words of the node of page `id`; `new_id` is the new sibling's page.
unfoldable pub split_words : (ℕ → ℕ) → ℕ → ℕ → SplitResult
split_words w id new_id =
    let n = max_keys - mid_key - 1 in
    let n0 = put (put (put (λ _. 0) at_level (w at_level)) at_next (w at_next)) at_prev id in
    let n1 = copy_words n (at_key 0) (at_key (mid_key + 1)) n0 w in
    let n2 = copy_words n (at_slot 0) (at_slot (mid_key + 1)) n1 w in
    let n3 = put n2 (at_slot n) (w (at_slot max_keys)) in
    record {
      left = put (put w at_count mid_key) at_next new_id;
      right = put n3 at_count n;
      promoted_key = w (at_key mid_key);
    }

-- `keys[i] = keys[i - 1]; slots[i] = slots[i - 1]` for `i` from `n` down to 1.
unfoldable pub shift_entries_up : ℕ → (ℕ → ℕ) → ℕ → ℕ
shift_entries_up zero w = w
shift_entries_up (suc n) w =
    let w1 = put w (at_key (suc n)) (w (at_key n)) in
    shift_entries_up n (put w1 (at_slot (suc n)) (w1 (at_slot n)))

-- `keys[i] = keys[i + 1]; slots[i] = slots[i + 1]` for `n` places from `i` on.
unfoldable pub shift_entries_down : ℕ → ℕ → (ℕ → ℕ) → ℕ → ℕ
shift_entries_down zero i w = w
shift_entries_down (suc n) i w =
    let w1 = put w (at_key i) (w (at_key (i + 1))) in
    shift_entries_down n (i + 1) (put w1 (at_slot i) (w1 (at_slot (i + 1))))

-- A parent and two neighbouring children of it.
pub record Family : Type 0 where
  pub parent : ℕ → ℕ
  pub left : ℕ → ℕ
  pub right : ℕ → ℕ

-- `btree_redistribute_from_left`; the node is the right one.
unfoldable pub btree_redistribute_from_left : Family → ℕ → Family
btree_redistribute_from_left f sep_pos =
    let last = f.left at_count - 1 in
    if f.right at_level == 0
    then (let w1 = shift_entries_up (f.right at_count) f.right in
        let w2 = put w1 (at_key 0) (f.left (at_key last)) in
        let w3 = count_up (put w2 (at_slot 0) (f.left (at_slot last))) in
        record {
          parent = put f.parent (at_key sep_pos) (w3 (at_key 0));
          left = count_down f.left;
          right = w3;
        })
    else (let w1 = shift_right (f.right at_count) (at_key 0) f.right in
        let w2 = shift_right (w1 at_count + 1) (at_slot 0) w1 in
        let w3 = put w2 (at_key 0) (f.parent (at_key sep_pos)) in
        let w4 = count_up (put w3 (at_slot 0) (f.left (at_slot (f.left at_count)))) in
        record {
          parent = put f.parent (at_key sep_pos) (f.left (at_key last));
          left = count_down f.left;
          right = w4;
        })

-- `btree_redistribute_from_right`; the node is the left one.
unfoldable pub btree_redistribute_from_right : Family → ℕ → Family
btree_redistribute_from_right f sep_pos =
    let n = f.left at_count in
    if f.left at_level == 0
    then (let l1 = put f.left (at_key n) (f.right (at_key 0)) in
        let l2 = count_up (put l1 (at_slot n) (f.right (at_slot 0))) in
        let r = count_down (shift_entries_down (f.right at_count - 1) 0 f.right) in
        record { parent = put f.parent (at_key sep_pos) (r (at_key 0)); left = l2; right = r })
    else (let l1 = put f.left (at_key n) (f.parent (at_key sep_pos)) in
        let l2 = count_up (put l1 (at_slot (n + 1)) (f.right (at_slot 0))) in
        let r1 = shift_down (f.right at_count - 1) (at_key 0) f.right in
        let r2 = count_down (shift_down (r1 at_count) (at_slot 0) r1) in
        record {
          parent = put f.parent (at_key sep_pos) (f.right (at_key 0));
          left = l2;
          right = r2;
        })

-- `left->keys[base + i] = right->keys[i]; left->slots[base + i] = right->slots[i]` for `n` places
-- from `i` on.
unfoldable pub append_entries : ℕ → ℕ → ℕ → (ℕ → ℕ) → (ℕ → ℕ) → ℕ → ℕ
append_entries zero i base w from = w
append_entries (suc n) i base w from =
    let w1 = put w (at_key (base + i)) (from (at_key i)) in
    append_entries n (i + 1) base (put w1 (at_slot (base + i)) (from (at_slot i))) from

-- `btree_merge_nodes`: the right node's words are folded into the left one. The link of the
-- page behind a merged leaf is patched in the module Tree.
unfoldable pub merge_words : Family → ℕ → Family
merge_words f sep_pos =
    let base = f.left at_count in
    let n = f.right at_count in
    if f.left at_level == 0
    then (let l1 = append_entries n 0 base f.left f.right in
        let l2 = put l1 at_count ((l1 at_count + n) % 2 ^ 64) in
        record f {
          left = put l2 at_next (f.right at_next);
          parent = btree_node_remove_at f.parent sep_pos;
        })
    else (let l1 = put f.left (at_key base) (f.parent (at_key sep_pos)) in
        let l2 = copy_words n (at_key (base + 1)) (at_key 0) l1 f.right in
        let l3 = copy_words (n + 1) (at_slot (base + 1)) (at_slot 0) l2 f.right in
        record f {
          left = put l3 at_count ((l3 at_count + (n + 1)) % 2 ^ 64);
          parent = btree_node_remove_at f.parent sep_pos;
        })
