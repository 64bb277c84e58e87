-- ===== src/Btree/Tests.antt =====
-- Nodes whose keys are 20, 30, …
use kdbs.Common.{ℕ, ◌*◌, ◌<◌, ◌≡◌, ◌≢◌, refl, arith, ◌==◌, if◌then◌else◌}
use kdbs.Btree.Node.{
  at_count, at_key, at_slot, at_next, btree_search_position, btree_search_position_binary,
  search_from, btree_node_insert_at,
}
use kdbs.Btree.Search.{IsSorted, binary_agrees}
use kdbs.Btree.Slots.{insert_overruns}
use kdbs.Btree.Order.{insert-IsSorted}
use kdbs.Btree.Rebalance.{split_words}
use kdbs.Btree.Lost.{split_loses}

abbrev node : ℕ → ℕ → ℕ
node n j = if j == 1 then n else j * 10

node-IsSorted : (n : ℕ) → IsSorted (node n)
node-IsSorted n i j l m = ground (arith, l)

node_fresh : (n i : ℕ) → node n (at_key i) ≢ 35
node_fresh n i e = ground (arith, e)

position_20 : btree_search_position (node 2) 20 ≡ 0
unfolding btree_search_position search_from
position_20 = refl

binary_agrees_example : btree_search_position_binary (node 4) 35 ≡ btree_search_position (node 4) 35
binary_agrees_example = binary_agrees (node 4) 35 (node-IsSorted 4)

insert_overruns_example :
    let w' = btree_node_insert_at (node 4) 1 25 9 in
    (w' (at_slot 0) ≡ node 4 (at_key 3)) × (w' at_next ≡ node 4 (at_slot 4))
insert_overruns_example = insert_overruns (node 4) 1 25 9 refl (omega arith)

insert-IsSorted_example :
    IsSorted (btree_node_insert_at (node 2) (btree_search_position (node 2) 35) 35 9)
insert-IsSorted_example =
    insert-IsSorted (node 2) 35 9 (omega arith) (node-IsSorted 2) (λ i h. node_fresh 2 i)

split_loses_example :
    let pos = btree_search_position (node 4) 35 in
    let s = split_words (btree_node_insert_at (node 4) pos 35 9) 1 2 in
    let greatest : ℕ = if◌then◌else◌ {A = ℕ} (pos == 4) 35 50 in
    (s.left at_count ≡ 2)
    × (s.left (at_key 0) < greatest)
    × (s.left (at_key 1) < greatest)
    × (s.promoted_key < greatest)
    × (s.right at_count ≡ 1)
    × (s.right (at_key 0) < greatest)
split_loses_example = split_loses (node 4) 35 9 1 2 refl (node-IsSorted 4) (λ i h. node_fresh 4 i)
