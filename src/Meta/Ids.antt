-- ===== src/Meta/Ids.antt =====
-- Which page ids the two ways of issuing them hand out.
use kdbs.Common.{ℕ, ◌+◌, ◌^◌, ◌≤◌, ◌<◌, ◌≡◌, some, arith}
use kdbs.Meta.{Superblock, assign_page_id, alloc_page_id_batch, get_max_page_id}

-- The ids of a batch that starts at `base`.
abbrev pub InBatch : ℕ → ℕ → ℕ → Type 0
InBatch id base count = (base ≤ id) × (id < base + count)

-- While the counter stays below 2 ^ 64, two batches in a row share no id: each id of the second
-- lies above every id of the first, and the counter ends above both.
pub batches_disjoint :
    (sb : Superblock) (m n : ℕ)
    → 0 < m
    → 0 < n
    → sb.max_page_id + m + n < 2 ^ 64
    → let (s, first) = alloc_page_id_batch (some sb) m in
      let (s', second) = alloc_page_id_batch s n in
      (i j : ℕ) → InBatch i first m → InBatch j second n → (i < j) × (j < get_max_page_id s')
unfolding alloc_page_id_batch get_max_page_id
batches_disjoint sb m n hm hn h i j a b = ground arith

-- The two ways clash: the id that `assign_page_id` returns is issued again, as the first id of
-- the next batch, whatever the counter was.
assign_then_batch_clash :
    (sb : Superblock) (n : ℕ)
    → 0 < n
    → let (s, single) = assign_page_id (some sb) in
      let (s', base) = alloc_page_id_batch s n in (base ≡ single) × InBatch single base n
unfolding assign_page_id alloc_page_id_batch
assign_then_batch_clash sb n h = ground arith
