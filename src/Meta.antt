-- ===== src/Meta.antt =====
-- The superblock's page-id counter and allocation range: include/linux/kds_meta.h and the range
-- functions of kernel/kds/meta.c. `none` is the superblock that is not loaded yet. Whether a write
-- of its sector succeeds is an argument; the whole page and its way to the disk are in Meta.Boot.
pub mod Boot
pub mod Restart
pub mod Ids
pub mod Tests
use kdbs.Common.{ℕ, ◌+◌, ◌%◌, ◌^◌, Bool, true, false, Option, none, some, ◌==◌, if◌then◌else◌}

-- The fields of `kds_superblock_t` that the allocator uses.
pub record Superblock : Type 0 where
  pub max_page_id : ℕ
  pub last_commit_page_id : ℕ
  pub alloc_point : ℕ
  pub alloc_remaining : ℕ

-- The first fields of a superblock at first boot: KDS_SYS_RESERVED_PAGES ids are taken.
unfoldable pub init_superblock : Superblock
init_superblock = record {
  max_page_id = 128;
  last_commit_page_id = 0;
  alloc_point = 0;
  alloc_remaining = 0;
}

-- `atomic64_inc_return`: the value after the increment.
unfoldable pub assign_page_id : Option Superblock → Option Superblock × ℕ
assign_page_id none = (none, 0)
assign_page_id (some sb) =
    let id : ℕ = (sb.max_page_id + 1) % 2 ^ 64 in (some (record sb { max_page_id = id }), id)

-- `atomic64_fetch_add`: the value before the addition.
unfoldable pub alloc_page_id_batch : Option Superblock → ℕ → Option Superblock × ℕ
alloc_page_id_batch none count = (none, 0)
alloc_page_id_batch (some sb) count =
    if count == 0
    then (some sb, 0)
    else (some (record sb { max_page_id = (sb.max_page_id + count) % 2 ^ 64 }), sb.max_page_id)

unfoldable pub get_max_page_id : Option Superblock → ℕ
get_max_page_id none = 0
get_max_page_id (some sb) = sb.max_page_id

unfoldable pub set_alloc_range : Option Superblock → ℕ → ℕ → Option Superblock
set_alloc_range none alloc_point remaining = none
set_alloc_range (some sb) alloc_point remaining =
    some (record sb { alloc_point = alloc_point; alloc_remaining = remaining })

-- `kds_superblock_fsync`: a write that succeeds records the committed counter.
unfoldable pub superblock_fsync : Option Superblock → Bool → Option Superblock
superblock_fsync none write_ok = none
superblock_fsync (some sb) true = some (record sb { last_commit_page_id = sb.max_page_id })
superblock_fsync (some sb) false = some sb

-- `none` is the panic without a superblock.
unfoldable pub get_alloc_range : Option Superblock → Option (ℕ × ℕ)
get_alloc_range none = none
get_alloc_range (some sb) = some (sb.alloc_point, sb.alloc_remaining)
