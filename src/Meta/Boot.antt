-- ===== src/Meta/Boot.antt =====
-- Loading, first initialisation, fsync and shutdown of the superblock: kernel/kds/meta.c and the
-- layout of include/linux/kds_meta.h. What the block device, the allocators and the clock return
-- are arguments. `disk` is the superblock's logical page, `superblock` the copy in memory.
use Prim.Native.Nat.{ℕ}
use kdbs.Common.{
  Bool, true, false, Option, none, some, List, [], ◌∷◌, ◌==◌, if◌then◌else◌, get_or, replicate,
  Errno, einval, enomem,
}
use kdbs.Common.Bytes.{Bytes, store, load}
use kdbs.Common.Fields.{read_struct, write_struct}
use kdbs.Meta.{Superblock, init_superblock}

abbrev pub superblock_magic : ℕ
superblock_magic = 1262765135

-- All of `kds_superblock_t`: `ids` holds the two id counters and the allocation range.
pub record SuperblockPage : Type 0 where
  pub magic : ℕ
  pub version : ℕ
  pub reserved1 : ℕ
  pub ids : Superblock
  pub create_time : ℕ
  pub last_mount_time : ℕ
  pub last_fsync_time : ℕ
  pub total_pages : ℕ
  pub free_pages : ℕ
  pub reserved2 : List ℕ

abbrev pub superblock_widths : List ℕ
superblock_widths = 8 ∷ 4 ∷ 4 ∷ 8 ∷ 8 ∷ 8 ∷ 8 ∷ 8 ∷ 8 ∷ 8 ∷ 8 ∷ 8 ∷ []

abbrev pub reserved2_size : ℕ
reserved2_size = 8104

unfoldable pub superblock_values : SuperblockPage → List ℕ
superblock_values b =
    b.magic ∷ b.version ∷ b.reserved1 ∷ b.ids.max_page_id ∷ b.ids.last_commit_page_id
    ∷ b.create_time ∷ b.last_mount_time ∷ b.last_fsync_time ∷ b.total_pages ∷ b.free_pages
    ∷ b.ids.alloc_point ∷ b.ids.alloc_remaining ∷ []

-- `memcpy(addr, superblock, sizeof(*superblock))`: the packed fields, then `reserved2`.
unfoldable pub write_superblock : Bytes → SuperblockPage → Bytes
write_superblock p b =
    store (write_struct superblock_widths p 0 (superblock_values b)) 88 b.reserved2

unfoldable pub superblock_of : List ℕ → List ℕ → SuperblockPage
superblock_of vs rest = record {
  magic = get_or vs 0 0;
  version = get_or vs 1 0;
  reserved1 = get_or vs 2 0;
  ids = record {
    max_page_id = get_or vs 3 0;
    last_commit_page_id = get_or vs 4 0;
    alloc_point = get_or vs 10 0;
    alloc_remaining = get_or vs 11 0;
  };
  create_time = get_or vs 5 0;
  last_mount_time = get_or vs 6 0;
  last_fsync_time = get_or vs 7 0;
  total_pages = get_or vs 8 0;
  free_pages = get_or vs 9 0;
  reserved2 = rest;
}

-- `memcpy(superblock, addr, sizeof(*superblock))`.
unfoldable pub read_superblock : Bytes → SuperblockPage
read_superblock p = superblock_of (read_struct superblock_widths p 0) (load p 88 reserved2_size)

-- The block of a first boot at a time.
unfoldable pub init_page : ℕ → SuperblockPage
init_page now = record {
  magic = superblock_magic;
  version = 1;
  reserved1 = 0;
  ids = init_superblock;
  create_time = now;
  last_mount_time = now;
  last_fsync_time = 0;
  total_pages = 0;
  free_pages = 0;
  reserved2 = replicate reserved2_size 0;
}

-- The globals of meta.c; `sb_io_page` is whether the I/O buffer is allocated.
pub record MetaSystem : Type 0 where
  pub disk : Bytes
  pub superblock : Option SuperblockPage
  pub sb_io_page : Bool
  pub fresh_init : Bool

-- The device's answer to a write. After a failure the page holds whatever got there.
pub data Write : Type 0 where
  written : Write
  write_failed : Errno → Bytes → Write

pub data Boot : Type 0 where
  booted panicked : Boot
  boot_failed : Errno → Boot

-- The module's globals when it is loaded.
unfoldable pub power_on : Bytes → MetaSystem
power_on disk = record { disk = disk; superblock = none; sb_io_page = false; fresh_init = false }

-- The write comes first: the disk gets the fsync time and committed id of the fsync before.
unfoldable pub fsync_block : MetaSystem → SuperblockPage → ℕ → Write → MetaSystem × Option Errno
fsync_block s b now written =
    let marked : Superblock = record b.ids { last_commit_page_id = b.ids.max_page_id } in
    (
      record s {
        disk = write_superblock s.disk b;
        superblock = some (record b { ids = marked; last_fsync_time = now });
      },
      none,
    )
fsync_block s b now (write_failed e p) = (record s { disk = p }, some e)

-- `kds_superblock_fsync`.
unfoldable pub superblock_fsync_at : MetaSystem → ℕ → Write → MetaSystem × Option Errno
superblock_fsync_at s now w = elim s.superblock [
  | none ↦ (s, some einval)
  | some b ↦ if s.sb_io_page then fsync_block s b now w else (s, some einval)
]

-- What a failed load frees.
unfoldable pub release : MetaSystem → MetaSystem
release s = record s { superblock = none; sb_io_page = false }

-- `init_superblock_and_fsync`, and the panic when the write fails.
unfoldable pub first_boot : MetaSystem → ℕ → ℕ → Write → MetaSystem × Boot
first_boot s now mount written = (
  record s {
    disk = write_superblock s.disk (init_page now);
    superblock = some (record (init_page now) { last_mount_time = mount });
    fresh_init = true;
  },
  booted,
)
first_boot s now mount (write_failed e p) = (record s { disk = p; fresh_init = true }, panicked)

-- The page is read and kept when its magic fits.
unfoldable pub load_block : MetaSystem → ℕ → ℕ → Write → MetaSystem × Boot
load_block s now mount w =
    let b : SuperblockPage = read_superblock s.disk in
    let s1 : MetaSystem = record s { superblock = some b; sb_io_page = true } in
    if b.magic == superblock_magic
    then (record s1 { superblock = some (record b { last_mount_time = mount }) }, booted)
    else first_boot s1 now mount w

-- `kds_load_or_init_superblock` with the two allocations, the read and the write it may need.
unfoldable pub load_or_init :
    MetaSystem → Bool → Bool → Option Errno → ℕ → ℕ → Write → MetaSystem × Boot
load_or_init s false block read now mount w = (record s { sb_io_page = false }, boot_failed enomem)
load_or_init s true false read now mount w = (release s, boot_failed enomem)
load_or_init s true true (some e) now mount w = (release s, boot_failed e)
load_or_init s true true none now mount w = load_block s now mount w

-- `kds_shutdown_meta_system`: the return value of the last fsync is not looked at.
unfoldable pub shutdown : MetaSystem → ℕ → Write → MetaSystem
shutdown s now w = elim s.superblock [
  | none ↦ record s { sb_io_page = false }
  | some b ↦ release (superblock_fsync_at s now w).0
]
