-- ===== src/Meta/Restart.antt =====
-- A clean shutdown and the next load of the superblock, kernel/kds/meta.c.
use Prim.Native.Nat.{ℕ}
use mathlib.Core.Path.{ap₂}
use kdbs.Common.{
  ◌≡◌, refl, ap, ◌∙◌, inl, true, false, none, some, ◌^◌, ◌<◌, arith, length, ◌==◌, length-replicate,
  ◌≢◌,
}
use kdbs.Common.Bytes.{Bytes, load-store_self}
use kdbs.Common.Fields.{Fits, write_struct, read-write_struct, read_struct-store_apart}
use kdbs.Meta.{init_superblock, superblock_fsync}
use kdbs.Meta.Boot.{
  SuperblockPage, superblock_magic, superblock_widths, reserved2_size, superblock_values,
  write_superblock, superblock_of, read_superblock, MetaSystem, Write, written, booted, Boot,
  power_on, fsync_block, superblock_fsync_at, load_block, load_or_init, release, shutdown,
  init_page, first_boot,
}

-- Every field is within its width, and `reserved2` has its 8104 bytes.
pub record PageFits (b : SuperblockPage) : Type 0 where
  pub fields : Fits superblock_widths (superblock_values b)
  pub rest : length b.reserved2 ≡ reserved2_size

of-values : (b : SuperblockPage) → superblock_of (superblock_values b) b.reserved2 ≡ b
unfolding superblock_of superblock_values
of-values b = refl

read-write_superblock :
    (p : Bytes) (b : SuperblockPage) → PageFits b → read_superblock (write_superblock p b) ≡ b
unfolding read_superblock write_superblock superblock_values
read-write_superblock p b h =
    let front : Bytes = write_struct superblock_widths p 0 (superblock_values b) in
    ap₂ superblock_of
      (read_struct-store_apart superblock_widths front 88 b.reserved2 0 (inl (omega arith))
        ∙ read-write_struct superblock_widths p 0 (superblock_values b) refl h.fields)
      (load-store_self front 88 b.reserved2 reserved2_size h.rest)
    ∙ of-values b

-- The block that a successful last write put on the disk.
shutdown_writes :
    (s : MetaSystem) (b : SuperblockPage) (t : ℕ)
    → s.superblock ≡ some b
    → s.sb_io_page ≡ true
    → (shutdown s t written).disk ≡ write_superblock s.disk b
unfolding shutdown superblock_fsync_at fsync_block release
shutdown_writes s b t loaded io = rw (loaded, io) refl

-- A page with the magic is loaded as it stands, but for the mount time.
load_known :
    (s : MetaSystem) (b : SuperblockPage) (now mount : ℕ) (w : Write)
    → read_superblock s.disk ≡ b
    → b.magic ≡ superblock_magic
    → load_or_init s true true none now mount w ≡ (
      record s { superblock = some (record b { last_mount_time = mount }); sb_io_page = true },
      booted,
    )
unfolding load_or_init load_block
load_known s b now mount w e known =
    let test : (b.magic == superblock_magic) ≡ true = ground (arith, known) in rw (e, test) refl

-- A loaded superblock with the magic, whose fields fit, is found by the next start after a
-- shutdown whose write succeeds, with every field as it was before the shutdown, but for the mount
-- time; the start is not a first boot. So the fsync time and the committed id that the shutdown
-- recorded are not on the disk.
pub restart_keeps :
    (s : MetaSystem) (b : SuperblockPage) (t now mount : ℕ) (w : Write)
    → s.superblock ≡ some b
    → s.sb_io_page ≡ true
    → b.magic ≡ superblock_magic
    → PageFits b
    → load_or_init (power_on (shutdown s t written).disk) true true none now mount w ≡ (
      record {
        disk = write_superblock s.disk b;
        superblock = some (record b { last_mount_time = mount });
        sb_io_page = true;
        fresh_init = false;
      },
      booted,
    )
unfolding power_on
restart_keeps s b t now mount w loaded io known fits =
    let d = shutdown_writes s b t loaded io in
    ap (λ (disk : Bytes). load_or_init (power_on disk) true true none now mount w) d
    ∙ load_known (power_on (write_superblock s.disk b)) b now mount w
        (read-write_superblock s.disk b fits) known

pub init_page_magic : (t : ℕ) → (init_page t).magic ≡ superblock_magic
unfolding init_page
init_page_magic t = refl

pub init_page-PageFits : (t : ℕ) → t < 2 ^ 64 → PageFits (init_page t)
unfolding init_page superblock_values init_superblock
init_page-PageFits t h = record {
  fields = omega (arith, h);
  rest = length-replicate {A = ℕ} reserved2_size 0;
}

-- A page without the magic is overwritten with the block of a first boot.
load_unknown :
    (s : MetaSystem) (now mount : ℕ)
    → (read_superblock s.disk).magic ≢ superblock_magic
    → load_or_init s true true none now mount written ≡ (
      record {
        disk = write_superblock s.disk (init_page now);
        superblock = some (record (init_page now) { last_mount_time = mount });
        sb_io_page = true;
        fresh_init = true;
      },
      booted,
    )
unfolding load_or_init load_block first_boot
load_unknown s now mount unknown =
    let test : ((read_superblock s.disk).magic == superblock_magic) ≡ false =
      ground (arith, unknown) in
    rw test refl

-- Over a page without the magic, a start at a 64-bit time that can read and write it is a first
-- boot, and the start after it, with no shutdown between, is not: it loads the block that the
-- first one made, with the first one's time as creation time.
pub first_boot_reloads :
    (s : MetaSystem) (t mount now again : ℕ) (w : Write)
    → (read_superblock s.disk).magic ≢ superblock_magic
    → t < 2 ^ 64
    → let first : MetaSystem = (load_or_init s true true none t mount written).0 in
      (first.fresh_init ≡ true)
      × (load_or_init (power_on first.disk) true true none now again w ≡ (
        record {
          disk = write_superblock s.disk (init_page t);
          superblock = some (record (init_page t) { last_mount_time = again });
          sb_io_page = true;
          fresh_init = false;
        },
        booted,
      ))
unfolding power_on
first_boot_reloads s t mount now again w unknown small =
    let first = load_unknown s t mount unknown in
    (
      ap (λ (r : MetaSystem × Boot). r.0.fresh_init) first,
      ap (λ (r : MetaSystem × Boot). load_or_init (power_on r.0.disk) true true none now again w)
            first
          ∙ load_known (power_on (write_superblock s.disk (init_page t))) (init_page t) now again w
              (read-write_superblock s.disk (init_page t) (init_page-PageFits t small))
              (init_page_magic t),
    )

-- The fsync of the whole page does to the counters and the range what `superblock_fsync` says.
ids_after_fsync :
    (s : MetaSystem) (b : SuperblockPage) (now : ℕ)
    → s.superblock ≡ some b
    → s.sb_io_page ≡ true
    → (c : SuperblockPage) × ((superblock_fsync_at s now written).0.superblock ≡ some c)
      × (superblock_fsync (some b.ids) true ≡ some c.ids)
unfolding superblock_fsync_at fsync_block superblock_fsync
ids_after_fsync s b now loaded io = (
  record b {
    ids = record b.ids { last_commit_page_id = b.ids.max_page_id };
    last_fsync_time = now;
  },
  rw (loaded, io) refl,
  refl,
)
