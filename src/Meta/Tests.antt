-- ===== src/Meta/Tests.antt =====
-- The id counter at first boot, a first boot over a blank disk and a restart.
use kdbs.Common.{◌<◌, ◌≡◌, refl, arith, true, false, none, some}
use kdbs.Common.Bytes.{Bytes}
use kdbs.Common.Fields.{read_struct, decode_fields, le_value}
use kdbs.Common.Bytes.{load}
use kdbs.Meta.Boot.{
  MetaSystem, written, booted, power_on, load_or_init, shutdown, init_page, write_superblock,
  read_superblock, superblock_of,
}
use kdbs.Meta.Restart.{restart_keeps, first_boot_reloads, init_page-PageFits, init_page_magic}
use kdbs.Meta.{init_superblock, alloc_page_id_batch, get_max_page_id}
use kdbs.Meta.Ids.{batches_disjoint}

batches_disjoint_example : (128 < 256) × (256 < 257)
unfolding init_superblock alloc_page_id_batch get_max_page_id
batches_disjoint_example =
    batches_disjoint init_superblock 127 2 (omega arith) (omega arith) (omega arith) 128 256
      (omega arith, omega arith) (omega arith, omega arith)

abbrev blank : Bytes
blank a = 0

abbrev running : MetaSystem
running = record {
  disk = blank;
  superblock = some (init_page 5);
  sb_io_page = true;
  fresh_init = true;
}

restart_keeps_example :
    load_or_init (power_on (shutdown running 7 written).disk) true true none 8 9 written ≡ (
      record {
        disk = write_superblock blank (init_page 5);
        superblock = some (record (init_page 5) { last_mount_time = 9 });
        sb_io_page = true;
        fresh_init = false;
      },
      booted,
    )
restart_keeps_example =
    restart_keeps running (init_page 5) 7 8 9 written refl refl (init_page_magic 5)
      (init_page-PageFits 5 (omega arith))

blank_magic : (read_superblock blank).magic ≡ 0
unfolding read_superblock superblock_of read_struct decode_fields load le_value
blank_magic = refl

first_boot_reloads_example :
    let first : MetaSystem = (load_or_init (power_on blank) true true none 5 6 written).0 in
    (first.fresh_init ≡ true)
    × (load_or_init (power_on first.disk) true true none 7 8 written ≡ (
      record {
        disk = write_superblock blank (init_page 5);
        superblock = some (record (init_page 5) { last_mount_time = 8 });
        sb_io_page = true;
        fresh_init = false;
      },
      booted,
    ))
unfolding power_on
first_boot_reloads_example =
    first_boot_reloads (power_on blank) 5 6 7 8 written (omega (arith, blank_magic)) (omega arith)
