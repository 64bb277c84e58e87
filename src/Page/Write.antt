-- ===== src/Page/Write.antt =====
-- Writing frames out, `kds_write_page` and `kds_write_pages` of kernel/kds/page.c. `refuses` says which sectors the device fails to write, with what
-- error, and what the page has then. `ready` is whether the block device is open.
use Prim.Native.Nat.{ℕ}
use kdbs.Common.{
  ◌+◌, ◌-◌, ◌*◌, leb, ltb, ◌&&◌, Bool, Option, none, some, List, [], ◌∷◌, if◌then◌else◌, Errno,
  einval, enodev,
}
use kdbs.Common.Bytes.{Bytes}
use kdbs.Page.{Frame, page_sector, page_size, sector_size}

-- The device's bytes by address: sector `s` has those from `sector_size * s` on.
abbrev pub Disk : Type 0
Disk = ℕ → ℕ

-- The page's bytes go to its sixteen sectors.
unfoldable pub put_page : Disk → ℕ → Bytes → Disk
put_page d sector p a =
    if leb (sector_size * sector) a && ltb a (sector_size * sector + page_size)
    then p (a - sector_size * sector)
    else d a

-- The first loop: no frame is missing.
unfoldable pub present : List (Option Frame) → Option (List Frame)
present [] = some []
present (none ∷ fs) = none
present (some f ∷ fs) = elim (present fs) [ none ↦ none | some gs ↦ some (f ∷ gs) ]

module _ (ready : Bool) (refuses : ℕ → Option (Errno × Bytes)) where
  -- `kds_write_logical_page`, as the callers see it.
  unfoldable pub write_sector : Disk → ℕ → Bytes → Disk × Option Errno
  write_sector d sector p = elim (refuses sector) [
    | none ↦ (put_page d sector p, none)
    | some (e, torn) ↦ (put_page d sector torn, some e)
  ]

  unfoldable pub write_page : Disk → Option Frame → Disk × Option Errno
  write_page d none = (d, some einval)
  write_page d (some f) =
      if ready then write_sector d (page_sector f.page_id) f.bytes else (d, some enodev)

  -- The second loop, which the first error ends.
  unfoldable pub write_each : Disk → List Frame → Disk × Option Errno
  write_each d [] = (d, none)
  write_each d (f ∷ fs) =
      let (d', ret) = write_sector d (page_sector f.page_id) f.bytes in
      elim ret [ none ↦ write_each d' fs | some e ↦ (d', some e) ]

  unfoldable pub write_present : Disk → Option (List Frame) → Disk × Option Errno
  write_present d none = (d, some einval)
  write_present d (some fs) = write_each d fs

  unfoldable pub write_pages : Disk → List (Option Frame) → Disk × Option Errno
  write_pages d [] = (d, some einval)
  write_pages d (f ∷ fs) = if ready then write_present d (present (f ∷ fs)) else (d, some enodev)
