-- ===== src/Page/Tests.antt =====
-- A page with a checksum that adds the bytes up, and two frames written to a disk.
use kdbs.Common.{
  ℕ, ◌+◌, ◌%◌, ◌^◌, ◌<◌, ◌≡◌, refl, true, List, [], ◌∷◌, map, Option, none, some, arith, Errno, eio,
  ◌==◌, if◌then◌else◌,
}
use kdbs.Common.Bytes.{Bytes}
use kdbs.Page.Write.{Disk, write_pages}
use kdbs.Page.Written.{AllWritten, write_pages_writes}
use kdbs.Page.{page_sector, Frame, check_valid_page, commit_page_hdr, update_page_crc}
use kdbs.Page.Integrity.{read_back, committed_page_checks}

abbrev sum : List ℕ → ℕ
sum [] = 0
sum (b ∷ bs) = (b + sum bs) % 2 ^ 32

sum_is_u32 : (bs : List ℕ) → sum bs < 2 ^ 32
sum_is_u32 [] = omega arith
sum_is_u32 (b ∷ bs) = omega arith

abbrev counted_page : Frame
counted_page = record {
  page_id = 3;
  hdr = record { page_type = 4; crc = 0; flags = 3; reserved1 = 0 };
  bytes = λ j. j;
}

committed_page_checks_example :
    check_valid_page sum (read_back (commit_page_hdr (update_page_crc sum (some counted_page))).0)
    ≡ true
committed_page_checks_example =
    committed_page_checks sum sum_is_u32 counted_page (omega arith, omega arith, omega arith)

abbrev other_page : Frame
other_page = record counted_page { page_id = 5; bytes = λ j. j + 1 }

abbrev disk : Disk
disk a = 0

-- The first sector is broken.
abbrev refuses : ℕ → Option (Errno × Bytes)
refuses s = if s == 0 then some (eio, disk) else none

write_pages_writes_example :
    AllWritten disk
      (counted_page ∷ other_page ∷ [])
      (write_pages true refuses disk (map some (counted_page ∷ other_page ∷ [])))
unfolding page_sector
write_pages_writes_example =
    write_pages_writes refuses disk counted_page (other_page ∷ [])
      (omega arith, ((omega arith, omega arith), tt), (omega arith, tt, tt)) (refl, (refl, tt))
