-- ===== src/Page.antt =====
-- The logical page and its frame: include/linux/kds.h, include/linux/kds_page.h and the parts of
-- kernel/kds/page.c that write a page. A frame is the pair of a page header kept in memory
-- (`frame->kp`) and the mapped buffer (`frame->page`). Each function of the source holds the
-- content lock for its whole body, so it is one step here.
pub mod Laws
pub mod Integrity
pub mod Write
pub mod Written
pub mod Tests
use kdbs.Common.{
  ℕ, ◌+◌, ◌-◌, ◌*◌, ◌/◌, ◌%◌, ◌^◌, ◌<◌, Bool, true, false, List, [], ◌∷◌, Option, none, some, ltb,
  ◌==◌, if◌then◌else◌, set_bit, take, replicate, get_or, Result, ok, err, Errno, einval,
}
use kdbs.Common.Bytes.{Bytes, store, load}
use kdbs.Common.Fields.{read_struct, write_struct}

abbrev pub page_size : ℕ
page_size = 8192

abbrev pub sector_size : ℕ
sector_size = 512

abbrev pub page_type_heap : ℕ
page_type_heap = 4

abbrev pub page_type_undo : ℕ
page_type_undo = 5

-- The bit numbers of KDS_PAGE_FLAG_ALLOC, _INIT, _FREE and _DIRTY.
abbrev pub flag_alloc : ℕ
flag_alloc = 0

abbrev pub flag_init : ℕ
flag_init = 1

abbrev pub flag_free : ℕ
flag_free = 2

abbrev pub flag_dirty : ℕ
flag_dirty = 3

-- `kds_page_hdr_t`, packed; its 32 reserved bytes are one number.
pub record PageHdr : Type 0 where
  pub page_type : ℕ
  pub crc : ℕ
  pub flags : ℕ
  pub reserved1 : ℕ

abbrev pub page_hdr_widths : List ℕ
page_hdr_widths = 4 ∷ 4 ∷ 1 ∷ 32 ∷ []

abbrev pub page_hdr_size : ℕ
page_hdr_size = 41

abbrev pub page_hdr_values : PageHdr → List ℕ
page_hdr_values h = h.page_type ∷ h.crc ∷ h.flags ∷ h.reserved1 ∷ []

abbrev pub page_hdr_of : List ℕ → PageHdr
page_hdr_of vs = record {
  page_type = get_or vs 0 0;
  crc = get_or vs 1 0;
  flags = get_or vs 2 0;
  reserved1 = get_or vs 3 0;
}

pub record Frame : Type 0 where
  pub page_id : ℕ
  pub hdr : PageHdr
  pub bytes : Bytes

-- `kds_set_page_dirty`.
abbrev pub set_page_dirty : Frame → Frame
set_page_dirty f = record f { hdr = record f.hdr { flags = set_bit f.hdr.flags flag_dirty } }

-- `kds_page_sector`, in 64-bit arithmetic.
unfoldable pub page_sector : ℕ → ℕ
page_sector id = id * (page_size / sector_size) % 2 ^ 64

-- A frame argument is `none` where one of the tests `!frame`, `!frame->kp`, `!frame->page` holds.
abbrev pub with_frame {ℓ} :
    {A : Type ℓ} → Option Frame → (Frame → Frame × Result A) → Option Frame × Result A
with_frame none body = (none, err einval)
with_frame (some f) body = let (f', r) = body f in (some f', r)

-- The memory image of the header, as `memcpy(addr, &kp->hdr, KDS_PAGE_HDR_SIZE)` makes it.
unfoldable pub store_page_hdr : Bytes → PageHdr → Bytes
store_page_hdr p h = write_struct page_hdr_widths p 0 (page_hdr_values h)

-- What `kds_frame_read_from_disk` reads into `kp->hdr`.
unfoldable pub load_page_hdr : Bytes → PageHdr
load_page_hdr p = page_hdr_of (read_struct page_hdr_widths p 0)

-- `offset + size` is a 64-bit sum.
unfoldable pub set_page_buffer : Option Frame → List ℕ → ℕ → ℕ → Option Frame × Result (Unit {0})
set_page_buffer frame bs offset size = with_frame frame λ f.
    if ltb page_size ((offset + size) % 2 ^ 64)
    then (f, err einval)
    else (set_page_dirty (record f { bytes = store f.bytes offset (take size bs) }), ok tt)

unfoldable pub commit_page_hdr : Option Frame → Option Frame × Result (Unit {0})
commit_page_hdr frame =
    with_frame frame λ f. (record f { bytes = store_page_hdr f.bytes f.hdr }, ok tt)

-- The dirty flag is set before the header is replaced by the caller's.
unfoldable pub update_page_hdr : Option Frame → PageHdr → Option Frame × Result (Unit {0})
update_page_hdr frame h = with_frame frame λ f.
    (record (set_page_dirty (record f { bytes = store_page_hdr f.bytes h })) { hdr = h }, ok tt)

-- `kds_free_page`; the list of free pages that the page joins is read by no code.
unfoldable pub free_page : Option Frame → Option Frame × Result (Unit {0})
free_page frame = with_frame frame λ f.
    let g = set_page_dirty (record f { bytes = store f.bytes 0 (replicate page_size 0) }) in
    (record g { hdr = record g.hdr { flags = set_bit g.hdr.flags flag_free } }, ok tt)

-- The checksum of the bytes behind the header is a parameter: `crc32c(~0, …) ^ ~0` of the kernel.
module _ (crc32c : List ℕ → ℕ) where
  unfoldable pub calc_data_crc : Bytes → ℕ
  calc_data_crc p = crc32c (load p page_hdr_size (page_size - page_hdr_size))

  unfoldable pub check_valid_page : Option Frame → Bool
  check_valid_page none = false
  check_valid_page (some f) = calc_data_crc f.bytes == f.hdr.crc

  unfoldable pub update_page_crc : Option Frame → Option Frame
  update_page_crc none = none
  update_page_crc (some f) = some (record f { hdr = record f.hdr { crc = calc_data_crc f.bytes } })
