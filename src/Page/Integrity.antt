-- ===== src/Page/Integrity.antt =====
-- What the page writers of kernel/kds/page.c promise about the checksum.
use kdbs.Common.{
  ℕ, ◌-◌, ◌^◌, ◌<◌, ◌≡◌, refl, sym, ap, ◌∙◌, true, List, Option, none, some, arith, ==_iff, inr,
}
use kdbs.Common.Bytes.{Bytes, load}
use kdbs.Common.Fields.{read-write_struct, load-write_apart}
use kdbs.Page.{
  PageHdr, Frame, page_hdr_widths, page_hdr_size, page_hdr_values, page_hdr_of, page_size,
  store_page_hdr, load_page_hdr, commit_page_hdr, calc_data_crc, check_valid_page, update_page_crc,
}

-- The fields of a header but the checksum are within their widths.
abbrev pub HdrFits : PageHdr → Type 0
HdrFits h = (h.page_type < 2 ^ 32) × (h.flags < 2 ^ 8) × (h.reserved1 < 2 ^ 256)

-- A frame whose header is read from its bytes, as after a page is read from disk.
abbrev pub read_back : Option Frame → Option Frame
read_back none = none
read_back (some f) = some (record f { hdr = load_page_hdr f.bytes })

module _ (crc32c : List ℕ → ℕ) (is_u32 : (bs : List ℕ) → crc32c bs < 2 ^ 32) where
  crc_is_u32 : (p : Bytes) → calc_data_crc crc32c p < 2 ^ 32
  unfolding calc_data_crc
  crc_is_u32 p = is_u32 (load p page_hdr_size (page_size - page_hdr_size))

  data-store_page_hdr :
      (p : Bytes) (h : PageHdr) → calc_data_crc crc32c (store_page_hdr p h) ≡ calc_data_crc crc32c p
  unfolding calc_data_crc store_page_hdr
  data-store_page_hdr p h = ap crc32c (
      load-write_apart page_hdr_widths p 0 (page_hdr_values h) page_hdr_size 8151 refl
        (inr (omega arith)))

  load-store_page_hdr :
      (p : Bytes) (h : PageHdr)
      → HdrFits h
      → h.crc < 2 ^ 32
      → load_page_hdr (store_page_hdr p h) ≡ h
  unfolding load_page_hdr store_page_hdr
  load-store_page_hdr p h (a, b, c) d =
      ap page_hdr_of (read-write_struct page_hdr_widths p 0 (page_hdr_values h) refl (omega arith))

  -- A page whose checksum is updated and whose header is then committed is valid when its header
  -- is read back from its bytes, provided that the header's fields fit their widths and checksums
  -- are u32 values.
  pub committed_page_checks :
      (f : Frame)
      → HdrFits f.hdr
      → check_valid_page crc32c (read_back (commit_page_hdr (update_page_crc crc32c (some f))).0)
        ≡ true
  unfolding check_valid_page commit_page_hdr update_page_crc
  committed_page_checks f h =
      let crc = calc_data_crc crc32c f.bytes in
      let hdr = record f.hdr { crc = crc } in
      let e : (load_page_hdr (store_page_hdr f.bytes hdr)).crc ≡ crc =
        ap (λ (x : PageHdr). x.crc) (load-store_page_hdr f.bytes hdr h (crc_is_u32 f.bytes)) in
      (==_iff _ _).1 (data-store_page_hdr f.bytes hdr ∙ sym e)
