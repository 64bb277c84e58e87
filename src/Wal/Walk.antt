-- ===== src/Wal/Walk.antt =====
-- The recovery of kernel/kds/wal.c: the walk over the records of a page and over the pages. A record
-- that is replayed is counted; the source does nothing else with it yet.
use kdbs.Common.{
  ℕ, zero, suc, ◌+◌, ◌/◌, ◌%◌, ◌^◌, List, [], ◌∷◌, get_or, ltb, leb, ◌==◌, ◌&&◌, not, if◌then◌else◌,
  Option, none, some, Errno, Result, ok, err,
}
use kdbs.Common.Bytes.{Bytes, load}
use kdbs.Common.Fields.{read_struct}
use kdbs.Wal.{RecHdr, rec_hdr_size, rec_crc_ok}
use kdbs.Wal.Pages.{LogPage, LogEnv}

abbrev pub rec_widths : List ℕ
rec_widths = 8 ∷ (8 ∷ (8 ∷ (1 ∷ (3 ∷ (4 ∷ (4 ∷ []))))))

abbrev pub hdr_of : List ℕ → RecHdr
hdr_of vs = record {
  lsn = get_or vs 0 0;
  prev_lsn = get_or vs 1 0;
  xid = get_or vs 2 0;
  type = get_or vs 3 0;
  pad = get_or vs 4 0;
  body_len = get_or vs 5 0;
  crc = get_or vs 6 0;
}

abbrev pub rec_at : Bytes → ℕ → RecHdr
rec_at p off = hdr_of (read_struct rec_widths p off)

-- What one record makes the walk do: leave the page, or go on behind the record, which counts or
-- does not.
pub data Visit : Type 0 where
  leave : Visit
  pass : Visit
  replay : Visit

abbrev pub by_type : ℕ → Visit
by_type t = if leb 1 t && leb t 3 then replay else if leb 4 t && leb t 6 then pass else leave

module _ (crc32c : ℕ → List ℕ → ℕ) where
  abbrev pub judge : ℕ → LogPage → ℕ → RecHdr → List ℕ → Visit
  judge ckpt p off rec body =
      if ltb p.used_bytes (off + rec_hdr_size)
      then leave
      else if ltb 0 rec.lsn && ltb rec.lsn ckpt
      then pass
      else if not (rec_crc_ok crc32c rec body)
      then leave
      else if ltb p.used_bytes (off + rec_hdr_size + rec.body_len)
      then leave
      else by_type rec.type

  -- One round of the loop over the records of a page; the offsets in its tests are 64 bits wide.
  unfoldable pub visit : ℕ → LogPage → ℕ → Visit
  visit ckpt p off =
      let rec = rec_at p.payload off in
      judge ckpt p off rec (load p.payload (off + rec_hdr_size) rec.body_len)

  abbrev pub after_visit : (ℕ → Option ℕ) → ℕ → Visit → Option ℕ
  after_visit rest count leave = some count
  after_visit rest count pass = rest count
  after_visit rest count replay = rest (count + 1)

  -- The loop over the records of a page, with fuel; the offset is 32 bits wide. `none` means that
  -- the fuel ran out.
  unfoldable pub page_walk : ℕ → LogPage → ℕ → ℕ → ℕ → Option ℕ
  page_walk ckpt p zero off count = none
  page_walk ckpt p (suc fuel) off count =
      let behind = (off + (rec_hdr_size + (rec_at p.payload off).body_len)) % 2 ^ 32 in
      after_visit (page_walk ckpt p fuel behind) count (visit ckpt p off)

  -- The loop over the pages.
  abbrev pub after_page : (ℕ → Option (Result ℕ)) → Option ℕ → Option (Result ℕ)
  after_page rest none = none
  after_page rest (some count) = rest count

  abbrev pub unless_unloaded : Option Errno → Option (Result ℕ) → Option (Result ℕ)
  unless_unloaded (some e) r = some (err e)
  unless_unloaded none r = r

  unfoldable pub recover_from : LogEnv → (ℕ → LogPage) → ℕ → ℕ → ℕ → ℕ → Option (Result ℕ)
  recover_from env pages ckpt zero id count = none
  recover_from env pages ckpt (suc fuel) id count =
      let rest = recover_from env pages ckpt fuel (pages id).next_wal_page_id in
      if id == 0
      then some (ok count)
      else unless_unloaded (env.load_error id)
          (after_page rest (page_walk ckpt (pages id) fuel 0 count))

  -- `kds_wal_recover` from a checkpoint; where the LSN has page 0 there is nothing to replay.
  unfoldable pub wal_recover : LogEnv → (ℕ → LogPage) → ℕ → ℕ → Option (Result ℕ)
  wal_recover env pages ckpt fuel = recover_from env pages ckpt fuel (ckpt / 2 ^ 32) 0
