-- ===== src/Wal.antt =====
-- The buffer of the write-ahead log: appending a record in kernel/kds/wal.c. Offsets are absolute
-- and count on; the place in the ring is the offset modulo its size. Wal.Pages has the pages of the log.
pub mod Ring
pub mod Append
pub mod Pages
pub mod Walk
pub mod Replay
pub mod Chain
pub mod Growth
pub mod Saved
pub mod Turns
pub mod Rounds
pub mod Flush
pub mod Loss
pub mod Durable
pub mod Tests
use kdbs.Common.{
  ◌==◌, Bool, ℕ, zero, suc, ◌+◌, ◌-◌, ◌*◌, ◌%◌, ◌^◌, List, [], ◌∷◌, ◌++◌, length, take, drop, ltb,
  leb, if◌then◌else◌, Option, none, some, Result, ok, err, einval, enospc, enodev,
}
use kdbs.Common.Bytes.{Bytes, store}
use kdbs.Common.Fields.{encode_fields, le_bytes}

-- KDS_WAL_BUF_SIZE, KDS_WAL_REC_HDR_SIZE and KDS_WAL_MAX_REC_SIZE.
abbrev pub buf_size : ℕ
buf_size = 4194304

abbrev pub rec_hdr_size : ℕ
rec_hdr_size = 36

abbrev pub max_rec_size : ℕ
max_rec_size = 8228

-- `kds_wal_rec_hdr_t`.
pub record RecHdr : Type 0 where
  pub lsn : ℕ
  pub prev_lsn : ℕ
  pub xid : ℕ
  pub type : ℕ
  pub pad : ℕ
  pub body_len : ℕ
  pub crc : ℕ

-- The packed struct in memory.
abbrev pub rec_hdr_bytes : RecHdr → List ℕ
rec_hdr_bytes h =
    encode_fields (8 ∷ (8 ∷ (8 ∷ (1 ∷ (3 ∷ (4 ∷ (4 ∷ [])))))))
      (h.lsn ∷ (h.prev_lsn ∷ (h.xid ∷ (h.type ∷ (h.pad ∷ (h.body_len ∷ (h.crc ∷ [])))))))

-- `kds_wal_buf_t` and `kds_wal_state_t`, without the lock.
pub record Wal : Type 0 where
  pub buf : Bytes
  pub write_off : ℕ
  pub flush_off : ℕ
  pub current_lsn : ℕ
  pub prev_lsn : ℕ
  pub tail_page_id : ℕ
  pub tail_used : ℕ
  pub tail_seg_no : ℕ
  pub flush_lsn : ℕ
  pub checkpointed_lsn : ℕ

-- `kds_lsn_make` of a u64 and a u32; the two parts have no bit in common.
unfoldable pub lsn_make : ℕ → ℕ → ℕ
lsn_make page_id offset = page_id * 2 ^ 32 % 2 ^ 64 + offset % 2 ^ 32

unfoldable pub buf_used : Wal → ℕ
buf_used w = (w.write_off + 2 ^ 64 - w.flush_off) % 2 ^ 64

unfoldable pub buf_free : Wal → ℕ
buf_free w = (buf_size + 2 ^ 64 - buf_used w) % 2 ^ 64

-- A copy to the ring from an absolute offset on, in two parts where it runs over the end.
unfoldable pub ring_write : Bytes → ℕ → List ℕ → Bytes
ring_write b off bs =
    let i = off % buf_size in
    let first = buf_size - i in
    if leb (i + length bs) buf_size
    then store b i bs
    else store (store b i (take first bs)) 0 (drop first bs)

module _ (crc32c : ℕ → List ℕ → ℕ) where
  -- `wal_rec_crc`; the exclusive or with all ones is the complement.
  unfoldable pub rec_crc : RecHdr → List ℕ → ℕ
  rec_crc h body =
      let seed = crc32c (2 ^ 32 - 1) (rec_hdr_bytes (record h { crc = 0 })) in
      let crc = if ltb 0 h.body_len then crc32c seed (take h.body_len body) else seed in
      2 ^ 32 - 1 - crc

  -- `wal_rec_crc_ok`.
  unfoldable pub rec_crc_ok : RecHdr → List ℕ → Bool
  rec_crc_ok h body = h.crc == rec_crc h body

  -- The header that an append stores.
  unfoldable pub stamped : Wal → RecHdr → List ℕ → RecHdr
  stamped w h body =
      let lsn = lsn_make w.tail_page_id (w.tail_used + buf_used w) in
      let h1 = record h { lsn = lsn; prev_lsn = w.prev_lsn } in record h1 { crc = rec_crc h1 body }

  -- The part of an append under the lock, where the record fits.
  unfoldable pub put_record : Wal → RecHdr → List ℕ → Wal
  put_record w h body =
      let b1 = ring_write w.buf w.write_off (rec_hdr_bytes h) in
      let off = (w.write_off + rec_hdr_size) % 2 ^ 64 in
      let b2 = ring_write b1 off (take h.body_len body) in
      record w {
        buf = b2;
        write_off = (off + h.body_len) % 2 ^ 64;
        current_lsn = h.lsn;
        prev_lsn = h.lsn;
      }

  -- `kds_wal_append` with a body of at least `body_len` bytes, which is NULL only where that is 0.
  unfoldable pub wal_append : Wal → RecHdr → List ℕ → Wal × Result ℕ
  wal_append w h body =
      let total = (rec_hdr_size + h.body_len) % 2 ^ 32 in
      let h' = stamped w h body in
      if ltb max_rec_size total
      then (w, err einval)
      else if ltb (buf_free w) total
      then (w, err enospc)
      else (put_record w h' body, ok h'.lsn)

  abbrev xact_hdr : ℕ → ℕ → RecHdr
  xact_hdr xid type = record {
    lsn = 0;
    prev_lsn = 0;
    xid = xid;
    type = type;
    pad = 0;
    body_len = 8;
    crc = 0;
  }

  -- `kds_wal_commit` and `kds_wal_abort`.
  unfoldable pub wal_commit : Wal → ℕ → Wal × Result ℕ
  wal_commit w xid = wal_append w (xact_hdr xid 4) (le_bytes 8 xid)

  unfoldable pub wal_abort : Wal → ℕ → Wal × Result ℕ
  wal_abort w xid = wal_append w (xact_hdr xid 5) (le_bytes 8 xid)
