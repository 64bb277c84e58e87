-- ===== src/Wal/Append.antt =====
-- What an append to the log of kernel/kds/wal.c leaves in the buffer.
use kdbs.Common.{
  ==_iff, ℕ, ◌+◌, ◌-◌, ◌%◌, ◌^◌, ◌≤◌, ◌<◌, ◌≡◌, true, refl, ap, ◌∙◌, false, List, [], ◌∷◌, ◌++◌,
  length, length-take, take, arith, ltb, le→ltb, ok,
}
use kdbs.Common.Fields.{length-encode_fields}
use kdbs.Wal.{
  RecHdr, Wal, buf_size, rec_hdr_size, max_rec_size, rec_hdr_bytes, rec_crc, rec_crc_ok, buf_used,
  buf_free, ring_write, stamped, put_record, wal_append,
}
use kdbs.Wal.Ring.{ring_read, write_appends}

-- The buffered bytes, first those that are flushed first.
unfoldable pub buffered : Wal → List ℕ
buffered w = ring_read w.buf w.flush_off (w.write_off - w.flush_off)

pub record IsWal (w : Wal) : Type 0 where
  pub ordered : w.flush_off ≤ w.write_off
  pub fits : w.write_off - w.flush_off ≤ buf_size

length-rec_hdr_bytes : (h : RecHdr) → length (rec_hdr_bytes h) ≡ rec_hdr_size
length-rec_hdr_bytes h = length-encode_fields (8 ∷ (8 ∷ (8 ∷ (1 ∷ (3 ∷ (4 ∷ (4 ∷ []))))))) _ refl

append_after : (xs ys zs : List ℕ) → (xs ++ ys) ++ zs ≡ xs ++ (ys ++ zs)
append_after [] ys zs = refl
append_after (x ∷ xs) ys zs = ap (◌∷◌ x) (append_after xs ys zs)

module _ (crc32c : ℕ → List ℕ → ℕ) (w : Wal) (h : RecHdr) (body : List ℕ) (v : IsWal w) where
  -- The record of a header and a body, stored where it fits.
  put_buffers :
      h.body_len ≤ length body
      → w.write_off + (rec_hdr_size + h.body_len) < 2 ^ 64
      → w.write_off - w.flush_off + (rec_hdr_size + h.body_len) ≤ buf_size
      → let w' = put_record crc32c w h body in
        IsWal w' × (buffered w' ≡ buffered w ++ (rec_hdr_bytes h ++ take h.body_len body))
  unfolding put_record buffered
  put_buffers given small room =
      let hdr = rec_hdr_bytes h in
      let bs = take h.body_len body in
      let n = length-rec_hdr_bytes h in
      let m : length bs ≡ h.body_len = omega (arith, length-take h.body_len body, given) in
      let behind : (w.write_off + rec_hdr_size) % 2 ^ 64 ≡ w.write_off + rec_hdr_size =
        omega (arith, small) in
      let end : (w.write_off + rec_hdr_size + h.body_len) % 2 ^ 64
          ≡ w.write_off + (rec_hdr_size + h.body_len) =
        omega (arith, small) in
      let b1 = ring_write w.buf w.write_off hdr in
      let off = w.write_off + rec_hdr_size in
      let first =
        write_appends w.buf w.flush_off w.write_off hdr v.ordered (omega (arith, n, room)) in
      let second =
        write_appends b1 w.flush_off off bs (let o = v.ordered in omega (arith, o))
          (let o = v.ordered in omega (arith, m, room, o)) in
      let here : off - w.flush_off ≡ w.write_off - w.flush_off + length hdr =
        (let o = v.ordered in omega (arith, n, o)) in
      let there : w.write_off + (rec_hdr_size + h.body_len) - w.flush_off
          ≡ off - w.flush_off + length bs =
        (let o = v.ordered in omega (arith, m, o)) in
      rw (behind, end)
        (
          record {
            ordered = let o = v.ordered in omega (arith, o);
            fits = let o = v.ordered in omega (arith, o, room);
          },
          ap (ring_read (ring_write b1 off bs) w.flush_off) there
              ∙ second
              ∙ ap (λ k. ring_read b1 w.flush_off k ++ bs) here
              ∙ ap (λ xs. xs ++ bs) first
              ∙ append_after (ring_read w.buf w.flush_off (w.write_off - w.flush_off)) hdr bs,
        )

module _ (crc32c : ℕ → List ℕ → ℕ) where
  stamped_checks :
      (w : Wal) (h : RecHdr) (body : List ℕ)
      → rec_crc_ok crc32c (stamped crc32c w h body) body ≡ true
  unfolding rec_crc_ok stamped rec_crc
  stamped_checks w h body =
      let c = rec_crc crc32c (stamped crc32c w h body) body in (==_iff c c).1 refl

  -- Appending a record whose body has at most 8192 bytes, where the buffer has room for it and
  -- offsets stay below 2 ^ 64, succeeds and returns the record's LSN; the checksum of the
  -- record is accepted, and the buffered bytes then are those of before, the header with its LSN,
  -- the previous LSN and the checksum, and the body.
  pub append_buffers :
      (w : Wal) (h : RecHdr) (body : List ℕ)
      → IsWal w
      → h.body_len ≤ 8192
      → h.body_len ≤ length body
      → w.write_off + (rec_hdr_size + h.body_len) < 2 ^ 64
      → w.write_off - w.flush_off + (rec_hdr_size + h.body_len) ≤ buf_size
      → let (w', r) = wal_append crc32c w h body in
        let h' = stamped crc32c w h body in
        (r ≡ ok h'.lsn)
        × IsWal w'
        × (rec_crc_ok crc32c h' body ≡ true)
        × (buffered w' ≡ buffered w ++ (rec_hdr_bytes h' ++ take h.body_len body))
  unfolding wal_append buf_used buf_free stamped
  append_buffers w h body v bound given small room =
      let o = v.ordered in
      let total : (rec_hdr_size + h.body_len) % 2 ^ 32 ≡ rec_hdr_size + h.body_len =
        omega (arith, bound) in
      let short : ltb max_rec_size (rec_hdr_size + h.body_len) ≡ false =
        le→ltb max_rec_size (rec_hdr_size + h.body_len) (omega (arith, bound)) in
      let fits : ltb (buf_free w) (rec_hdr_size + h.body_len) ≡ false =
        le→ltb (buf_free w) (rec_hdr_size + h.body_len) (omega (arith, o, small, room)) in
      let (still, bytes) = put_buffers crc32c w (stamped crc32c w h body) body v given small room in
      rw (wal_append, total, short, fits) (refl, still, stamped_checks w h body, bytes)
