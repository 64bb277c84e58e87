-- ===== src/Wal/Durable.antt =====
-- A record that is appended to the log of kernel/kds/wal.c and flushed.
use kdbs.Common.{
  ℕ, ◌+◌, ◌-◌, ◌*◌, ◌%◌, ◌^◌, ◌≤◌, ◌<◌, ◌≡◌, refl, sym, subst, ap, ◌∙◌, List, ◌∷◌, ◌++◌, length,
  take, arith, if_elim, ltb, Result, ok, none, false,
}
use mathlib.Core.Path.{ap₂}
use kdbs.Wal.{
  Wal, RecHdr, buf_size, rec_hdr_size, rec_hdr_bytes, max_rec_size, buf_free, stamped, wal_append,
  put_record,
}
use kdbs.Wal.Append.{IsWal, buffered, append_buffers}
use kdbs.Wal.Pages.{LogStore, LogEnv, payload_size, wal_flush}
use kdbs.Wal.Chain.{log_text}
use kdbs.Wal.Growth.{IsLog, text_of}
use kdbs.Wal.Saved.{AreSaved, disk_text, disk_text_lem}
use kdbs.Wal.Flush.{flush_appends}

-- What an append leaves alone.
record Stays (w w' : Wal) (size : ℕ) : Type 0 where
  tail : w'.tail_page_id ≡ w.tail_page_id
  flush : w'.flush_off ≡ w.flush_off
  grows : w'.write_off ≤ w.write_off + size
  small : w'.write_off < 2 ^ 64

append-Stays :
    (crc32c : ℕ → List ℕ → ℕ) (w : Wal) (h : RecHdr) (body : List ℕ)
    → w.write_off < 2 ^ 64
    → Stays w (wal_append crc32c w h body).0 (rec_hdr_size + h.body_len)
unfolding wal_append put_record stamped
append-Stays crc32c w h body lt =
    let P = λ (x : Wal × Result ℕ). Stays w x.0 (rec_hdr_size + h.body_len) in
    let total = (rec_hdr_size + h.body_len) % 2 ^ 32 in
    let idle : Stays w w (rec_hdr_size + h.body_len) = record {
      tail = refl;
      flush = refl;
      grows = omega arith;
      small = lt;
    } in
    let put : Stays w (put_record crc32c w (stamped crc32c w h body) body)
        (rec_hdr_size + h.body_len) =
      record { tail = refl; flush = refl; grows = omega arith; small = omega arith } in
    if_elim P (ltb max_rec_size total) idle (if_elim P (ltb (buf_free w) total) idle put)

-- An append of a record whose body has at most 8192 bytes and for which there is room in the buffer,
-- at offsets below 2 ^ 64, and then a flush of a linked log both succeed and leave nothing buffered,
-- where all pages load, all writes to the disk succeed, the disk has the log's pages as they are in
-- memory, but for those without bytes, and the allocator has as many pages as the bytes fill. The
-- text of the log's pages then is that of before, the bytes that were buffered, the header that the
-- append stamped, and the body, in memory and on the disk.
-- A linked log is one whose pages are linked in order and hold no more than they have room for,
-- whose buffer's offsets are in order, and to which the allocator's pages are new.
pub append_then_flush :
    (crc32c : ℕ → List ℕ → ℕ) (env : LogEnv) (w : Wal) (st : LogStore) (older : List ℕ) (h : RecHdr)
    (body : List ℕ)
    → ((id : ℕ) → env.load_error id ≡ none)
    → ((id : ℕ) → env.write_fails id ≡ false)
    → IsWal w
    → IsLog w st older
    → AreSaved st (w.tail_page_id ∷ older)
    → h.body_len ≤ 8192
    → h.body_len ≤ length body
    → w.write_off + (rec_hdr_size + h.body_len) < 2 ^ 64
    → w.write_off - w.flush_off + (rec_hdr_size + h.body_len) ≤ buf_size
    → (st.pages w.tail_page_id).used_bytes
        + (w.write_off - w.flush_off + (rec_hdr_size + h.body_len))
      < payload_size * (length st.supply + 1)
    → let (w1, r1) = wal_append crc32c w h body in
      let (w2, st2, r2) = wal_flush env w1 st in
      let h' = stamped crc32c w h body in
      (r1 ≡ ok h'.lsn)
      × (r2 ≡ ok tt)
      × (w2.flush_off ≡ w2.write_off)
      × ((chain : List ℕ) × IsLog w2 st2 chain
          × AreSaved st2 (w2.tail_page_id ∷ chain)
          × (text_of w2 st2 chain
              ≡ text_of w st older ++ (buffered w ++ (rec_hdr_bytes h' ++ take h.body_len body)))
          × (disk_text st2 (w2.tail_page_id ∷ chain)
              ≡ disk_text st (w.tail_page_id ∷ older)
                ++ (buffered w ++ (rec_hdr_bytes h' ++ take h.body_len body))))
unfolding buffered
append_then_flush crc32c env w st older h body fine writes b v saved bound given small room enough =
    let (r1, b1, _, bytes) = append_buffers crc32c w h body b bound given small room in
    let w1 = (wal_append crc32c w h body).0 in
    let stays = append-Stays crc32c w h body (omega (arith, small)) in
    let v1 : IsLog w1 st older = record {
      fits = rw (stays.tail) v.fits;
      apart = rw (stays.tail) v.apart;
      fresh = rw (stays.tail) v.fresh;
      linked = rw (stays.tail) v.linked;
    } in
    let flush = stays.flush in
    let grows = stays.grows in
    let o = b.ordered in
    let (r2, a) =
      flush_appends env fine w1 st older b1 stays.small v1
        (omega (arith, flush, grows, o, rw (sym stays.tail) at enough)) in
    let all = rec_hdr_bytes (stamped crc32c w h body) ++ take h.body_len body in
    let text =
      a.text ∙ ap₂ ◌++◌ (ap (λ (id : ℕ). log_text st.pages (id ∷ older)) stays.tail) bytes in
    let now_saved =
      a.carries.saves writes
        (subst (λ (id : ℕ). AreSaved st (id ∷ older)) (sym stays.tail) saved) in
    (
      r1,
      r2,
      a.emptied ∙ sym a.kept,
      (
        a.chain,
        a.log,
        now_saved,
        text,
        disk_text_lem (wal_flush env w1 st).1 ((wal_flush env w1 st).0.tail_page_id ∷ a.chain)
              now_saved
            ∙ text
            ∙ ap (λ (xs : List ℕ). xs ++ (buffered w ++ all))
                (sym (disk_text_lem st (w.tail_page_id ∷ older) saved)),
      ),
    )
