-- ===== src/Wal/Replay.antt =====
-- What the recovery of kernel/kds/wal.c reads of a page of records.
use kdbs.Common.{
  ℕ, zero, suc, ◌+◌, ◌-◌, ◌%◌, ◌^◌, ◌≤◌, ◌<◌, ◌≡◌, refl, sym, ap, ◌∙◌, true, false, List, [], ◌∷◌,
  ◌++◌, length, length-append, arith, ◌&&◌, Bool-cases, if◌then◌else◌, leb, ltb, some, none, take,
  drop, inl, inr,
}
use kdbs.Common.Bytes.{Bytes, load, length-load}
use kdbs.Common.Fields.{
  decode_fields, decode-encode_fields, length-encode_fields, read_struct, Fits, take_append,
  drop_append,
}
use kdbs.Wal.{RecHdr, rec_hdr_bytes, rec_hdr_size, rec_crc_ok}
use kdbs.Wal.Pages.{LogPage, payload_size}
use kdbs.Wal.Chain.{load_append}
use kdbs.Wal.Walk.{
  rec_widths, hdr_of, rec_at, leave, pass, replay, judge, visit, after_visit, page_walk,
}

-- A record: its header and its body.
abbrev pub Entry : Type 0
Entry = RecHdr × List ℕ

abbrev pub hdr_values : RecHdr → List ℕ
hdr_values h = h.lsn ∷ (h.prev_lsn ∷ (h.xid ∷ (h.type ∷ (h.pad ∷ (h.body_len ∷ (h.crc ∷ []))))))

abbrev pub entries_text : List Entry → List ℕ
entries_text [] = []
entries_text ((h, body) ∷ es) = rec_hdr_bytes h ++ (body ++ entries_text es)

-- Those that are replayed: inserts, deletes and new pages.
abbrev pub replayed : List Entry → ℕ
replayed [] = 0
replayed ((h, body) ∷ es) = (if leb h.type 3 then 1 else 0) + replayed es

-- A whole record from the checkpoint on, of a known type, with its checksum.
pub record IsSound (crc32c : ℕ → List ℕ → ℕ) (ckpt : ℕ) (h : RecHdr) (body : List ℕ) : Type 0 where
  pub fields : Fits rec_widths (hdr_values h)
  pub whole : h.body_len ≡ length body
  pub checked : rec_crc_ok crc32c h body ≡ true
  pub recent : ckpt ≤ h.lsn
  pub known : (1 ≤ h.type) × (h.type ≤ 6)

abbrev pub AllSound : (ℕ → List ℕ → ℕ) → ℕ → List Entry → Type 0
AllSound crc32c ckpt [] = Unit {0}
AllSound crc32c ckpt ((h, body) ∷ es) = IsSound crc32c ckpt h body × AllSound crc32c ckpt es

split_load :
    (p : Bytes) (off m n : ℕ) (xs ys : List ℕ)
    → load p off (m + n) ≡ xs ++ ys
    → length xs ≡ m
    → (load p off m ≡ xs) × (load p (off + m) n ≡ ys)
split_load p off m n xs ys e len =
    let parts = sym (load_append p off m n) ∙ e in
    let size = length-load p off m in
    (
      sym (take_append (load p off m) (load p (off + m) n) m size)
          ∙ ap (take m) parts
          ∙ take_append xs ys m len,
      sym (drop_append (load p off m) (load p (off + m) n) m size)
          ∙ ap (drop m) parts
          ∙ drop_append xs ys m len,
    )

length-hdr : (h : RecHdr) → length (rec_hdr_bytes h) ≡ rec_hdr_size
length-hdr h = length-encode_fields rec_widths (hdr_values h) refl

-- The parts of a text of records in memory.
module _ (p : Bytes) (off : ℕ) (h : RecHdr) (body : List ℕ) (es : List Entry)
    (whole : h.body_len ≡ length body)
    (e : load p off (length (entries_text ((h, body) ∷ es))) ≡ entries_text ((h, body) ∷ es)) where
  entry_length :
      length (entries_text ((h, body) ∷ es))
      ≡ rec_hdr_size + (h.body_len + length (entries_text es))
  entry_length =
      let a = length-append (rec_hdr_bytes h) (body ++ entries_text es) in
      let b = length-append body (entries_text es) in
      let c = length-hdr h in omega (arith, a, b, c, whole)

  hdr_split :
      (load p off rec_hdr_size ≡ rec_hdr_bytes h)
      × (load p (off + rec_hdr_size) (h.body_len + length (entries_text es))
          ≡ body ++ entries_text es)
  hdr_split =
      split_load p off rec_hdr_size (h.body_len + length (entries_text es)) (rec_hdr_bytes h)
        (body ++ entries_text es) (ap (load p off) (sym entry_length) ∙ e) (length-hdr h)

  body_split :
      (load p (off + rec_hdr_size) h.body_len ≡ body)
      × (load p (off + rec_hdr_size + h.body_len) (length (entries_text es)) ≡ entries_text es)
  body_split =
      split_load p (off + rec_hdr_size) h.body_len (length (entries_text es)) body (entries_text es)
        hdr_split.1 (sym whole)

  rec_is : Fits rec_widths (hdr_values h) → rec_at p off ≡ h
  unfolding read_struct
  rec_is fits =
      ap (λ (bs : List ℕ). hdr_of (decode_fields rec_widths bs)) hdr_split.0
      ∙ ap hdr_of (decode-encode_fields rec_widths (hdr_values h) fits)

module _ (crc32c : ℕ → List ℕ → ℕ) (ckpt : ℕ) where
  visit_is :
      (p : LogPage) (off : ℕ) (h : RecHdr) (body : List ℕ)
      → rec_at p.payload off ≡ h
      → load p.payload (off + rec_hdr_size) h.body_len ≡ body
      → IsSound crc32c ckpt h body
      → off + rec_hdr_size + h.body_len ≤ p.used_bytes
      → visit crc32c ckpt p off ≡ (if leb h.type 3 then replay else pass)
  unfolding visit
  visit_is p off h body is bytes sound within =
      let checked = sound.checked in
      let recent = sound.recent in
      let known = sound.known in
      let t1 : ltb p.used_bytes (off + rec_hdr_size) ≡ false = ground (arith, within) in
      let t2 : (ltb 0 h.lsn && ltb h.lsn ckpt) ≡ false = ground (arith, recent) in
      let t4 : ltb p.used_bytes (off + rec_hdr_size + h.body_len) ≡ false =
        ground (arith, within) in
      ap
        (λ (r : RecHdr). judge crc32c ckpt p off r (load p.payload (off + rec_hdr_size) r.body_len))
        is
      ∙ ap (judge crc32c ckpt p off h) bytes
      ∙ rw (t1, t2, checked, t4) (ground (arith, known))

  visit_end :
      (p : LogPage) (off : ℕ) → p.used_bytes < off + rec_hdr_size → visit crc32c ckpt p off ≡ leave
  unfolding visit
  visit_end p off h =
      let t : ltb p.used_bytes (off + rec_hdr_size) ≡ true = ground (arith, h) in rw t refl

  -- The walk over a page that holds whole records from the checkpoint on, of known types and with
  -- right checksums, ends, and counts those that are to be replayed.
  pub walk_counts :
      (p : LogPage) (es : List Entry) (fuel off count : ℕ)
      → AllSound crc32c ckpt es
      → load p.payload off (length (entries_text es)) ≡ entries_text es
      → p.used_bytes ≡ off + length (entries_text es)
      → p.used_bytes ≤ payload_size
      → length es < fuel
      → page_walk crc32c ckpt p fuel off count ≡ some (count + replayed es)
  unfolding page_walk
  walk_counts p es zero off count s e u small h = absurd (omega (arith, h))
  walk_counts p [] (suc fuel) off count s e u small h =
      let ends : visit crc32c ckpt p off ≡ leave = visit_end p off (omega (arith, u)) in
      let same : count ≡ count + 0 = omega arith in rw ends (ap some same)
  walk_counts p ((h, body) ∷ es) (suc fuel) off count (sound, rest) e u small l =
      let whole = sound.whole in
      let is = rec_is p.payload off h body es whole e sound.fields in
      let bytes = body_split p.payload off h body es whole e in
      let size = entry_length p.payload off h body es whole e in
      let next = off + rec_hdr_size + h.body_len in
      let v = visit_is p off h body is bytes.0 sound (omega (arith, u, size)) in
      let behind : (off + (rec_hdr_size + (rec_at p.payload off).body_len)) % 2 ^ 32 ≡ next =
        ap (λ (r : RecHdr). (off + (rec_hdr_size + r.body_len)) % 2 ^ 32) is
        ∙ omega (arith, u, size, small) in
      let go : (k : ℕ) → page_walk crc32c ckpt p fuel next k ≡ some (k + replayed es) = λ k.
        walk_counts p es fuel next k rest bytes.1 (omega (arith, u, size)) small
          (omega (arith, l)) in
      ap
        (λ (o : ℕ).
          after_visit crc32c (page_walk crc32c ckpt p fuel o) count (visit crc32c ckpt p off))
        behind
      ∙ ap (after_visit crc32c (page_walk crc32c ckpt p fuel next) count) v
      ∙ elim (Bool-cases (leb h.type 3)) [
        | inl t ↦
            let same : count + 1 + replayed es ≡ count + (1 + replayed es) = omega arith in
            rw t (go (count + 1) ∙ ap some same)
        | inr t ↦
            let same : count + replayed es ≡ count + (0 + replayed es) = omega arith in
            rw t (go count ∙ ap some same)
      ]

-- A record before the checkpoint whose length makes its end fall on its start, modulo 2 ^ 32, is
-- passed before its checksum is tested, and the walk never gets behind it: no fuel is enough.
pub walk_hangs :
    (crc32c : ℕ → List ℕ → ℕ) (ckpt : ℕ) (p : LogPage) (off : ℕ)
    → off + rec_hdr_size ≤ p.used_bytes
    → off < 2 ^ 32
    → 0 < (rec_at p.payload off).lsn
    → (rec_at p.payload off).lsn < ckpt
    → (rec_at p.payload off).body_len ≡ 2 ^ 32 - rec_hdr_size
    → (fuel count : ℕ) → page_walk crc32c ckpt p fuel off count ≡ none
unfolding page_walk visit
walk_hangs crc32c ckpt p off within small some_lsn old len zero count = refl
walk_hangs crc32c ckpt p off within small some_lsn old len (suc fuel) count =
    let behind : (off + (rec_hdr_size + (rec_at p.payload off).body_len)) % 2 ^ 32 ≡ off =
      omega (arith, len, small) in
    let t1 : ltb p.used_bytes (off + rec_hdr_size) ≡ false = ground (arith, within) in
    let t2 : (ltb 0 (rec_at p.payload off).lsn && ltb (rec_at p.payload off).lsn ckpt) ≡ true =
      ground (arith, some_lsn, old) in
    let passes : visit crc32c ckpt p off ≡ pass = rw (t1, t2) refl in
    ap
      (λ (o : ℕ).
        after_visit crc32c (page_walk crc32c ckpt p fuel o) count (visit crc32c ckpt p off))
      behind
    ∙ ap (after_visit crc32c (page_walk crc32c ckpt p fuel off) count) passes
    ∙ walk_hangs crc32c ckpt p off within small some_lsn old len fuel count
