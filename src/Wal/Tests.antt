-- ===== src/Wal/Tests.antt =====
-- A record that runs over the end of the ring, with the sum of the bytes as checksum.
use kdbs.Common.{
  zero, suc, ◌≤◌, ◌<◌, none, some, length, ℕ, ◌+◌, ◌%◌, ◌^◌, ◌≡◌, refl, false, inl, List, [], ◌∷◌,
  ◌++◌, take, arith, ok,
}
use kdbs.Wal.{RecHdr, Wal, rec_hdr_bytes, rec_crc, rec_crc_ok, stamped, wal_append}
use kdbs.Common.Bytes.{store, load, load-store_self}
use kdbs.Common.Fields.{read_struct, decode_fields, encode_fields, le_bytes, le_value}
use kdbs.Wal.Pages.{LogPage, LogStore, LogEnv, fresh_page, wal_flush}
use kdbs.Wal.Chain.{Absent, IsFresh}
use kdbs.Wal.Growth.{IsLog, text_of}
use kdbs.Wal.Flush.{Appended}
use kdbs.Wal.Loss.{flush_loses}
use kdbs.Wal.Saved.{AreSaved, disk_text}
use kdbs.Wal.Durable.{append_then_flush}
use kdbs.Wal.Walk.{rec_at, page_walk}
use kdbs.Wal.Replay.{Entry, entries_text, IsSound, walk_counts, walk_hangs}
use kdbs.Wal.Append.{buffered, IsWal}

abbrev sum : ℕ → List ℕ → ℕ
sum seed [] = seed % 2 ^ 32
sum seed (b ∷ bs) = sum (seed + b) bs

abbrev log : Wal
log = record {
  buf = λ _. 0;
  write_off = 4194300;
  flush_off = 4194290;
  current_lsn = 0;
  prev_lsn = 0;
  tail_page_id = 130;
  tail_used = 0;
  tail_seg_no = 1;
  flush_lsn = 0;
  checkpointed_lsn = 0;
}

abbrev hdr : RecHdr
hdr = record { lsn = 0; prev_lsn = 0; xid = 7; type = 1; pad = 0; body_len = 2; crc = 0 }

log-IsWal : IsWal log
log-IsWal = record { ordered = omega arith; fits = omega arith }

abbrev all_well : LogEnv
all_well = record { load_error = λ _. none; write_fails = λ _. false }

-- The tail page 130 has room for four bytes.
abbrev nearly_full : List ℕ → LogStore
nearly_full supply = record {
  pages = λ _. record (fresh_page 1 0) { used_bytes = 8115 };
  disk = λ _. record (fresh_page 1 0) { used_bytes = 8115 };
  supply = supply;
}

abbrev ids_from : ℕ → ℕ → List ℕ
ids_from zero c = []
ids_from (suc n) c = c ∷ ids_from n (c + 1)

abbrev AllBelow : ℕ → List ℕ → Type 0
AllBelow c [] = Unit {0}
AllBelow c (id ∷ ids) = (id < c) × AllBelow c ids

below-Absent : (c : ℕ) (ids : List ℕ) → AllBelow c ids → Absent c ids
below-Absent c [] h = tt
below-Absent c (id ∷ ids) h = (ground (arith, h.0), below-Absent c ids h.1)

below_suc : (c : ℕ) (ids : List ℕ) → AllBelow c ids → AllBelow (c + 1) ids
below_suc c [] h = tt
below_suc c (id ∷ ids) h = (omega (arith, h.0), below_suc c ids h.1)

ids_from-IsFresh : (n c : ℕ) (chain : List ℕ) → AllBelow c chain → IsFresh chain (ids_from n c)
ids_from-IsFresh zero c chain h = tt
ids_from-IsFresh (suc n) c chain h = (
  below-Absent c chain h,
  ids_from-IsFresh n (c + 1) (c ∷ chain) (omega arith, below_suc c chain h),
)

nearly_full-IsLog : (n : ℕ) → IsLog log (nearly_full (ids_from n 200)) []
nearly_full-IsLog n = record {
  fits = omega arith;
  apart = tt;
  fresh = ids_from-IsFresh n 200 (130 ∷ []) (omega arith, tt);
  linked = tt;
}

append_then_flush_example :
    let (w1, r1) = wal_append sum log hdr (1 ∷ (2 ∷ [])) in
    let (w2, st2, r2) = wal_flush all_well w1 (nearly_full (ids_from 1 200)) in
    let h' = stamped sum log hdr (1 ∷ (2 ∷ [])) in
    (r1 ≡ ok h'.lsn)
    × (r2 ≡ ok tt)
    × (w2.flush_off ≡ w2.write_off)
    × ((chain : List ℕ) × IsLog w2 st2 chain
        × AreSaved st2 (w2.tail_page_id ∷ chain)
        × (text_of w2 st2 chain
            ≡ text_of log (nearly_full (ids_from 1 200)) []
              ++ (buffered log ++ (rec_hdr_bytes h' ++ take 2 (1 ∷ (2 ∷ [])))))
        × (disk_text st2 (w2.tail_page_id ∷ chain)
            ≡ disk_text (nearly_full (ids_from 1 200)) (130 ∷ [])
              ++ (buffered log ++ (rec_hdr_bytes h' ++ take 2 (1 ∷ (2 ∷ []))))))
append_then_flush_example =
    append_then_flush sum all_well log (nearly_full (ids_from 1 200)) [] hdr (1 ∷ (2 ∷ []))
      (λ _. refl) (λ _. refl) log-IsWal (nearly_full-IsLog 1) (inl refl, tt) (omega arith)
      (omega arith) (omega arith) (omega arith) (omega arith)

flush_loses_example :
    let (w', st', r) = wal_flush all_well log (nearly_full []) in
    (r ≡ ok tt) × Appended all_well log (nearly_full []) [] 4 w' st'
flush_loses_example =
    flush_loses all_well log (nearly_full []) [] (λ _. refl) log-IsWal (omega arith)
      (nearly_full-IsLog 0) (omega arith) refl (omega arith)

-- An insert with two bytes and a commit without a body, under a checksum that is constant.
abbrev constant : ℕ → List ℕ → ℕ
constant seed bs = 0

abbrev rec_of : ℕ → ℕ → RecHdr
rec_of type len = record {
  lsn = 9;
  prev_lsn = 0;
  xid = 7;
  type = type;
  pad = 0;
  body_len = len;
  crc = 4294967295;
}

abbrev two_entries : List Entry
two_entries = (rec_of 1 2, 1 ∷ (2 ∷ [])) ∷ ((rec_of 4 0, []) ∷ [])

abbrev two_records : LogPage
two_records = record (fresh_page 1 0) {
  used_bytes = 74;
  payload = store (λ _. 0) 0 (entries_text two_entries);
}

rec_of-IsSound :
    (type : ℕ) (body : List ℕ)
    → (1 ≤ type) × (type ≤ 6)
    → length body < 256
    → IsSound constant 9 (rec_of type (length body)) body
unfolding rec_crc_ok rec_crc
rec_of-IsSound type body known short = record {
  fields = omega (arith, known, short);
  whole = refl;
  checked = ground arith;
  recent = omega arith;
  known = known;
}

two_entries_length : length (entries_text two_entries) ≡ 74
unfolding encode_fields le_bytes
two_entries_length = refl

walk_counts_example : page_walk constant 9 two_records 5 0 0 ≡ some 1
walk_counts_example =
    walk_counts constant 9 two_records two_entries 5 0 0
      (
        rec_of-IsSound 1 (1 ∷ (2 ∷ [])) (omega arith) (omega arith),
        (rec_of-IsSound 4 [] (omega arith) (omega arith), tt),
      )
      (load-store_self (λ _. 0) 0 (entries_text two_entries) (length (entries_text two_entries))
        refl)
      (omega (arith, two_entries_length)) (omega arith) (omega arith)

abbrev bad_record : LogPage
bad_record = record (fresh_page 1 0) {
  used_bytes = 100;
  payload = store (λ _. 0) 0 (rec_hdr_bytes (rec_of 1 4294967260));
}

bad_record_read :
    ((rec_at bad_record.payload 0).lsn ≡ 9) × ((rec_at bad_record.payload 0).body_len ≡ 4294967260)
unfolding read_struct decode_fields load store encode_fields le_bytes le_value
bad_record_read = (refl, refl)

walk_hangs_example : page_walk constant 10 bad_record 7 0 0 ≡ none
walk_hangs_example =
    walk_hangs constant 10 bad_record 0 (omega arith) (omega arith)
      (omega (arith, bad_record_read.0)) (omega (arith, bad_record_read.0))
      (omega (arith, bad_record_read.1)) 7 0
