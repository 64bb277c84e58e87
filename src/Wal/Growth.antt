-- ===== src/Wal/Growth.antt =====
-- One page more, and one chunk more, in the log of kernel/kds/wal.c.
use kdbs.Common.{
  ℕ, ◌+◌, ◌≤◌, ◌≡◌, refl, sym, ap, subst, ◌∙◌, false, List, ◌∷◌, ◌++◌, length, arith, ◌==◌,
  if◌then◌else◌, ==_iff, leb, none,
}
use mathlib.Core.List.{append-nil, append_assoc}
use kdbs.Common.Bytes.{load}
use kdbs.Wal.{Wal}
use kdbs.Wal.Ring.{ring_read}
use kdbs.Wal.Pages.{
  LogPage, LogStore, LogEnv, payload_size, put_page, fresh_page, set_tail, link_page, ring_copy,
  fill_page, write_chunk,
}
use kdbs.Wal.Chain.{
  put, page_text, log_text, Absent, IsFresh, IsLinked, log_text_apart, log_text_same, IsLinked-put,
  put_self, ring_copy_lem, length-ring_read, fill_page_text,
}

-- The chain ends in the tail page, which is not too full, and the pages to come are new to it.
pub record IsLog (w : Wal) (st : LogStore) (older : List ℕ) : Type 0 where
  pub fits : (st.pages w.tail_page_id).used_bytes ≤ payload_size
  pub apart : Absent w.tail_page_id older
  pub fresh : IsFresh (w.tail_page_id ∷ older) st.supply
  pub linked : IsLinked st.pages w.tail_page_id older

abbrev pub text_of : Wal → LogStore → List ℕ → List ℕ
text_of w st older = log_text st.pages (w.tail_page_id ∷ older)

abbrev pub is_full : LogPage → ℕ
is_full p = if leb payload_size p.used_bytes then 1 else 0

-- A new page is taken and the tail is linked to it.
module _ (w : Wal) (st : LogStore) (older : List ℕ) (id seg lsn : ℕ) (ids : List ℕ) where
  abbrev pub grown : LogStore
  grown =
      link_page (record (put_page st id (fresh_page seg lsn)) { supply = ids }) none w.tail_page_id
        id

  abbrev pages1 : ℕ → LogPage
  pages1 = put st.pages id (fresh_page seg lsn)

  module _ (v : IsLog w st older) (next : st.supply ≡ id ∷ ids) where
    pub fresh_ids : IsFresh (w.tail_page_id ∷ older) (id ∷ ids)
    fresh_ids = subst (IsFresh (w.tail_page_id ∷ older)) next v.fresh

    pub id_is_new : (id == w.tail_page_id) ≡ false
    id_is_new = let e = fresh_ids.0.0 in ground (arith, e)

    pub grown_page : grown.pages id ≡ fresh_page seg lsn
    grown_page = let e = (==_iff id id).1 refl in let d = id_is_new in rw (d, e) refl

    pub grown-IsLog : IsLog (set_tail w id) grown (w.tail_page_id ∷ older)
    grown-IsLog = record {
      fits = rw grown_page (omega arith);
      apart = fresh_ids.0;
      fresh = fresh_ids.1;
      linked = (
        ap (λ (p : LogPage). p.next_wal_page_id)
            (put_self pages1 w.tail_page_id
              (record (pages1 w.tail_page_id) { next_wal_page_id = id })),
        IsLinked-put pages1 w.tail_page_id _ w.tail_page_id older v.apart (
            IsLinked-put st.pages id (fresh_page seg lsn) w.tail_page_id older (fresh_ids.0.1)
              v.linked),
      );
    }

    pub grown_text : text_of (set_tail w id) grown (w.tail_page_id ∷ older) ≡ text_of w st older
    unfolding load
    grown_text =
        let chain = w.tail_page_id ∷ older in
        ap (λ (p : LogPage). log_text grown.pages chain ++ page_text p) grown_page
        ∙ append-nil (log_text grown.pages chain)
        ∙ log_text_same pages1 w.tail_page_id
            (record (pages1 w.tail_page_id) { next_wal_page_id = id }) chain refl
        ∙ log_text_apart st.pages id (fresh_page seg lsn) chain fresh_ids.0

-- A chunk is written to the tail page.
module _ (env : LogEnv) (w : Wal) (st : LogStore) (older : List ℕ) (start chunk : ℕ)
    (v : IsLog w st older)
    (room : (st.pages w.tail_page_id).used_bytes + chunk ≤ payload_size) where
  abbrev pub written : LogStore
  written = write_chunk env w st start chunk

  abbrev pub filled : LogPage
  filled = fill_page (st.pages w.tail_page_id) (ring_copy w.buf start chunk) chunk

  pub written_page : written.pages w.tail_page_id ≡ filled
  written_page = put_self st.pages w.tail_page_id filled

  copied : ring_copy w.buf start chunk ≡ ring_read w.buf start chunk
  copied = ring_copy_lem w.buf start chunk (omega (arith, room))

  pub filled_used : filled.used_bytes ≡ (st.pages w.tail_page_id).used_bytes + chunk
  filled_used = omega (arith, room)

  pub written-IsLog : (tail_used : ℕ) → IsLog (record w { tail_used = tail_used }) written older
  written-IsLog tail_used = record {
    fits = rw written_page (omega (arith, room));
    apart = v.apart;
    fresh = v.fresh;
    linked = IsLinked-put st.pages w.tail_page_id filled w.tail_page_id older v.apart v.linked;
  }

  pub written_text : text_of w written older ≡ text_of w st older ++ ring_read w.buf start chunk
  written_text =
      ap (λ (p : LogPage). log_text written.pages older ++ page_text p) written_page
      ∙ ap (λ (xs : List ℕ). xs ++ page_text filled)
          (log_text_apart st.pages w.tail_page_id filled older v.apart)
      ∙ ap (λ (xs : List ℕ). log_text st.pages older ++ xs)
          (fill_page_text (st.pages w.tail_page_id) (ring_copy w.buf start chunk) chunk
              (ap length copied ∙ length-ring_read w.buf start chunk) (omega (arith, room))
            ∙ ap (λ (xs : List ℕ). page_text (st.pages w.tail_page_id) ++ xs) copied)
      ∙ sym (
          append_assoc (log_text st.pages older) (page_text (st.pages w.tail_page_id))
            (ring_read w.buf start chunk))
