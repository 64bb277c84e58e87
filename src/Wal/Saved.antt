-- ===== src/Wal/Saved.antt =====
-- What the flush of the log of kernel/kds/wal.c has on the disk: pages that are written, and pages
-- whose write fails, which the log does not look at.
use kdbs.Common.{
  ℕ, ◌+◌, ◌≤◌, ◌≡◌, refl, sym, ap, ◌∙◌, ◌⊎◌, inl, inr, true, false, List, [], ◌∷◌, ◌++◌, arith,
  ◌==◌, if◌then◌else◌, ==_iff, Bool-cases,
}
use mathlib.Core.Path.{ap₂}
use kdbs.Common.Bytes.{load}
use kdbs.Wal.{Wal}
use kdbs.Wal.Pages.{LogPage, LogStore, LogEnv, put_page, frame_flush, payload_size, fresh_page}
use kdbs.Wal.Chain.{page_text, log_text, Absent}
use kdbs.Wal.Growth.{IsLog, grown, grown_page, id_is_new, written, filled, fresh_ids}

-- The page is on the disk, or has no bytes yet.
abbrev pub IsSaved : LogPage → LogPage → Type 0
IsSaved on_disk p = (page_text on_disk ≡ page_text p) ⊎ (p.used_bytes ≡ 0)

abbrev pub AreSaved : LogStore → List ℕ → Type 0
AreSaved st [] = Unit {0}
AreSaved st (id ∷ ids) = IsSaved (st.disk id) (st.pages id) × AreSaved st ids

-- The bytes that the disk has for those pages of a chain that have bytes.
abbrev pub disk_text : LogStore → List ℕ → List ℕ
disk_text st [] = []
disk_text st (id ∷ older) =
    disk_text st older ++ (if (st.pages id).used_bytes == 0 then [] else page_text (st.disk id))

shown_text :
    (d p : LogPage) → IsSaved d p → (if p.used_bytes == 0 then [] else page_text d) ≡ page_text p
unfolding load
shown_text d p h = elim (Bool-cases (p.used_bytes == 0)) [
  | inl e ↦
      let no_bytes = (==_iff p.used_bytes 0).0 e in rw e (sym (ap (load p.payload 0) no_bytes))
  | inr e ↦ rw e (elim h [ inl same ↦ same | inr no_bytes ↦ absurd (ground (arith, e, no_bytes)) ])
]

pub disk_text_lem :
    (st : LogStore) (ids : List ℕ) → AreSaved st ids → disk_text st ids ≡ log_text st.pages ids
disk_text_lem st [] h = refl
disk_text_lem st (id ∷ ids) h =
    ap₂ ◌++◌ (disk_text_lem st ids h.1) (shown_text (st.disk id) (st.pages id) h.0)

AreSaved-apart :
    (st st' : LogStore) (j : ℕ) (ids : List ℕ)
    → Absent j ids
    → ((k : ℕ) → (k == j) ≡ false → st'.pages k ≡ st.pages k)
    → ((k : ℕ) → (k == j) ≡ false → st'.disk k ≡ st.disk k)
    → AreSaved st ids
    → AreSaved st' ids
AreSaved-apart st st' j [] a same disk_same h = tt
AreSaved-apart st st' j (id ∷ ids) a same disk_same h =
    let p = same id a.0 in
    let d = disk_same id a.0 in (rw (p, d) h.0, AreSaved-apart st st' j ids a.1 same disk_same h.1)

module _ (env : LogEnv) where
  flush_self :
      (st : LogStore) (id : ℕ)
      → env.write_fails id ≡ false
      → (frame_flush env st id).disk id ≡ st.pages id
  flush_self st id writes = let e = (==_iff id id).1 refl in rw (e, writes) refl

  flush_elsewhere :
      (st : LogStore) (id k : ℕ) → (k == id) ≡ false → (frame_flush env st id).disk k ≡ st.disk k
  flush_elsewhere st id k e = rw e refl

  flush_fails :
      (st : LogStore) (id k : ℕ)
      → env.write_fails id ≡ true
      → (frame_flush env st id).disk k ≡ st.disk k
  flush_fails st id k fails = elim (Bool-cases (k == id)) [
    | inl e ↦ rw (e, fails) refl
    | inr e ↦ rw e refl
  ]

  flushed-AreSaved :
      (st : LogStore) (id : ℕ) (ids : List ℕ)
      → env.write_fails id ≡ false
      → Absent id ids
      → AreSaved st ids
      → AreSaved (frame_flush env st id) (id ∷ ids)
  flushed-AreSaved st id ids writes a h = (
    inl (ap page_text (flush_self st id writes)),
    AreSaved-apart st (frame_flush env st id) id ids a (λ k e. refl)
        (λ k e. flush_elsewhere st id k e) h,
  )

  -- From one state of the log to another: with every write, saved pages stay saved; with none, the
  -- disk stays as it is.
  pub record Carries (st : LogStore) (before : List ℕ) (st' : LogStore) (after : List ℕ)
      : Type 0 where
    pub saves : ((id : ℕ) → env.write_fails id ≡ false) → AreSaved st before → AreSaved st' after
    pub unwritten : ((id : ℕ) → env.write_fails id ≡ true) → (k : ℕ) → st'.disk k ≡ st.disk k

  pub Carries-refl : (st : LogStore) (ids : List ℕ) → Carries st ids st ids
  Carries-refl st ids = record { saves = λ writes h. h; unwritten = λ fails k. refl }

  pub Carries-trans :
      (st st' st'' : LogStore) (a b c : List ℕ)
      → Carries st a st' b
      → Carries st' b st'' c
      → Carries st a st'' c
  Carries-trans st st' st'' a b c h g = record {
    saves = λ writes s. g.saves writes (h.saves writes s);
    unwritten = λ fails k. g.unwritten fails k ∙ h.unwritten fails k;
  }

  module _ (w : Wal) (st : LogStore) (older : List ℕ) (v : IsLog w st older) where
    -- A chunk in the tail page.
    pub written-Carries :
        (start chunk : ℕ) (room : (st.pages w.tail_page_id).used_bytes + chunk ≤ payload_size)
        → let chain = w.tail_page_id ∷ older in
          Carries st chain (written env w st older start chunk v room) chain
    written-Carries start chunk room = record {
      saves = λ writes h.
          flushed-AreSaved (put_page st w.tail_page_id (filled env w st older start chunk v room))
            w.tail_page_id older (writes w.tail_page_id) v.apart
            (AreSaved-apart st
              (put_page st w.tail_page_id (filled env w st older start chunk v room)) w.tail_page_id
              older v.apart (λ k e. rw e refl) (λ k e. refl) h.1);
      unwritten = λ fails k.
          flush_fails (put_page st w.tail_page_id (filled env w st older start chunk v room))
            w.tail_page_id k (fails w.tail_page_id);
    }

    module _ (id seg lsn : ℕ) (ids : List ℕ) (next : st.supply ≡ id ∷ ids) where
      abbrev linked : LogStore
      linked = grown w st older id seg lsn ids

      older-AreSaved : AreSaved st older → AreSaved linked older
      older-AreSaved h =
          let new = fresh_ids w st older id seg lsn ids v next in
          AreSaved-apart (put_page st id (fresh_page seg lsn)) linked w.tail_page_id older v.apart
            (λ k e. rw e refl) (λ k e. refl)
            (AreSaved-apart st (put_page st id (fresh_page seg lsn)) id older new.0.1
              (λ k e. rw e refl) (λ k e. refl) h)

      new-IsSaved : IsSaved (linked.disk id) (linked.pages id)
      new-IsSaved =
          inr (ap (λ (p : LogPage). p.used_bytes) (grown_page w st older id seg lsn ids v next))

      -- A new page behind the tail.
      pub grown-Carries : Carries st (w.tail_page_id ∷ older) linked (id ∷ (w.tail_page_id ∷ older))
      grown-Carries =
          let same = (==_iff w.tail_page_id w.tail_page_id).1 refl in
          let new = fresh_ids w st older id seg lsn ids v next in
          let differ = new.0.0 in
          record {
            saves = λ writes h. (new-IsSaved, (rw (same, differ) h.0, older-AreSaved h.1));
            unwritten = λ fails k. refl;
          }

      -- The tail is written once more.
      pub linked-Carries :
          Carries st
            (w.tail_page_id ∷ older)
            (frame_flush env linked w.tail_page_id)
            (id ∷ (w.tail_page_id ∷ older))
      linked-Carries = record {
        saves = λ writes h. (
          (AreSaved-apart linked (frame_flush env linked w.tail_page_id) w.tail_page_id (id ∷ [])
              (id_is_new w st older id seg lsn ids v next, tt) (λ k e. refl)
              (λ k e. flush_elsewhere linked w.tail_page_id k e) (new-IsSaved, tt)).0,
          flushed-AreSaved linked w.tail_page_id older (writes w.tail_page_id) v.apart
              (older-AreSaved h.1),
        );
        unwritten = λ fails k. flush_fails linked w.tail_page_id k (fails w.tail_page_id);
      }
