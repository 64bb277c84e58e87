-- ===== src/Wal/Chain.antt =====
-- The pages of the write-ahead log of kernel/kds/wal.c as one text: a chain of pages, the newest
-- first.
use kdbs.Common.{
  ℕ, zero, suc, ◌+◌, ◌-◌, ◌%◌, ◌^◌, ◌≤◌, ◌<◌, ◌≡◌, refl, sym, ap, ◌∙◌, inl, inr, false, List, [],
  ◌∷◌, ◌++◌, length, arith, ◌==◌, if◌then◌else◌, Bool-cases, ==_iff, leb,
}
use mathlib.Core.Path.{ap₂}
use kdbs.Common.Bytes.{Bytes, store, load, load-store_self, load-store_apart}
use kdbs.Wal.{buf_size}
use kdbs.Wal.Ring.{ring_read, ring_read_append}
use kdbs.Wal.Pages.{LogPage, ring_copy, fill_page}

abbrev pub put : (ℕ → LogPage) → ℕ → LogPage → ℕ → LogPage
put pages j p k = if k == j then p else pages k

abbrev pub page_text : LogPage → List ℕ
page_text p = load p.payload 0 p.used_bytes

abbrev pub log_text : (ℕ → LogPage) → List ℕ → List ℕ
log_text pages [] = []
log_text pages (id ∷ older) = log_text pages older ++ page_text (pages id)

abbrev pub Absent : ℕ → List ℕ → Type 0
Absent j [] = Unit {0}
Absent j (id ∷ ids) = ((id == j) ≡ false) × Absent j ids

-- The next pages are not on the chain and differ.
abbrev pub IsFresh : List ℕ → List ℕ → Type 0
IsFresh chain [] = Unit {0}
IsFresh chain (id ∷ ids) = Absent id chain × IsFresh (id ∷ chain) ids

-- Each page has the id of the one that follows it.
abbrev pub IsLinked : (ℕ → LogPage) → ℕ → List ℕ → Type 0
IsLinked pages new [] = Unit {0}
IsLinked pages new (old ∷ older) = ((pages old).next_wal_page_id ≡ new) × IsLinked pages old older

module _ (pages : ℕ → LogPage) (j : ℕ) (p : LogPage) where
  pub log_text_apart :
      (ids : List ℕ) → Absent j ids → log_text (put pages j p) ids ≡ log_text pages ids
  log_text_apart [] a = refl
  log_text_apart (id ∷ ids) a = let e = a.0 in ap₂ ◌++◌ (log_text_apart ids a.1) (rw e)

  pub log_text_same :
      (ids : List ℕ)
      → page_text p ≡ page_text (pages j)
      → log_text (put pages j p) ids ≡ log_text pages ids
  log_text_same [] same = refl
  log_text_same (id ∷ ids) same =
      ap₂ ◌++◌ (log_text_same ids same)
        (elim (Bool-cases (id == j)) [ inr e ↦ rw e | inl e ↦ rw (e, (==_iff id j).0 e) same ])

  pub IsLinked-put :
      (new : ℕ) (older : List ℕ)
      → Absent j older
      → IsLinked pages new older
      → IsLinked (put pages j p) new older
  IsLinked-put new [] a h = tt
  IsLinked-put new (old ∷ older) a h = let e = a.0 in (rw e h.0, IsLinked-put old older a.1 h.1)

  pub put_self : put pages j p j ≡ p
  put_self = let e = (==_iff j j).1 refl in rw e

-- What a copy from the ring gives is what the ring has there.
load_ring :
    (b : Bytes) (i off n : ℕ)
    → i + n ≤ buf_size
    → (i < buf_size → i ≡ off % buf_size)
    → load b i n ≡ ring_read b off n
unfolding load ring_read
load_ring b i off zero h e = refl
load_ring b i off (suc n) h e =
    let here = e (omega arith) in
    ap₂ ◌∷◌ (ap b here)
      (load_ring b (suc i) (off + 1) n (omega (arith, h)) (λ l. omega (arith, here, l)))

pub ring_copy_lem : (b : Bytes) (off n : ℕ) → n ≤ buf_size → ring_copy b off n ≡ ring_read b off n
unfolding ring_copy
ring_copy_lem b off n h =
    let i = off % buf_size in
    let first = buf_size - i in
    elim (Bool-cases (leb (i + n) buf_size)) [
      | inl e ↦ rw e (load_ring b i off n (ground (arith, e)) (λ _. refl))
      | inr e ↦
          let whole : first + (n - first) ≡ n = ground (arith, e) in
          rw e (
            ap₂ ◌++◌ (load_ring b i off first (omega arith) (λ _. refl))
              (load_ring b 0 (off + first) (n - first) (omega (arith, h)) (λ _. omega arith))
            ∙ sym (ring_read_append b off first (n - first))
            ∙ ap (ring_read b off) whole)
    ]

pub length-ring_read : (b : Bytes) (off n : ℕ) → length (ring_read b off n) ≡ n
unfolding ring_read
length-ring_read b off zero = refl
length-ring_read b off (suc n) = ap suc (length-ring_read b (off + 1) n)

pub load_append :
    (b : Bytes) (off m n : ℕ) → load b off (m + n) ≡ load b off m ++ load b (off + m) n
unfolding load
load_append b off zero n =
    let e : off + 0 ≡ off = omega arith in let z : 0 + n ≡ n = omega arith in rw (e, z)
load_append b off (suc m) n =
    let e : suc off + m ≡ off + suc m = omega arith in
    let z : suc m + n ≡ suc (m + n) = omega arith in
    rw z (ap (◌∷◌ (b off)) (rw e at (load_append b (suc off) m n)))

-- A chunk that fits is added to the text of a page.
pub fill_page_text :
    (p : LogPage) (bs : List ℕ) (n : ℕ)
    → length bs ≡ n
    → p.used_bytes + n < 2 ^ 32
    → page_text (fill_page p bs n) ≡ page_text p ++ bs
fill_page_text p bs n len small =
    let total : (p.used_bytes + n) % 2 ^ 32 ≡ p.used_bytes + n = omega (arith, small) in
    rw total (
      load_append (store p.payload p.used_bytes bs) 0 p.used_bytes n
      ∙ ap₂ ◌++◌ (load-store_apart p.payload p.used_bytes bs 0 p.used_bytes (inl (omega arith))) (
          let z : 0 + p.used_bytes ≡ p.used_bytes = omega arith in
          ap (λ (o : ℕ). load (store p.payload p.used_bytes bs) o n) z
          ∙ load-store_self p.payload p.used_bytes bs n len))
