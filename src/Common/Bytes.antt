-- ===== src/Common/Bytes.antt =====
-- The bytes of a mapped page, read and written by `memcpy`. An address is an offset from the
-- mapped base. The memory goes on past the page's end, so that an access out of bounds is visible.
use Prim.Native.Nat.{ℕ, zero, suc, ◌+◌, ◌-◌, ◌≤◌, ◌<◌}
use mathlib.Core.Path.{◌≡◌, refl, ap, ap₂}
use mathlib.Core.Bool.{true}
use mathlib.Core.Logic.{◌⊎◌, inl, inr}
use mathlib.Core.List.{List, [], ◌∷◌}
use native.Mathlib.Omega.{arith}
use kdbs.Common.Tests.{leb, if◌then◌else◌}
use kdbs.Common.Lists.{length, get_or, get_or_beyond, get_or_in}

abbrev pub Bytes : Type 0
Bytes = ℕ → ℕ

-- `memcpy(addr + off, bs, length bs)`.
unfoldable pub store : Bytes → ℕ → List ℕ → Bytes
store p off bs a = if leb off a then get_or bs (a - off) (p a) else p a

-- `memcpy(buf, addr + off, n)`.
unfoldable pub load : Bytes → ℕ → ℕ → List ℕ
load p off zero = []
load p off (suc n) = p off ∷ load p (suc off) n

pub length-load : (p : Bytes) (off n : ℕ) → length (load p off n) ≡ n
unfolding load
length-load p off zero = refl
length-load p off (suc n) = ap suc (length-load p (suc off) n)

pub store_outside :
    (p : Bytes) (off : ℕ) (bs : List ℕ) (a : ℕ)
    → (a < off) ⊎ (off + length bs ≤ a)
    → store p off bs a ≡ p a
unfolding store
store_outside p off bs a (inl h) = ground arith
store_outside p off bs a (inr h) = ground (arith, get_or_beyond bs (a - off) (p a))

-- Two memories that agree on a range load the same bytes from it.
pub load_congr :
    (p q : Bytes) (off n : ℕ)
    → ((a : ℕ) → off ≤ a → a < off + n → p a ≡ q a)
    → load p off n ≡ load q off n
unfolding load
load_congr p q off zero h = refl
load_congr p q off (suc n) h =
    ap₂ ◌∷◌ (h off (omega arith) (omega arith))
      (load_congr p q (suc off) n (λ a l r. h a (omega arith) (omega arith)))

-- A write leaves a range that it does not meet.
pub load-store_apart :
    (p : Bytes) (off : ℕ) (bs : List ℕ) (o n : ℕ)
    → (o + n ≤ off) ⊎ (off + length bs ≤ o)
    → load (store p off bs) o n ≡ load p o n
load-store_apart p off bs o n (inl h) =
    load_congr (store p off bs) p o n (λ a l r. store_outside p off bs a (inl (omega arith)))
load-store_apart p off bs o n (inr h) =
    load_congr (store p off bs) p o n (λ a l r. store_outside p off bs a (inr (omega arith)))

load_get :
    (p : Bytes) (off : ℕ) (bs : List ℕ)
    → ((i : ℕ) → i < length bs → p (off + i) ≡ get_or bs i (p (off + i)))
    → load p off (length bs) ≡ bs
unfolding load
load_get p off [] h = refl
load_get p off (b ∷ bs) h = ap₂ ◌∷◌ (first (h 0 (omega arith))) (load_get p (suc off) bs rest)
  where
    first : p (off + 0) ≡ b → p off ≡ b
    first e = let z : off + 0 ≡ off = omega arith in rw z at e

    rest : (i : ℕ) → i < length bs → p (suc off + i) ≡ get_or bs i (p (suc off + i))
    rest i l = let z : off + suc i ≡ suc off + i = omega arith in rw z at (h (suc i) (omega arith))

pub store_inside :
    (p : Bytes) (off : ℕ) (bs : List ℕ) (i : ℕ) (d : ℕ)
    → i < length bs
    → store p off bs (off + i) ≡ get_or bs i d
unfolding store
store_inside p off bs i d l =
    let e : off + i - off ≡ i = omega arith in
    let t : leb off (off + i) ≡ true = ground arith in rw (t, e) (get_or_in bs i (p (off + i)) d l)

-- What was written is read back.
pub load-store_self :
    (p : Bytes) (off : ℕ) (bs : List ℕ) (n : ℕ) → length bs ≡ n → load (store p off bs) off n ≡ bs
load-store_self p off bs n e =
    rw (← e) (load_get (store p off bs) off bs (λ i l. store_inside p off bs i _ l))
