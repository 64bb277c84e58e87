-- ===== src/Common/Fields.antt =====
-- Little-endian numbers, and packed structs as sequences of them.
use Prim.Native.Nat.{ℕ, zero, suc, ◌+◌, ◌*◌, ◌/◌, ◌%◌, ◌^◌, ◌≤◌, ◌<◌}
use mathlib.Core.Path.{◌≡◌, refl, ap, ap₂, ◌∙◌}
use mathlib.Core.List.{List, [], ◌∷◌, ◌++◌}
use native.Mathlib.Omega.{arith}
use native.Mathlib.Nat.{pow-suc}
use mathlib.Core.Logic.{◌⊎◌}
use kdbs.Common.Lists.{length, take, drop, length-append}
use kdbs.Common.Bytes.{Bytes, store, load, load-store_self, load-store_apart}

-- The `w` bytes of `v`, low byte first.
unfoldable pub le_bytes : ℕ → ℕ → List ℕ
le_bytes zero v = []
le_bytes (suc w) v = (v % 256) ∷ le_bytes w (v / 256)

unfoldable pub le_value : List ℕ → ℕ
le_value [] = 0
le_value (b ∷ bs) = b + 256 * le_value bs

pub length-le_bytes : (w v : ℕ) → length (le_bytes w v) ≡ w
unfolding le_bytes
length-le_bytes zero v = refl
length-le_bytes (suc w) v = ap suc (length-le_bytes w (v / 256))

pub le_value-le_bytes : (w v : ℕ) → v < 256 ^ w → le_value (le_bytes w v) ≡ v
unfolding le_bytes le_value
le_value-le_bytes zero v h = omega arith
le_value-le_bytes (suc w) v h =
    omega (arith, pow-suc 256 w, le_value-le_bytes w (v / 256) (omega (arith, pow-suc 256 w)))

module _ {ℓ} {A : Type ℓ} where
  pub take_append : (xs ys : List A) (n : ℕ) → length xs ≡ n → take n (xs ++ ys) ≡ xs
  take_append [] ys zero h = refl
  take_append [] ys (suc n) h = absurd (omega arith)
  take_append (x ∷ xs) ys zero h = absurd (omega arith)
  take_append (x ∷ xs) ys (suc n) h = ap (◌∷◌ x) (take_append xs ys n (omega arith))

  pub drop_append : (xs ys : List A) (n : ℕ) → length xs ≡ n → drop n (xs ++ ys) ≡ ys
  drop_append [] ys zero h = refl
  drop_append [] ys (suc n) h = absurd (omega arith)
  drop_append (x ∷ xs) ys zero h = absurd (omega arith)
  drop_append (x ∷ xs) ys (suc n) h = drop_append xs ys n (omega arith)

-- A packed struct: the widths of its fields, and their values in order.
unfoldable pub encode_fields : List ℕ → List ℕ → List ℕ
encode_fields [] vs = []
encode_fields (w ∷ ws) [] = []
encode_fields (w ∷ ws) (v ∷ vs) = le_bytes w v ++ encode_fields ws vs

unfoldable pub decode_fields : List ℕ → List ℕ → List ℕ
decode_fields [] bs = []
decode_fields (w ∷ ws) bs = le_value (take w bs) ∷ decode_fields ws (drop w bs)

abbrev pub total : List ℕ → ℕ
total [] = 0
total (w ∷ ws) = w + total ws

-- Each value fits its field.
abbrev pub Fits : List ℕ → List ℕ → Type 0
Fits [] [] = Unit {0}
Fits [] (v ∷ vs) = ⊥
Fits (w ∷ ws) [] = ⊥
Fits (w ∷ ws) (v ∷ vs) = (v < 256 ^ w) × Fits ws vs

pub length-encode_fields :
    (ws vs : List ℕ) → length ws ≡ length vs → length (encode_fields ws vs) ≡ total ws
unfolding encode_fields
length-encode_fields [] vs h = refl
length-encode_fields (w ∷ ws) [] h = absurd (omega arith)
length-encode_fields (w ∷ ws) (v ∷ vs) h = omega (
  arith,
  length-append (le_bytes w v) (encode_fields ws vs),
  length-le_bytes w v,
  length-encode_fields ws vs (omega arith),
)

-- A struct that is written field by field is read back.
pub decode-encode_fields :
    (ws vs : List ℕ) → Fits ws vs → decode_fields ws (encode_fields ws vs) ≡ vs
unfolding encode_fields decode_fields
decode-encode_fields [] [] h = refl
decode-encode_fields [] (v ∷ vs) h = absurd h
decode-encode_fields (w ∷ ws) [] h = absurd h
decode-encode_fields (w ∷ ws) (v ∷ vs) h =
    ap₂ ◌∷◌
      (ap le_value (take_append (le_bytes w v) (encode_fields ws vs) w (length-le_bytes w v))
        ∙ le_value-le_bytes w v h.0)
      (ap (decode_fields ws)
          (drop_append (le_bytes w v) (encode_fields ws vs) w (length-le_bytes w v))
        ∙ decode-encode_fields ws vs h.1)

-- A struct of the given widths at an offset of a page.
unfoldable pub read_struct : List ℕ → Bytes → ℕ → List ℕ
read_struct ws p off = decode_fields ws (load p off (total ws))

unfoldable pub write_struct : List ℕ → Bytes → ℕ → List ℕ → Bytes
write_struct ws p off vs = store p off (encode_fields ws vs)

pub read-write_struct :
    (ws : List ℕ) (p : Bytes) (off : ℕ) (vs : List ℕ)
    → length ws ≡ length vs
    → Fits ws vs
    → read_struct ws (write_struct ws p off vs) off ≡ vs
unfolding read_struct write_struct
read-write_struct ws p off vs h fits =
    ap (decode_fields ws)
      (load-store_self p off (encode_fields ws vs) (total ws) (length-encode_fields ws vs h))
    ∙ decode-encode_fields ws vs fits

pub read_struct-store_apart :
    (ws : List ℕ) (p : Bytes) (off : ℕ) (bs : List ℕ) (o : ℕ)
    → (o + total ws ≤ off) ⊎ (off + length bs ≤ o)
    → read_struct ws (store p off bs) o ≡ read_struct ws p o
unfolding read_struct
read_struct-store_apart ws p off bs o h =
    ap (decode_fields ws) (load-store_apart p off bs o (total ws) h)

pub read-write_apart :
    (ws us : List ℕ) (p : Bytes) (off : ℕ) (vs : List ℕ) (o : ℕ)
    → length us ≡ length vs
    → (o + total ws ≤ off) ⊎ (off + total us ≤ o)
    → read_struct ws (write_struct us p off vs) o ≡ read_struct ws p o
unfolding write_struct
read-write_apart ws us p off vs o e h =
    let l : length (encode_fields us vs) ≡ total us = length-encode_fields us vs e in
    read_struct-store_apart ws p off (encode_fields us vs) o (omega arith)

pub load-write_apart :
    (us : List ℕ) (p : Bytes) (off : ℕ) (vs : List ℕ) (o n : ℕ)
    → length us ≡ length vs
    → (o + n ≤ off) ⊎ (off + total us ≤ o)
    → load (write_struct us p off vs) o n ≡ load p o n
unfolding write_struct
load-write_apart us p off vs o n e h =
    let l : length (encode_fields us vs) ≡ total us = length-encode_fields us vs e in
    load-store_apart p off (encode_fields us vs) o n (omega arith)

-- A struct depends on its own bytes only.
pub read_struct_congr :
    (ws : List ℕ) (p q : Bytes) (off : ℕ)
    → load p off (total ws) ≡ load q off (total ws)
    → read_struct ws p off ≡ read_struct ws q off
unfolding read_struct
read_struct_congr ws p q off e = ap (decode_fields ws) e
