-- ===== src/Types/Integers.antt =====
-- Integers of the widths of kernel/kds/types.c keep their value and their order.
use kdbs.Common.{
  ℕ, ◌%◌, ◌^◌, ◌≤◌, ◌<◌, ◌≡◌, ◌⊎◌, refl, ap, subst, ◌∙◌, inl, inr, true, false, List, length, arith,
  ltb, ◌==◌, ==_iff, if◌then◌else◌, ok, le→ltb, Result,
}
use kdbs.Common.Fields.{le_bytes, le_value, length-le_bytes}
use kdbs.Types.{
  is_in_range, encode_int, sign_extend, decode_int, below, less, same, more, compare_int,
}

-- The widths of the integer types.
abbrev pub IsWidth : ℕ → Type 0
IsWidth w = (w ≡ 1) ⊎ ((w ≡ 2) ⊎ ((w ≡ 4) ⊎ (w ≡ 8)))

-- The value of the low bytes of a word.
le_value-low : (w v : ℕ) → IsWidth w → v < 2 ^ 64 → le_value (le_bytes w v) ≡ v % 256 ^ w
unfolding le_bytes le_value
le_value-low w v (inl e) h = rw (e) (omega arith)
le_value-low w v (inr (inl e)) h = rw (e) (omega arith)
le_value-low w v (inr (inr (inl e))) h = rw (e) (omega arith)
le_value-low w v (inr (inr (inr e))) h = rw (e) (omega arith)

extend_low :
    (w v : ℕ) → IsWidth w → v < 2 ^ 64 → is_in_range w v ≡ true → sign_extend w (v % 256 ^ w) ≡ v
extend_low w v (inl e) s r =
    let r' = subst (λ k. is_in_range k v ≡ true) e r in rw (e) (ground arith)
extend_low w v (inr (inl e)) s r =
    let r' = subst (λ k. is_in_range k v ≡ true) e r in rw (e) (ground arith)
extend_low w v (inr (inr (inl e))) s r =
    let r' = subst (λ k. is_in_range k v ≡ true) e r in rw (e) (ground arith)
extend_low w v (inr (inr (inr e))) s r =
    let r' = subst (λ k. is_in_range k v ≡ true) e r in rw (e) (ground arith)

module _ (w v : ℕ) (width : IsWidth w) (word : v < 2 ^ 64) (fits : is_in_range w v ≡ true) where
  read_back : sign_extend w (le_value (le_bytes w v)) ≡ v
  read_back = ap (sign_extend w) (le_value-low w v width word) ∙ extend_low w v width word fits

  decode_stored : decode_int w (le_bytes w v) ≡ ok v
  unfolding decode_int
  decode_stored =
      let long : (length (le_bytes w v) == w) ≡ true = (==_iff _ _).1 (length-le_bytes w v) in
      rw (decode_int, long) (ap ok read_back)

-- What is encoded as an integer of a width of 1, 2, 4 or 8 bytes is decoded as the same number, for
-- any `kstrtoll` that gives a 64-bit word, where the buffer is large
-- enough and the number is in the range of the width; both calls then succeed.
decode-encode_int :
    (kstrtoll : List ℕ → Result ℕ) (w : ℕ) (str : List ℕ) (buf_size v : ℕ)
    → IsWidth w
    → v < 2 ^ 64
    → kstrtoll str ≡ ok v
    → w ≤ buf_size
    → is_in_range w v ≡ true
    → (encode_int kstrtoll w str buf_size ≡ ok (le_bytes w v))
      × (decode_int w (le_bytes w v) ≡ ok v)
unfolding encode_int
decode-encode_int kstrtoll w str buf_size v width word parsed room fits =
    let enough : ltb buf_size w ≡ false = le→ltb buf_size w room in
    (rw (encode_int, enough, parsed, fits) refl, decode_stored w v width word fits)

-- Two encoded numbers of one width compare as the numbers do.
pub compare_int-encode :
    (w a b : ℕ)
    → IsWidth w
    → a < 2 ^ 64
    → b < 2 ^ 64
    → is_in_range w a ≡ true
    → is_in_range w b ≡ true
    → compare_int w (le_bytes w a) (le_bytes w b)
      ≡ (if below b a then more else if below a b then less else same)
unfolding compare_int
compare_int-encode w a b width wa wb fa fb =
    let la : (length (le_bytes w a) == w) ≡ true = (==_iff _ _).1 (length-le_bytes w a) in
    let lb : (length (le_bytes w b) == w) ≡ true = (==_iff _ _).1 (length-le_bytes w b) in
    rw (compare_int, la, lb, read_back w a width wa fa, read_back w b width wb fb) refl
