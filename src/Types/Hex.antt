-- ===== src/Types/Hex.antt =====
-- The hexadecimal text of kernel/kds/types.c.
use kdbs.Common.{ℕ, ◌+◌, ◌*◌, ◌/◌, ◌%◌, ◌<◌, ◌≡◌, refl, ap, List, [], ◌∷◌, length, some, arith, ok}
use kdbs.Types.{hex_nibble, hex_digit, parse_hex, format_hex}

-- Every number is a byte.
abbrev pub AreBytes : List ℕ → Type 0
AreBytes [] = Unit {0}
AreBytes (b ∷ bs) = (b < 256) × AreBytes bs

nibble-digit : (n : ℕ) → n < 16 → hex_nibble (hex_digit n) ≡ some n
nibble-digit n h = ground arith

-- The text of some bytes is parsed as those bytes.
parse-format_hex : (bs : List ℕ) → AreBytes bs → parse_hex (length bs) (format_hex bs) ≡ ok bs
unfolding parse_hex format_hex
parse-format_hex [] h = refl
parse-format_hex (b ∷ bs) (h, hs) =
    let hi = nibble-digit (b / 16) (omega (arith, h)) in
    let lo = nibble-digit (b % 16) (omega arith) in
    let rest = parse-format_hex bs hs in
    let whole : b / 16 * 16 + b % 16 ≡ b = omega arith in
    rw (parse_hex, format_hex, hi, lo, rest) (ap (λ x. ok (x ∷ bs)) whole)
