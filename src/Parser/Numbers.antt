-- ===== src/Parser/Numbers.antt =====
-- The value of an integer literal of kernel/kds/parser.c.
use kdbs.Common.{
  ℕ, ◌+◌, ◌-◌, ◌*◌, ◌%◌, ◌^◌, ◌≤◌, ◌<◌, ◌≡◌, refl, ap, ◌∙◌, Bool, true, false, List, [], ◌∷◌, ◌++◌,
  arith, ◌==◌,
}
use kdbs.Common.Text.{is_digit}
use kdbs.Parser.Tokens.{digits_value, int_value}
use kdbs.Parser.Print.{sign, starts_digits, ones_first, reversed, number, int_word, IsInt64}

grows : (s r : List ℕ) → ones_first r ≤ ones_first (reversed s r)
grows [] r = omega arith
grows (c ∷ s) r = omega (arith, grows s (c ∷ r))

-- The loop's value of the digits from those read before on.
digits_are :
    (s r : List ℕ)
    → ones_first (reversed s r) < 2 ^ 64
    → digits_value s (ones_first r) ≡ ones_first (reversed s r)
digits_are [] r small = refl
digits_are (c ∷ s) r small =
    let step : (ones_first r * 10 + (c - b'0')) % 2 ^ 64 ≡ ones_first (c ∷ r) =
      omega (arith, small, grows s (c ∷ r)) in
    ap (digits_value s) step ∙ digits_are s (c ∷ r) small

not_minus : (d : ℕ) → is_digit d ≡ true → (d == b'-') ≡ false
not_minus d h = ground arith

-- A literal that is a 64-bit number has the value that it spells.
pub int_value_lem :
    (neg : Bool) (ds : List ℕ)
    → starts_digits ds ≡ true
    → IsInt64 neg (number ds)
    → int_value (sign neg ++ ds) ≡ int_word neg (number ds)
int_value_lem true ds starts small =
    ap (λ (n : ℕ). (2 ^ 64 - n) % 2 ^ 64) (digits_are ds [] (omega (arith, small)))
int_value_lem false [] starts small = refl
int_value_lem false (d ∷ ds) starts small =
    let digit = not_minus d starts in rw digit (digits_are (d ∷ ds) [] (omega (arith, small)))
