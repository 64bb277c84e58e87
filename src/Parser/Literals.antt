-- ===== src/Parser/Literals.antt =====
-- The lexer of kernel/kds/parser.c reads names and literals back.
use kdbs.Common.{
  ℕ, ◌≤◌, ◌≡◌, refl, ap, ◌∙◌, Bool, true, false, ◌||◌, List, [], ◌∷◌, ◌++◌, length, take, drop,
  take_all, ◌==◌, if◌then◌else◌, arith,
}
use kdbs.Common.Text.{codes, is_digit, is_alpha, is_space, same_word, take_while, drop_while}
use kdbs.Parser.Tokens.{
  Token, ident, int_lit, str_lit, null_lit, token, text_max, is_name_byte, not_quote, int_value,
  skip_ws, read_at, read_word, read_int, read_string, lexer_read,
}
use kdbs.Parser.Print.{
  Lit, lit_int, lit_str, lit_null, sign, print_lit, All, IsName, IsLit, starts_digits,
}

module _ (test : ℕ → Bool) where
  take_while-append :
      (s : List ℕ) (c : ℕ) (rest : List ℕ)
      → All test s
      → test c ≡ false
      → take_while test (s ++ (c ∷ rest)) ≡ s
  take_while-append [] c rest a h = rw (h) refl
  take_while-append (d ∷ s) c rest (a, as') h =
      rw (a) (ap (◌∷◌ d) (take_while-append s c rest as' h))

  drop_while-append :
      (s : List ℕ) (c : ℕ) (rest : List ℕ)
      → All test s
      → test c ≡ false
      → drop_while test (s ++ (c ∷ rest)) ≡ c ∷ rest
  drop_while-append [] c rest a h = rw (h) refl
  drop_while-append (d ∷ s) c rest (a, as') h = rw (a) (drop_while-append s c rest as' h)

-- A byte that opens a name is none of those that the lexer looks for before.
opens_name :
    (d : ℕ)
    → (is_alpha d || d == b'_') ≡ true
    → (is_space d ≡ false) × ((d == b'\'') ≡ false) × (is_digit d ≡ false) × ((d == b'-') ≡ false)
opens_name d h = ground arith

skip_none :
    (d : ℕ) (s : List ℕ) → is_space d ≡ false → (d == b'-') ≡ false → skip_ws false (d ∷ s) ≡ d ∷ s
unfolding skip_ws
skip_none d s a b = rw (skip_ws, a, b) refl

at_name :
    (d : ℕ) (s : List ℕ) → (is_alpha d || d == b'_') ≡ true → lexer_read (d ∷ s) ≡ read_word (d ∷ s)
unfolding lexer_read read_at
at_name d s h =
    let (space, quote, digit, minus) = opens_name d h in
    rw (lexer_read, skip_none d s space minus, read_at, quote, digit, minus, h) refl

-- A run of bytes of a name, up to a byte that is none.
read_word_is :
    (s : List ℕ) (c : ℕ) (rest : List ℕ)
    → All is_name_byte s
    → length s ≤ text_max
    → is_name_byte c ≡ false
    → read_word (s ++ (c ∷ rest))
      ≡ (token (if same_word s (codes "NULL") then null_lit else ident) s, c ∷ rest)
read_word_is s c rest a fits h =
    let text = take_while-append is_name_byte s c rest a h in
    let after = drop_while-append is_name_byte s c rest a h in
    let all = take_all text_max s fits in
    let word : List ℕ → Token =
      λ t. token (if same_word t (codes "NULL") then null_lit else ident) t in
    ap (λ t. (word (take text_max t), drop_while is_name_byte (s ++ (c ∷ rest)))) text
    ∙ ap (λ r. (word (take text_max s), r)) after
    ∙ ap (λ t. (word t, c ∷ rest)) all

-- A name is read as an identifier up to a byte that is none of a name.
pub read_name :
    (s : List ℕ) (c : ℕ) (rest : List ℕ)
    → IsName s
    → is_name_byte c ≡ false
    → lexer_read (s ++ (c ∷ rest)) ≡ (token ident s, c ∷ rest)
read_name [] c rest n h = absurd (let s = n.starts in grind arith)
read_name (d ∷ s) c rest n h =
    at_name d (s ++ (c ∷ rest)) n.starts
    ∙ read_word_is (d ∷ s) c rest n.bytes (omega (arith, n.fits)) h
    ∙ ap (λ b. (token (if b then null_lit else ident) (d ∷ s), c ∷ rest)) n.not_null

-- A run of digits, at its first one.
read_digits :
    (ds : List ℕ) (c : ℕ) (rest : List ℕ) (before : List ℕ)
    → All is_digit ds
    → is_digit c ≡ false
    → length (before ++ ds) ≤ text_max
    → read_int before (ds ++ (c ∷ rest)) ≡ (
      record { type = int_lit; text = before ++ ds; int_val = int_value (before ++ ds) },
      c ∷ rest,
    )
read_digits ds c rest before a h fits =
    let text = take_while-append is_digit ds c rest a h in
    let after = drop_while-append is_digit ds c rest a h in
    let all = take_all text_max (before ++ ds) fits in
    let int : List ℕ → Token = λ t. record { type = int_lit; text = t; int_val = int_value t } in
    ap (λ t. (int (take text_max (before ++ t)), drop_while is_digit (ds ++ (c ∷ rest)))) text
    ∙ ap (λ r. (int (take text_max (before ++ ds)), r)) after
    ∙ ap (λ t. (int t, c ∷ rest)) all

-- The token that a literal is read as.
abbrev pub lit_token : Lit → Token
lit_token (lit_int neg ds) = record {
  type = int_lit;
  text = sign neg ++ ds;
  int_val = int_value (sign neg ++ ds);
}
lit_token (lit_str s) = token str_lit s
lit_token lit_null = token null_lit (codes "NULL")

digit_facts :
    (d : ℕ)
    → is_digit d ≡ true
    → (is_space d ≡ false) × ((d == b'\'') ≡ false) × ((d == b'-') ≡ false)
digit_facts d h = ground arith

name_byte_facts : (c : ℕ) → is_name_byte c ≡ false → is_digit c ≡ false
name_byte_facts c h = ground arith

read_number :
    (neg : Bool) (ds : List ℕ) (s : List ℕ)
    → starts_digits ds ≡ true
    → lexer_read (sign neg ++ (ds ++ s)) ≡ read_int (sign neg) (ds ++ s)
unfolding lexer_read read_at skip_ws
read_number neg [] s h = absurd (grind arith)
read_number false (d ∷ ds) s h =
    let (space, quote, minus) = digit_facts d h in
    rw (lexer_read, skip_none d (ds ++ s) space minus, read_at, quote, h) refl
read_number true (d ∷ ds) s h =
    let (space, quote, minus) = digit_facts d h in rw (lexer_read, skip_ws, minus, read_at, h) refl

append_after : (xs ys zs : List ℕ) → (xs ++ ys) ++ zs ≡ xs ++ (ys ++ zs)
append_after [] ys zs = refl
append_after (x ∷ xs) ys zs = ap (◌∷◌ x) (append_after xs ys zs)

read_quoted :
    (s : List ℕ) (rest : List ℕ)
    → All not_quote s
    → length s ≤ text_max
    → read_string (s ++ (b'\'' ∷ rest)) ≡ (token str_lit s, rest)
read_quoted s rest a fits =
    let text = take_while-append not_quote s b'\'' rest a refl in
    let after = drop_while-append not_quote s b'\'' rest a refl in
    ap (λ t. (token str_lit (take text_max t), drop 1 (drop_while not_quote (s ++ (b'\'' ∷ rest)))))
      text
    ∙ ap (λ r. (token str_lit (take text_max s), drop 1 r)) after
    ∙ ap (λ t. (token str_lit t, rest)) (take_all text_max s fits)

-- A literal is read back up to a byte that neither a number nor a name goes on with.
pub read_lit :
    (l : Lit) (c : ℕ) (rest : List ℕ)
    → IsLit l
    → is_name_byte c ≡ false
    → lexer_read (print_lit l ++ (c ∷ rest)) ≡ (lit_token l, c ∷ rest)
unfolding lexer_read read_at skip_ws
read_lit (lit_int neg ds) c rest (st, a, fits, _) h =
    ap lexer_read (append_after (sign neg) ds (c ∷ rest))
    ∙ read_number neg ds (c ∷ rest) st
    ∙ read_digits ds c rest (sign neg) a (name_byte_facts c h) fits
read_lit (lit_str s) c rest (a, fits) h =
    ap read_string (append_after s (b'\'' ∷ []) (c ∷ rest)) ∙ read_quoted s (c ∷ rest) a fits
read_lit lit_null c rest u h =
    at_name b'N' (codes "ULL" ++ (c ∷ rest)) refl
    ∙ read_word_is (codes "NULL") c rest (refl, (refl, (refl, (refl, tt)))) (omega arith) h
