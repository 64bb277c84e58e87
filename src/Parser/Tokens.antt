-- ===== src/Parser/Tokens.antt =====
-- The tokens of kernel/kds/parser.c. The input is the text from the scan position on.
use kdbs.Common.{
  ℕ, ◌+◌, ◌-◌, ◌*◌, ◌%◌, ◌^◌, Bool, true, false, not, ◌&&◌, ◌||◌, List, [], ◌∷◌, ◌++◌, Option, none,
  some, take, drop, ◌==◌, if◌then◌else◌,
}
use kdbs.Common.Text.{
  codes, is_digit, is_space, is_alpha, is_alnum, same_word, take_while, drop_while,
}

pub data TokenType : Type 0 where
  eof ident int_lit str_lit null_lit : TokenType
  lparen rparen comma semicolon star : TokenType
  eq neq lt lte gt gte error : TokenType

-- `kds_token_t`; `int_val` is the 64-bit two's complement word.
pub record Token : Type 0 where
  pub type : TokenType
  pub text : List ℕ
  pub int_val : ℕ

-- `kds_lexer_t`: `peek` is `none` where `peeked` is false.
pub record Lexer : Type 0 where
  pub pos : List ℕ
  pub peek : Option Token

abbrev pub lexer_init : List ℕ → Lexer
lexer_init sql = record { pos = sql; peek = none }

-- KDS_PARSER_VAL_MAX - 1.
abbrev pub text_max : ℕ
text_max = 255

abbrev pub starts : ℕ → List ℕ → Bool
starts c [] = false
starts c (d ∷ s) = d == c

abbrev pub starts_digit : List ℕ → Bool
starts_digit [] = false
starts_digit (c ∷ s) = is_digit c

-- `lexer_skip_ws`; the flag says that a comment is being skipped. The newline at its end is
-- itself whitespace.
unfoldable pub skip_ws : Bool → List ℕ → List ℕ
skip_ws in_comment [] = []
skip_ws true (c ∷ s) = elim (c == b'\n') [ true ↦ skip_ws false s | false ↦ skip_ws true s ]
skip_ws false (c ∷ s) = elim (is_space c) [
  | true ↦ skip_ws false s
  | false ↦ elim (c == b'-' && starts b'-' s) [ true ↦ skip_ws true s | false ↦ c ∷ s ]
]

abbrev pub not_quote : ℕ → Bool
not_quote c = not (c == b'\'')

abbrev pub is_name_byte : ℕ → Bool
is_name_byte c = is_alnum c || c == b'_'

-- The digits of the token's text, from `v` on, in 64-bit arithmetic.
abbrev pub digits_value : List ℕ → ℕ → ℕ
digits_value [] v = v
digits_value (c ∷ s) v = digits_value s ((v * 10 + (c - b'0')) % 2 ^ 64)

abbrev pub int_value : List ℕ → ℕ
int_value [] = 0
int_value (c ∷ s) =
    if c == b'-' then (2 ^ 64 - digits_value s 0) % 2 ^ 64 else digits_value (c ∷ s) 0

abbrev pub token : TokenType → List ℕ → Token
token type text = record { type = type; text = text; int_val = 0 }

-- The branch of a string literal, behind its opening quote.
abbrev pub read_string : List ℕ → Token × List ℕ
read_string s =
    (token str_lit (take text_max (take_while not_quote s)), drop 1 (drop_while not_quote s))

-- The branch of an integer, `sign` and then the digits.
abbrev pub read_int : List ℕ → List ℕ → Token × List ℕ
read_int sign s =
    let text = take text_max (sign ++ take_while is_digit s) in
    (record { type = int_lit; text = text; int_val = int_value text }, drop_while is_digit s)

abbrev pub read_word : List ℕ → Token × List ℕ
read_word s =
    let text = take text_max (take_while is_name_byte s) in
    (
      token (if same_word text (codes "NULL") then null_lit else ident) text,
      drop_while is_name_byte s,
    )

abbrev pub one_char : ℕ → TokenType
one_char c =
    if c == b'('
    then lparen
    else if c == b')'
    then rparen
    else if c == b','
    then comma
    else if c == b';'
    then semicolon
    else if c == b'*'
    then star
    else if c == b'='
    then eq
    else if c == b'<'
    then lt
    else if c == b'>'
    then gt
    else error

-- The branches of `lexer_read` at a byte `c` that is not whitespace, `s` what follows it.
unfoldable pub read_at : ℕ → List ℕ → Token × List ℕ
read_at c s =
    if c == b'\''
    then read_string s
    else if is_digit c
    then read_int [] (c ∷ s)
    else if c == b'-' && starts_digit s
    then read_int (c ∷ []) s
    else if is_alpha c || c == b'_'
    then read_word (c ∷ s)
    else if c == b'!' && starts b'=' s
    then (token neq (codes "!="), drop 1 s)
    else if c == b'<' && starts b'=' s
    then (token lte (codes "<="), drop 1 s)
    else if c == b'>' && starts b'=' s
    then (token gte (codes ">="), drop 1 s)
    else (token (one_char c) (c ∷ []), s)

abbrev pub read_from : List ℕ → Token × List ℕ
read_from [] = (token eof [], [])
read_from (c ∷ s) = read_at c s

unfoldable pub lexer_read : List ℕ → Token × List ℕ
lexer_read s = read_from (skip_ws false s)

abbrev pub next_of : Option Token → List ℕ → Token × Lexer
next_of (some t) s = (t, record { pos = s; peek = none })
next_of none s = let (t, rest) = lexer_read s in (t, record { pos = rest; peek = none })

unfoldable pub lexer_next : Lexer → Token × Lexer
lexer_next l = next_of l.peek l.pos

unfoldable pub lexer_peek : Lexer → Token × Lexer
lexer_peek l = let (t, l') = lexer_next l in (t, record l' { peek = some t })
