-- ===== src/Parser/Print.antt =====
-- SQL texts as a client writes them for kernel/kds/parser.c, and what they mean.
use kdbs.Common.{
  ℕ, ◌+◌, ◌-◌, ◌*◌, ◌%◌, ◌^◌, ◌<◌, ◌≤◌, ◌≡◌, Bool, true, false, ◌||◌, List, [], ◌∷◌, ◌++◌, length,
  ◌==◌,
}
use kdbs.Common.Text.{codes, is_digit, is_alpha, same_word}
use kdbs.Parser.Tokens.{text_max, is_name_byte, not_quote}
use kdbs.Parser.Ast.{cond_op_name, AstVal, val_int, val_str, val_null, CondOp, Cond, name_max}

-- A literal: an integer as it is spelt, with or without a minus sign, a string, or NULL.
pub data Lit : Type 0 where
  lit_int : Bool → List ℕ → Lit
  lit_str : List ℕ → Lit
  lit_null : Lit

abbrev pub sign : Bool → List ℕ
sign true = b'-' ∷ []
sign false = []

abbrev pub print_lit : Lit → List ℕ
print_lit (lit_int neg ds) = sign neg ++ ds
print_lit (lit_str s) = b'\'' ∷ (s ++ (b'\'' ∷ []))
print_lit lit_null = codes "NULL"

-- The number that digits spell, the ones first.
abbrev pub ones_first : List ℕ → ℕ
ones_first [] = 0
ones_first (c ∷ s) = c - b'0' + 10 * ones_first s

abbrev pub reversed : List ℕ → List ℕ → List ℕ
reversed [] r = r
reversed (c ∷ s) r = reversed s (c ∷ r)

abbrev pub number : List ℕ → ℕ
number ds = ones_first (reversed ds [])

-- A signed number as a 64-bit word.
abbrev pub int_word : Bool → ℕ → ℕ
int_word true n = (2 ^ 64 - n) % 2 ^ 64
int_word false n = n

abbrev pub IsInt64 : Bool → ℕ → Type 0
IsInt64 true n = n ≤ 2 ^ 63
IsInt64 false n = n < 2 ^ 63

abbrev pub lit_value : Lit → AstVal
lit_value (lit_int neg ds) = val_int (int_word neg (number ds))
lit_value (lit_str s) = val_str s
lit_value lit_null = val_null

-- Every byte passes a test.
abbrev pub All : (ℕ → Bool) → List ℕ → Type 0
All test [] = Unit {0}
All test (c ∷ s) = (test c ≡ true) × All test s

abbrev pub starts_name : List ℕ → Bool
starts_name [] = false
starts_name (c ∷ s) = is_alpha c || c == b'_'

-- A name: a letter or an underscore, then letters, digits and underscores, at most 63 bytes, and
-- not the word NULL.
pub record IsName (s : List ℕ) : Type 0 where
  pub starts : starts_name s ≡ true
  pub bytes : All is_name_byte s
  pub fits : length s ≤ name_max
  pub not_null : same_word s (codes "NULL") ≡ false

abbrev pub starts_digits : List ℕ → Bool
starts_digits [] = false
starts_digits (c ∷ s) = is_digit c

abbrev pub IsLit : Lit → Type 0
IsLit (lit_int neg ds) =
    (starts_digits ds ≡ true)
    × All is_digit ds
    × (length (sign neg ++ ds) ≤ text_max)
    × IsInt64 neg (number ds)
IsLit (lit_str s) = All not_quote s × (length s ≤ text_max)
IsLit lit_null = Unit {0}

abbrev pub AllLits : List Lit → Type 0
AllLits [] = Unit {0}
AllLits (l ∷ ls) = IsLit l × AllLits ls

-- The literals with a comma and a space between two, before the text `rest`.
abbrev pub print_lits : List Lit → List ℕ → List ℕ
print_lits [] rest = rest
print_lits (l ∷ []) rest = print_lit l ++ rest
print_lits (l ∷ (m ∷ ls)) rest = print_lit l ++ (b',' ∷ (b' ' ∷ print_lits (m ∷ ls) rest))

abbrev pub print_insert : List ℕ → List Lit → List ℕ
print_insert name ls =
    codes "INSERT INTO " ++ (name ++ (codes " VALUES (" ++ print_lits ls (codes ");")))

-- A condition with its literal as it is spelt.
pub record LitCond : Type 0 where
  pub col : List ℕ
  pub op : CondOp
  pub lit : Lit

abbrev pub cond_of : LitCond → Cond
cond_of c = record { col_name = c.col; op = c.op; val = lit_value c.lit }

abbrev pub print_cond : LitCond → List ℕ → List ℕ
print_cond c rest = c.col ++ (b' ' ∷ (cond_op_name c.op ++ (b' ' ∷ (print_lit c.lit ++ rest))))

abbrev pub AllConds : List LitCond → Type 0
AllConds [] = Unit {0}
AllConds (c ∷ cs) = (IsName c.col × IsLit c.lit) × AllConds cs

-- The conditions with AND between two, before the text `rest`.
abbrev pub print_conds : List LitCond → List ℕ → List ℕ
print_conds [] rest = rest
print_conds (c ∷ []) rest = print_cond c rest
print_conds (c ∷ (d ∷ cs)) rest = print_cond c (codes " AND " ++ print_conds (d ∷ cs) rest)

abbrev pub print_select : List ℕ → List LitCond → List ℕ
print_select name cs =
    codes "SELECT * FROM " ++ (name ++ (codes " WHERE " ++ print_conds cs (codes ";")))
