-- ===== src/Parser/Ast.antt =====
-- What kernel/kds/parser.c produces, and the type of its rules: a rule is a function of the lexer
-- that returns its result with the lexer behind it, or the message that is recorded; each failure
-- returns -EINVAL. The text of a message is not modelled, only which it is and what it quotes.
use kdbs.Common.{ℕ, Bool, true, false, ◌&&◌, List, Option, none, some}
use kdbs.Common.Text.{codes, same_word}
use kdbs.Types.{TypeVal}
use kdbs.Parser.Tokens.{
  TokenType, Token, Lexer, eof, ident, int_lit, str_lit, null_lit, lparen, rparen, comma, semicolon,
  star, eq, neq, lt, lte, gt, gte, lexer_next, lexer_peek,
}

-- KDS_PARSER_MAX_COLS, KDS_PARSER_MAX_VALS, KDS_PARSER_MAX_CONDS and KDS_PARSER_NAME_MAX - 1.
abbrev pub max_cols : ℕ
max_cols = 32

abbrev pub max_vals : ℕ
max_vals = 32

abbrev pub max_conds : ℕ
max_conds = 16

abbrev pub name_max : ℕ
name_max = 63

-- `kds_ast_val_t`; an integer is a 64-bit two's complement word.
pub data AstVal : Type 0 where
  val_int : ℕ → AstVal
  val_str : List ℕ → AstVal
  val_null : AstVal

pub data CondOp : Type 0 where
  op_eq op_neq op_lt op_lte op_gt op_gte : CondOp

-- `kds_cond_op_name`.
abbrev pub cond_op_name : CondOp → List ℕ
cond_op_name op_eq = codes "="
cond_op_name op_neq = codes "!="
cond_op_name op_lt = codes "<"
cond_op_name op_lte = codes "<="
cond_op_name op_gt = codes ">"
cond_op_name op_gte = codes ">="

pub data Clustered : Type 0 where
  heap btree : Clustered

pub record ColDef : Type 0 where
  pub name : List ℕ
  pub type_val : TypeVal
  pub len : ℕ

pub record Cond : Type 0 where
  pub col_name : List ℕ
  pub op : CondOp
  pub val : AstVal

-- `kds_stmt_t`. A SELECT without a WHERE clause has no conditions.
pub data Stmt : Type 0 where
  create_table : List ℕ → List ColDef → Clustered → Stmt
  insert : List ℕ → List AstVal → Stmt
  select : List ℕ → Bool → List Cond → Stmt
  show_meta show_alloc : Stmt

-- What a message quotes is the token's text, none at the end of the input.
pub data Message : Type 0 where
  expected_keyword : List ℕ → Option (List ℕ) → Message
  expected_token : TokenType → Option (List ℕ) → Message
  expected_identifier expected_value expected_operator : Option (List ℕ) → Message
  too_many_columns too_many_values too_many_conditions no_columns no_values : Message
  unknown_type unsupported_list bad_show unknown_show bad_start unknown_statement trailing :
      List ℕ → Message
  empty_statement : Message

pub data Parsed (A : Type 0) : Type 0 where
  done : A → Lexer → Parsed A
  failed : Message → Parsed A

abbrev pub Parser : Type 0 → Type 0
Parser A = Lexer → Parsed A

module _ {A B : Type 0} where
  abbrev and_then : (A → Parser B) → Parsed A → Parsed B
  and_then f (done a l) = f a l
  and_then f (failed m) = failed m

  infixl 1 ◌>>=◌
  unfoldable pub ◌>>=◌ : Parser A → (A → Parser B) → Parser B
  (p >>= f) l = and_then f (p l)

module _ {A : Type 0} where
  abbrev pub pure : A → Parser A
  pure a l = done a l

  abbrev pub parser_err : Message → Parser A
  parser_err m l = failed m

abbrev pub next : Parser Token
next l = let (t, l') = lexer_next l in done t l'

abbrev pub peek : Parser Token
peek l = let (t, l') = lexer_peek l in done t l'

abbrev quoted_as : TokenType → List ℕ → Option (List ℕ)
quoted_as eof text = none
quoted_as _ text = some text

abbrev pub got : Token → Option (List ℕ)
got t = quoted_as t.type t.text

-- The token's type is the one, and for an identifier, its text the word.
abbrev pub is_ident : TokenType → Bool
is_ident ident = true
is_ident _ = false

abbrev pub is_word : List ℕ → Token → Bool
is_word word t = is_ident t.type && same_word t.text word

abbrev pub type_code : TokenType → ℕ
type_code eof = 0
type_code ident = 1
type_code int_lit = 2
type_code str_lit = 3
type_code null_lit = 4
type_code lparen = 5
type_code rparen = 6
type_code comma = 7
type_code semicolon = 8
type_code star = 9
type_code eq = 10
type_code neq = 11
type_code lt = 12
type_code lte = 13
type_code gt = 14
type_code gte = 15
type_code TokenType.error = 16
