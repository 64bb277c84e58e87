-- ===== src/Parser.antt =====
-- The SQL parser: kernel/kds/parser.c, one definition per grammar rule.
pub mod Tokens
pub mod Ast
pub mod Print
pub mod Numbers
pub mod Literals
pub mod Statements
pub mod Selects
pub mod Rules
pub mod Bounds
pub mod Tests
use kdbs.Common.{
  ℕ, zero, suc, Bool, true, false, not, List, [], ◌∷◌, Option, none, some, take, ◌==◌,
  if◌then◌else◌,
}
use kdbs.Common.Text.{codes}
use kdbs.Types.{TypeDesc, type_lookup_by_name}
use Tokens.{
  TokenType, Token, Lexer, eof, ident, int_lit, str_lit, null_lit, lparen, rparen, comma, semicolon,
  star, eq, neq, lt, lte, gt, gte, lexer_init,
}
use Ast.*

unfoldable pub expect_keyword : List ℕ → Parser (Unit {0})
expect_keyword word = do
  t ← next
  if is_word word t then pure tt else parser_err (expected_keyword word (got t))

abbrev pub is_type : TokenType → Token → Bool
is_type type t = type_code t.type == type_code type

unfoldable pub expect_token : TokenType → Parser (Unit {0})
expect_token type = do
  t ← next
  if is_type type t then pure tt else parser_err (expected_token type (got t))

-- The text is cut to the buffer, KDS_PARSER_NAME_MAX bytes with the NUL.
unfoldable pub parse_ident : Parser (List ℕ)
parse_ident = do
  t ← next
  if is_ident t.type then pure (take name_max t.text) else parser_err (expected_identifier (got t))

-- The next token is taken, and the result is `a`.
abbrev pub after_next : {A : Type 0} → A → Parser A
after_next a = do _ ← next; pure a

unfoldable pub consume_optional_semicolon : Parser (Unit {0})
consume_optional_semicolon = do t ← peek; if is_type semicolon t then after_next tt else pure tt

abbrev pub value_of : TokenType → Token → Parser AstVal
value_of int_lit t = pure (val_int t.int_val)
value_of str_lit t = pure (val_str t.text)
value_of null_lit t = pure val_null
value_of _ t = parser_err (expected_value (got t))

unfoldable pub parse_value : Parser AstVal
parse_value = do t ← next; value_of t.type t

abbrev pub op_of : TokenType → Token → Parser CondOp
op_of eq t = pure op_eq
op_of neq t = pure op_neq
op_of lt t = pure op_lt
op_of lte t = pure op_lte
op_of gt t = pure op_gt
op_of gte t = pure op_gte
op_of _ t = parser_err (expected_operator (got t))

unfoldable pub parse_cond_op : Parser CondOp
parse_cond_op = do t ← next; op_of t.type t

abbrev pub column_of : List ℕ → List ℕ → Option TypeDesc → Parser ColDef
column_of name type_name none = parser_err (unknown_type type_name)
column_of name type_name (some d) =
    pure (record { name = name; type_val = d.type_val; len = d.fixed_len })

-- One turn of the loop over the columns.
unfoldable pub parse_col : Parser ColDef
parse_col = do
  name ← parse_ident
  type_name ← parse_ident
  column_of name type_name (type_lookup_by_name type_name)

-- The loops of the list rules: at most `left` items more, and a comma after all but the last.
module _ {A : Type 0} (item : Parser A) (too_many : Message) where
  unfoldable pub parse_list : ℕ → Parser (List A)
  parse_list zero = parser_err too_many
  parse_list (suc left) = do
    a ← item
    t ← peek
    if is_type comma t
        then (do _ ← next; rest ← parse_list left; pure (a ∷ rest))
        else pure (a ∷ [])

abbrev pub non_empty : {A : Type 0} → Message → List A → Parser (Unit {0})
non_empty m [] = parser_err m
non_empty m (a ∷ rest) = pure tt

-- Any other token stays for what follows.
abbrev pub storage_of : Token → Parser Clustered
storage_of t =
    if is_word (codes "HEAP") t
    then after_next heap
    else if is_word (codes "BTREE") t
    then after_next btree
    else pure heap

-- The optional storage clause.
unfoldable pub parse_storage : Parser Clustered
parse_storage = do t ← peek; storage_of t

unfoldable pub parse_create_table : Parser Stmt
parse_create_table = do
  _ ← expect_keyword (codes "TABLE")
  name ← parse_ident
  _ ← expect_token lparen
  cols ← parse_list parse_col too_many_columns max_cols
  _ ← expect_token rparen
  _ ← non_empty no_columns cols
  clustered ← parse_storage
  _ ← consume_optional_semicolon
  pure (create_table name cols clustered)

unfoldable pub parse_insert : Parser Stmt
parse_insert = do
  _ ← expect_keyword (codes "INTO")
  name ← parse_ident
  _ ← expect_keyword (codes "VALUES")
  _ ← expect_token lparen
  values ← parse_list parse_value too_many_values max_vals
  _ ← expect_token rparen
  _ ← non_empty no_values values
  _ ← consume_optional_semicolon
  pure (insert name values)

unfoldable pub parse_one_cond : Parser Cond
parse_one_cond = do
  col_name ← parse_ident
  op ← parse_cond_op
  val ← parse_value
  pure (record { col_name = col_name; op = op; val = val })

-- The loop over the conditions: at most `left` more.
unfoldable pub parse_conds : ℕ → Parser (List Cond)
parse_conds zero = parser_err too_many_conditions
parse_conds (suc left) = do
  c ← parse_one_cond
  t ← peek
  if is_word (codes "AND") t
      then (do _ ← next; rest ← parse_conds left; pure (c ∷ rest))
      else pure (c ∷ [])

unfoldable pub parse_where : List ℕ → Parser Stmt
parse_where name = do
  t ← peek
  if is_word (codes "WHERE") t
      then (do _ ← next; conds ← parse_conds max_conds; pure (select name true conds))
      else pure (select name false [])

unfoldable pub parse_select : Parser Stmt
parse_select = do
  t ← next
  _ ← (if is_type star t then pure tt else parser_err (unsupported_list t.text))
  _ ← expect_keyword (codes "FROM")
  name ← parse_ident
  stmt ← parse_where name
  _ ← consume_optional_semicolon
  pure stmt

unfoldable pub parse_show : Parser Stmt
parse_show = do
  t ← next
  stmt ←
      (if not (is_ident t.type)
        then parser_err (bad_show t.text)
        else if is_word (codes "META") t
        then pure show_meta
        else if is_word (codes "ALLOC") t
        then pure show_alloc
        else parser_err (unknown_show t.text))
  _ ← consume_optional_semicolon
  pure stmt

-- The statement that the first token opens.
unfoldable pub parse_by_keyword : Token → Parser Stmt
parse_by_keyword t =
    if is_type eof t
    then parser_err empty_statement
    else if not (is_ident t.type)
    then parser_err (bad_start t.text)
    else if is_word (codes "CREATE") t
    then parse_create_table
    else if is_word (codes "INSERT") t
    then parse_insert
    else if is_word (codes "SELECT") t
    then parse_select
    else if is_word (codes "SHOW") t
    then parse_show
    else parser_err (unknown_statement t.text)

unfoldable pub parse_statement : Parser Stmt
parse_statement = do
  t ← next
  stmt ← parse_by_keyword t
  tail ← peek
  if is_type eof tail then pure stmt else parser_err (trailing tail.text)

-- `kds_parse` on arguments that are there.
unfoldable pub kds_parse : List ℕ → Parsed Stmt
kds_parse sql = parse_statement (lexer_init sql)
