-- ===== src/Parser/Bounds.antt =====
-- The sizes of what kernel/kds/parser.c puts in the fixed arrays of a statement.
use kdbs.Common.{ℕ, zero, suc, ◌≤◌, ◌≡◌, subst, List, [], ◌∷◌, Option, none, some, length, arith}
use kdbs.Types.{TypeDesc}
use kdbs.Parser.Tokens.{TokenType, Token, Lexer, text_max, lexer_init}
use kdbs.Parser.Ast.{
  Clustered, CondOp, AstVal, val_int, val_str, val_null, Cond, ColDef, Stmt, create_table, insert,
  select, show_meta, show_alloc, Message, done, Parser, name_max, max_vals, max_cols, max_conds,
}
use kdbs.Parser.{
  parse_value, value_of, op_of, parse_cond_op, column_of, parse_col, parse_list, non_empty,
  parse_storage, parse_create_table, parse_insert, parse_one_cond, parse_conds, parse_where,
  parse_select, parse_show, parse_by_keyword, parse_statement, kds_parse,
}
use kdbs.Parser.Rules.{
  IsShort, Rule, next-Rule, peek-Rule, gives, fails, either, bind, Any, IsNameSized, steps,
  keyword-Rule, token-Rule, ident-Rule, semicolon-Rule, Ensures,
}

-- A string value fits its array.
abbrev pub IsSizedVal : AstVal → Type 0
IsSizedVal (val_int v) = Unit {0}
IsSizedVal (val_str s) = length s ≤ text_max
IsSizedVal val_null = Unit {0}

value_of-Rule : (type : TokenType) (t : Token) → IsShort t → Rule IsSizedVal (value_of type t)
value_of-Rule TokenType.int_lit t h = gives tt
value_of-Rule TokenType.str_lit t h = gives h
value_of-Rule TokenType.null_lit t h = gives tt
value_of-Rule type t h = fails

value-Rule : Rule IsSizedVal parse_value
unfolding parse_value
value-Rule = search (steps, value_of-Rule)

op_of-Rule : (type : TokenType) (t : Token) → Rule (Any {A = CondOp}) (op_of type t)
op_of-Rule TokenType.eq t = gives tt
op_of-Rule TokenType.neq t = gives tt
op_of-Rule TokenType.lt t = gives tt
op_of-Rule TokenType.lte t = gives tt
op_of-Rule TokenType.gt t = gives tt
op_of-Rule TokenType.gte t = gives tt
op_of-Rule type t = fails

op-Rule : Rule (Any {A = CondOp}) parse_cond_op
unfolding parse_cond_op
op-Rule = search (steps, op_of-Rule)

abbrev pub Every : {A : Type 0} → (A → Type 0) → List A → Type 0
Every Q [] = Unit {0}
Every Q (a ∷ rest) = Q a × Every Q rest

-- At least one item, at most `most`, and each of them sized.
pub record IsListed {A : Type 0} (Q : A → Type 0) (most : ℕ) (xs : List A) : Type 0 where
  pub sized : Every Q xs
  pub some_item : 1 ≤ length xs
  pub fits : length xs ≤ most

module _ {A : Type 0} {Q : A → Type 0} where
  last_item : {left : ℕ} (a : A) → Q a → IsListed Q (suc left) (a ∷ [])
  last_item a h = record { sized = (h, tt); some_item = omega arith; fits = omega arith }

  more_items :
      {left : ℕ} (a : A) (rest : List A)
      → Q a
      → IsListed Q left rest
      → IsListed Q (suc left) (a ∷ rest)
  more_items a rest h r = record {
    sized = (h, r.sized);
    some_item = omega arith;
    fits = omega (arith, r.fits);
  }

  list-Rule :
      (item : Parser A) (m : Message) (left : ℕ)
      → Rule Q item
      → Rule (IsListed Q left) (parse_list item m left)
  unfolding parse_list
  list-Rule item m zero h = fails
  list-Rule item m (suc left) h = bind h λ a q. bind peek-Rule λ t s.
      either _
        (bind next-Rule
          λ u g. bind (list-Rule item m left h) λ rest r. gives (more_items a rest q r))
        (gives (last_item a q))

-- A column's, a condition's and a statement's arrays.
abbrev pub IsSizedCol : ColDef → Type 0
IsSizedCol c = length c.name ≤ name_max

abbrev pub IsSizedCond : Cond → Type 0
IsSizedCond c = (length c.col_name ≤ name_max) × IsSizedVal c.val

abbrev pub IsSized : Stmt → Type 0
IsSized (create_table name cols clustered) =
    (length name ≤ name_max) × IsListed IsSizedCol max_cols cols
IsSized (insert name values) = (length name ≤ name_max) × IsListed IsSizedVal max_vals values
IsSized (select name has_where conds) =
    (length name ≤ name_max) × Every IsSizedCond conds × (length conds ≤ max_conds)
IsSized show_meta = Unit {0}
IsSized show_alloc = Unit {0}

named_type :
    (name type_name : List ℕ) (o : Option TypeDesc)
    → IsNameSized name
    → Rule IsSizedCol (column_of name type_name o)
named_type name type_name none h = fails
named_type name type_name (some d) h = gives h

col-Rule : Rule IsSizedCol parse_col
unfolding parse_col
col-Rule = search (steps, ident-Rule, named_type)

cond-Rule : Rule IsSizedCond parse_one_cond
unfolding parse_one_cond
cond-Rule = search (steps, ident-Rule, op-Rule, value-Rule)

non_empty-Rule :
    {A : Type 0} (m : Message) (xs : List A) → Rule (Any {A = Unit {0}}) (non_empty m xs)
non_empty-Rule m [] = fails
non_empty-Rule m (x ∷ xs) = gives tt

storage-Rule : Rule (Any {A = Clustered}) parse_storage
unfolding parse_storage
storage-Rule = search (steps) depth 10

create-Rule : Rule IsSized parse_create_table
unfolding parse_create_table
create-Rule = bind (keyword-Rule _) λ _ _. bind ident-Rule λ name n. bind (token-Rule _) λ _ _.
    bind (list-Rule _ _ _ col-Rule) λ cols c. bind (token-Rule _) λ _ _.
      bind (non_empty-Rule _ _)
        λ _ _. bind storage-Rule λ cl _. bind semicolon-Rule λ _ _. gives (n, c)

insert-Rule : Rule IsSized parse_insert
unfolding parse_insert
insert-Rule = bind (keyword-Rule _) λ _ _. bind ident-Rule λ name n. bind (keyword-Rule _) λ _ _.
    bind (token-Rule _) λ _ _. bind (list-Rule _ _ _ value-Rule) λ values v.
      bind (token-Rule _)
        λ _ _. bind (non_empty-Rule _ _) λ _ _. bind semicolon-Rule λ _ _. gives (n, v)

-- The conditions of a WHERE clause.
abbrev AreSized : ℕ → List Cond → Type 0
AreSized most cs = Every IsSizedCond cs × (length cs ≤ most)

conds-Rule : (left : ℕ) → Rule (AreSized left) (parse_conds left)
unfolding parse_conds
conds-Rule zero = fails
conds-Rule (suc left) = bind cond-Rule λ c q. bind peek-Rule λ t s.
    either _
      (bind next-Rule λ u g. bind (conds-Rule left) λ rest r. gives ((q, r.0), omega (arith, r.1)))
      (gives ((q, tt), omega arith))

where-Rule : (name : List ℕ) → IsNameSized name → Rule IsSized (parse_where name)
unfolding parse_where
where-Rule name n = bind peek-Rule λ t s.
    either _ (bind next-Rule λ u g. bind (conds-Rule max_conds) λ conds c. gives (n, c.0, c.1))
      (gives (n, tt, omega arith))

select-Rule : Rule IsSized parse_select
unfolding parse_select
select-Rule = bind next-Rule λ t s. bind (either {P = Any} _ (gives tt) fails) λ _ _.
    bind (keyword-Rule _) λ _ _.
      bind ident-Rule
        λ name n. bind (where-Rule name n) λ stmt h. bind semicolon-Rule λ _ _. gives h

show-Rule : Rule IsSized parse_show
unfolding parse_show
show-Rule = bind next-Rule λ t s.
    bind {Q = IsSized}
      (either _ fails
        (either _ (gives {a = show_meta} tt) (either _ (gives {a = show_alloc} tt) fails)))
      λ stmt h. bind semicolon-Rule λ _ _. gives h

keyword-IsSized : (t : Token) → Rule IsSized (parse_by_keyword t)
unfolding parse_by_keyword
keyword-IsSized t =
    search (either, fails, create-Rule, insert-Rule, select-Rule, show-Rule) depth 10

statement-Rule : Rule IsSized parse_statement
unfolding parse_statement
statement-Rule =
    bind next-Rule
      λ t s. bind (keyword-IsSized t) λ stmt h. bind peek-Rule λ u g. either _ (gives h) fails

-- Whatever text is parsed with success, the statement fits the fixed arrays: names have at most 63
-- bytes and string values at most 255, an INSERT has one to 32 values, a CREATE TABLE one to 32
-- columns, and a SELECT at most 16 conditions.
pub parse-IsSized :
    (sql : List ℕ) (stmt : Stmt) (l : Lexer) → kds_parse sql ≡ done stmt l → IsSized stmt
unfolding kds_parse
parse-IsSized sql stmt l h =
    (subst (Ensures IsSized) h (statement-Rule.ensures (lexer_init sql) tt)).0
