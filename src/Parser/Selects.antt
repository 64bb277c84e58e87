-- ===== src/Parser/Selects.antt =====
-- The SELECT rule of kernel/kds/parser.c on statements as a client writes them.
use kdbs.Common.{
  ℕ, zero, suc, ◌≤◌, ◌≡◌, refl, ◌∙◌, true, false, List, [], ◌∷◌, ◌++◌, map, length, arith,
}
use kdbs.Common.Text.{codes}
use kdbs.Parser.Tokens.{
  TokenType, Token, Lexer, token, ident, semicolon, star, eq, neq, lt, lte, gt, gte, eof,
  lexer_read, lexer_next, lexer_peek, skip_ws, read_at, is_name_byte,
}
use kdbs.Parser.Ast.{
  cond_op_name, ◌>>=◌, CondOp, op_eq, op_neq, op_lt, op_lte, op_gt, op_gte, select, done, max_conds,
}
use kdbs.Parser.{
  expect_keyword, consume_optional_semicolon, op_of, parse_cond_op, parse_one_cond, parse_conds,
  parse_where, parse_select, parse_by_keyword, parse_statement, kds_parse,
}
use kdbs.Parser.Print.{
  print_lit, IsName, IsLit, LitCond, cond_of, print_cond, AllConds, print_conds, print_select,
}
use kdbs.Parser.Literals.{read_name, read_lit}
use kdbs.Parser.Statements.{
  at, seen, next_reads, next_seen, parse_lit, parse_name, after_space, peek_end,
}

abbrev op_type : CondOp → TokenType
op_type op_eq = eq
op_type op_neq = neq
op_type op_lt = lt
op_type op_lte = lte
op_type op_gt = gt
op_type op_gte = gte

read_op :
    (op : CondOp) (s : List ℕ)
    → lexer_read (b' ' ∷ (cond_op_name op ++ (b' ' ∷ s)))
      ≡ (token (op_type op) (cond_op_name op), b' ' ∷ s)
unfolding lexer_read skip_ws read_at
read_op op_eq s = refl
read_op op_neq s = refl
read_op op_lt s = refl
read_op op_lte s = refl
read_op op_gt s = refl
read_op op_gte s = refl

op_of_type : (op : CondOp) (t : Token) (x : Lexer) → op_of (op_type op) t x ≡ done op x
op_of_type op_eq t x = refl
op_of_type op_neq t x = refl
op_of_type op_lt t x = refl
op_of_type op_lte t x = refl
op_of_type op_gt t x = refl
op_of_type op_gte t x = refl

parse_op :
    (op : CondOp) (s : List ℕ)
    → parse_cond_op (at (b' ' ∷ (cond_op_name op ++ (b' ' ∷ s)))) ≡ done op (at (b' ' ∷ s))
unfolding parse_cond_op ◌>>=◌
parse_op op s =
    let t = token (op_type op) (cond_op_name op) in
    let n = next_reads (b' ' ∷ (cond_op_name op ++ (b' ' ∷ s))) (b' ' ∷ s) t (read_op op s) in
    rw (parse_cond_op, n) (op_of_type op t (at (b' ' ∷ s)))

-- A condition before a byte that its literal does not go on with.
parse_cond :
    (c : LitCond) (s : List ℕ) (b : ℕ) (rest : List ℕ)
    → IsName c.col
    → IsLit c.lit
    → is_name_byte b ≡ false
    → lexer_read s ≡ lexer_read (print_cond c (b ∷ rest))
    → parse_one_cond (at s) ≡ done (cond_of c) (at (b ∷ rest))
unfolding parse_one_cond ◌>>=◌
parse_cond c s b rest n v h e =
    let end = print_lit c.lit ++ (b ∷ rest) in
    let behind = cond_op_name c.op ++ (b' ' ∷ end) in
    let col = parse_name c.col s (b' ' ∷ behind) n (e ∙ read_name c.col b' ' behind n refl) in
    let lit =
      parse_lit c.lit (b' ' ∷ end) (b ∷ rest) v (after_space end ∙ read_lit c.lit b rest v h) in
    rw (parse_one_cond, col, parse_op c.op end, lit) refl

peek_semicolon :
    lexer_peek (at (codes ";"))
    ≡ (token semicolon (codes ";"), seen (token semicolon (codes ";")) [])
unfolding lexer_peek lexer_next lexer_read skip_ws read_at
peek_semicolon = refl

peek_and :
    (s : List ℕ)
    → lexer_peek (at (codes " AND " ++ s))
      ≡ (token ident (codes "AND"), seen (token ident (codes "AND")) (b' ' ∷ s))
unfolding lexer_peek lexer_next lexer_read skip_ws read_at
peek_and s = refl

parse_all :
    (cs : List LitCond) (c : LitCond) (left : ℕ)
    → AllConds (c ∷ cs)
    → length (c ∷ cs) ≤ left
    → (s : List ℕ) → lexer_read s ≡ lexer_read (print_conds (c ∷ cs) (codes ";"))
    → parse_conds left (at s) ≡ done (map cond_of (c ∷ cs)) (seen (token semicolon (codes ";")) [])
unfolding parse_conds ◌>>=◌
parse_all [] c zero v h s e = absurd (omega arith)
parse_all [] c (suc left) ((n, v), _) h s e =
    let item = parse_cond c s b';' [] n v refl e in rw (parse_conds, item, peek_semicolon) refl
parse_all (d ∷ cs) c zero v h s e = absurd (omega arith)
parse_all (d ∷ cs) c (suc left) ((n, v), vs) h s e =
    let tail = print_conds (d ∷ cs) (codes ";") in
    let item = parse_cond c s b' ' (codes "AND " ++ tail) n v refl e in
    let more = parse_all cs d left vs (omega arith) (b' ' ∷ tail) (after_space tail) in
    rw (parse_conds, item, peek_and tail, next_seen (token ident (codes "AND")) (b' ' ∷ tail), more)
      refl

select_word :
    (s : List ℕ)
    → lexer_next (at (codes "SELECT * FROM " ++ s))
      ≡ (token ident (codes "SELECT"), at (codes " * FROM " ++ s))
unfolding lexer_next lexer_read skip_ws read_at
select_word s = refl

star_word :
    (s : List ℕ)
    → lexer_next (at (codes " * FROM " ++ s)) ≡ (token star (codes "*"), at (codes " FROM " ++ s))
unfolding lexer_next lexer_read skip_ws read_at
star_word s = refl

from_word :
    (s : List ℕ)
    → expect_keyword (codes "FROM") (at (codes " FROM " ++ s)) ≡ done tt (at (b' ' ∷ s))
unfolding expect_keyword lexer_next lexer_read skip_ws read_at ◌>>=◌
from_word s = refl

peek_where :
    (s : List ℕ)
    → lexer_peek (at (codes " WHERE " ++ s))
      ≡ (token ident (codes "WHERE"), seen (token ident (codes "WHERE")) (b' ' ∷ s))
unfolding lexer_peek lexer_next lexer_read skip_ws read_at
peek_where s = refl

end_taken : consume_optional_semicolon (seen (token semicolon (codes ";")) []) ≡ done tt (at [])
unfolding consume_optional_semicolon lexer_peek lexer_next ◌>>=◌
end_taken = refl

parse_select_is :
    (name : List ℕ) (c : LitCond) (cs : List LitCond)
    → IsName name
    → AllConds (c ∷ cs)
    → length (c ∷ cs) ≤ max_conds
    → parse_select
        (at (codes " * FROM " ++ (name ++ (codes " WHERE " ++ print_conds (c ∷ cs) (codes ";")))))
      ≡ done (select name true (map cond_of (c ∷ cs))) (at [])
unfolding parse_select parse_where ◌>>=◌
parse_select_is name c cs n v h =
    let conds = print_conds (c ∷ cs) (codes ";") in
    let tail = codes " WHERE " ++ conds in
    let id =
      parse_name name (b' ' ∷ (name ++ tail)) tail n
        (after_space (name ++ tail) ∙ read_name name b' ' (codes "WHERE " ++ conds) n refl) in
    let items = parse_all cs c max_conds v h (b' ' ∷ conds) (after_space conds) in
    let word = next_seen (token ident (codes "WHERE")) (b' ' ∷ conds) in
    rw
      (
        parse_select,
        star_word (name ++ tail),
        from_word (name ++ tail),
        id,
        parse_where,
        peek_where conds,
        word,
        items,
        end_taken,
      )
      refl

-- Parsing a SELECT as a client writes it, with a table's name, one to 16 conditions, each on a
-- column's name and a literal of at most 255 bytes, and a final semicolon, where names have at most
-- 63 bytes and are not the word NULL, and integers are in the range of 64 bits, gives the statement
-- with that name and those conditions, each with its operator and its literal: an integer as the
-- number that its digits spell, negated under a minus sign, as a 64-bit word.
pub parse-print_select :
    (name : List ℕ) (c : LitCond) (cs : List LitCond)
    → IsName name
    → AllConds (c ∷ cs)
    → length (c ∷ cs) ≤ max_conds
    → kds_parse (print_select name (c ∷ cs))
      ≡ done (select name true (map cond_of (c ∷ cs))) (seen (token eof []) [])
unfolding kds_parse parse_statement parse_by_keyword ◌>>=◌
parse-print_select name c cs n v h =
    let tail = name ++ (codes " WHERE " ++ print_conds (c ∷ cs) (codes ";")) in
    rw
      (
        kds_parse,
        parse_statement,
        select_word tail,
        parse_by_keyword,
        parse_select_is name c cs n v h,
        peek_end,
      )
      refl
