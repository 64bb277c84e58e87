-- ===== src/Parser/Statements.antt =====
-- The rules of kernel/kds/parser.c on statements as a client writes them.
use kdbs.Common.{
  ℕ, zero, suc, ◌≤◌, ◌≡◌, refl, ap, ◌∙◌, List, [], ◌∷◌, ◌++◌, map, length, arith, none, some,
  take_all,
}
use kdbs.Common.Text.{codes}
use kdbs.Parser.Tokens.{
  Token, Lexer, token, ident, comma, rparen, lparen, eof, lexer_read, lexer_next, lexer_peek,
  skip_ws, read_at,
}
use kdbs.Parser.Ast.{◌>>=◌, val_int, insert, done, too_many_values, name_max, max_vals}
use kdbs.Parser.{
  expect_keyword, expect_token, parse_ident, value_of, consume_optional_semicolon, parse_value,
  parse_list, parse_insert, parse_by_keyword, parse_statement, kds_parse,
}
use kdbs.Parser.Print.{
  Lit, IsLit, lit_int, lit_str, lit_null, lit_value, IsName, AllLits, print_lits, print_insert,
}
use kdbs.Parser.Numbers.{int_value_lem}
use kdbs.Parser.Literals.{read_name, lit_token, read_lit}

-- The lexer in front of a text, and the same with the next token peeked.
abbrev pub at : List ℕ → Lexer
at s = record { pos = s; peek = none }

abbrev pub seen : Token → List ℕ → Lexer
seen t s = record { pos = s; peek = some t }

pub next_reads : (s r : List ℕ) (t : Token) → lexer_read s ≡ (t, r) → lexer_next (at s) ≡ (t, at r)
unfolding lexer_next
next_reads s r t h = rw (h) refl

pub peek_reads :
    (s r : List ℕ) (t : Token) → lexer_read s ≡ (t, r) → lexer_peek (at s) ≡ (t, seen t r)
unfolding lexer_peek lexer_next
peek_reads s r t h = rw (h) refl

value_of_lit :
    (l : Lit) (x : Lexer)
    → IsLit l
    → value_of (lit_token l).type (lit_token l) x ≡ done (lit_value l) x
value_of_lit (lit_int neg ds) x (starts, _, _, small) =
    ap (λ (v : ℕ). done (val_int v) x) (int_value_lem neg ds starts small)
value_of_lit (lit_str s) x h = refl
value_of_lit lit_null x h = refl

pub parse_lit :
    (l : Lit) (s rest : List ℕ)
    → IsLit l
    → lexer_read s ≡ (lit_token l, rest)
    → parse_value (at s) ≡ done (lit_value l) (at rest)
unfolding parse_value ◌>>=◌
parse_lit l s rest v e =
    let n = next_reads s rest (lit_token l) e in rw (parse_value, n) (value_of_lit l (at rest) v)

pub next_seen : (t : Token) (s : List ℕ) → lexer_next (seen t s) ≡ (t, at s)
unfolding lexer_next
next_seen t s = refl

-- The bytes behind an item of a list.
peek_comma :
    (s : List ℕ)
    → lexer_peek (at (b',' ∷ s)) ≡ (token comma (codes ","), seen (token comma (codes ",")) s)
unfolding lexer_peek lexer_next lexer_read skip_ws read_at
peek_comma s = refl

peek_rparen :
    (s : List ℕ)
    → lexer_peek (at (b')' ∷ s)) ≡ (token rparen (codes ")"), seen (token rparen (codes ")")) s)
unfolding lexer_peek lexer_next lexer_read skip_ws read_at
peek_rparen s = refl

pub after_space : (s : List ℕ) → lexer_read (b' ' ∷ s) ≡ lexer_read s
unfolding lexer_read skip_ws
after_space s = refl

pub parse_name :
    (name s rest : List ℕ)
    → IsName name
    → lexer_read s ≡ (token ident name, rest)
    → parse_ident (at s) ≡ done name (at rest)
unfolding parse_ident ◌>>=◌
parse_name name s rest n e =
    let t = next_reads s rest (token ident name) e in
    rw (parse_ident, t) (ap (λ x. done x (at rest)) (take_all name_max name n.fits))

-- What the list rule leaves: the closing parenthesis is peeked.
abbrev after_list : List ℕ → Lexer
after_list rest = seen (token rparen (codes ")")) rest

parse_lits :
    (ls : List Lit) (l : Lit) (left : ℕ) (rest : List ℕ)
    → AllLits (l ∷ ls)
    → length (l ∷ ls) ≤ left
    → (s : List ℕ) → lexer_read s ≡ lexer_read (print_lits (l ∷ ls) (b')' ∷ rest))
    → parse_list parse_value too_many_values left (at s)
      ≡ done (map lit_value (l ∷ ls)) (after_list rest)
unfolding parse_list ◌>>=◌
parse_lits [] l zero rest v h s e = absurd (omega arith)
parse_lits [] l (suc left) rest (v, _) h s e =
    let item = parse_lit l s (b')' ∷ rest) v (e ∙ read_lit l b')' rest v refl) in
    rw (parse_list, item, peek_rparen rest) refl
parse_lits (m ∷ ls) l zero rest v h s e = absurd (omega arith)
parse_lits (m ∷ ls) l (suc left) rest (v, vs) h s e =
    let tail = print_lits (m ∷ ls) (b')' ∷ rest) in
    let item = parse_lit l s (b',' ∷ (b' ' ∷ tail)) v (e ∙ read_lit l b',' (b' ' ∷ tail) v refl) in
    let more = parse_lits ls m left rest vs (omega arith) (b' ' ∷ tail) (after_space tail) in
    rw
      (
        parse_list,
        item,
        peek_comma (b' ' ∷ tail),
        next_seen (token comma (codes ",")) (b' ' ∷ tail),
        more,
      )
      refl

-- The fixed words of an INSERT, each in front of any text.
insert_word :
    (s : List ℕ)
    → lexer_next (at (codes "INSERT INTO " ++ s))
      ≡ (token ident (codes "INSERT"), at (codes " INTO " ++ s))
unfolding lexer_next lexer_read skip_ws read_at
insert_word s = refl

into_word :
    (s : List ℕ)
    → expect_keyword (codes "INTO") (at (codes " INTO " ++ s)) ≡ done tt (at (b' ' ∷ s))
unfolding expect_keyword lexer_next lexer_read skip_ws read_at ◌>>=◌
into_word s = refl

values_word :
    (s : List ℕ)
    → expect_keyword (codes "VALUES") (at (codes " VALUES (" ++ s)) ≡ done tt (at (codes " (" ++ s))
unfolding expect_keyword lexer_next lexer_read skip_ws read_at ◌>>=◌
values_word s = refl

open_list : (s : List ℕ) → expect_token lparen (at (codes " (" ++ s)) ≡ done tt (at s)
unfolding expect_token lexer_next lexer_read skip_ws read_at ◌>>=◌
open_list s = refl

close_list : (s : List ℕ) → expect_token rparen (after_list s) ≡ done tt (at s)
unfolding expect_token lexer_next ◌>>=◌
close_list s = refl

pub semicolon_at_end : consume_optional_semicolon (at (codes ";")) ≡ done tt (at [])
unfolding consume_optional_semicolon lexer_peek lexer_next lexer_read skip_ws read_at ◌>>=◌
semicolon_at_end = refl

pub peek_end : lexer_peek (at []) ≡ (token eof [], seen (token eof []) [])
unfolding lexer_peek lexer_next lexer_read skip_ws
peek_end = refl

parse_insert_is :
    (name : List ℕ) (l : Lit) (ls : List Lit)
    → IsName name
    → AllLits (l ∷ ls)
    → length (l ∷ ls) ≤ max_vals
    → parse_insert
        (at (codes " INTO " ++ (name ++ (codes " VALUES (" ++ print_lits (l ∷ ls) (codes ");")))))
      ≡ done (insert name (map lit_value (l ∷ ls))) (at [])
unfolding parse_insert ◌>>=◌
parse_insert_is name l ls n v h =
    let vals = print_lits (l ∷ ls) (codes ");") in
    let tail = codes " VALUES (" ++ vals in
    let id =
      parse_name name (b' ' ∷ (name ++ tail)) tail n
        (after_space (name ++ tail) ∙ read_name name b' ' (codes "VALUES (" ++ vals) n refl) in
    let items = parse_lits ls l max_vals (codes ";") v h vals refl in
    rw
      (
        parse_insert,
        into_word (name ++ tail),
        id,
        values_word vals,
        open_list vals,
        items,
        close_list (codes ";"),
        semicolon_at_end,
      )
      refl

-- Parsing an INSERT as a client writes it, with a name of at most 63 bytes that is not the word NULL,
-- one to 32 literals of at most 255 bytes, the integers among them in the range of 64 bits, and a
-- final semicolon, gives the statement with that name and those literals: the integers as the
-- numbers that their digits spell, negated under a minus sign, as 64-bit words.
pub parse-print_insert :
    (name : List ℕ) (l : Lit) (ls : List Lit)
    → IsName name
    → AllLits (l ∷ ls)
    → length (l ∷ ls) ≤ max_vals
    → kds_parse (print_insert name (l ∷ ls))
      ≡ done (insert name (map lit_value (l ∷ ls))) (seen (token eof []) [])
unfolding kds_parse parse_statement parse_by_keyword ◌>>=◌
parse-print_insert name l ls n v h =
    let tail = name ++ (codes " VALUES (" ++ print_lits (l ∷ ls) (codes ");")) in
    rw
      (
        kds_parse,
        parse_statement,
        insert_word tail,
        parse_by_keyword,
        parse_insert_is name l ls n v h,
        peek_end,
      )
      refl
