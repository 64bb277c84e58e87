-- ===== src/Parser/Rules.antt =====
-- Rules of kernel/kds/parser.c that ensure a predicate of their result.
use kdbs.Common.{
  ℕ, ◌≤◌, Bool, true, false, List, [], ◌∷◌, Option, none, some, take, length, length-take, arith,
  if◌then◌else◌,
}
use kdbs.Parser.Tokens.{
  TokenType, Token, token, Lexer, text_max, read_at, read_from, lexer_read, lexer_next, lexer_peek,
  lexer_init, skip_ws, next_of,
}
use kdbs.Parser.Ast.{
  Message, Parsed, done, failed, Parser, ◌>>=◌, pure, parser_err, next, peek, name_max,
}
use kdbs.Parser.{expect_keyword, expect_token, parse_ident, consume_optional_semicolon}

abbrev pub IsShort : Token → Type 0
IsShort t = length t.text ≤ text_max

abbrev pub IsShortPeek : Option Token → Type 0
IsShortPeek none = Unit {0}
IsShortPeek (some t) = IsShort t

abbrev pub Ensures : {A : Type 0} → (A → Type 0) → Parsed A → Type 0
Ensures P (done a l) = P a × IsShortPeek l.peek
Ensures P (failed m) = Unit {0}

-- A rule ensures a predicate of its result on every lexer.
pub record Rule {A : Type 0} (P : A → Type 0) (p : Parser A) : Type 0 where
  pub ensures : (l : Lexer) → IsShortPeek l.peek → Ensures P (p l)

short_text : (s : List ℕ) → length (take text_max s) ≤ text_max
short_text s = omega (arith, length-take text_max s)

pub record IsShortRead (r : Token × List ℕ) : Type 0 where
  pub fits : length r.0.text ≤ text_max

branch :
    (b : Bool) {x y : Token × List ℕ}
    → IsShortRead x
    → IsShortRead y
    → IsShortRead (if b then x else y)
branch true h g = h
branch false h g = g

cut_text :
    (type : TokenType) (text : List ℕ) (v : ℕ) (s : List ℕ)
    → IsShortRead (record { type = type; text = take text_max text; int_val = v }, s)
cut_text type text v s = record { fits = short_text text }

mark : (type : TokenType) (c d : ℕ) {s : List ℕ} → IsShortRead (token type (c ∷ (d ∷ [])), s)
mark type c d = record { fits = omega arith }

one_byte : (type : TokenType) (c : ℕ) (s : List ℕ) → IsShortRead (token type (c ∷ []), s)
one_byte type c s = record { fits = omega arith }

read_at-IsShort : (c : ℕ) (s : List ℕ) → IsShortRead (read_at c s)
unfolding read_at
read_at-IsShort c s = search (branch, cut_text, mark, one_byte) depth 12

read_from-IsShort : (s : List ℕ) → length (read_from s).0.text ≤ text_max
read_from-IsShort [] = omega arith
read_from-IsShort (c ∷ s) = (read_at-IsShort c s).fits

next_of-IsShort :
    (o : Option Token) (s : List ℕ)
    → IsShortPeek o
    → IsShort (next_of o s).0 × IsShortPeek (next_of o s).1.peek
unfolding lexer_read
next_of-IsShort none s h = (read_from-IsShort (skip_ws false s), tt)
next_of-IsShort (some t) s h = (h, tt)

pub next-Rule : Rule IsShort next
unfolding lexer_next
next-Rule = record { ensures = λ l s. next_of-IsShort l.peek l.pos s }

pub peek-Rule : Rule IsShort peek
unfolding lexer_peek lexer_next
peek-Rule = record {
  ensures = λ l s. ((next_of-IsShort l.peek l.pos s).0, (next_of-IsShort l.peek l.pos s).0);
}

module _ {A : Type 0} {P : A → Type 0} where
  pub gives : {a : A} → P a → Rule P (pure a)
  gives h = record { ensures = λ l s. (h, s) }

  pub fails : {m : Message} → Rule P (parser_err m)
  fails = record { ensures = λ l s. tt }

  pub either : (b : Bool) {p q : Parser A} → Rule P p → Rule P q → Rule P (if b then p else q)
  either true h g = h
  either false h g = g

continues :
    {A B : Type 0} {Q : A → Type 0} {P : B → Type 0} (r : Parsed A) (f : A → Parser B)
    → Ensures Q r
    → ((a : A) → Q a → Rule P (f a))
    → Ensures P (((λ _. r) >>= f) (lexer_init []))
unfolding ◌>>=◌
continues (done a l) f (q, s) g = (g a q).ensures l s
continues (failed m) f u g = tt

pub bind :
    {A B : Type 0} {Q : A → Type 0} {P : B → Type 0} {p : Parser A} {f : A → Parser B}
    → Rule Q p
    → ((a : A) → Q a → Rule P (f a))
    → Rule P (p >>= f)
unfolding ◌>>=◌
bind {Q = Q} {P = P} {p = p} {f = f} h g = record {
  ensures = λ l s. continues {Q = Q} {P = P} (p l) f (h.ensures l s) g;
}

-- Nothing is said of the result.
abbrev pub Any : {A : Type 0} → A → Type 0
Any a = Unit {0}

abbrev pub IsNameSized : List ℕ → Type 0
IsNameSized s = length s ≤ name_max

pub ruleset steps = (bind, next-Rule, peek-Rule, either, gives, fails)

pub keyword-Rule : (word : List ℕ) → Rule (Any {A = Unit {0}}) (expect_keyword word)
unfolding expect_keyword
keyword-Rule word = search (steps)

pub token-Rule : (type : TokenType) → Rule (Any {A = Unit {0}}) (expect_token type)
unfolding expect_token
token-Rule type = search (steps)

cut_name : (t : Token) → IsNameSized (take name_max t.text)
cut_name t = omega (arith, length-take name_max t.text)

pub ident-Rule : Rule IsNameSized parse_ident
unfolding parse_ident
ident-Rule = search (steps, cut_name)

pub semicolon-Rule : Rule (Any {A = Unit {0}}) consume_optional_semicolon
unfolding consume_optional_semicolon
semicolon-Rule = search (steps)
