-- ===== src/Parser/Tests.antt =====
-- Statements as a client writes them.
use kdbs.Common.{◌≡◌, refl, true, false, List, [], ◌∷◌, map, arith}
use kdbs.Common.Text.{codes}
use kdbs.Parser.Tokens.{token, eof}
use kdbs.Parser.Ast.{insert, select, done, op_gte, op_eq}
use kdbs.Parser.Print.{
  lit_int, lit_str, lit_null, lit_value, LitCond, cond_of, print_insert, print_select, IsName,
}
use kdbs.Parser.Statements.{seen, parse-print_insert}
use kdbs.Parser.Selects.{parse-print_select}
use kdbs.Parser.Bounds.{IsSized, parse-IsSized}
use kdbs.Parser.{kds_parse}

t_1-IsName : IsName (codes "t_1")
t_1-IsName = record {
  starts = refl;
  bytes = (refl, (refl, (refl, tt)));
  fits = omega arith;
  not_null = refl;
}

parse-print_insert_example :
    kds_parse (
      print_insert
        (codes "t_1")
        (lit_int true (codes "42") ∷ (lit_null ∷ (lit_str (codes "a b") ∷ []))))
    ≡ done
        (insert
          (codes "t_1")
          (map lit_value (lit_int true (codes "42") ∷ (lit_null ∷ (lit_str (codes "a b") ∷ [])))))
        (seen (token eof []) [])
parse-print_insert_example =
    parse-print_insert (codes "t_1") (lit_int true (codes "42"))
      (lit_null ∷ (lit_str (codes "a b") ∷ [])) t_1-IsName
      (
        (refl, (refl, (refl, tt)), omega arith, omega arith),
        (tt, (((refl, (refl, (refl, tt))), omega arith), tt)),
      )
      (omega arith)

abbrev conds : List LitCond
conds = record { col = codes "t_1"; op = op_eq; lit = lit_null } ∷ []

parse-print_select_example :
    kds_parse (
      print_select
        (codes "t_1")
        (record { col = codes "t_1"; op = op_gte; lit = lit_int false (codes "7") } ∷ conds))
    ≡ done
        (select (codes "t_1") true (
          map cond_of
            (record { col = codes "t_1"; op = op_gte; lit = lit_int false (codes "7") } ∷ conds)))
        (seen (token eof []) [])
parse-print_select_example =
    parse-print_select (codes "t_1")
      (record { col = codes "t_1"; op = op_gte; lit = lit_int false (codes "7") }) conds t_1-IsName
      ((t_1-IsName, (refl, (refl, tt), omega arith, omega arith)), ((t_1-IsName, tt), tt))
      (omega arith)

parses :
    kds_parse (print_insert (codes "t_1") (lit_null ∷ []))
    ≡ done (insert (codes "t_1") (lit_value lit_null ∷ [])) (seen (token eof []) [])
parses = parse-print_insert (codes "t_1") lit_null [] t_1-IsName (tt, tt) (omega arith)

parse-IsSized_example : IsSized (insert (codes "t_1") (lit_value lit_null ∷ []))
parse-IsSized_example =
    parse-IsSized (print_insert (codes "t_1") (lit_null ∷ []))
      (insert (codes "t_1") (lit_value lit_null ∷ [])) (seen (token eof []) []) parses
