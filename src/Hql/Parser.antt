-- ===== src/Hql/Parser.antt =====
-- `Parse` and the expression parsers of internal/hql/parser.go.
pub mod Total
use pixkb.Base.{
  Bytes, codes, ℕ, zero, suc, ◌+◌, ◌*◌, Bool, true, false, List, [], ◌∷◌, Option, none, some,
  length, Result, ok, err,
}
use pixkb.Hql.Errors.{
  Error, empty_query, expected_by, unexpected_token, expected_rparen, expected_field, expected_in,
  expected_empty, expected_operator, out_of_fuel,
}
use pixkb.Hql.Ast.{
  Value, Values, nil, Comparison, Expr, both, either, negated, comparison, OrderField, Query,
}
use pixkb.Hql.Lexer.{TokKind, Token, lparen, rparen, lex}
use pixkb.Hql.Monad.{Tokens, Parser, ◌>>=◌, ◌>>◌, pure, peek, next, at_kind, is_keyword, fail}
use pixkb.Hql.Op
use pixkb.Hql.Values.{parse_value, parse_list, parse_order, parse_limit}

-- the comparison without a scalar value
abbrev pub listed : Bytes → Bytes → Values → Expr
listed field op list = comparison (record { field = field; op = op; value = none; list = list })

-- `case p.isKeyword("NOT")` of `parseComparison`
unfoldable pub not_in : ℕ → Bytes → Parser Expr
not_in fuel field = do
  next
  in_next ← is_keyword (codes "IN")
  elim in_next [
    | true ↦ (do next; list ← parse_list fuel; pure (listed field Op.not_in_list list))
    | false ↦ fail expected_in
  ]

-- the optional NOT of `IS [NOT] EMPTY`, as the operator
unfoldable pub empty_op : Parser Bytes
empty_op = do
  negation ← is_keyword (codes "NOT")
  elim negation [ true ↦ (do next; pure Op.not_empty) | false ↦ pure Op.empty ]

-- `case p.isKeyword("IS")`
unfoldable pub is_empty_test : Bytes → Parser Expr
is_empty_test field = do
  next
  op ← empty_op
  keyword ← is_keyword (codes "EMPTY")
  elim keyword [ true ↦ (do next; pure (listed field op nil)) | false ↦ fail expected_empty ]

-- the word cases of the switch in `parseComparison`
unfoldable pub word_test : ℕ → Bytes → Parser Expr
word_test fuel field = do
  in_next ← is_keyword (codes "IN")
  elim in_next [
    | true ↦ (do next; list ← parse_list fuel; pure (listed field Op.in_list list))
    | false ↦ (do
      not_next ← is_keyword (codes "NOT")
      elim not_next [
        | true ↦ not_in fuel field
        | false ↦ (do
          is_next ← is_keyword (codes "IS")
          elim is_next [ true ↦ is_empty_test field | false ↦ fail (expected_operator field) ])
      ])
  ]

-- the switch of `parseComparison` behind its field
unfoldable pub test_of : ℕ → Bytes → Parser Expr
test_of fuel field = do
  op_next ← at_kind TokKind.op
  elim op_next [
    | true ↦ (do
      t ← next
      v ← parse_value fuel
      pure (comparison (record { field = field; op = t.val; value = some v; list = nil })))
    | false ↦ word_test fuel field
  ]

unfoldable pub parse_comparison : ℕ → Parser Expr
parse_comparison fuel = do
  name ← at_kind TokKind.word
  elim name [ true ↦ (do t ← next; test_of fuel t.val) | false ↦ fail expected_field ]

-- The recursive descent. Each call, and each round of the loops of `parseOr` and `parseAnd`, takes
-- a unit of fuel.
unfoldable mutual
  pub parse_or : ℕ → Parser Expr
  parse_or zero ts = err out_of_fuel
  parse_or (suc fuel) ts = (do left ← parse_and fuel; or_loop fuel left) ts

  pub or_loop : ℕ → Expr → Parser Expr
  or_loop zero left ts = err out_of_fuel
  or_loop (suc fuel) left ts =
      (do
        more ← is_keyword (codes "OR")
        elim more [
          | true ↦ (do next; right ← parse_and fuel; or_loop fuel (either left right))
          | false ↦ pure left
        ])
        ts

  pub parse_and : ℕ → Parser Expr
  parse_and zero ts = err out_of_fuel
  parse_and (suc fuel) ts = (do left ← parse_not fuel; and_loop fuel left) ts

  pub and_loop : ℕ → Expr → Parser Expr
  and_loop zero left ts = err out_of_fuel
  and_loop (suc fuel) left ts =
      (do
        more ← is_keyword (codes "AND")
        elim more [
          | true ↦ (do next; right ← parse_not fuel; and_loop fuel (both left right))
          | false ↦ pure left
        ])
        ts

  pub parse_not : ℕ → Parser Expr
  parse_not zero ts = err out_of_fuel
  parse_not (suc fuel) ts =
      (do
        negation ← is_keyword (codes "NOT")
        elim negation [
          | true ↦ (do next; x ← parse_not fuel; pure (negated x))
          | false ↦ parse_primary fuel
        ])
        ts

  pub parse_primary : ℕ → Parser Expr
  parse_primary zero ts = err out_of_fuel
  parse_primary (suc fuel) ts =
      (do
        group ← at_kind lparen
        elim group [
          | true ↦ (do
            next
            e ← parse_or fuel
            close ← at_kind rparen
            elim close [ true ↦ (do next; pure e) | false ↦ fail expected_rparen ])
          | false ↦ parse_comparison fuel
        ])
        ts

-- the optional ORDER BY clause
unfoldable pub order_clause : ℕ → Parser (List OrderField)
order_clause fuel = do
  order ← is_keyword (codes "ORDER")
  elim order [
    | true ↦ (do
      next
      by ← is_keyword (codes "BY")
      elim by [ true ↦ (do next; parse_order fuel) | false ↦ fail expected_by ])
    | false ↦ pure []
  ]

-- the optional LIMIT clause; 0 stands for none
unfoldable pub limit_clause : Parser ℕ
limit_clause = do
  limit ← is_keyword (codes "LIMIT")
  elim limit [ true ↦ (do next; parse_limit) | false ↦ pure 0 ]

-- the check that nothing follows
unfoldable pub at_end : TokKind → Bytes → Query → Parser Query
at_end TokKind.eof val q = pure q
at_end _ val q = fail (unexpected_token val)

-- `Parse` behind the test for an empty query
unfoldable pub parse_query : ℕ → Parser Query
parse_query fuel = do
  condition ← parse_or fuel
  order_by ← order_clause fuel
  limit ← limit_clause
  t ← peek
  at_end t.kind t.val (record { condition = condition; order_by = order_by; limit = limit })

-- the test for an empty query, at the kind of the first token
unfoldable pub not_empty : TokKind → ℕ → Parser Query
not_empty TokKind.eof fuel ts = err empty_query
not_empty _ fuel ts = parse_query fuel ts

abbrev pub result_of : Result Error (Query × Tokens) → Result Error Query
result_of (ok (q, ts)) = ok q
result_of (err e) = err e

-- Five units of fuel for each token are more than enough.
abbrev pub fuel_for : Tokens → ℕ
fuel_for ts = 5 * length ts + 5

unfoldable pub parse_tokens : Tokens → Result Error Query
parse_tokens ts = result_of ((do t ← peek; not_empty t.kind (fuel_for ts)) ts)

abbrev pub on_tokens : Result Error Tokens → Result Error Query
on_tokens (ok ts) = parse_tokens ts
on_tokens (err e) = err e

unfoldable pub parse : Bytes → Result Error Query
parse input = on_tokens (lex input)
