-- ===== src/Hql/Values.antt =====
-- `parseValue`, `parseList`, `parseOrder` and `parseLimit` of internal/hql/parser.go.
pub mod Total
use pixkb.Base.{
  Bytes, codes, ℕ, zero, suc, ◌+◌, Bool, true, false, List, [], ◌∷◌, Option, none, some, Result, ok,
  err, if◌then◌else◌,
}
use pixkb.Text.Number.{ℤ, pos, negsuc, atoi}
use pixkb.Hql.Errors.{
  Error, bad_limit, expected_limit, expected_call_end, expected_value, expected_list,
  expected_list_end, empty_list, expected_order_field, out_of_fuel,
}
use pixkb.Hql.Ast.{Value, Values, string, word, func, nil, cons, OrderField}
use pixkb.Hql.Lexer.{TokKind, Token, eof, op, lparen, rparen, comma}
use pixkb.Hql.Lexer
use pixkb.Hql.Monad.{Tokens, Parser, ◌>>=◌, ◌>>◌, pure, peek, next, at_kind, is_keyword, fail}

-- The loop over comma-separated values up to a closing parenthesis, which `parseValue` and
-- `parseList` share, and `parseValue`. Each call takes a unit of fuel.
unfoldable mutual
  unfolding peek next at_kind

  pub parse_value : ℕ → Parser Value
  parse_value zero ts = err out_of_fuel
  parse_value (suc fuel) ts = (do t ← peek; value_at fuel t.kind t.val) ts

  -- the switch on the kind of the current token
  pub value_at : ℕ → TokKind → Bytes → Parser Value
  value_at zero kind val ts = err out_of_fuel
  value_at (suc fuel) TokKind.string val ts = (do next; pure (string val)) ts
  value_at (suc fuel) TokKind.word val ts =
      (do
        next
        call ← at_kind lparen
        elim call [
          | true ↦ (do
            next
            args ← parse_args fuel
            close ← at_kind rparen
            elim close [
              | true ↦ (do next; pure (func val args))
              | false ↦ fail (expected_call_end val)
            ])
          | false ↦ pure (word val)
        ])
        ts
  value_at (suc fuel) _ val ts = fail expected_value ts

  pub parse_args : ℕ → Parser Values
  parse_args zero ts = err out_of_fuel
  parse_args (suc fuel) ts =
      (do
        close ← at_kind rparen
        elim close [
          | true ↦ pure nil
          | false ↦ (do
            a ← parse_value fuel
            more ← at_kind comma
            elim more [
              | true ↦ (do next; rest ← parse_args fuel; pure (cons a rest))
              | false ↦ pure (cons a nil)
            ])
        ])
        ts

-- `parseList`, the check of an empty list last, behind its closing parenthesis
unfoldable pub non_empty : Values → Parser Values
non_empty nil = fail empty_list
non_empty (cons v vs) = pure (cons v vs)

unfoldable pub parse_list : ℕ → Parser Values
parse_list fuel = do
  start ← at_kind lparen
  elim start [
    | true ↦ (do
      next
      list ← parse_args fuel
      close ← at_kind rparen
      elim close [ true ↦ (do next; non_empty list) | false ↦ fail expected_list_end ])
    | false ↦ fail expected_list
  ]

-- the direction behind a field of ORDER BY, if one stands there
unfoldable pub direction : Parser Bool
direction = do
  asc ← is_keyword (codes "ASC")
  elim asc [
    | true ↦ (do next; pure false)
    | false ↦ (do
      desc ← is_keyword (codes "DESC")
      elim desc [ true ↦ (do next; pure true) | false ↦ pure false ])
  ]

unfoldable pub parse_order : ℕ → Parser (List OrderField)
parse_order zero ts = err out_of_fuel
parse_order (suc fuel) ts =
    (do
      name ← at_kind TokKind.word
      elim name [
        | true ↦ (do
          field ← next
          desc ← direction
          more ← at_kind comma
          elim more [
            | true ↦ (do
              next
              rest ← parse_order fuel
              pure (record { field = field.val; desc = desc } ∷ rest))
            | false ↦ pure (record { field = field.val; desc = desc } ∷ [])
          ])
        | false ↦ fail expected_order_field
      ])
      ts

-- the number behind LIMIT
unfoldable pub limit_number : Bytes → Option ℤ → Parser ℕ
limit_number val (some (pos n)) = do next; pure n
limit_number val _ = fail (bad_limit val)

-- `parseLimit` at the kind and the text of the current token
unfoldable pub limit_at : TokKind → Bytes → Parser ℕ
limit_at TokKind.word val = limit_number val (atoi val)
limit_at _ val = fail expected_limit

unfoldable pub parse_limit : Parser ℕ
parse_limit = do t ← peek; limit_at t.kind t.val
