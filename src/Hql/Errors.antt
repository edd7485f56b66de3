-- ===== src/Hql/Errors.antt =====
-- The errors of internal/hql, one constructor for each `fmt.Errorf` and `errf`; the number is the
-- offset that the message shows.
use pixkb.Base.{ℕ, Bytes, List}

pub data Error : Type 0 where
  -- lex
  unexpected_character : ℕ → ℕ → Error
  unterminated_string : ℕ → Error
  -- Parse
  empty_query : Error
  expected_by : ℕ → Error
  unexpected_token : Bytes → ℕ → Error
  expected_limit : ℕ → Error
  bad_limit : Bytes → ℕ → Error
  expected_rparen : ℕ → Error
  expected_field : ℕ → Error
  expected_in : ℕ → Error
  expected_empty : ℕ → Error
  expected_operator : Bytes → ℕ → Error
  expected_call_end : Bytes → ℕ → Error
  expected_value : ℕ → Error
  expected_list : ℕ → Error
  expected_list_end : ℕ → Error
  empty_list : ℕ → Error
  expected_order_field : ℕ → Error
  -- ToSQL
  unknown_field : Bytes → Error
  unsupported_operator : Bytes → Bytes → Bytes → List Bytes → Error
  needs_value : Bytes → Error
  unknown_operator : Bytes → Error
  not_a_date : Bytes → Error
  unsupported_function : Bytes → Error
  wrong_arity : Bytes → ℕ → Error
  tag_not_text : Error
  unknown_order_field : Bytes → Error
  order_by_tag : Bytes → Error
  -- a read of the token slice out of its range, which panics
  out_of_range : Error
  -- no error of the program: the fuel of the model ran out
  out_of_fuel : Error
