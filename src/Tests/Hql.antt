-- ===== src/Tests/Hql.antt =====
-- HQL at fixed texts.
use pixkb.Base.{codes, ℕ, ◌+◌, ◌≡◌, true, false, [], ◌∷◌, List, length, none, some, ok, err, refl}
use pixkb.Text.Ascii.{equal_fold}
use pixkb.Text.Number.{itoa}
use pixkb.Hql.Ast.{word, nil, cons, Comparison, both, negated, comparison, Query}
use pixkb.Hql.Errors.{unterminated_string}
use pixkb.Hql.Ensures.{refuses}
use pixkb.Hql.Lexer.{
  Token, TokKind, eof, is_word_byte, word_run, string_token, lex_string, lex_op, scan, lex_from,
  lex,
}
use pixkb.Hql.Lexer.Spells.{IsSpelled}
use pixkb.Hql.Lexer.Spelled.{lex-IsSpelled}
use pixkb.Hql.Monad.{peek, next, at_kind, is_keyword}
use pixkb.Hql.Values.{non_empty, parse_value, parse_list}
use pixkb.Hql.Parser.{
  parse, parse_tokens, not_empty, parse_query, parse_or, parse_comparison, test_of, word_test,
  order_clause, limit_clause, at_end,
}
use pixkb.Hql.Parser.Total.{parse-refuses}
use pixkb.Hql.Schema.{lookup_field}
use pixkb.Hql.Functions.{Clock, Scalar, resolve_scalar}
use pixkb.Hql.Sql.{Arg, one, many, op_allowed, order}
use pixkb.Hql.Builder.{
  expr, cmp, kind_cmp, scalar_cmp, value_of, scalar_value, ph, text_id_cmp, in_cmp, resolve_all,
  to_sql_at,
}
use pixkb.Hql.Builder.Shape.{fill, holes, shape}
use pixkb.Hql.Builder.Numbered.{to_sql_at-numbered}

-- A clock whose times are seconds.
abbrev seconds : Clock
seconds = record {
  Time = ℕ;
  is_zero = λ t. false;
  unix_epoch = 0;
  add = λ t d. t + d;
  day_start = λ t. t;
  day_end = λ t. t;
  parse_rfc3339 = λ s. none;
  parse_day = λ s. none;
}

abbrev by_id : Comparison
by_id = record {
  field = codes "id";
  op = codes "in";
  value = none;
  list = cons (word (codes "a")) (cons (word (codes "b")) nil);
}

abbrev by_epoch : Comparison
by_epoch = record {
  field = codes "epoch";
  op = codes ">=";
  value = some (word (codes "7"));
  list = nil;
}

abbrev query : Query
query = record {
  condition = both (comparison by_id) (negated (comparison by_epoch));
  order_by = [];
  limit = 0;
}

query_parsed : parse (codes "id IN (a, b) AND NOT epoch >= 7") ≡ ok query
unfolding parse lex lex_from scan is_word_byte word_run non_empty lex_string lex_op parse_tokens
    not_empty parse_query parse_or parse_comparison test_of word_test order_clause limit_clause
    at_end peek next at_kind is_keyword parse_value parse_list equal_fold
query_parsed = refl

abbrev query_args : List (Arg seconds)
query_args =
    many (Scalar.text (codes "a") ∷ Scalar.text (codes "b") ∷ [])
    ∷ one (Scalar.text (codes "7"))
    ∷ []

query_translated :
    to_sql_at seconds 2 100 query
    ≡ ok (codes "(id = ANY($3) AND (NOT last_epoch >= $4))", query_args, [])
unfolding to_sql_at expr cmp kind_cmp text_id_cmp in_cmp resolve_all scalar_cmp value_of
    scalar_value ph lookup_field op_allowed resolve_scalar itoa order
query_translated = refl

to_sql_at-numbered_example :
    (codes "(id = ANY($3) AND (NOT last_epoch >= $4))" ≡ fill 2 (shape query.condition))
    × (length query_args ≡ holes (shape query.condition))
to_sql_at-numbered_example = to_sql_at-numbered seconds 2 100 query query_translated

unterminated : parse (codes "a = 'b") ≡ err (unterminated_string 4)
unfolding parse lex lex_from scan is_word_byte word_run string_token lex_string
unterminated = refl

parse-refuses_example : refuses (unterminated_string 4) ≡ true
parse-refuses_example = parse-refuses (codes "a = 'b") (unterminated_string 4) unterminated

abbrev lexed : List Token
lexed =
    record { kind = TokKind.word; val = codes "a"; pos = 0 }
    ∷ record { kind = eof; val = []; pos = 1 }
    ∷ []

lexed_is : lex (codes "a") ≡ ok lexed
unfolding lex lex_from scan is_word_byte word_run
lexed_is = refl

lex-IsSpelled_example : IsSpelled 0 (codes "a") lexed
lex-IsSpelled_example = lex-IsSpelled (codes "a") lexed_is
