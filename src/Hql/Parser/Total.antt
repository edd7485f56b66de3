-- ===== src/Hql/Parser/Total.antt =====
-- `Parse` never panics: no read goes behind the last token. The fuel of the model suffices.
use pixkb.Base.{
  Bytes, ℕ, zero, suc, ◌+◌, ◌*◌, ◌<◌, ◌≡◌, refl, true, [], ◌∷◌, length, Result, ok, err,
  err-injective, arith,
}
use pixkb.Hql.Errors.{Error}
use pixkb.Hql.Ast.{Expr, Query}
use pixkb.Hql.Lexer.{TokKind, Token, rparen, lparen, lex}
use pixkb.Hql.Monad.{Tokens, peek, next, then_run}
use pixkb.Hql.Ensures.{
  Ensures, widen, holds, refused, refuses, HasEnd, Ensures-then, Ensures-fail, Ensures-kind,
  Ensures-keyword,
}
use pixkb.Hql.Values.Total.{
  parse_value-total, parse_list-total, parse_order-total, parse_limit-total,
}
use pixkb.Hql.Parser.{
  not_in, empty_op, is_empty_test, word_test, test_of, parse_comparison, parse_or, or_loop,
  parse_and, and_loop, parse_not, parse_primary, order_clause, limit_clause, at_end, parse_query,
  not_empty, parse_tokens, result_of, on_tokens, parse,
}
use pixkb.Hql.Lexer.Total.{lex-HasEnd, lex-refuses}

-- The expressions that a parser makes once its keyword has been read leave less than they got.
not_in-total :
    (fuel : ℕ) (field : Bytes) (t : Token) (ts : Tokens)
    → HasEnd ts
    → 5 * length ts + 2 < fuel
    → Ensures (suc (length ts)) (not_in fuel field (t ∷ ts))
unfolding not_in next
not_in-total fuel field t ts h f =
    Ensures-keyword _ _ _ _ ts h
      (λ u rest l h'.
        Ensures-then (parse_list-total fuel rest h' (omega arith))
          λ list left hl ll. holds hl (omega arith))
      (Ensures-fail _ _ ts h (λ i. refl))

empty_op-total : (ts : Tokens) → HasEnd ts → Ensures (suc (length ts)) (empty_op ts)
unfolding empty_op next
empty_op-total ts h =
    Ensures-keyword _ _ _ _ ts h (λ t rest l h'. holds h' (omega arith)) (holds h (omega arith))

is_empty_test-total :
    (field : Bytes) (t : Token) (ts : Tokens)
    → HasEnd ts
    → Ensures (suc (length ts)) (is_empty_test field (t ∷ ts))
unfolding is_empty_test next
is_empty_test-total field t ts h = Ensures-then (empty_op-total ts h) λ op left hl ll.
    Ensures-keyword _ _ _ _ left hl (λ u rest l h'. holds h' (omega arith))
      (Ensures-fail _ _ left hl (λ i. refl))

word_test-total :
    (fuel : ℕ) (field : Bytes) (ts : Tokens)
    → HasEnd ts
    → 5 * length ts + 2 < fuel
    → Ensures (length ts) (word_test fuel field ts)
unfolding word_test next
word_test-total fuel field ts h f =
    Ensures-keyword _ _ _ _ ts h
      (λ t rest l h'.
        Ensures-then (parse_list-total fuel rest h' (omega arith))
          λ list left hl ll. holds hl (omega arith))
      (Ensures-keyword _ _ _ _ ts h
        (λ t rest l h'. widen (omega arith) (not_in-total fuel field t rest h' (omega arith)))
        (Ensures-keyword _ _ _ _ ts h
          (λ t rest l h'. widen (omega arith) (is_empty_test-total field t rest h'))
          (Ensures-fail _ _ ts h (λ i. refl))))

test_of-total :
    (fuel : ℕ) (field : Bytes) (ts : Tokens)
    → HasEnd ts
    → 5 * length ts + 2 < fuel
    → Ensures (length ts) (test_of fuel field ts)
unfolding test_of next
test_of-total fuel field ts h f =
    Ensures-kind _ TokKind.op _ _ ts refl h
      (λ t rest l h'.
        Ensures-then (parse_value-total fuel rest h' (omega arith))
          λ v left hl ll. holds hl (omega arith))
      (word_test-total fuel field ts h f)

parse_comparison-total :
    (fuel : ℕ) (ts : Tokens)
    → HasEnd ts
    → 5 * length ts < fuel
    → Ensures (length ts) (parse_comparison fuel ts)
unfolding parse_comparison next
parse_comparison-total fuel ts h f =
    Ensures-kind _ TokKind.word _ _ ts refl h
      (λ t rest l h'. widen (omega arith) (test_of-total fuel t.val rest h' (omega arith)))
      (Ensures-fail _ _ ts h (λ i. refl))

mutual
  unfolding parse_or next

  parse_or-Ensures :
      (fuel : ℕ) (ts : Tokens)
      → HasEnd ts
      → 5 * length ts + 4 < fuel
      → Ensures (length ts) (parse_or fuel ts)
  parse_or-Ensures zero ts h f = absurd (omega arith)
  parse_or-Ensures (suc fuel) ts h f =
      Ensures-then (parse_and-Ensures fuel ts h (omega arith))
        λ left rest hr lr. widen (omega arith) (or_loop-Ensures fuel left rest hr (omega arith))

  or_loop-Ensures :
      (fuel : ℕ) (left : Expr) (ts : Tokens)
      → HasEnd ts
      → 5 * length ts < fuel
      → Ensures (suc (length ts)) (or_loop fuel left ts)
  or_loop-Ensures zero left ts h f = absurd (omega arith)
  or_loop-Ensures (suc fuel) left ts h f =
      Ensures-keyword _ _ _ _ ts h
        (λ t rest l h'.
          Ensures-then (parse_and-Ensures fuel rest h' (omega arith)) λ right after ha la.
            widen (omega arith) (or_loop-Ensures fuel _ after ha (omega arith)))
        (holds h (omega arith))

  parse_and-Ensures :
      (fuel : ℕ) (ts : Tokens)
      → HasEnd ts
      → 5 * length ts + 3 < fuel
      → Ensures (length ts) (parse_and fuel ts)
  parse_and-Ensures zero ts h f = absurd (omega arith)
  parse_and-Ensures (suc fuel) ts h f =
      Ensures-then (parse_not-Ensures fuel ts h (omega arith))
        λ left rest hr lr. widen (omega arith) (and_loop-Ensures fuel left rest hr (omega arith))

  and_loop-Ensures :
      (fuel : ℕ) (left : Expr) (ts : Tokens)
      → HasEnd ts
      → 5 * length ts < fuel
      → Ensures (suc (length ts)) (and_loop fuel left ts)
  and_loop-Ensures zero left ts h f = absurd (omega arith)
  and_loop-Ensures (suc fuel) left ts h f =
      Ensures-keyword _ _ _ _ ts h
        (λ t rest l h'.
          Ensures-then (parse_not-Ensures fuel rest h' (omega arith)) λ right after ha la.
            widen (omega arith) (and_loop-Ensures fuel _ after ha (omega arith)))
        (holds h (omega arith))

  parse_not-Ensures :
      (fuel : ℕ) (ts : Tokens)
      → HasEnd ts
      → 5 * length ts + 2 < fuel
      → Ensures (length ts) (parse_not fuel ts)
  parse_not-Ensures zero ts h f = absurd (omega arith)
  parse_not-Ensures (suc fuel) ts h f =
      Ensures-keyword _ _ _ _ ts h
        (λ t rest l h'.
          Ensures-then (parse_not-Ensures fuel rest h' (omega arith))
            λ x after ha la. holds ha (omega arith))
        (parse_primary-Ensures fuel ts h (omega arith))

  parse_primary-Ensures :
      (fuel : ℕ) (ts : Tokens)
      → HasEnd ts
      → 5 * length ts + 1 < fuel
      → Ensures (length ts) (parse_primary fuel ts)
  parse_primary-Ensures zero ts h f = absurd (omega arith)
  parse_primary-Ensures (suc fuel) ts h f =
      Ensures-kind _ lparen _ _ ts refl h
        (λ t rest l h'. Ensures-then (parse_or-Ensures fuel rest h' (omega arith)) λ e left hl ll.
          Ensures-kind _ rparen _ _ left refl hl (λ u after l' ha. holds ha (omega arith))
            (Ensures-fail _ _ left hl (λ i. refl)))
        (parse_comparison-total fuel ts h (omega arith))

order_clause-total :
    (fuel : ℕ) (ts : Tokens)
    → HasEnd ts
    → length ts < fuel
    → Ensures (suc (length ts)) (order_clause fuel ts)
unfolding order_clause next
order_clause-total fuel ts h f =
    Ensures-keyword _ _ _ _ ts h
      (λ t rest l h'.
        Ensures-keyword _ _ _ _ rest h'
          (λ u after l' ha. widen (omega arith) (parse_order-total fuel after ha (omega arith)))
          (Ensures-fail _ _ rest h' (λ i. refl)))
      (holds h (omega arith))

limit_clause-total : (ts : Tokens) → HasEnd ts → Ensures (suc (length ts)) (limit_clause ts)
unfolding limit_clause next
limit_clause-total ts h =
    Ensures-keyword _ _ _ _ ts h (λ t rest l h'. widen (omega arith) (parse_limit-total rest h'))
      (holds h (omega arith))

at_end-total :
    (k : TokKind) (val : Bytes) (q : Query) (ts : Tokens)
    → HasEnd ts
    → Ensures (suc (length ts)) (at_end k val q ts)
unfolding at_end
at_end-total TokKind.eof val q ts h = holds h (omega arith)
at_end-total _ val q ts h = Ensures-fail _ _ ts h (λ i. refl)

peek_end-total :
    (q : Query) (ts : Tokens)
    → HasEnd ts
    → Ensures (suc (length ts)) (then_run (peek ts) (λ t. at_end t.kind t.val q))
unfolding peek
peek_end-total q [] h = absurd h
peek_end-total q (t ∷ ts) h = at_end-total t.kind t.val q (t ∷ ts) h

parse_query-total :
    (fuel : ℕ) (ts : Tokens)
    → HasEnd ts
    → 5 * length ts + 4 < fuel
    → Ensures (suc (length ts)) (parse_query fuel ts)
unfolding parse_query
parse_query-total fuel ts h f = Ensures-then (parse_or-Ensures fuel ts h f) λ e rest hr lr.
    Ensures-then (order_clause-total fuel rest hr (omega arith)) λ order after ha la.
      Ensures-then (limit_clause-total after ha)
        λ limit last hz lz. widen (omega arith) (peek_end-total _ last hz)

result_of-refuses :
    {n : ℕ} {r : Result Error (Query × Tokens)} (e : Error)
    → Ensures n r
    → result_of r ≡ err e
    → refuses e ≡ true
result_of-refuses e (holds h l) p = cc
result_of-refuses e (refused {e = d} h) p = rw (← err-injective p) h

not_empty-total :
    (k : TokKind) (ts : Tokens)
    → HasEnd ts
    → Ensures (suc (length ts)) (not_empty k (5 * length ts + 5) ts)
unfolding not_empty
not_empty-total TokKind.eof ts h = refused refl
not_empty-total _ ts h = parse_query-total (5 * length ts + 5) ts h (omega arith)

parse_tokens-refuses :
    (ts : Tokens) (e : Error) → HasEnd ts → parse_tokens ts ≡ err e → refuses e ≡ true
unfolding parse_tokens peek
parse_tokens-refuses [] e h p = absurd h
parse_tokens-refuses (t ∷ ts) e h p = result_of-refuses e (not_empty-total t.kind (t ∷ ts) h) p

on_tokens-refuses :
    (r : Result Error Tokens) (e : Error)
    → ((ts : Tokens) → r ≡ ok ts → HasEnd ts)
    → ((d : Error) → r ≡ err d → refuses d ≡ true)
    → on_tokens r ≡ err e
    → refuses e ≡ true
on_tokens-refuses (ok ts) e ended reports p = parse_tokens-refuses ts e (ended ts refl) p
on_tokens-refuses (err d) e ended reports p = rw (← err-injective p) (reports d refl)

-- Every error of `Parse` is one that it reports: no text makes the parser read behind its last
-- token, which would panic, and the fuel of the model suffices for every text.
pub parse-refuses : (input : Bytes) (e : Error) → parse input ≡ err e → refuses e ≡ true
unfolding parse
parse-refuses input e =
    on_tokens-refuses (lex input) e (λ ts. lex-HasEnd input {ts = ts}) (lex-refuses input)
