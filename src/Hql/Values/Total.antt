-- ===== src/Hql/Values/Total.antt =====
-- The value parsers never panic, and the fuel that they are given suffices.
use pixkb.Base.{
  Bytes, ℕ, zero, suc, ◌+◌, ◌*◌, ◌<◌, ◌≡◌, refl, inr, [], ◌∷◌, Option, some, length, arith,
}
use pixkb.Text.Number.{ℤ, pos, atoi}
use pixkb.Hql.Ast.{Values, nil, cons}
use pixkb.Hql.Lexer.{TokKind, Token, rparen, comma, lparen}
use pixkb.Hql.Monad.{Tokens, peek, next}
use pixkb.Hql.Ensures.{
  Ensures, widen, holds, HasEnd, HasEnd-tail, Ensures-then, Ensures-fail, Ensures-kind,
  Ensures-keyword,
}
use pixkb.Hql.Values.{
  parse_value, value_at, parse_args, non_empty, parse_list, direction, parse_order, limit_number,
  limit_at, parse_limit,
}

mutual
  unfolding parse_value peek next

  parse_value-Ensures :
      (fuel : ℕ) (ts : Tokens)
      → HasEnd ts
      → 5 * length ts + 1 < fuel
      → Ensures (length ts) (parse_value fuel ts)
  parse_value-Ensures zero ts h f = absurd (omega arith)
  parse_value-Ensures (suc fuel) [] h f = absurd h
  parse_value-Ensures (suc fuel) (t ∷ ts) h f =
      value_at-Ensures fuel t.kind t.val t ts h refl (omega arith)

  value_at-Ensures :
      (fuel : ℕ) (k : TokKind) (val : Bytes) (t : Token) (ts : Tokens)
      → HasEnd (t ∷ ts)
      → t.kind ≡ k
      → 5 * suc (length ts) < fuel
      → Ensures (suc (length ts)) (value_at fuel k val (t ∷ ts))
  value_at-Ensures zero k val t ts h e f = absurd (omega arith)
  value_at-Ensures (suc fuel) TokKind.string val t ts h e f =
      holds (HasEnd-tail t ts h (rw e)) (omega arith)
  value_at-Ensures (suc fuel) TokKind.word val t ts h e f =
      Ensures-kind _ lparen _ _ ts refl (HasEnd-tail t ts h (rw e))
        (λ u rest l h'.
          Ensures-then (parse_args-Ensures fuel rest h' (omega arith)) λ args left hl ll.
            Ensures-kind _ rparen _ _ left refl hl (λ v last l' h''. holds h'' (omega arith))
              (Ensures-fail _ _ left hl (λ i. refl)))
        (holds (HasEnd-tail t ts h (rw e)) (omega arith))
  value_at-Ensures (suc fuel) _ val t ts h e f = Ensures-fail _ _ (t ∷ ts) h (λ i. refl)

  parse_args-Ensures :
      (fuel : ℕ) (ts : Tokens)
      → HasEnd ts
      → 5 * length ts + 2 < fuel
      → Ensures (suc (length ts)) (parse_args fuel ts)
  parse_args-Ensures zero ts h f = absurd (omega arith)
  parse_args-Ensures (suc fuel) ts h f =
      Ensures-kind _ rparen _ _ ts refl h (λ u rest l h'. holds (inr h') (omega arith))
        (Ensures-then (parse_value-Ensures fuel ts h (omega arith)) λ a rest hr lr.
          Ensures-kind _ comma _ _ rest refl hr
            (λ u after l h'.
              Ensures-then (parse_args-Ensures fuel after h' (omega arith))
                λ more left hl ll. holds hl (omega arith))
            (holds hr (omega arith)))

pub parse_value-total :
    (fuel : ℕ) (ts : Tokens)
    → HasEnd ts
    → 5 * length ts + 1 < fuel
    → Ensures (length ts) (parse_value fuel ts)
parse_value-total = parse_value-Ensures

non_empty-total :
    (vs : Values) (ts : Tokens) → HasEnd ts → Ensures (suc (length ts)) (non_empty vs ts)
unfolding non_empty
non_empty-total nil ts h = Ensures-fail _ _ ts h (λ i. refl)
non_empty-total (cons v vs) ts h = holds h (omega arith)

pub parse_list-total :
    (fuel : ℕ) (ts : Tokens)
    → HasEnd ts
    → 5 * length ts + 2 < fuel
    → Ensures (length ts) (parse_list fuel ts)
unfolding parse_list next
parse_list-total fuel ts h f =
    Ensures-kind _ lparen _ _ ts refl h
      (λ t rest l h'.
        Ensures-then (parse_args-Ensures fuel rest h' (omega arith)) λ args left hl ll.
          Ensures-kind _ rparen _ _ left refl hl
            (λ u last l' hu. widen (omega arith) (non_empty-total args last hu))
            (Ensures-fail _ _ left hl (λ i. refl)))
      (Ensures-fail _ _ ts h (λ i. refl))

direction-total : (ts : Tokens) → HasEnd ts → Ensures (suc (length ts)) (direction ts)
unfolding direction next
direction-total ts h =
    Ensures-keyword _ _ _ _ ts h (λ t rest l h'. holds h' (omega arith))
      (Ensures-keyword _ _ _ _ ts h (λ t rest l h'. holds h' (omega arith)) (holds h (omega arith)))

pub parse_order-total :
    (fuel : ℕ) (ts : Tokens)
    → HasEnd ts
    → length ts < fuel
    → Ensures (length ts) (parse_order fuel ts)
unfolding parse_order next
parse_order-total zero ts h f = absurd (omega arith)
parse_order-total (suc fuel) ts h f =
    Ensures-kind _ TokKind.word _ _ ts refl h
      (λ t rest l h'. Ensures-then (direction-total rest h') λ desc left hl ll.
        Ensures-kind _ comma _ _ left refl hl
          (λ u after l' ha.
            Ensures-then (parse_order-total fuel after ha (omega arith))
              λ fields last hz lz. holds hz (omega arith))
          (holds hl (omega arith)))
      (Ensures-fail _ _ ts h (λ i. refl))

limit_number-total :
    (val : Bytes) (n : Option ℤ) (t : Token) (ts : Tokens)
    → HasEnd ts
    → Ensures (suc (suc (length ts))) (limit_number val n (t ∷ ts))
unfolding limit_number next
limit_number-total val (some (pos n)) t ts h = holds h (omega arith)
limit_number-total val _ t ts h = Ensures-fail _ _ (t ∷ ts) (inr h) (λ i. refl)

limit_at-total :
    (k : TokKind) (val : Bytes) (t : Token) (ts : Tokens)
    → t.kind ≡ k
    → HasEnd (t ∷ ts)
    → Ensures (suc (suc (length ts))) (limit_at k val (t ∷ ts))
unfolding limit_at
limit_at-total TokKind.word val t ts e h =
    limit_number-total val (atoi val) t ts (HasEnd-tail t ts h (rw e))
limit_at-total _ val t ts e h = Ensures-fail _ _ (t ∷ ts) h (λ i. refl)

pub parse_limit-total : (ts : Tokens) → HasEnd ts → Ensures (suc (length ts)) (parse_limit ts)
unfolding parse_limit peek
parse_limit-total [] h = absurd h
parse_limit-total (t ∷ ts) h = limit_at-total t.kind t.val t ts refl h
