-- ===== src/Hql/Builder/Numbered.antt =====
-- The condition that `ToSQLAt` returns has the shape of the query, numbered without a gap.
use pixkb.Base.{
  Bytes, codes, ℕ, ◌+◌, List, [], ◌∷◌, ◌++◌, length, ◌≡◌, sym, ap, ◌∙◌, ok, >>=-eq-ok, ok-injective,
  arith,
}
use pixkb.Hql.Ast.{Expr, both, either, negated, comparison, Query}
use pixkb.Hql.Functions
use pixkb.Hql.Functions.{Clock}
use pixkb.Hql.Schema.{lookup_field}
use pixkb.Hql.Sql.{Arg, order}
use pixkb.Hql.Builder.Shape.{Piece, lit, fill, holes, shape}
use pixkb.Hql.Builder.Renders.{
  fill-append, holes-append, Renders, IsRendered, built, Builds-then, Builds-ok,
}
use pixkb.Hql.Builder.Placeholders.{cmp-Renders}
use pixkb.Hql.Builder.{expr, to_sql_at}

-- Two conditions joined by an operator, in parentheses.
joined-Renders :
    {S : Type 0} {base : ℕ} {args args' args'' : List S} {ps qs : List Piece} {t u : Bytes}
    (word : Bytes)
    → IsRendered base args ps t args'
    → IsRendered base args' qs u args''
    → IsRendered base args
        (lit (codes "(") ∷ (ps ++ (lit word ∷ (qs ++ (lit (codes ")") ∷ [])))))
        (codes "(" ++ (t ++ (word ++ (u ++ codes ")"))))
        args''
joined-Renders {base = base} {args} {args'} {args''} {ps} {qs} word a b =
    let n = base + length args in
    let tail = qs ++ (lit (codes ")") ∷ []) in
    let next : base + length args' ≡ n + holes ps = omega (arith, a.count_is) in
    record {
      text_is = rw (
        a.text_is,
        b.text_is,
        fill-append n ps (lit word ∷ tail),
        fill-append (n + holes ps) qs (lit (codes ")") ∷ []),
        next,
      );
      count_is = omega (
        arith,
        a.count_is,
        b.count_is,
        holes-append ps (lit word ∷ tail),
        holes-append qs (lit (codes ")") ∷ []),
      );
    }

module _ (clock : Clock) (base : ℕ) (now : Functions.Clock.Time clock) where
  pub expr-Renders :
      (e : Expr) (args : List (Arg clock))
      → Renders base args (shape e) (expr clock base now e args)
  unfolding expr shape
  expr-Renders (both l r) args = Builds-then _ (expr-Renders l args) λ t args' a.
      Builds-then _ (expr-Renders r args') λ u args'' b. built (joined-Renders (codes " AND ") a b)
  expr-Renders (either l r) args = Builds-then _ (expr-Renders l args) λ t args' a.
      Builds-then _ (expr-Renders r args') λ u args'' b. built (joined-Renders (codes " OR ") a b)
  expr-Renders (negated x) args = Builds-then _ (expr-Renders x args) λ t args' a. built (record {
    text_is = rw (a.text_is, fill-append (base + length args) (shape x) (lit (codes ")") ∷ []));
    count_is = omega (arith, a.count_is, holes-append (shape x) (lit (codes ")") ∷ []));
  })
  expr-Renders (comparison c) args = cmp-Renders clock base now args c (lookup_field c.field)

  -- The condition of a translated query is the shape of its filter, in which no value of the query
  -- stands, with placeholders numbered from `base + 1` on in the order of the text, and there are
  -- as many arguments as placeholders.
  pub to_sql_at-numbered :
      (q : Query) {condition order_text : Bytes} {args : List (Arg clock)}
      → to_sql_at clock base now q ≡ ok (condition, args, order_text)
      → (condition ≡ fill base (shape q.condition)) × (length args ≡ holes (shape q.condition))
  unfolding to_sql_at
  to_sql_at-numbered q e =
      let ((t, args'), rendered, e₁) = >>=-eq-ok (expr clock base now q.condition []) _ e in
      let (o, ordered, e₂) = >>=-eq-ok (order q.order_by) _ e₁ in
      let r = Builds-ok (expr-Renders q.condition []) rendered in
      let start : base + 0 ≡ base = omega arith in
      let done = ok-injective e₂ in
      (
        sym (ap (λ (x : Bytes × List (Arg clock) × Bytes). x.0) done)
            ∙ r.text_is
            ∙ ap (λ (n : ℕ). fill n (shape q.condition)) start,
        omega (arith, r.count_is, ap (λ (x : Bytes × List (Arg clock) × Bytes). length x.1) done),
      )
