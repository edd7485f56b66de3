-- ===== src/Hql/Builder.antt =====
-- `sqlBuilder` of internal/hql/sql.go. A method takes `b.args` and returns it with its result;
-- `b.base` and the clock of `b.ctx` are arguments.
pub mod Shape
pub mod Renders
pub mod Placeholders
pub mod Numbered
use pixkb.Base.{
  Bytes, codes, ℕ, ◌+◌, Bool, true, false, not, ◌||◌, List, [], ◌∷◌, ◌++◌, Option, none, some,
  length, if◌then◌else◌, Result, ok, err, ◌>>=◌ as bind_result,
}
use pixkb.Text.Ascii.{equal, is_empty}
use pixkb.Text.Number.{itoa}
use pixkb.Hql.Ast.{
  Value, Values, nil, cons, raw, Comparison, Expr, both, either, negated, comparison, OrderField,
  Query,
}
use pixkb.Hql.Errors.{
  Error, unknown_field, unsupported_operator, needs_value, unknown_operator, tag_not_text,
}
use pixkb.Hql.Op
use pixkb.Hql.Schema.{FieldKind, text, id, int, date, tag_prefix, Field, lookup_field}
use pixkb.Hql.Functions
use pixkb.Hql.Functions.{Clock, Scalar, resolve_scalar, resolve_date, escape_like}
use pixkb.Hql.Sql.{op_allowed, kind_name, allowed_ops, join, order, Arg, one, many, Builder}

-- what a method hands to the rest, and a failing call of a function that is no method
abbrev pub then_build :
    {S A B : Type 0} → Result Error (A × S) → (A → S → Result Error (B × S)) → Result Error (B × S)
then_build (ok (a, s)) f = f a s
then_build (err e) f = err e

abbrev pub with_state : {S A : Type 0} → Result Error A → S → Result Error (A × S)
with_state (ok a) s = ok (a, s)
with_state (err e) s = err e

module _ (clock : Clock) where
  infixl 5 ◌>>=◌
  abbrev ◌>>=◌ : {A B : Type 0} → Builder clock A → (A → Builder clock B) → Builder clock B
  ◌>>=◌ p f args = then_build (p args) f

  abbrev pure : {A : Type 0} → A → Builder clock A
  pure a args = ok (a, args)

  abbrev lift : {A : Type 0} → Result Error A → Builder clock A
  lift r args = with_state r args

  abbrev throw : {A : Type 0} → Error → Builder clock A
  throw e args = err e

  -- `ph`
  unfoldable pub ph : ℕ → Arg clock → Builder clock Bytes
  ph base v args = ok (codes "$" ++ itoa (base + (length args + 1)), args ++ (v ∷ []))

  module _ (base : ℕ) (now : Functions.Clock.Time clock) where
    -- `c.Value == nil` is the error "needs a value"
    unfoldable pub value_of : Comparison → Option Value → Result Error Value
    value_of c none = err (needs_value c.field)
    value_of c (some v) = ok v

    -- the loop over `c.List` of `textIDCmp`
    unfoldable pub resolve_all : Values → Result Error (List (Scalar clock))
    resolve_all nil = ok []
    resolve_all (cons v vs) =
        bind_result (resolve_scalar clock now v)
          λ s. bind_result (resolve_all vs) λ rest. ok (s ∷ rest)

    unfoldable pub contains_cmp : Comparison → Field → Builder clock Bytes
    contains_cmp c f = do
      v ← lift (value_of c c.value)
      p ← ph base (one (Scalar.text (codes "%" ++ (escape_like (raw v) ++ codes "%"))))
      pure (
          f.column
          ++ (codes " "
              ++ ((if equal c.op Op.not_contains then codes "NOT " else [])
                  ++ (codes "ILIKE " ++ (p ++ codes " ESCAPE '\\'")))))

    unfoldable pub equal_cmp : Comparison → Field → Builder clock Bytes
    equal_cmp c f = do
      v ← lift (value_of c c.value)
      s ← lift (resolve_scalar clock now v)
      p ← ph base (one s)
      pure (
          f.column
          ++ (codes " "
              ++ ((if equal c.op Op.ne then codes "!=" else codes "=") ++ (codes " " ++ p))))

    unfoldable pub in_cmp : Comparison → Field → Builder clock Bytes
    in_cmp c f = do
      vals ← lift (resolve_all c.list)
      p ← ph base (many vals)
      pure (
          f.column
          ++ ((if equal c.op Op.in_list then codes " = ANY(" else codes " != ALL(")
              ++ (p ++ codes ")")))

    abbrev pub empty_text : Bytes → Bytes
    empty_text col = codes "(" ++ (col ++ (codes " IS NULL OR " ++ (col ++ codes " = '')")))

    -- `textIDCmp`
    unfoldable pub text_id_cmp : Comparison → Field → Builder clock Bytes
    text_id_cmp c f =
        if equal c.op Op.contains || equal c.op Op.not_contains
        then contains_cmp c f
        else if equal c.op Op.eq || equal c.op Op.ne
        then equal_cmp c f
        else if equal c.op Op.in_list || equal c.op Op.not_in_list
        then in_cmp c f
        else if equal c.op Op.not_empty
        then pure (codes "NOT " ++ empty_text f.column)
        else if equal c.op Op.empty
        then pure (empty_text f.column)
        else throw (unknown_operator c.op)

    -- the value of `scalarCmp`, by the kind of the field
    unfoldable pub scalar_value : FieldKind → Value → Result Error (Scalar clock)
    scalar_value date v = bind_result (resolve_date clock now (raw v)) λ t. ok (Scalar.time t)
    scalar_value _ v = resolve_scalar clock now v

    unfoldable pub scalar_cmp : Comparison → Field → Builder clock Bytes
    scalar_cmp c f = do
      v ← lift (value_of c c.value)
      s ← lift (scalar_value f.kind v)
      p ← ph base (one s)
      pure (f.column ++ (codes " " ++ (c.op ++ (codes " " ++ p))))

    -- the type assertion of `tagValue`
    unfoldable pub tag_text : Bytes → Scalar clock → Result Error (Scalar clock)
    tag_text prefix (Scalar.text s) = ok (Scalar.text (prefix ++ s))
    tag_text prefix (Scalar.time t) = err tag_not_text

    unfoldable pub tag_value : Bytes → Value → Result Error (Scalar clock)
    tag_value prefix v = bind_result (resolve_scalar clock now v) λ s. tag_text prefix s

    abbrev pub tag_test : Bytes → Bytes
    tag_test p = codes "tags @> ARRAY[" ++ (p ++ codes "]::text[]")

    unfoldable pub tag_equal_cmp : Comparison → Field → Builder clock Bytes
    tag_equal_cmp c f = do
      v ← lift (value_of c c.value)
      s ← lift (tag_value f.prefix v)
      p ← ph base (one s)
      pure (if equal c.op Op.ne then codes "NOT (" ++ (tag_test p ++ codes ")") else tag_test p)

    -- the loop over `c.List` of `tagPrefixCmp`
    unfoldable pub tag_parts : Bytes → Values → Builder clock (List Bytes)
    tag_parts prefix nil = pure []
    tag_parts prefix (cons v vs) = do
      s ← lift (tag_value prefix v)
      p ← ph base (one s)
      rest ← tag_parts prefix vs
      pure (tag_test p ∷ rest)

    unfoldable pub tag_in_cmp : Comparison → Field → Builder clock Bytes
    tag_in_cmp c f = do
      parts ← tag_parts f.prefix c.list
      pure (
          (if equal c.op Op.not_in_list then codes "NOT " else [])
          ++ (codes "(" ++ (join (codes " OR ") parts ++ codes ")")))

    -- the test of `tagPrefixEmpty`, before its negation
    unfoldable pub tag_empty_base : Bytes → Builder clock Bytes
    tag_empty_base [] = pure (codes "(tags IS NULL OR cardinality(tags) = 0)")
    tag_empty_base (x ∷ prefix) = do
      p ← ph base (one (Scalar.text ((x ∷ prefix) ++ codes "%")))
      pure (codes "NOT EXISTS (SELECT 1 FROM unnest(tags) t WHERE t LIKE " ++ (p ++ codes ")"))

    unfoldable pub tag_prefix_empty : Field → Bool → Builder clock Bytes
    tag_prefix_empty f negate = do
      base_text ← tag_empty_base f.prefix
      pure (if negate then codes "NOT (" ++ (base_text ++ codes ")") else base_text)

    -- `tagPrefixCmp`
    unfoldable pub tag_prefix_cmp : Comparison → Field → Builder clock Bytes
    tag_prefix_cmp c f =
        if equal c.op Op.eq || equal c.op Op.ne
        then tag_equal_cmp c f
        else if equal c.op Op.in_list || equal c.op Op.not_in_list
        then tag_in_cmp c f
        else if equal c.op Op.empty || equal c.op Op.not_empty
        then tag_prefix_empty f (equal c.op Op.not_empty)
        else throw (unknown_operator c.op)

    -- the switch of `cmp` on the kind of the field
    unfoldable pub kind_cmp : FieldKind → Comparison → Field → Builder clock Bytes
    kind_cmp text c f = text_id_cmp c f
    kind_cmp id c f = text_id_cmp c f
    kind_cmp int c f = scalar_cmp c f
    kind_cmp date c f = scalar_cmp c f
    kind_cmp tag_prefix c f = tag_prefix_cmp c f

    -- `cmp`, from the result of `lookupField`
    unfoldable pub cmp : Comparison → Option Field → Builder clock Bytes
    cmp c none = throw (unknown_field c.field)
    cmp c (some f) =
        if not (op_allowed f c.field c.op)
        then throw (unsupported_operator c.field (kind_name f.kind) c.op (allowed_ops f c.field))
        else kind_cmp f.kind c f

    -- `expr`
    unfoldable pub expr : Expr → Builder clock Bytes
    expr (both l r) = do
      lt ← expr l
      rt ← expr r
      pure (codes "(" ++ (lt ++ (codes " AND " ++ (rt ++ codes ")"))))
    expr (either l r) = do
      lt ← expr l
      rt ← expr r
      pure (codes "(" ++ (lt ++ (codes " OR " ++ (rt ++ codes ")"))))
    expr (negated x) = do xt ← expr x; pure (codes "(NOT " ++ (xt ++ codes ")"))
    expr (comparison c) = cmp c (lookup_field c.field)

    -- `ToSQLAt`: the condition, the arguments and the order
    unfoldable pub to_sql_at : Query → Result Error (Bytes × List (Arg clock) × Bytes)
    to_sql_at q = bind_result (expr q.condition []) λ (where_text, args).
        bind_result (order q.order_by) λ order_text. ok (where_text, args, order_text)

  -- `ToSQL`
  unfoldable pub to_sql :
      Functions.Clock.Time clock → Query → Result Error (Bytes × List (Arg clock) × Bytes)
  to_sql now q = to_sql_at 0 now q
