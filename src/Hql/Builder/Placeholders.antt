-- ===== src/Hql/Builder/Placeholders.antt =====
-- The conditions that `ToSQLAt` builds have the shape of the query, numbered without a gap.
use pixkb.Base.{
  Bytes, codes, ℕ, zero, suc, ◌+◌, Bool, true, false, not, List, [], ◌∷◌, ◌++◌, Option, none, some,
  append_assoc, append-nil, length, length-append, ◌≡◌, refl, ap, ◌∙◌, if◌then◌else◌, ◌||◌, Result,
  err, arith, Bool-cases, inl, inr,
}
use pixkb.Text.Ascii.{equal}
use pixkb.Hql.Errors.{Error}
use pixkb.Hql.Ast.{Values, nil, cons, count, Comparison}
use pixkb.Hql.Op
use pixkb.Hql.Schema.{FieldKind, text, id, int, date, tag_prefix, Field}
use pixkb.Hql.Functions
use pixkb.Hql.Functions.{Clock, Scalar, resolve_scalar}
use pixkb.Hql.Sql.{Arg, one, join, op_allowed}
use pixkb.Hql.Builder.Shape.{
  Piece, lit, hole, fill, holes, text_id_shape, scalar_shape, tag_shape, tags_shape,
  empty_tag_shape, tag_prefix_shape, kind_shape, cmp_shape,
}
use pixkb.Hql.Builder.Renders.{
  fill-append, holes-append, Renders, Builds, built, failed, Builds-lift, Builds-then,
}
use pixkb.Hql.Builder.{
  value_of, resolve_all, scalar_value, tag_value, ph, contains_cmp, equal_cmp, in_cmp, text_id_cmp,
  scalar_cmp, tag_equal_cmp, tag_parts, tag_in_cmp, tag_empty_base, tag_prefix_empty,
  tag_prefix_cmp, kind_cmp, cmp,
}

number_next : (b n : ℕ) → b + (n + 1) ≡ b + n + 1
number_next b n = omega arith

one_more : {S : Type 0} (xs : List S) (x : S) → length (xs ++ (x ∷ [])) ≡ length xs + 1
one_more xs x = omega (arith, length-append xs (x ∷ []))

-- A branch of the code beside the same branch of the shape.
Renders-if :
    {S : Type 0} {base : ℕ} {args : List S} {ps qs : List Piece} (b : Bool)
    (p q : List S → Result Error (Bytes × List S))
    → Renders base args ps (p args)
    → Renders base args qs (q args)
    → Renders base args (if b then ps else qs) ((if b then p else q) args)
Renders-if true p q h k = h
Renders-if false p q h k = k

-- A branch that ends in an error otherwise.
Renders-guard :
    {S : Type 0} {base : ℕ} {args : List S} {ps : List Piece} (b : Bool)
    (p : List S → Result Error (Bytes × List S)) (e : Error)
    → Renders base args ps (p args)
    → Renders base args ps ((if b then p else (λ _. err e)) args)
Renders-guard true p e h = h
Renders-guard false p e h = failed

module _ (clock : Clock) (base : ℕ) (now : Functions.Clock.Time clock)
    (args : List (Arg clock)) where
  contains-Renders :
      (c : Comparison) (f : Field)
      → Renders base args
          (lit f.column
            ∷ lit (codes " ")
            ∷ lit (if equal c.op Op.not_contains then codes "NOT " else [])
            ∷ lit (codes "ILIKE ")
            ∷ hole
            ∷ lit (codes " ESCAPE '\\'")
            ∷ [])
          (contains_cmp clock base now c f args)
  unfolding contains_cmp ph
  contains-Renders c f = Builds-lift args (value_of clock base now c c.value) _ λ v.
      built (record { text_is = rw (number_next base (length args)); count_is = one_more args _ })

  equal-Renders :
      (c : Comparison) (f : Field)
      → Renders base args
          (lit f.column
            ∷ lit (codes " ")
            ∷ lit (if equal c.op Op.ne then codes "!=" else codes "=")
            ∷ lit (codes " ")
            ∷ hole
            ∷ [])
          (equal_cmp clock base now c f args)
  unfolding equal_cmp ph
  equal-Renders c f = Builds-lift args (value_of clock base now c c.value) _ λ v.
      Builds-lift args (resolve_scalar clock now v) _ λ s. built (record {
        text_is = rw (number_next base (length args), append-nil);
        count_is = one_more args _;
      })

  in-Renders :
      (c : Comparison) (f : Field)
      → Renders base args
          (lit f.column
            ∷ lit (if equal c.op Op.in_list then codes " = ANY(" else codes " != ALL(")
            ∷ hole
            ∷ lit (codes ")")
            ∷ [])
          (in_cmp clock base now c f args)
  unfolding in_cmp ph
  in-Renders c f = Builds-lift args (resolve_all clock base now c.list) _ λ vals.
      built (record { text_is = rw (number_next base (length args)); count_is = one_more args _ })

  text_id-Renders :
      (c : Comparison) (f : Field)
      → Renders base args (text_id_shape c f) (text_id_cmp clock base now c f args)
  unfolding text_id_cmp
  text_id-Renders c f =
      Renders-if (equal c.op Op.contains || equal c.op Op.not_contains) _ _ (contains-Renders c f) (
        Renders-if (equal c.op Op.eq || equal c.op Op.ne) _ _ (equal-Renders c f) (
          Renders-if (equal c.op Op.in_list || equal c.op Op.not_in_list) _ _ (in-Renders c f) (
            Renders-if (equal c.op Op.not_empty) _ _
              (built (record { text_is = refl; count_is = omega arith }))
              (Renders-guard (equal c.op Op.empty) _ _
                (built (record { text_is = refl; count_is = omega arith }))))))

  scalar-Renders :
      (c : Comparison) (f : Field)
      → Renders base args (scalar_shape c f) (scalar_cmp clock base now c f args)
  unfolding scalar_cmp ph
  scalar-Renders c f = Builds-lift args (value_of clock base now c c.value) _ λ v.
      Builds-lift args (scalar_value clock base now f.kind v) _ λ s. built (record {
        text_is = rw (number_next base (length args), append-nil);
        count_is = one_more args _;
      })

  tag_equal-Renders :
      (c : Comparison) (f : Field)
      → Renders base args
          (if equal c.op Op.ne
            then lit (codes "NOT (") ∷ (tag_shape ++ (lit (codes ")") ∷ []))
            else tag_shape)
          (tag_equal_cmp clock base now c f args)
  unfolding tag_equal_cmp ph
  tag_equal-Renders c f = Builds-lift args (value_of clock base now c c.value) _ λ v.
      Builds-lift args (tag_value clock base now f.prefix v) _ λ s.
        elim (Bool-cases (equal c.op Op.ne)) [
          | inl ne ↦ rw ne (
              built (record {
                text_is = simp (number_next base (length args), append_assoc);
                count_is = one_more args _;
              }))
          | inr eq ↦ rw eq (
              built (record {
                text_is = rw (number_next base (length args));
                count_is = one_more args _;
              }))
        ]

-- The texts of `n` tag tests, with the placeholders behind `k`.
part_texts : ℕ → ℕ → List Bytes
part_texts k zero = []
part_texts k (suc n) = fill k tag_shape ∷ part_texts (k + 1) n

join-part_texts : (k n : ℕ) → join (codes " OR ") (part_texts k n) ≡ fill k (tags_shape n)
unfolding join part_texts
join-part_texts k zero = refl
join-part_texts k (suc zero) = refl
join-part_texts k (suc (suc n)) =
    rw (fill-append k tag_shape (lit (codes " OR ") ∷ tags_shape (suc n))) (
      ap (λ (t : Bytes). fill k tag_shape ++ (codes " OR " ++ t)) (join-part_texts (k + 1) (suc n)))

holes-tags_shape : (n : ℕ) → holes (tags_shape n) ≡ n
holes-tags_shape zero = refl
holes-tags_shape (suc zero) = refl
holes-tags_shape (suc (suc n)) = ap suc (holes-tags_shape (suc n))

module _ (clock : Clock) (base : ℕ) (now : Functions.Clock.Time clock) where
  -- The loop over the values of an IN on tags.
  tag_parts-Builds :
      (prefix : Bytes) (vs : Values) (args : List (Arg clock))
      → Builds
          (λ parts args'.
            (parts ≡ part_texts (base + length args) (count vs))
            × (length args' ≡ length args + count vs))
          (tag_parts clock base now prefix vs args)
  unfolding tag_parts part_texts ph
  tag_parts-Builds prefix nil args = built (refl, omega arith)
  tag_parts-Builds prefix (cons v vs) args =
      Builds-lift args (tag_value clock base now prefix v) _ λ s.
        Builds-then _ (tag_parts-Builds prefix vs (args ++ (one s ∷ [])))
          λ parts args' (texts, grown).
            let last = one_more args (one s) in
            built (
              rw (number_next base (length args)) (
                  ap (λ (rest : List Bytes). fill (base + length args) tag_shape ∷ rest)
                    (texts ∙ ap (λ (n : ℕ). part_texts n (count vs)) (omega (arith, last)))),
              omega (arith, last),
            )

module _ (clock : Clock) (base : ℕ) (now : Functions.Clock.Time clock)
    (args : List (Arg clock)) where
  tag_in-Renders :
      (c : Comparison) (f : Field)
      → Renders base args
          (lit (if equal c.op Op.not_in_list then codes "NOT " else [])
            ∷ lit (codes "(")
            ∷ (tags_shape (count c.list) ++ (lit (codes ")") ∷ [])))
          (tag_in_cmp clock base now c f args)
  unfolding tag_in_cmp
  tag_in-Renders c f =
      Builds-then _ (tag_parts-Builds clock base now f.prefix c.list args)
        λ parts args' (texts, grown).
          let k = base + length args in
          let n = count c.list in
          built (record {
            text_is =
                rw
                  (texts, join-part_texts k n, fill-append k (tags_shape n) (lit (codes ")") ∷ []));
            count_is = omega (
              arith,
              holes-append (tags_shape n) (lit (codes ")") ∷ []),
              holes-tags_shape n,
              grown,
            );
          })

  tag_empty_base-Renders :
      (prefix : Bytes)
      → Renders base args (empty_tag_shape prefix) (tag_empty_base clock base now prefix args)
  unfolding tag_empty_base ph
  tag_empty_base-Renders [] = built (record { text_is = refl; count_is = omega arith })
  tag_empty_base-Renders (x ∷ prefix) =
      built (record { text_is = rw (number_next base (length args)); count_is = one_more args _ })

  tag_empty-Renders :
      (f : Field) (negate : Bool)
      → Renders base args
          (if negate
            then lit (codes "NOT (") ∷ (empty_tag_shape f.prefix ++ (lit (codes ")") ∷ []))
            else empty_tag_shape f.prefix)
          (tag_prefix_empty clock base now f negate args)
  unfolding tag_prefix_empty
  tag_empty-Renders f true = Builds-then _ (tag_empty_base-Renders f.prefix) λ t args' r.
      let ps = empty_tag_shape f.prefix in
      built (record {
        text_is = rw (r.text_is, fill-append (base + length args) ps (lit (codes ")") ∷ []));
        count_is = omega (arith, holes-append ps (lit (codes ")") ∷ []), r.count_is);
      })
  tag_empty-Renders f false = Builds-then _ (tag_empty_base-Renders f.prefix) λ t args' r. built r

  tag_prefix-Renders :
      (c : Comparison) (f : Field)
      → Renders base args (tag_prefix_shape c f) (tag_prefix_cmp clock base now c f args)
  unfolding tag_prefix_cmp
  tag_prefix-Renders c f =
      Renders-if (equal c.op Op.eq || equal c.op Op.ne) _ _
        (tag_equal-Renders clock base now args c f)
        (Renders-if (equal c.op Op.in_list || equal c.op Op.not_in_list) _ _ (tag_in-Renders c f) (
          Renders-guard (equal c.op Op.empty || equal c.op Op.not_empty) _ _
            (tag_empty-Renders f (equal c.op Op.not_empty))))

  kind-Renders :
      (k : FieldKind) (c : Comparison) (f : Field)
      → Renders base args (kind_shape k c f) (kind_cmp clock base now k c f args)
  unfolding kind_cmp
  kind-Renders text c f = text_id-Renders clock base now args c f
  kind-Renders id c f = text_id-Renders clock base now args c f
  kind-Renders int c f = scalar-Renders clock base now args c f
  kind-Renders date c f = scalar-Renders clock base now args c f
  kind-Renders tag_prefix c f = tag_prefix-Renders c f

  pub cmp-Renders :
      (c : Comparison) (o : Option Field)
      → Renders base args (cmp_shape c o) (cmp clock base now c o args)
  unfolding cmp
  cmp-Renders c none = failed
  cmp-Renders c (some f) = elim (Bool-cases (not (op_allowed f c.field c.op))) [
    | inl no_op ↦ rw no_op failed
    | inr allowed ↦ rw allowed (kind-Renders f.kind c f)
  ]
