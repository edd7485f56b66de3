-- ===== src/Hql/Builder/Shape.antt =====
-- The SQL condition of an expression with a hole for each placeholder. No value of the query stands
-- in it: it is made from the fields, the operators and the lengths of the lists.
use pixkb.Base.{
  Bytes, codes, ℕ, zero, suc, ◌+◌, ◌||◌, List, [], ◌∷◌, ◌++◌, Option, none, some, if◌then◌else◌,
}
use pixkb.Text.Ascii.{equal}
use pixkb.Text.Number.{itoa}
use pixkb.Hql.Ast.{Comparison, count, Expr, both, either, negated, comparison}
use pixkb.Hql.Op
use pixkb.Hql.Schema.{FieldKind, text, id, int, date, tag_prefix, Field, lookup_field}

pub data Piece : Type 0 where
  lit : Bytes → Piece
  hole : Piece

abbrev pub placeholder : ℕ → Bytes
placeholder n = codes "$" ++ itoa n

-- The text, with the holes numbered from `n + 1` on.
abbrev pub fill : ℕ → List Piece → Bytes
fill n [] = []
fill n (lit s ∷ ps) = s ++ fill n ps
fill n (hole ∷ ps) = placeholder (n + 1) ++ fill (n + 1) ps

abbrev pub holes : List Piece → ℕ
holes [] = 0
holes (lit s ∷ ps) = holes ps
holes (hole ∷ ps) = suc (holes ps)

abbrev pub text_id_shape : Comparison → Field → List Piece
text_id_shape c f =
    if equal c.op Op.contains || equal c.op Op.not_contains
    then lit f.column
      ∷ lit (codes " ")
      ∷ lit (if equal c.op Op.not_contains then codes "NOT " else [])
      ∷ lit (codes "ILIKE ")
      ∷ hole
      ∷ lit (codes " ESCAPE '\\'")
      ∷ []
    else if equal c.op Op.eq || equal c.op Op.ne
    then lit f.column
      ∷ lit (codes " ")
      ∷ lit (if equal c.op Op.ne then codes "!=" else codes "=")
      ∷ lit (codes " ")
      ∷ hole
      ∷ []
    else if equal c.op Op.in_list || equal c.op Op.not_in_list
    then lit f.column
      ∷ lit (if equal c.op Op.in_list then codes " = ANY(" else codes " != ALL(")
      ∷ hole
      ∷ lit (codes ")")
      ∷ []
    else if equal c.op Op.not_empty
    then lit (codes "NOT ")
      ∷ lit (codes "(")
      ∷ lit f.column
      ∷ lit (codes " IS NULL OR ")
      ∷ lit f.column
      ∷ lit (codes " = '')")
      ∷ []
    else lit (codes "(")
      ∷ lit f.column
      ∷ lit (codes " IS NULL OR ")
      ∷ lit f.column
      ∷ lit (codes " = '')")
      ∷ []

abbrev pub scalar_shape : Comparison → Field → List Piece
scalar_shape c f = lit f.column ∷ lit (codes " ") ∷ lit c.op ∷ lit (codes " ") ∷ hole ∷ []

abbrev pub tag_shape : List Piece
tag_shape = lit (codes "tags @> ARRAY[") ∷ hole ∷ lit (codes "]::text[]") ∷ []

-- `n` tag tests, joined by OR
abbrev pub tags_shape : ℕ → List Piece
tags_shape zero = []
tags_shape (suc zero) = tag_shape
tags_shape (suc (suc n)) = tag_shape ++ (lit (codes " OR ") ∷ tags_shape (suc n))

abbrev pub empty_tag_shape : Bytes → List Piece
empty_tag_shape [] = lit (codes "(tags IS NULL OR cardinality(tags) = 0)") ∷ []
empty_tag_shape (x ∷ prefix) =
    lit (codes "NOT EXISTS (SELECT 1 FROM unnest(tags) t WHERE t LIKE ")
    ∷ hole
    ∷ lit (codes ")")
    ∷ []

abbrev pub tag_prefix_shape : Comparison → Field → List Piece
tag_prefix_shape c f =
    if equal c.op Op.eq || equal c.op Op.ne
    then (if equal c.op Op.ne
        then lit (codes "NOT (") ∷ (tag_shape ++ (lit (codes ")") ∷ []))
        else tag_shape)
    else if equal c.op Op.in_list || equal c.op Op.not_in_list
    then lit (if equal c.op Op.not_in_list then codes "NOT " else [])
      ∷ lit (codes "(")
      ∷ (tags_shape (count c.list) ++ (lit (codes ")") ∷ []))
    else (if equal c.op Op.not_empty
        then lit (codes "NOT (") ∷ (empty_tag_shape f.prefix ++ (lit (codes ")") ∷ []))
        else empty_tag_shape f.prefix)

abbrev pub kind_shape : FieldKind → Comparison → Field → List Piece
kind_shape text c f = text_id_shape c f
kind_shape id c f = text_id_shape c f
kind_shape int c f = scalar_shape c f
kind_shape date c f = scalar_shape c f
kind_shape tag_prefix c f = tag_prefix_shape c f

abbrev pub cmp_shape : Comparison → Option Field → List Piece
cmp_shape c none = []
cmp_shape c (some f) = kind_shape f.kind c f

unfoldable pub shape : Expr → List Piece
shape (both l r) =
    lit (codes "(") ∷ (shape l ++ (lit (codes " AND ") ∷ (shape r ++ (lit (codes ")") ∷ []))))
shape (either l r) =
    lit (codes "(") ∷ (shape l ++ (lit (codes " OR ") ∷ (shape r ++ (lit (codes ")") ∷ []))))
shape (negated x) = lit (codes "(NOT ") ∷ (shape x ++ (lit (codes ")") ∷ []))
shape (comparison c) = cmp_shape c (lookup_field c.field)
