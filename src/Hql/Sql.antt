-- ===== src/Hql/Sql.antt =====
-- internal/hql/sql.go. A method of `sqlBuilder` takes `b.args` and returns it with its result.
use pixkb.Base.{
  Bytes, codes, Bool, false, ◌||◌, List, [], ◌∷◌, ◌++◌, Option, none, some, if◌then◌else◌, Result,
  ok, err, ◌>>=◌ as bind_result,
}
use pixkb.Text.Ascii.{equal, equal_fold}
use pixkb.Hql.Ast.{OrderField}
use pixkb.Hql.Errors.{Error, unknown_order_field, order_by_tag}
use pixkb.Hql.Op
use pixkb.Hql.Schema.{FieldKind, text, id, int, date, tag_prefix, Field, lookup_field}
use pixkb.Hql.Functions.{Clock, Scalar}

abbrev pub kind_name : FieldKind → Bytes
kind_name text = codes "text"
kind_name id = codes "id"
kind_name int = codes "int"
kind_name date = codes "date"
kind_name tag_prefix = codes "tagPrefix"

-- the switch of `allowedOps`
unfoldable pub ops_of : FieldKind → Bytes → List Bytes
ops_of text name =
    Op.contains ∷ Op.not_contains ∷ Op.eq ∷ Op.ne ∷ Op.in_list ∷ Op.not_in_list ∷ Op.empty
    ∷ Op.not_empty ∷ []
ops_of id name =
    (Op.eq ∷ Op.ne ∷ Op.in_list ∷ Op.not_in_list ∷ [])
    ++ (if equal_fold name (codes "id") then Op.contains ∷ Op.not_contains ∷ [] else [])
ops_of int name = Op.eq ∷ Op.ne ∷ Op.gt ∷ Op.ge ∷ Op.lt ∷ Op.le ∷ []
ops_of date name = Op.eq ∷ Op.ne ∷ Op.gt ∷ Op.ge ∷ Op.lt ∷ Op.le ∷ []
ops_of tag_prefix name = Op.eq ∷ Op.ne ∷ Op.in_list ∷ Op.not_in_list ∷ Op.empty ∷ Op.not_empty ∷ []

abbrev pub allowed_ops : Field → Bytes → List Bytes
allowed_ops f name = ops_of f.kind name

-- the loop of `opAllowed`
unfoldable pub mem_op : Bytes → List Bytes → Bool
unfolding equal
mem_op op [] = false
mem_op op (o ∷ ops) = equal o op || mem_op op ops

unfoldable pub op_allowed : Field → Bytes → Bytes → Bool
unfolding mem_op ops_of
op_allowed f name op = mem_op op (allowed_ops f name)

-- `strings.Join`
unfoldable pub join : Bytes → List Bytes → Bytes
join sep [] = []
join sep (s ∷ []) = s
join sep (s ∷ t ∷ rest) = s ++ (sep ++ join sep (t ∷ rest))

abbrev pub direction : Bool → Bytes
direction desc = if desc then codes "DESC" else codes "ASC"

-- one term of `order`
unfoldable pub order_part : OrderField → Option Field → Result Error Bytes
order_part o none = err (unknown_order_field o.field)
order_part o (some f) = elim f.kind [
  | tag_prefix ↦ err (order_by_tag o.field)
  | _ ↦ ok (f.column ++ (codes " " ++ direction o.desc))
]

unfoldable pub order_parts : List OrderField → Result Error (List Bytes)
unfolding order_part
order_parts [] = ok []
order_parts (o ∷ os) =
    bind_result (order_part o (lookup_field o.field))
      λ part. bind_result (order_parts os) λ parts. ok (part ∷ parts)

-- `sqlBuilder.order`; the empty list gives the empty text
unfoldable pub order : List OrderField → Result Error Bytes
unfolding order_parts join
order os = bind_result (order_parts os) λ parts. ok (join (codes ", ") parts)

module _ (clock : Clock) where
  -- an element of `b.args`: a value, or the list of values of an IN
  pub data Arg : Type 0 where
    one : Scalar clock → Arg
    many : List (Scalar clock) → Arg

  abbrev pub Builder : Type 0 → Type 0
  Builder A = List Arg → Result Error (A × List Arg)
