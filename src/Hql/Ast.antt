-- ===== src/Hql/Ast.antt =====
-- The syntax tree of internal/hql/ast.go. `Value` is one constructor for each `ValueKind`; the
-- argument list of a call is the type `Values`.
use pixkb.Base.{Bytes, ℕ, suc, Bool, List, Option}

mutual
  pub data Value : Type 0 where
    string : Bytes → Value
    word : Bytes → Value
    func : Bytes → Values → Value

  pub data Values : Type 0 where
    nil : Values
    cons : Value → Values → Values

abbrev pub raw : Value → Bytes
raw (string s) = s
raw (word w) = w
raw (func name args) = name

-- `len` of a value list
abbrev pub count : Values → ℕ
count nil = 0
count (cons v vs) = suc (count vs)

pub record Comparison : Type 0 where
  pub field : Bytes
  pub op : Bytes
  pub value : Option Value
  pub list : Values

pub data Expr : Type 0 where
  both : Expr → Expr → Expr
  either : Expr → Expr → Expr
  negated : Expr → Expr
  comparison : Comparison → Expr

pub record OrderField : Type 0 where
  pub field : Bytes
  pub desc : Bool

pub record Query : Type 0 where
  pub condition : Expr
  pub order_by : List OrderField
  pub limit : ℕ
