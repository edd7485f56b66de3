-- ===== src/Hql/Op.antt =====
-- The operator constants of internal/hql/ast.go.
use pixkb.Base.{Bytes, codes}

abbrev pub eq : Bytes
eq = codes "="

abbrev pub ne : Bytes
ne = codes "!="

abbrev pub contains : Bytes
contains = codes "~"

abbrev pub not_contains : Bytes
not_contains = codes "!~"

abbrev pub gt : Bytes
gt = codes ">"

abbrev pub ge : Bytes
ge = codes ">="

abbrev pub lt : Bytes
lt = codes "<"

abbrev pub le : Bytes
le = codes "<="

abbrev pub in_list : Bytes
in_list = codes "in"

abbrev pub not_in_list : Bytes
not_in_list = codes "notin"

abbrev pub empty : Bytes
empty = codes "empty"

abbrev pub not_empty : Bytes
not_empty = codes "notempty"
