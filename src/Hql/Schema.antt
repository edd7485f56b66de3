-- ===== src/Hql/Schema.antt =====
-- internal/hql/schema.go.
use pixkb.Base.{Bytes, codes, List, [], ◌∷◌, Option, none, some, map, if◌then◌else◌}
use pixkb.Text.Ascii.{equal, lower_byte}

pub data FieldKind : Type 0 where
  text id int date tag_prefix : FieldKind

pub record Field : Type 0 where
  pub column : Bytes
  pub prefix : Bytes
  pub kind : FieldKind

abbrev plain : Bytes → FieldKind → Field
plain column kind = record { column = column; prefix = []; kind = kind }

abbrev tagged : Bytes → Field
tagged prefix = record { column = codes "tags"; prefix = prefix; kind = tag_prefix }

abbrev pub fields : List (Bytes × Field)
fields =
    (codes "text", plain (codes "body") text)
    ∷ (codes "body", plain (codes "body") text)
    ∷ (codes "title", plain (codes "title") text)
    ∷ (codes "description", plain (codes "description") text)
    ∷ (codes "intent_terms", plain (codes "intent_terms") text)
    ∷ (codes "source_uri", plain (codes "source_uri") text)
    ∷ (codes "type", plain (codes "type") id)
    ∷ (codes "id", plain (codes "id") id)
    ∷ (codes "language", plain (codes "language") id)
    ∷ (codes "tag", tagged [])
    ∷ (codes "domain", tagged (codes "domain:"))
    ∷ (codes "lei", tagged (codes "lei:"))
    ∷ (codes "livro", tagged (codes "livro:"))
    ∷ (codes "titulo", tagged (codes "titulo:"))
    ∷ (codes "capitulo", tagged (codes "capitulo:"))
    ∷ (codes "secao", tagged (codes "secao:"))
    ∷ (codes "epoch", plain (codes "last_epoch") int)
    ∷ (codes "updated", plain (codes "updated_at") date)
    ∷ []

-- a read of the map
unfoldable pub field_named : Bytes → List (Bytes × Field) → Option Field
unfolding equal
field_named name [] = none
field_named name ((key, f) ∷ rest) = if equal key name then some f else field_named name rest

-- `lookupField`. The names come from the lexer, whose words are ASCII.
unfoldable pub lookup_field : Bytes → Option Field
unfolding field_named lower_byte
lookup_field name = field_named (map lower_byte name) fields
