-- ===== src/Similar/Domain.antt =====
-- internal/similar/domain.go.
use pixkb.Base.{Bytes, codes, List, [], ◌∷◌, ◌++◌, if◌then◌else◌}
use pixkb.Text.Ascii.{equal}
use pixkb.Text.Members.{mem}
use pixkb.Similar.Hits.{Hit}

abbrev pub domain : Bytes
domain = codes "domain"

-- `domainAdjacency`, read at a type
unfoldable pub adjacent : Bytes → List Bytes
unfolding equal
adjacent type =
    if equal type (codes "ApiEndpoint")
    then codes "PacsMessage" ∷ codes "CamtMessage" ∷ codes "Reference" ∷ codes "ManualSection" ∷ []
    else if equal type (codes "PacsMessage")
    then codes "ApiEndpoint" ∷ codes "CamtMessage" ∷ []
    else if equal type (codes "CamtMessage")
    then codes "ApiEndpoint" ∷ codes "PacsMessage" ∷ []
    else if equal type (codes "Reference")
    then codes "ApiEndpoint" ∷ codes "ManualSection" ∷ []
    else if equal type (codes "ManualSection")
    then codes "ApiEndpoint" ∷ codes "Reference" ∷ []
    else []

module _ {Score : Type 0} where
  -- the loop over the hits
  unfoldable pub tag_adjacent : List Bytes → List (Hit Score) → List (Hit Score)
  unfolding mem
  tag_adjacent adj [] = []
  tag_adjacent adj (h ∷ hs) =
      (if mem h.hit.type adj then record h { why = h.why ++ (domain ∷ []) } else h)
      ∷ tag_adjacent adj hs

  unfoldable pub tag_domain : List (Hit Score) → Bytes → List (Hit Score)
  unfolding adjacent tag_adjacent
  tag_domain hits type = elim (adjacent type) [ [] ↦ hits | t ∷ ts ↦ tag_adjacent (t ∷ ts) hits ]
