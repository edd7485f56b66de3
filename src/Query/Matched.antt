-- ===== src/Query/Matched.antt =====
-- internal/query/matchedfields.go. `strings.ToLower` and the split into runs of Unicode letters and
-- digits are parameters.
use pixkb.Base.{Bytes, codes, Bool, false, ◌||◌, List, [], ◌∷◌, ◌++◌, if◌then◌else◌}
use pixkb.Text.Search.{contains}
use pixkb.Text.Members.{mem}

pub record MatchedFields : Type 0 where
  pub tokens : List Bytes
  pub fields : List Bytes

-- the loop of `tokenizeMatched`; `seen` has the tokens of `out`
unfoldable pub first_seen : List Bytes → List Bytes → List Bytes
unfolding mem
first_seen out [] = out
first_seen out ([] ∷ raw) = first_seen out raw
first_seen out ((b ∷ t) ∷ raw) =
    first_seen (if mem (b ∷ t) out then out else out ++ ((b ∷ t) ∷ [])) raw

-- some token is in the text
unfoldable pub matches : Bytes → List Bytes → Bool
unfolding contains
matches text [] = false
matches text (t ∷ tokens) = contains t text || matches text tokens

-- the tokens that are in one of the three texts
unfoldable pub matched : Bytes → Bytes → Bytes → List Bytes → List Bytes
unfolding contains
matched title intent body [] = []
matched title intent body (t ∷ tokens) =
    let rest : List Bytes = matched title intent body tokens in
    if contains t title || (contains t intent || contains t body) then t ∷ rest else rest

abbrev pub category : Bool → Bytes → List Bytes
category met name = if met then name ∷ [] else []

module _ (to_lower : Bytes → Bytes) (split : Bytes → List Bytes) where
  unfoldable pub tokenize_matched : Bytes → List Bytes
  unfolding first_seen
  tokenize_matched q = first_seen [] (split (to_lower q))

  unfoldable pub compute_matched_fields : Bytes → Bytes → Bytes → Bytes → MatchedFields
  unfolding tokenize_matched matches matched
  compute_matched_fields q title intent_terms body =
      let tokens : List Bytes = tokenize_matched q in
      record {
        tokens = matched (to_lower title) (to_lower intent_terms) (to_lower body) tokens;
        fields =
            category (matches (to_lower title) tokens) (codes "title")
            ++ (category (matches (to_lower intent_terms) tokens) (codes "intent_terms")
                ++ category (matches (to_lower body) tokens) (codes "body"));
      }
