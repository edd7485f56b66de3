-- ===== src/Query/Expand.antt =====
-- `ExpandQuery` of internal/query/expand.go. The vocabulary, the environment variable that disables it
-- and the Unicode tables are parameters.
pub mod Bounded
use pixkb.Base.{
  Bytes, codes, ℕ, ◌+◌, Bool, true, false, ◌||◌, List, [], ◌∷◌, ◌++◌, length, leb, if◌then◌else◌,
}
use pixkb.Text.Ascii.{is_empty, is_prefix}
use pixkb.Text.Space.{trim_space}
use pixkb.Text.Search.{join}
use pixkb.Text.Members.{mem}
use pixkb.Query.Tokens.{fold_tokens}
use pixkb.Query.Vocab.{VocabEntry, active_vocabulary}

-- `out` and `seen`
pub record Expansion : Type 0 where
  pub out : List Bytes
  pub seen : List Bytes

-- a token begins with one of the stems
unfoldable pub has_stem : Bytes → List Bytes → Bool
unfolding is_prefix
has_stem token [] = false
has_stem token (stem ∷ stems) = is_prefix stem token || has_stem token stems

-- The two inner loops; the order in which the tokens are walked does not matter to the result.
unfoldable pub matched : List Bytes → List Bytes → Bool
unfolding has_stem
matched [] stems = false
matched (token ∷ tokens) stems = has_stem token stems || matched tokens stems

module _ (to_lower : Bytes → Bytes) where
  -- `add`: whether there are enough queries now, and the queries
  unfoldable pub add : Bytes → Expansion → Bool × Expansion
  unfolding mem
  add s e =
      let t = trim_space s in
      let key = to_lower t in
      let more : Expansion = record { out = e.out ++ (t ∷ []); seen = e.seen ++ (key ∷ []) } in
      if is_empty t || mem key e.seen
      then (false, e)
      else (leb 5 (length (e.out ++ (t ∷ []))), more)

  -- the loop over the vocabulary
  unfoldable pub add_entries : List Bytes → List VocabEntry → Expansion → Expansion
  unfolding matched add
  add_entries tokens [] e = e
  add_entries tokens (entry ∷ entries) e =
      let (enough, next) = add entry.subquery e in
      let rest = add_entries tokens entries next in
      let skipped = add_entries tokens entries e in
      if matched tokens entry.stems then (if enough then next else rest) else skipped

  unfoldable pub expand_query : List VocabEntry → Bool → Bytes → List Bytes
  unfolding add add_entries active_vocabulary fold_tokens join
  expand_query vocabulary disabled q =
      let tokens = fold_tokens to_lower q in
      let (enough, e) =
        add (join (codes " ") tokens)
          (record { out = q ∷ []; seen = to_lower (trim_space q) ∷ [] }) in
      if enough || disabled
      then e.out
      else (add_entries tokens (active_vocabulary vocabulary) e).out
