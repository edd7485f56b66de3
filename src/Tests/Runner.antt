-- ===== src/Tests/Runner.antt =====
-- A store whose embedder returns one vector for every text but the first, one that refuses the
-- commit, and two concepts.
use mathlib.Core.List.{reverse}
use pixkb.Base.{Bytes, codes, ℕ, ◌≡◌, refl, List, [], ◌∷◌, All, Option, none, some, ok}
use pixkb.Text.Number.{pos}
use pixkb.Similar.Hits.{Concept}
use pixkb.Epoch.Steps.{Call, embed, commit, Env, bind, pure, perform, returned}
use pixkb.Epoch.Steps.Follows.{Follows}
use pixkb.Epoch.Runner.{
  ids_of, apply_concept, embed_texts, counted, embed_all, apply_each, run, reindex_epoch, reindex,
  upsert_batch,
}
use pixkb.Epoch.Runner.Batch.{Spares, batch_calls, upsert_batch-Follows}
use pixkb.Epoch.Runner.Plan.{reindex_calls, reindex-Follows, run_calls, run-Follows}

abbrev concept : Bytes → Concept ℕ
concept id = record {
  id = id;
  type = codes "Rule";
  title = id;
  description = [];
  resource = [];
  tags = [];
  language = [];
  timestamp = 0;
  epoch = pos 0;
  content_sha = codes "1";
  source_uri = [];
  domain = [];
  norm_ref = [];
  embedded_at = 0;
  embed_model = [];
  body = codes "text";
  links = [];
  intent_terms = [];
}

abbrev two : List (Concept ℕ)
two = concept (codes "a") ∷ concept (codes "b") ∷ []

-- the vectors of the last call
unfoldable vectors_of : List (Call ℕ ℕ) → List ℕ
vectors_of [] = []
vectors_of (embed (t ∷ ts) ∷ []) = 7 ∷ 8 ∷ []
vectors_of (embed [] ∷ []) = []
vectors_of (_ ∷ cs) = vectors_of cs

unfoldable refuses : List (Call ℕ ℕ) → Call ℕ ℕ → Option ℕ
refuses tr (commit m) = some 1
refuses tr _ = none

abbrev env : Env
env = record {
  Time = ℕ;
  Vector = ℕ;
  Failure = ℕ;
  fails = refuses;
  shas = λ tr. (codes "a", codes "0") ∷ [];
  epoch = λ tr. (pos 3, 5);
  vectors = vectors_of;
  sha = λ tr. codes "f00";
  concepts = λ tr. two;
  model = codes "hashing";
  format_time = λ t. codes "now";
}

run-Follows_example :
    Follows env
      (run_calls env reverse two (codes "test") [])
      []
      (run env reverse two (codes "test") [])
run-Follows_example = run-Follows env reverse two (codes "test") []

reindex-Follows_example : Follows env (reindex_calls env []) [] (reindex env [])
reindex-Follows_example = reindex-Follows env []

upsert_batch-Follows_example :
    Follows env
      (batch_calls env two (codes "agent") [])
      []
      (upsert_batch env two (codes "agent") [])
    × All (Spares (ids_of env two)) (batch_calls env two (codes "agent") [])
upsert_batch-Follows_example = upsert_batch-Follows env two (codes "agent") []

restored : (reindex env []).0 ≡ ok tt
unfolding reindex reindex_epoch embed_all embed_texts counted apply_each apply_concept bind pure
    perform returned vectors_of refuses
restored = refl
