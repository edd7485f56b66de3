-- ===== src/Tests/Query.antt =====
-- Two arms with three hits between them, and a vocabulary with one entry.
use mathlib.Core.List.{reverse}
use mathlib.Core.List.Permᴰ
use pixkb.Base.{
  codes, ℕ, ◌*◌, ◌/◌, ◌≤◌, ◌≡◌, refl, true, false, not, List, [], ◌∷◌, none, length, ltb, ok,
}
use pixkb.Text.Number.{pos}
use pixkb.Similar.Hits.{StoreHit, Filter}
use pixkb.Query.Tokens.{Numbers}
use pixkb.Query.Hybrid.{Search, Explain, fuse_arms, hybrid_core, fused_limit, first_vector}
use pixkb.Query.Hybrid.Ranked.{IsRanked, hybrid_core-IsRanked}
use pixkb.Query.Hybrid.Walk.{hybrid_core-walk}
use pixkb.Query.Vocab.{VocabEntry}
use pixkb.Query.Expand.{expand_query}
use pixkb.Query.Expand.Bounded.{IsExpanded, expand_query-IsExpanded}
use pixkb.Query.Multi.{MultiHit, multi_hybrid, wait, failures, successes, search_all, fuse_results}
use pixkb.Query.Multi.Ranked.{IsMulti, multi_hybrid-IsMulti}
use pixkb.Tests.Fusion.{millionths, millionths-IsFloat}
use pixkb.Tests.Similar.{store_hit, store_hits}

-- numbers in hundredths
abbrev hundredths : Numbers
hundredths = record {
  float = millionths;
  one = 100;
  mul = λ a b. a * b / 100;
  div = λ a b. a / b;
  of_int = λ n. n;
  at_least = λ a b. not (ltb a b);
  title_boost_weight = 50;
  official_boost = 115;
  vec_score_floor = 0;
}

abbrev searches : Search ℕ
searches = record {
  Time = ℕ;
  Vector = ℕ;
  Failure = ℕ;
  fts = λ q f. ok store_hits;
  embed = λ q. ok (7 ∷ []);
  vector = λ v f. ok (store_hit (codes "b") 1 ∷ []);
}

abbrev two : Filter ℕ
two = record {
  type = [];
  tag = [];
  as_of_epoch = none;
  as_of_time = none;
  limit = pos 2;
  include_types = [];
  exclude_ids = [];
  domains = [];
}

abbrev fused : List (StoreHit ℕ) × List (Explain ℕ)
fused =
    fuse_arms (λ s. s) hundredths reverse (codes "q") (pos 2) store_hits
      (store_hit (codes "b") 1 ∷ [])

search_is : hybrid_core (λ s. s) hundredths reverse searches (codes "q") two ≡ ok (fused.0, fused.1)
unfolding hybrid_core first_vector
search_is = refl

hybrid_core-IsRanked_example : IsRanked millionths (fused_limit two.limit) fused.0 fused.1
hybrid_core-IsRanked_example =
    hybrid_core-IsRanked (λ s. s) hundredths reverse searches (codes "q") two fused.0 fused.1
      millionths-IsFloat Permᴰ.reverse search_is

hybrid_core-walk_example :
    hybrid_core (λ s. s) hundredths (λ ids. ids) searches (codes "q") two
    ≡ hybrid_core (λ s. s) hundredths reverse searches (codes "q") two
hybrid_core-walk_example =
    hybrid_core-walk (λ s. s) hundredths (λ ids. ids) reverse searches (codes "q") two
      millionths-IsFloat Permᴰ.refl Permᴰ.reverse

abbrev entry : VocabEntry
entry = record {
  stems = codes "devol" ∷ [];
  subquery = codes "pacs.004";
  enabled = true;
  reason = [];
}

expand_query-IsExpanded_example :
    IsExpanded
      (λ s. s)
      (codes "a devolucao do pix")
      (expand_query (λ s. s) (entry ∷ []) false (codes "a devolucao do pix"))
    × (length (expand_query (λ s. s) (entry ∷ []) false (codes "a devolucao do pix")) ≤ 5)
expand_query-IsExpanded_example =
    expand_query-IsExpanded (λ s. s) (codes "a devolucao do pix") (entry ∷ []) false

abbrev joined : List (MultiHit ℕ)
joined = fuse_results millionths reverse (pos 2) ((codes "q", store_hits) ∷ [])

multi_is :
    multi_hybrid millionths reverse
      (λ q f. ok store_hits)
      (λ (e : ℕ) es. e)
      (λ q. q ∷ [])
      (codes "q")
      two
    ≡ ok joined
unfolding multi_hybrid wait failures successes search_all
multi_is = refl

multi_hybrid-IsMulti_example : IsMulti millionths (fused_limit two.limit) joined
multi_hybrid-IsMulti_example =
    multi_hybrid-IsMulti millionths reverse (λ q f. ok store_hits) (λ (e : ℕ) es. e) (λ q. q ∷ [])
      (codes "q") two joined millionths-IsFloat Permᴰ.reverse multi_is
