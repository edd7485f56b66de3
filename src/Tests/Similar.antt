-- ===== src/Tests/Similar.antt =====
-- A store with three concepts, of which `a` is the given one.
use pixkb.Base.{Bytes, codes, ℕ, ◌≡◌, refl, false, List, [], ◌∷◌, none, take, map, ok}
use pixkb.Text.Ascii.{equal}
use pixkb.Text.Number.{pos}
use pixkb.Fusion.Sort.{insert, sort_stable}
use pixkb.Fusion.Rank.{value_at, has, set, keys, ranks_before, text_less}
use pixkb.Similar.Hits.{StoreHit, Hit, Concept, Sources}
use pixkb.Similar.Select.{increment, limit_of, with_headroom, renumber, select, tag_and_exclude}
use pixkb.Similar.Page.{IsPage, tagged, others_of, tag_and_exclude-eq}
use pixkb.Similar.Signals.{
  semantic, semantic_similar, more_like_this, why_from_arm, query_of, truncate,
}
use pixkb.Similar.Domain.{adjacent, tag_adjacent, tag_domain}
use pixkb.Text.Members.{mem}
use pixkb.Similar.Dispatch.{
  Options, add_tags, fuse_hit, fuse_list, fuse_lists, fused_hits, fuse, graph_lists, tag_fused, cut,
  hybrid_similar, similar,
}
use pixkb.Similar.Dispatch.Modes.{similar-IsPage}
use pixkb.Tests.Fusion.{millionths}
use mathlib.Core.List.{reverse}
use mathlib.Core.List.Permᴰ

abbrev pub store_hit : Bytes → ℕ → StoreHit ℕ
store_hit id rank = record {
  id = id;
  title = id;
  type = codes "Reference";
  score = 0;
  rank = rank;
  arm = codes "both";
  domain = [];
  official = false;
}

abbrev pub store_hits : List (StoreHit ℕ)
store_hits = store_hit (codes "a") 1 ∷ store_hit (codes "b") 2 ∷ store_hit (codes "c") 3 ∷ []

abbrev pub concept : Bytes → Concept ℕ
concept id = record {
  id = id;
  type = codes "ApiEndpoint";
  title = id;
  description = [];
  resource = [];
  tags = [];
  language = codes "pt";
  timestamp = 0;
  epoch = pos 1;
  content_sha = [];
  source_uri = [];
  domain = codes "pix";
  norm_ref = [];
  embedded_at = 0;
  embed_model = [];
  body = [];
  links = [];
  intent_terms = [];
}

abbrev store : Sources ℕ
store = record {
  Time = ℕ;
  Vector = ℕ;
  Failure = ℕ;
  no_score = 0;
  get_embedding = λ id. ok 7;
  vector = λ vec f. ok store_hits;
  related = λ id. ok [];
  hybrid = λ q f. ok store_hits;
  read_concept = λ id. ok (concept id);
}

abbrev one_hit : Options ℕ
one_hit = record {
  mode = codes "hybrid";
  include_graph = false;
  filter = record {
    type = [];
    tag = [];
    as_of_epoch = none;
    as_of_time = none;
    limit = pos 1;
    include_types = [];
    exclude_ids = [];
    domains = [];
  };
}

abbrev fused_hit : Hit ℕ
fused_hit = record {
  hit = record (store_hit (codes "b") 1) { score = 32786 };
  why = codes "lexical" ∷ codes "semantic" ∷ codes "domain" ∷ [];
}

fused_is : similar millionths reverse store (λ s. s) (codes "a") one_hit ≡ ok (fused_hit ∷ [])
unfolding similar hybrid_similar semantic_similar more_like_this graph_lists tag_fused cut fuse
    fuse_lists fuse_list fuse_hit fused_hits add_tags adjacent mem tag_adjacent tag_domain renumber
    select tag_and_exclude limit_of with_headroom increment why_from_arm query_of truncate value_at
    has set keys ranks_before text_less insert sort_stable equal
fused_is = refl

similar-IsPage_example : IsPage (codes "a") (limit_of one_hit.filter.limit) (fused_hit ∷ [])
similar-IsPage_example =
    similar-IsPage millionths reverse store (λ s. s) (codes "a") one_hit Permᴰ.reverse fused_is

tag_and_exclude-eq_example :
    tag_and_exclude store_hits (codes "a") semantic (pos 1)
    ≡ renumber 0 (
        map
          (tagged (λ h. semantic ∷ []))
          (take (limit_of (pos 1)) (others_of (codes "a") store_hits)))
tag_and_exclude-eq_example = tag_and_exclude-eq store_hits (codes "a") semantic (pos 1)
