-- ===== src/Similar/Dispatch.antt =====
-- internal/similar/dispatch.go: the modes, and the fusion of the signals. The order in which Go
-- walks a map is the parameter `walk`.
pub mod Page
pub mod Hybrid
pub mod Modes
use pixkb.Base.{
  Bytes, codes, ℕ, suc, ◌+◌, Bool, true, false, List, [], ◌∷◌, ◌++◌, take, ltb, length,
  if◌then◌else◌, Result, ok, err, ◌>>=◌,
}
use pixkb.Text.Ascii.{equal}
use pixkb.Text.Number.{ℤ}
use pixkb.Fusion.Sort.{sort_stable}
use pixkb.Fusion.Rank.{Float, value_at, has, set, keys, text_less, ranks_before}
use pixkb.Similar.Hits.{StoreHit, Hit, Filter, Concept, Sources, Error, unknown_mode}
use pixkb.Similar.Select.{limit_of}
use pixkb.Similar.Signals.{semantic_similar, graph_similar, more_like_this}
use pixkb.Similar.Domain.{tag_domain}
use pixkb.Text.Members.{mem}

pub record Options (Time : Type 0) : Type 0 where
  pub mode : Bytes
  pub include_graph : Bool
  pub filter : Filter Time

-- `scores`, `firstSeen`, `byID`, `why` and `order` of `fuse`
pub record Fused (Score : Type 0) : Type 0 where
  pub scores : List (Bytes × Score)
  pub first_seen : List (Bytes × ℕ)
  pub by_id : List (Bytes × StoreHit Score)
  pub why : List (Bytes × List Bytes)
  pub order : ℕ

-- the set of the tags, with those of one more hit
unfoldable pub add_tags : List Bytes → List Bytes → List Bytes
unfolding mem
add_tags tags [] = tags
add_tags tags (w ∷ ws) = add_tags (if mem w tags then tags else w ∷ tags) ws

module _ (float : Float) where
  open float use {Num, add, reciprocal}

  abbrev pub nothing : Fused Num
  nothing = record { scores = []; first_seen = []; by_id = []; why = []; order = 0 }

  -- the body of the inner loop
  unfoldable pub fuse_hit : Hit Num → Fused Num → Fused Num
  unfolding add_tags
  fuse_hit h t =
      let id = h.hit.id in
      record {
        scores =
            set id (add (value_at float.zero id t.scores) (reciprocal (60 + h.hit.rank))) t.scores;
        first_seen = if has id t.by_id then t.first_seen else set id t.order t.first_seen;
        by_id = if has id t.by_id then t.by_id else set id h.hit t.by_id;
        why = set id (add_tags (value_at [] id t.why) h.why) t.why;
        order = if has id t.by_id then t.order else t.order + 1;
      }

  unfoldable pub fuse_list : List (Hit Num) → Fused Num → Fused Num
  unfolding fuse_hit
  fuse_list [] t = t
  fuse_list (h ∷ hs) t = fuse_list hs (fuse_hit h t)

  unfoldable pub fuse_lists : List (List (Hit Num)) → Fused Num → Fused Num
  unfolding fuse_list
  fuse_lists [] t = t
  fuse_lists (hs ∷ lists) t = fuse_lists lists (fuse_list hs t)

  -- `postgres.Hit{}`
  abbrev pub no_hit : StoreHit Num
  no_hit = record {
    id = [];
    title = [];
    type = [];
    score = float.zero;
    rank = 0;
    arm = [];
    domain = [];
    official = false;
  }

  module _ (walk : List Bytes → List Bytes) where
    -- the loop that builds the result, from the position `i` on
    unfoldable pub fused_hits : Fused Num → ℕ → List Bytes → List (Hit Num)
    fused_hits t i [] = []
    fused_hits t i (id ∷ ids) =
        record {
          hit = record (value_at no_hit id t.by_id) {
            rank = i + 1;
            score = value_at float.zero id t.scores;
          };
          why = sort_stable text_less (walk (value_at [] id t.why));
        }
        ∷ fused_hits t (i + 1) ids

    unfoldable pub fuse : List (List (Hit Num)) → List (Hit Num)
    unfolding fuse_lists fused_hits
    fuse lists =
        let t = fuse_lists lists nothing in
        fused_hits t 0
          (sort_stable (ranks_before float t.scores t.first_seen) (walk (keys t.scores)))

    module _ (sources : Sources Num) (to_valid : Bytes → Bytes) where
      open sources use {Time, Failure, read_concept}

      -- the third list of `hybridSimilar`, where the option asks for it
      unfoldable pub graph_lists :
          Bytes → Options Time → Result (Error Failure) (List (List (Hit Num)))
      graph_lists id opts =
          if opts.include_graph
          then (do gr ← graph_similar sources id opts.filter; ok (gr ∷ []))
          else ok []

      -- A concept that cannot be read leaves the hits as they are.
      unfoldable pub tag_fused : Result Failure (Concept Time) → List (Hit Num) → List (Hit Num)
      tag_fused (ok c) hits = tag_domain hits c.type
      tag_fused (err e) hits = hits

      unfoldable pub cut : ℕ → List (Hit Num) → List (Hit Num)
      cut limit hits = if ltb limit (length hits) then take limit hits else hits

      unfoldable pub hybrid_similar : Bytes → Options Time → Result (Error Failure) (List (Hit Num))
      unfolding graph_lists tag_fused cut fuse
      hybrid_similar id opts = do
        sem ← semantic_similar sources id opts.filter
        mlt ← more_like_this sources to_valid id opts.filter
        gr ← graph_lists id opts
        ok (cut (limit_of opts.filter.limit) (tag_fused (read_concept id) (fuse (sem ∷ mlt ∷ gr))))

      unfoldable pub similar : Bytes → Options Time → Result (Error Failure) (List (Hit Num))
      unfolding hybrid_similar equal
      similar id opts =
          if equal opts.mode (codes "semantic")
          then semantic_similar sources id opts.filter
          else if equal opts.mode (codes "graph")
          then graph_similar sources id opts.filter
          else if equal opts.mode (codes "more-like-this")
          then more_like_this sources to_valid id opts.filter
          else if equal opts.mode (codes "hybrid")
          then hybrid_similar id opts
          else err (unknown_mode opts.mode)
