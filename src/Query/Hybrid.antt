-- ===== src/Query/Hybrid.antt =====
-- `hybridCore` of internal/query/hybrid.go. The order in which Go walks a map is the parameter `walk`.
pub mod Weighed
pub mod Ranked
pub mod Walk
use pixkb.Base.{
  Bytes, codes, ℕ, zero, suc, ◌+◌, ◌-◌, Bool, true, false, List, [], ◌∷◌, take, if◌then◌else◌,
  Result, ok, err, ◌>>=◌, map_err,
}
use pixkb.Text.Number.{ℤ, pos}
use pixkb.Text.Ascii.{is_empty}
use pixkb.Fusion.Sort.{sort_stable}
use pixkb.Fusion.Rank.{Float, value_at, has, set, keys, ranks_before}
use pixkb.Similar.Hits.{StoreHit, Filter}
use pixkb.Query.Tokens.{Numbers, title_boost, type_weight}

-- `Searcher`, and `Embed` of the embedder for one text
pub record Search (Num : Type 0) : Type 1 where
  pub Time : Type 0
  pub Vector : Type 0
  pub Failure : Type 0
  pub fts : Bytes → Filter Time → Result Failure (List (StoreHit Num))
  pub embed : Bytes → Result Failure (List Vector)
  pub vector : Vector → Filter Time → Result Failure (List (StoreHit Num))

pub data HybridError (Failure : Type 0) : Type 0 where
  search_failed : Failure → HybridError Failure
  no_vector : HybridError Failure

pub record Explain (Num : Type 0) : Type 0 where
  pub fts_rank : ℕ
  pub vec_rank : ℕ
  pub vec_score : Num
  pub type_weight : Num
  pub title_boost : Num
  pub official_boost : Num
  pub final_score : Num
  pub arm : Bytes

-- the maps of `hybridCore`, and `order`
pub record Noted (Num : Type 0) : Type 0 where
  pub titles : List (Bytes × Bytes)
  pub types : List (Bytes × Bytes)
  pub scores : List (Bytes × Num)
  pub first_seen : List (Bytes × ℕ)
  pub from_fts : List (Bytes × Bool)
  pub from_vec : List (Bytes × Bool)
  pub official : List (Bytes × Bool)
  pub fts_rank : List (Bytes × ℕ)
  pub vec_rank : List (Bytes × ℕ)
  pub vec_score : List (Bytes × Num)
  pub order : ℕ

abbrev pub nothing_noted : {Num : Type 0} → Noted Num
nothing_noted = record {
  titles = [];
  types = [];
  scores = [];
  first_seen = [];
  from_fts = [];
  from_vec = [];
  official = [];
  fts_rank = [];
  vec_rank = [];
  vec_score = [];
  order = 0;
}

unfoldable pub arm_label : Bool → Bool → Bytes
arm_label fts vec =
    if fts then (if vec then codes "both" else codes "fts") else if vec then codes "vector" else []

-- the limit, or 20 where it is not positive
unfoldable pub fused_limit : ℤ → ℕ
fused_limit (pos (suc n)) = suc n
fused_limit _ = 20

module _ (to_lower : Bytes → Bytes) (numbers : Numbers) where
  open numbers use {float, one, mul, at_least, vec_score_floor, official_boost}

  -- `note`; a weight of an arm is 1
  unfoldable pub note : StoreHit float.Num → ℕ → Noted float.Num → Noted float.Num
  note h rank t = record t {
    titles = if has h.id t.titles then t.titles else set h.id h.title t.titles;
    types = if is_empty h.type then t.types else set h.id h.type t.types;
    scores =
        set h.id (float.add (value_at float.zero h.id t.scores) (float.reciprocal (60 + rank)))
          t.scores;
    first_seen = if has h.id t.first_seen then t.first_seen else set h.id t.order t.first_seen;
    order = if has h.id t.first_seen then t.order else t.order + 1;
  }

  unfoldable pub note_official : StoreHit float.Num → Noted float.Num → Noted float.Num
  note_official h t = record t {
    official = if h.official then set h.id true t.official else t.official;
  }

  -- the loop over the lexical hits
  unfoldable pub note_fts : ℕ → List (StoreHit float.Num) → Noted float.Num → Noted float.Num
  unfolding note note_official
  note_fts i [] t = t
  note_fts i (h ∷ hs) t =
      let n = note h i t in
      note_fts (i + 1) hs (
        note_official h (record n {
          from_fts = set h.id true n.from_fts;
          fts_rank = set h.id (i + 1) n.fts_rank;
        }))

  -- the loop over the hits of the vector arm
  unfoldable pub note_vec : ℕ → List (StoreHit float.Num) → Noted float.Num → Noted float.Num
  unfolding note note_official
  note_vec i [] t = t
  note_vec i (h ∷ hs) t =
      let n = note h i t in
      note_vec (i + 1) hs (
        note_official h (record n {
          from_vec = set h.id true n.from_vec;
          vec_rank = set h.id (i + 1) n.vec_rank;
          vec_score = set h.id h.score n.vec_score;
        }))

  unfoldable pub above_floor : List (StoreHit float.Num) → List (StoreHit float.Num)
  above_floor [] = []
  above_floor (h ∷ hs) =
      let rest = above_floor hs in if at_least h.score vec_score_floor then h ∷ rest else rest

  -- `tw`, `tb` and `ob`
  unfoldable pub type_weight_at : Noted float.Num → Bytes → float.Num
  unfolding type_weight
  type_weight_at t id = type_weight to_lower numbers (value_at [] id t.types)

  unfoldable pub title_boost_at : Bytes → Noted float.Num → Bytes → float.Num
  unfolding title_boost
  title_boost_at q t id = title_boost to_lower numbers q (value_at [] id t.titles)

  unfoldable pub official_boost_at : Noted float.Num → Bytes → float.Num
  official_boost_at t id = if value_at false id t.official then official_boost else one

  -- the loop over the map of scores
  unfoldable pub weigh :
      Bytes → Noted float.Num → List Bytes → List (Bytes × float.Num) → List (Bytes × float.Num)
  unfolding type_weight_at title_boost_at official_boost_at
  weigh q t [] scores = scores
  weigh q t (id ∷ ids) scores = weigh q t ids (
      set id
        (mul (value_at float.zero id scores)
          (mul (mul (type_weight_at t id) (title_boost_at q t id)) (official_boost_at t id)))
        scores)

  unfoldable pub fused_hit :
      Noted float.Num → List (Bytes × float.Num) → ℕ → Bytes → StoreHit float.Num
  unfolding arm_label
  fused_hit t scores i id = record {
    id = id;
    title = value_at [] id t.titles;
    type = value_at [] id t.types;
    score = value_at float.zero id scores;
    rank = i + 1;
    arm = arm_label (value_at false id t.from_fts) (value_at false id t.from_vec);
    domain = [];
    official = value_at false id t.official;
  }

  unfoldable pub explain_of :
      Bytes → Noted float.Num → List (Bytes × float.Num) → Bytes → Explain float.Num
  unfolding arm_label type_weight_at title_boost_at official_boost_at
  explain_of q t scores id = record {
    fts_rank = value_at 0 id t.fts_rank;
    vec_rank = value_at 0 id t.vec_rank;
    vec_score = value_at float.zero id t.vec_score;
    type_weight = type_weight_at t id;
    title_boost = title_boost_at q t id;
    official_boost = official_boost_at t id;
    final_score = value_at float.zero id scores;
    arm = arm_label (value_at false id t.from_fts) (value_at false id t.from_vec);
  }

  -- the last loop, from the position `i` on, with room for so many hits
  unfoldable pub page_from :
      Bytes
      → Noted float.Num
      → List (Bytes × float.Num)
      → ℕ
      → ℕ
      → List Bytes
      → List (StoreHit float.Num) × List (Explain float.Num)
  unfolding fused_hit explain_of
  page_from q t scores i room [] = ([], [])
  page_from q t scores i zero (id ∷ ids) = ([], [])
  page_from q t scores i (suc room) (id ∷ ids) =
      let (hits, explains) = page_from q t scores (i + 1) room ids in
      (fused_hit t scores i id ∷ hits, explain_of q t scores id ∷ explains)

  module _ (walk : List Bytes → List Bytes) where
    -- the ids in their order, with their scores
    unfoldable pub order_of : Bytes → Noted float.Num → List Bytes × List (Bytes × float.Num)
    unfolding weigh
    order_of q t =
        let ids = walk (keys t.scores) in
        let scores = weigh q t ids t.scores in
        (sort_stable (ranks_before float scores t.first_seen) ids, scores)

    unfoldable pub fuse_arms :
        Bytes
        → ℤ
        → List (StoreHit float.Num)
        → List (StoreHit float.Num)
        → List (StoreHit float.Num) × List (Explain float.Num)
    unfolding note_fts note_vec order_of page_from fused_limit above_floor
    fuse_arms q limit fts_hits vec_hits =
        let t = note_vec 0 (above_floor vec_hits) (note_fts 0 fts_hits nothing_noted) in
        let (ids, scores) = order_of q t in page_from q t scores 0 (fused_limit limit) ids

    module _ (s : Search float.Num) where
      open s use {Time, Vector, Failure, fts, embed, vector}

      unfoldable pub first_vector : List Vector → Result (HybridError Failure) Vector
      first_vector [] = err no_vector
      first_vector (v ∷ vecs) = ok v

      -- `hybridCore`, and `HybridExplain`
      unfoldable pub hybrid_core :
          Bytes
          → Filter Time
          → Result (HybridError Failure) (List (StoreHit float.Num) × List (Explain float.Num))
      unfolding fuse_arms first_vector
      hybrid_core q f = do
        fts_hits ← map_err search_failed (fts q f)
        vecs ← map_err search_failed (embed q)
        vec ← first_vector vecs
        vec_hits ← map_err search_failed (vector vec f)
        ok (fuse_arms q f.limit fts_hits vec_hits)

      -- `Hybrid`
      unfoldable pub hybrid :
          Bytes → Filter Time → Result (HybridError Failure) (List (StoreHit float.Num))
      unfolding hybrid_core
      hybrid q f = do out ← hybrid_core q f; ok out.0
