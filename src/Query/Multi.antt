-- ===== src/Query/Multi.antt =====
-- `MultiHybrid` of internal/query/multi.go. The searches run side by side; which failure is the first
-- one is a parameter, as is the order in which Go walks a map.
pub mod Ranked
use pixkb.Base.{
  Bytes, ℕ, zero, suc, ◌+◌, Bool, true, false, List, [], ◌∷◌, ◌++◌, ltb, if◌then◌else◌, Result, ok,
  err, ◌>>=◌,
}
use pixkb.Text.Number.{ℤ, pos, negsuc}
use pixkb.Fusion.Sort.{sort_stable}
use pixkb.Fusion.Rank.{Float, value_at, has, set, keys, ranks_before}
use pixkb.Similar.Hits.{StoreHit, Filter}
use pixkb.Query.Hybrid.{fused_limit}

pub record SubqueryMatch : Type 0 where
  pub query : Bytes
  pub arm : Bytes
  pub rank : ℕ

pub record MultiHit (Num : Type 0) : Type 0 where
  pub hit : StoreHit Num
  pub subqueries : List SubqueryMatch

-- `Hits`
unfoldable pub hits_of : {Num : Type 0} → List (MultiHit Num) → List (StoreHit Num)
hits_of [] = []
hits_of (m ∷ mh) = m.hit ∷ hits_of mh

-- at least 20
unfoldable pub sub_limit : ℤ → ℤ
sub_limit (pos n) = if ltb n 20 then pos 20 else pos n
sub_limit (negsuc n) = pos 20

-- the maps of the fusion, and `order`
pub record Joined (Num : Type 0) : Type 0 where
  pub scores : List (Bytes × Num)
  pub first_seen : List (Bytes × ℕ)
  pub hit_by_id : List (Bytes × StoreHit Num)
  pub provenance : List (Bytes × List SubqueryMatch)
  pub order : ℕ

module _ (float : Float) where
  open float use {Num, add, reciprocal}

  abbrev pub none_joined : Joined Num
  none_joined = record { scores = []; first_seen = []; hit_by_id = []; provenance = []; order = 0 }

  -- the body of the inner loop
  unfoldable pub join_hit : Bytes → StoreHit Num → Joined Num → Joined Num
  join_hit sq h t = record {
    scores = set h.id (add (value_at float.zero h.id t.scores) (reciprocal (5 + h.rank))) t.scores;
    hit_by_id = if has h.id t.hit_by_id then t.hit_by_id else set h.id h t.hit_by_id;
    first_seen = if has h.id t.first_seen then t.first_seen else set h.id t.order t.first_seen;
    order = if has h.id t.first_seen then t.order else t.order + 1;
    provenance =
        set h.id
          (value_at [] h.id t.provenance
            ++ (record { query = sq; arm = h.arm; rank = h.rank } ∷ []))
          t.provenance;
  }

  unfoldable pub join_hits : Bytes → List (StoreHit Num) → Joined Num → Joined Num
  unfolding join_hit
  join_hits sq [] t = t
  join_hits sq (h ∷ hs) t = join_hits sq hs (join_hit sq h t)

  unfoldable pub join_results : List (Bytes × List (StoreHit Num)) → Joined Num → Joined Num
  unfolding join_hits
  join_results [] t = t
  join_results ((sq, hs) ∷ results) t = join_results results (join_hits sq hs t)

  -- `postgres.Hit{}`
  abbrev pub zero_hit : StoreHit Num
  zero_hit = record {
    id = [];
    title = [];
    type = [];
    score = float.zero;
    rank = 0;
    arm = [];
    domain = [];
    official = false;
  }

  -- the last loop, from the position `i` on, with room for so many hits
  unfoldable pub multi_page : Joined Num → ℕ → ℕ → List Bytes → List (MultiHit Num)
  multi_page t i room [] = []
  multi_page t i zero (id ∷ ids) = []
  multi_page t i (suc room) (id ∷ ids) =
      record {
        hit = record (value_at zero_hit id t.hit_by_id) {
          rank = i + 1;
          score = value_at float.zero id t.scores;
        };
        subqueries = value_at [] id t.provenance;
      }
      ∷ multi_page t (i + 1) room ids

  module _ (walk : List Bytes → List Bytes) where
    unfoldable pub fuse_results : ℤ → List (Bytes × List (StoreHit Num)) → List (MultiHit Num)
    unfolding join_results multi_page fused_limit
    fuse_results limit results =
        let t = join_results results none_joined in
        multi_page t 0 (fused_limit limit)
          (sort_stable (ranks_before float t.scores t.first_seen) (walk (keys t.scores)))

    module _ {Failure Time : Type 0}
        (hybrid : Bytes → Filter Time → Result Failure (List (StoreHit Num)))
        (first_failure : Failure → List Failure → Failure) (expand : Bytes → List Bytes) where
      -- the failures of the searches
      unfoldable pub failures : List (Bytes × Result Failure (List (StoreHit Num))) → List Failure
      failures [] = []
      failures ((sq, ok hits) ∷ rs) = failures rs
      failures ((sq, err e) ∷ rs) = e ∷ failures rs

      -- the hits of the searches
      unfoldable pub successes :
          List (Bytes × Result Failure (List (StoreHit Num))) → List (Bytes × List (StoreHit Num))
      successes [] = []
      successes ((sq, ok hits) ∷ rs) = (sq, hits) ∷ successes rs
      successes ((sq, err e) ∷ rs) = successes rs

      -- `g.Wait`
      unfoldable pub wait :
          List (Bytes × Result Failure (List (StoreHit Num)))
          → Result Failure (List (Bytes × List (StoreHit Num)))
      unfolding failures successes
      wait rs = elim (failures rs) [ [] ↦ ok (successes rs) | e ∷ es ↦ err (first_failure e es) ]

      unfoldable pub search_all :
          Filter Time → List Bytes → List (Bytes × Result Failure (List (StoreHit Num)))
      search_all f [] = []
      search_all f (sq ∷ sqs) = (sq, hybrid sq f) ∷ search_all f sqs

      unfoldable pub multi_hybrid : Bytes → Filter Time → Result Failure (List (MultiHit Num))
      unfolding wait search_all sub_limit fuse_results
      multi_hybrid q f = do
        results ← wait (search_all (record f { limit = sub_limit f.limit }) (expand q))
        ok (fuse_results f.limit results)
