-- ===== src/Query/Multi/Ranked.antt =====
-- What a caller of `MultiHybrid` gets.
use mathlib.Core.List.{Permᴰ}
use mathlib.Core.List.Permᴰ
use mathlib.Core.List.Permᴰ.{trans}
use pixkb.Base.{
  Bytes, ℕ, zero, suc, ◌+◌, ◌≤◌, ◌≡◌, refl, sym, ap, ◌∙◌, subst, Bool, true, false, ◌||◌, List, [],
  ◌∷◌, All, All-map, length, take, map, if◌then◌else◌, arith, Bool-cases, ◌⊎◌, inl, inr, Result, ok,
  >>=-eq-ok, ok-injective,
}
use pixkb.Text.Number.{ℤ}
use pixkb.Text.Ascii.{equal}
use pixkb.Text.Ascii.Equal.{equal_iff, equal_refl}
use pixkb.Text.Members.{mem, Distinct}
use pixkb.Fusion.Sort.{sort_stable, IsSorted, sort_stable-IsSorted, sort_stable-is_Permᴰ}
use pixkb.Fusion.Rank.{
  Float, IsFloat, value_at, has, set, keys, ranks_before, ranks_before-IsOrder, not_before-score,
}
use pixkb.Fusion.Keys.{
  Distinct-set, mem-keys, Distinct-Permᴰ, Distinct-take, mem-Permᴰ, value_at-set-same,
  value_at-set-other,
}
use pixkb.Similar.Hits.{StoreHit, Filter}
use pixkb.Similar.Page.{count_from}
use pixkb.Query.Hybrid.{fused_limit}
use pixkb.Query.Multi.{
  MultiHit, Joined, none_joined, join_hit, join_hits, join_results, zero_hit, multi_page,
  fuse_results, multi_hybrid, wait, search_all, sub_limit,
}

module _ (float : Float) where
  open float use {Num}

  -- Hits with the ranks 1, 2, …, each id once, no more than the limit, and none behind one with a
  -- lower score.
  pub record IsMulti (limit : ℕ) (hits : List (MultiHit Num)) : Type 0 where
    pub ranked : map (λ m. m.hit.rank) hits ≡ count_from 0 (length hits)
    pub apart : Distinct (map (λ m. m.hit.id) hits)
    pub bounded : length hits ≤ limit
    pub descending : IsSorted (λ g h. float.less h.hit.score g.hit.score) hits

  -- The hit that is kept for an id has that id, and there is one for each id with a score.
  record IsJoined (t : Joined Num) : Type 0 where
    apart : Distinct (keys t.scores)
    named :
        (x : Bytes) → has x t.hit_by_id ≡ true → (value_at (zero_hit float) x t.hit_by_id).id ≡ x
    held : (x : Bytes) → mem x (keys t.scores) ≡ true → has x t.hit_by_id ≡ true

  has-set :
      {V : Type 0} (x id : Bytes) (v : V) (l : List (Bytes × V))
      → has x (set id v l) ≡ (if equal id x then true else has x l)
  unfolding has set
  has-set x id v [] = ground arith
  has-set x id v ((key, w) ∷ l) = elim (Bool-cases (equal key id)) [
    | inl t ↦ rw ((equal_iff key id).0 t, equal_refl id) (ground arith)
    | inr f ↦ rw f (ground (arith, has-set x id v l))
  ]

  join_hit-IsJoined :
      (sq : Bytes) (h : StoreHit Num) (t : Joined Num)
      → IsJoined t
      → IsJoined (join_hit float sq h t)
  unfolding join_hit
  join_hit-IsJoined sq h t j = record {
    apart = Distinct-set h.id _ t.scores j.apart;
    named = named (has h.id t.hit_by_id) refl;
    held = held (has h.id t.hit_by_id) refl;
  }
    where
      named :
          (b : Bool)
          → has h.id t.hit_by_id ≡ b
          → (x : Bytes) → has x (if b then t.hit_by_id else set h.id h t.hit_by_id) ≡ true
          → (value_at (zero_hit float) x (if b then t.hit_by_id else set h.id h t.hit_by_id)).id ≡ x
      named true e x k = j.named x k
      named false e x k = elim (Bool-cases (equal h.id x)) [
        | inl s ↦
            subst (λ y. (value_at (zero_hit float) y (set h.id h t.hit_by_id)).id ≡ y)
              ((equal_iff h.id x).0 s)
              (ap (λ g. g.id) (value_at-set-same (zero_hit float) h.id h t.hit_by_id))
        | inr n ↦
            let old : has x t.hit_by_id ≡ true = rw n at (sym (has-set x h.id h t.hit_by_id) ∙ k) in
            ap (λ g. g.id) (value_at-set-other (zero_hit float) x h.id h t.hit_by_id n)
            ∙ j.named x old
      ]

      scored :
          (x : Bytes)
          → mem x (keys (join_hit float sq h t).scores) ≡ true
          → (equal h.id x ≡ true) ⊎ (mem x (keys t.scores) ≡ true)
      scored x m = elim (Bool-cases (equal h.id x)) [
        | inl s ↦ inl s
        | inr n ↦ inr (
            mem-keys x t.scores
            ∙ (rw n at (sym (has-set x h.id _ t.scores) ∙ sym (mem-keys x _) ∙ m)))
      ]

      held :
          (b : Bool)
          → has h.id t.hit_by_id ≡ b
          → (x : Bytes) → mem x (keys (join_hit float sq h t).scores) ≡ true
          → has x (if b then t.hit_by_id else set h.id h t.hit_by_id) ≡ true
      held true e x m = elim (scored x m) [
        | inl s ↦ subst (λ y. has y t.hit_by_id ≡ true) ((equal_iff h.id x).0 s) e
        | inr o ↦ j.held x o
      ]
      held false e x m = elim (scored x m) [
        | inl s ↦ has-set x h.id h t.hit_by_id ∙ rw s refl
        | inr o ↦ has-set x h.id h t.hit_by_id ∙ ground (arith, j.held x o)
      ]

  join_hits-IsJoined :
      (sq : Bytes) (hs : List (StoreHit Num)) (t : Joined Num)
      → IsJoined t
      → IsJoined (join_hits float sq hs t)
  unfolding join_hits
  join_hits-IsJoined sq [] t j = j
  join_hits-IsJoined sq (h ∷ hs) t j =
      join_hits-IsJoined sq hs (join_hit float sq h t) (join_hit-IsJoined sq h t j)

  join_results-IsJoined :
      (results : List (Bytes × List (StoreHit Num))) (t : Joined Num)
      → IsJoined t
      → IsJoined (join_results float results t)
  unfolding join_results
  join_results-IsJoined [] t j = j
  join_results-IsJoined ((sq, hs) ∷ results) t j =
      join_results-IsJoined results (join_hits float sq hs t) (join_hits-IsJoined sq hs t j)

  none-IsJoined : IsJoined (none_joined float)
  unfolding keys has mem
  none-IsJoined = record { apart = tt; named = λ x k. cc; held = λ x k. cc }

  module _ (t : Joined Num) where
    page-ranked :
        (i room : ℕ) (ids : List Bytes)
        → map (λ m. m.hit.rank) (multi_page float t i room ids)
          ≡ count_from i (length (multi_page float t i room ids))
    unfolding multi_page
    page-ranked i room [] = refl
    page-ranked i zero (id ∷ ids) = refl
    page-ranked i (suc room) (id ∷ ids) = ap (◌∷◌ (i + 1)) (page-ranked (i + 1) room ids)

    page-ids :
        IsJoined t
        → (i room : ℕ) (ids : List Bytes) → All (λ x. mem x (keys t.scores) ≡ true) ids
        → map (λ m. m.hit.id) (multi_page float t i room ids) ≡ take room ids
    unfolding multi_page
    page-ids j i zero [] a = refl
    page-ids j i (suc room) [] a = refl
    page-ids j i zero (id ∷ ids) a = refl
    page-ids j i (suc room) (id ∷ ids) a =
        cc (j.named id (j.held id a.0), page-ids j (i + 1) room ids a.1)

    page-bounded : (i room : ℕ) (ids : List Bytes) → length (multi_page float t i room ids) ≤ room
    unfolding multi_page
    page-bounded i room [] = omega arith
    page-bounded i zero (id ∷ ids) = omega arith
    page-bounded i (suc room) (id ∷ ids) = omega (arith, page-bounded (i + 1) room ids)

    page-All :
        (score : Num) (i room : ℕ) (ids : List Bytes)
        → All (λ y. float.less score (value_at float.zero y t.scores) ≡ false) ids
        → All (λ m. float.less score m.hit.score ≡ false) (multi_page float t i room ids)
    unfolding multi_page
    page-All score i room [] a = tt
    page-All score i zero (id ∷ ids) a = tt
    page-All score i (suc room) (id ∷ ids) a = (a.0, page-All score (i + 1) room ids a.1)

    page-descending :
        IsFloat float
        → (i room : ℕ) (ids : List Bytes) → IsSorted (ranks_before float t.scores t.first_seen) ids
        → IsSorted (λ g h. float.less h.hit.score g.hit.score) (multi_page float t i room ids)
    unfolding multi_page
    page-descending f i room [] s = tt
    page-descending f i zero (id ∷ ids) s = tt
    page-descending f i (suc room) (id ∷ ids) s = (
      page-All (value_at float.zero id t.scores) (i + 1) room ids
          (All-map (λ y. not_before-score float f t.scores t.first_seen id y) ids s.0),
      page-descending f (i + 1) room ids s.1,
    )

  members : (xs : List Bytes) → All (λ x. mem x xs ≡ true) xs
  unfolding mem
  members [] = tt
  members (x ∷ xs) = (
    ground (arith, equal_refl x),
    All-map (λ y m. or_true (equal x y) (mem y xs) m) xs (members xs),
  )
    where
      or_true : (a b : Bool) → b ≡ true → (a || b) ≡ true
      or_true a b h = ground (arith, h)

  fuse_results-IsMulti :
      (walk : List Bytes → List Bytes) (limit : ℤ) (results : List (Bytes × List (StoreHit Num)))
      → IsFloat float
      → ((ids : List Bytes) → Permᴰ (walk ids) ids)
      → IsMulti (fused_limit limit) (fuse_results float walk limit results)
  unfolding fuse_results
  fuse_results-IsMulti walk limit results f w =
      let t = join_results float results (none_joined float) in
      let j = join_results-IsJoined results (none_joined float) none-IsJoined in
      let less = ranks_before float t.scores t.first_seen in
      let ids = keys t.scores in
      let sorted = sort_stable less (walk ids) in
      let p : Permᴰ sorted ids = trans (sort_stable-is_Permᴰ less (walk ids)) (w ids) in
      let room = fused_limit limit in
      let known : All (λ x. mem x ids ≡ true) sorted =
        All-map (λ x m. sym (mem-Permᴰ x p) ∙ m) sorted (members sorted) in
      record {
        ranked = page-ranked t 0 room sorted;
        apart =
            subst Distinct (sym (page-ids t j 0 room sorted known))
              (Distinct-take room sorted (Distinct-Permᴰ (Permᴰ.symm p) j.apart));
        bounded = page-bounded t 0 room sorted;
        descending = page-descending t f 0 room sorted (
            sort_stable-IsSorted less (ranks_before-IsOrder float f t.scores t.first_seen)
              (walk ids));
      }

  -- Where `MultiHybrid` succeeds, its hits have the ranks 1, 2, …, each id stands once, there are no
  -- more than the limit, or 20 where none is given, and no hit stands behind one with a lower score.
  pub multi_hybrid-IsMulti :
      {Failure Time : Type 0} (walk : List Bytes → List Bytes)
      (hybrid : Bytes → Filter Time → Result Failure (List (StoreHit Num)))
      (first_failure : Failure → List Failure → Failure) (expand : Bytes → List Bytes) (q : Bytes)
      (filter : Filter Time) (hits : List (MultiHit Num))
      → IsFloat float
      → ((ids : List Bytes) → Permᴰ (walk ids) ids)
      → multi_hybrid float walk hybrid first_failure expand q filter ≡ ok hits
      → IsMulti (fused_limit filter.limit) hits
  unfolding multi_hybrid
  multi_hybrid-IsMulti walk hybrid first_failure expand q filter hits f w h =
      let each = record filter { limit = sub_limit filter.limit } in
      let (results, got, made) =
        >>=-eq-ok
          (wait float walk hybrid first_failure expand
            (search_all float walk hybrid first_failure expand each (expand q)))
          _ h in
      subst (IsMulti (fused_limit filter.limit)) (ok-injective made)
        (fuse_results-IsMulti walk filter.limit results f w)
