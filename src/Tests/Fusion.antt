-- ===== src/Tests/Fusion.antt =====
-- Two ranked lists, with fractions counted in millionths.
use pixkb.Base.{false, Bytes, codes, ℕ, ◌+◌, ◌/◌, ◌≡◌, refl, List, [], ◌∷◌, ltb, ◌==◌, arith}
use pixkb.Text.Ascii.{equal}
use pixkb.Text.Number.{pos}
use pixkb.Fusion.Sort.{insert, sort_stable}
use pixkb.Fusion.Rank.{Float, IsFloat, value_at, has, set, keys, ranks_before}
use pixkb.Fusion.Rrf.{count_id, count_list, count_lists, tally, rrf, offset, rrf-walk}
use pixkb.Fusion.Rrf.Keys.{distinct_from, concat}
use pixkb.Fusion.Rrf.Ordered.{InOrder, rrf-InOrder}
use mathlib.Core.List.{Permᴰ, reverse}
use mathlib.Core.List.Permᴰ

abbrev pub millionths : Float
millionths = record {
  Num = ℕ;
  zero = 0;
  add = λ a b. a + b;
  reciprocal = λ n. 1_000_000 / n;
  less = ltb;
  same = λ a b. a == b;
}

pub millionths-IsFloat : IsFloat millionths
millionths-IsFloat = record {
  order = record {
    irreflexive = λ a. ground arith;
    transitive = λ a b c h k. ground arith;
    total = λ a b. ground arith;
  };
  same_iff = λ a b. ground arith;
}

abbrev two_lists : List (List Bytes)
two_lists = (codes "a" ∷ codes "b" ∷ []) ∷ (codes "b" ∷ codes "c" ∷ []) ∷ []

both_lists_first :
    rrf millionths (λ ids. ids) two_lists (pos 0) ≡ codes "b" ∷ codes "a" ∷ codes "c" ∷ []
unfolding rrf tally offset count_lists count_list count_id value_at has set keys ranks_before
    sort_stable insert equal
both_lists_first = refl

rrf-walk_example :
    rrf millionths (λ ids. ids) two_lists (pos 0) ≡ rrf millionths reverse two_lists (pos 0)
rrf-walk_example =
    rrf-walk millionths (λ ids. ids) reverse two_lists (pos 0) millionths-IsFloat Permᴰ.refl
      Permᴰ.reverse

rrf-InOrder_example :
    Permᴰ (rrf millionths reverse two_lists (pos 0)) (distinct_from [] (concat two_lists))
    × InOrder millionths two_lists (pos 0) (rrf millionths reverse two_lists (pos 0))
rrf-InOrder_example =
    rrf-InOrder millionths reverse two_lists (pos 0) millionths-IsFloat Permᴰ.reverse

-- Where none comes before another one, the order stays.
kept_order : sort_stable {A = ℕ} (λ a b. false) (3 ∷ 1 ∷ 2 ∷ []) ≡ 3 ∷ 1 ∷ 2 ∷ []
unfolding sort_stable insert
kept_order = refl
