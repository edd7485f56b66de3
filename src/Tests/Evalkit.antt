-- ===== src/Tests/Evalkit.antt =====
-- Metrics of a page of three hits.
use pixkb.Base.{codes, ◌≡◌, refl, true, ◌||◌, ◌==◌, [], ◌∷◌, All, arith}
use pixkb.Text.Ascii.{equal}
use pixkb.Text.Members.{mem}
use pixkb.Evalkit.Metrics.{present, found_from, coverage, better, best_from, best_rank}
use pixkb.Evalkit.Metrics.Best.{attained, AtBest, best_rank-IsBest}
use pixkb.Tests.Similar.{store_hits}

one_of_two : coverage store_hits (codes "a" ∷ codes "z" ∷ []) ≡ (1, 2)
unfolding coverage present found_from mem equal
one_of_two = refl

second : best_rank store_hits (codes "b" ∷ []) ≡ 2
unfolding best_rank best_from better mem equal
second = refl

best_rank-IsBest_example :
    All (AtBest (best_rank store_hits (codes "b" ∷ [])) (codes "b" ∷ [])) store_hits
    × ((best_rank store_hits (codes "b" ∷ []) == 0)
          || attained (best_rank store_hits (codes "b" ∷ [])) (codes "b" ∷ []) store_hits
        ≡ true)
best_rank-IsBest_example =
    best_rank-IsBest store_hits (codes "b" ∷ []) (ground arith, (ground arith, (ground arith, tt)))
