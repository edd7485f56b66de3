-- ===== src/Tests/Epoch.antt =====
-- Two snapshots with three ids.
use mathlib.Core.List.{reverse}
use mathlib.Core.List.Permᴰ
use pixkb.Base.{codes, ◌≡◌, refl, [], ◌∷◌}
use pixkb.Text.Ascii.{equal}
use pixkb.Text.Members.{mem, Distinct}
use pixkb.Fusion.Sort.{insert, sort_stable}
use pixkb.Fusion.Rank.{text_less, value_at, has, keys}
use pixkb.Epoch.Diff.{Shas, added_and_changed, removed_of, diff_sets}
use pixkb.Epoch.Diff.Meaning.{IsDiff, diff_sets-IsDiff}

abbrev old : Shas
old = (codes "a", codes "1") ∷ (codes "b", codes "1") ∷ []

abbrev new : Shas
new = (codes "c", codes "1") ∷ (codes "b", codes "2") ∷ []

one_of_each :
    diff_sets reverse old new
    ≡ record { added = codes "c" ∷ []; changed = codes "b" ∷ []; removed = codes "a" ∷ [] }
unfolding diff_sets added_and_changed removed_of has value_at keys sort_stable insert text_less
    equal
one_of_each = refl

old-Distinct : Distinct (keys old)
unfolding keys mem equal
old-Distinct = (refl, (refl, tt))

new-Distinct : Distinct (keys new)
unfolding keys mem equal
new-Distinct = (refl, (refl, tt))

diff_sets-IsDiff_example : IsDiff old new (diff_sets reverse old new)
diff_sets-IsDiff_example = diff_sets-IsDiff reverse old new Permᴰ.reverse old-Distinct new-Distinct
