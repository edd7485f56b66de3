-- ===== src/Epoch/Diff.antt =====
-- `diffSets` of internal/epoch/diff.go. The order in which Go walks a map is the parameter `walk`.
pub mod Meaning
use pixkb.Base.{Bytes, Bool, not, List, [], ◌∷◌, if◌then◌else◌}
use pixkb.Text.Ascii.{equal}
use pixkb.Fusion.Sort.{sort_stable}
use pixkb.Fusion.Rank.{text_less, value_at, has, keys}

pub record DiffResult : Type 0 where
  pub added : List Bytes
  pub changed : List Bytes
  pub removed : List Bytes

-- a map from ids to checksums
abbrev pub Shas : Type 0
Shas = List (Bytes × Bytes)

-- the loop over the new map: what is added, and what is changed
unfoldable pub added_and_changed : Shas → Shas → List Bytes → List Bytes × List Bytes
unfolding equal
added_and_changed old new [] = ([], [])
added_and_changed old new (id ∷ ids) =
    let (added, changed) = added_and_changed old new ids in
    if not (has id old)
    then (id ∷ added, changed)
    else if not (equal (value_at [] id old) (value_at [] id new))
    then (added, id ∷ changed)
    else (added, changed)

-- the loop over the old map
unfoldable pub removed_of : Shas → List Bytes → List Bytes
removed_of new [] = []
removed_of new (id ∷ ids) = let rest = removed_of new ids in if has id new then rest else id ∷ rest

unfoldable pub diff_sets : (List Bytes → List Bytes) → Shas → Shas → DiffResult
unfolding added_and_changed removed_of
diff_sets walk old new =
    let (added, changed) = added_and_changed old new (walk (keys new)) in
    record {
      added = sort_stable text_less added;
      changed = sort_stable text_less changed;
      removed = sort_stable text_less (removed_of new (walk (keys old)));
    }
