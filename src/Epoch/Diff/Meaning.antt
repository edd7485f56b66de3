-- ===== src/Epoch/Diff/Meaning.antt =====
-- What `diffSets` says of each id.
use mathlib.Core.List.{Permᴰ}
use mathlib.Core.List.Permᴰ
use pixkb.Base.{
  Bytes, ◌≡◌, refl, ap, ◌∙◌, Bool, not, ◌&&◌, List, [], ◌∷◌, arith, Bool-cases, inl, inr,
}
use pixkb.Text.Ascii.{equal}
use pixkb.Text.Ascii.Equal.{equal_iff}
use pixkb.Text.Members.{mem, Distinct}
use pixkb.Fusion.Sort.{sort_stable, IsSorted, sort_stable-IsSorted, sort_stable-is_Permᴰ}
use pixkb.Fusion.Rank.{text_less, text_less-IsOrder, value_at, has, keys}
use pixkb.Fusion.Keys.{mem-keys, mem-Permᴰ, Distinct-Permᴰ}
use pixkb.Epoch.Diff.{DiffResult, Shas, added_and_changed, removed_of, diff_sets}

module _ (old new : Shas) where
  -- an id of both maps whose checksums differ
  abbrev pub differs : Bytes → Bool
  differs x = has x old && not (equal (value_at [] x old) (value_at [] x new))

  mem-added :
      (x : Bytes) (ids : List Bytes)
      → mem x (added_and_changed old new ids).0 ≡ mem x ids && not (has x old)
  unfolding added_and_changed mem
  mem-added x [] = refl
  mem-added x (id ∷ ids) = elim (Bool-cases (equal id x)) [
    | inl e ↦
        let here : has id old ≡ has x old = ap (λ y. has y old) ((equal_iff id x).0 e) in
        ground (arith, e, here, mem-added x ids)
    | inr n ↦ ground (arith, n, mem-added x ids)
  ]

  mem-changed :
      (x : Bytes) (ids : List Bytes)
      → mem x (added_and_changed old new ids).1 ≡ mem x ids && differs x
  unfolding added_and_changed mem
  mem-changed x [] = refl
  mem-changed x (id ∷ ids) = elim (Bool-cases (equal id x)) [
    | inl e ↦
        let here : differs id ≡ differs x = ap differs ((equal_iff id x).0 e) in
        ground (arith, e, here, mem-changed x ids)
    | inr n ↦ ground (arith, n, mem-changed x ids)
  ]

  mem-removed :
      (x : Bytes) (ids : List Bytes) → mem x (removed_of new ids) ≡ mem x ids && not (has x new)
  unfolding removed_of mem
  mem-removed x [] = refl
  mem-removed x (id ∷ ids) = elim (Bool-cases (equal id x)) [
    | inl e ↦
        let here : has id new ≡ has x new = ap (λ y. has y new) ((equal_iff id x).0 e) in
        ground (arith, e, here, mem-removed x ids)
    | inr n ↦ ground (arith, n, mem-removed x ids)
  ]

  Distinct-added :
      (ids : List Bytes)
      → Distinct ids
      → Distinct (added_and_changed old new ids).0 × Distinct (added_and_changed old new ids).1
  unfolding added_and_changed
  Distinct-added [] d = (tt, tt)
  Distinct-added (id ∷ ids) d =
      let (a, c) = Distinct-added ids d.1 in
      elim (Bool-cases (has id old)) [
        | inr n ↦ rw n ((mem-added id ids ∙ ground (arith, d.0), a), c)
        | inl o ↦ elim (Bool-cases (equal (value_at [] id old) (value_at [] id new))) [
          | inl s ↦ rw (o, s) (a, c)
          | inr s ↦ rw (o, s) (a, (mem-changed id ids ∙ ground (arith, d.0), c))
        ]
      ]

  Distinct-removed : (ids : List Bytes) → Distinct ids → Distinct (removed_of new ids)
  unfolding removed_of
  Distinct-removed [] d = tt
  Distinct-removed (id ∷ ids) d = elim (Bool-cases (has id new)) [
    | inl o ↦ rw o (Distinct-removed ids d.1)
    | inr n ↦ rw n (mem-removed id ids ∙ ground (arith, d.0), Distinct-removed ids d.1)
  ]

  -- a list of ids that is sorted and has each once
  abbrev pub IsIdSet : List Bytes → Type 0
  IsIdSet ids = IsSorted text_less ids × Distinct ids

  pub record IsDiff (d : DiffResult) : Type 0 where
    pub added : (x : Bytes) → mem x d.added ≡ has x new && not (has x old)
    pub changed : (x : Bytes) → mem x d.changed ≡ has x new && differs x
    pub removed : (x : Bytes) → mem x d.removed ≡ has x old && not (has x new)
    pub added-IsIdSet : IsIdSet d.added
    pub changed-IsIdSet : IsIdSet d.changed
    pub removed-IsIdSet : IsIdSet d.removed

IsSorted-IsIdSet :
    (ids : List Bytes)
    → Distinct ids
    → IsSorted text_less (sort_stable text_less ids) × Distinct (sort_stable text_less ids)
IsSorted-IsIdSet ids d = (
  sort_stable-IsSorted text_less text_less-IsOrder ids,
  Distinct-Permᴰ (Permᴰ.symm (sort_stable-is_Permᴰ text_less ids)) d,
)

-- For maps, which have each key once, and in whatever order they are walked: an id is added exactly
-- if only the new map has it, changed exactly if both have it with different checksums, and removed
-- exactly if only the old map has it; and each of the three lists is sorted and has each id once.
pub diff_sets-IsDiff :
    (walk : List Bytes → List Bytes) (old new : Shas)
    → ((ids : List Bytes) → Permᴰ (walk ids) ids)
    → Distinct (keys old)
    → Distinct (keys new)
    → IsDiff old new (diff_sets walk old new)
unfolding diff_sets
diff_sets-IsDiff walk old new w o n =
    let ids = walk (keys new) in
    let gone = walk (keys old) in
    let in_new : (x : Bytes) → mem x ids ≡ has x new =
      λ x. mem-Permᴰ x (w (keys new)) ∙ mem-keys x new in
    let in_old : (x : Bytes) → mem x gone ≡ has x old =
      λ x. mem-Permᴰ x (w (keys old)) ∙ mem-keys x old in
    let once = Distinct-added old new ids (Distinct-Permᴰ (Permᴰ.symm (w (keys new))) n) in
    let sorted = λ (x : Bytes) (l : List Bytes). mem-Permᴰ x (sort_stable-is_Permᴰ text_less l) in
    record {
      added = λ x. sorted x _ ∙ mem-added old new x ids ∙ ap (λ b. b && not (has x old)) (in_new x);
      changed =
          λ x. sorted x _ ∙ mem-changed old new x ids ∙ ap (λ b. b && differs old new x) (in_new x);
      removed =
          λ x. sorted x _ ∙ mem-removed old new x gone ∙ ap (λ b. b && not (has x new)) (in_old x);
      added-IsIdSet = IsSorted-IsIdSet _ once.0;
      changed-IsIdSet = IsSorted-IsIdSet _ once.1;
      removed-IsIdSet =
          IsSorted-IsIdSet _
            (Distinct-removed old new gone (Distinct-Permᴰ (Permᴰ.symm (w (keys old))) o));
    }
