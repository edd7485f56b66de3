-- ===== src/Fusion/Rrf/Keys.antt =====
-- The ids that `RRF` counts.
use pixkb.Base.{
  Bytes, ℕ, suc, ◌≡◌, refl, sym, ap, ◌∙◌, List, [], ◌∷◌, ◌++◌, if◌then◌else◌, Bool-cases, inl, inr,
}
use pixkb.Text.Ascii.{equal}
use pixkb.Text.Number.{ℤ}
use pixkb.Fusion.Rank.{Float, set, keys}
use pixkb.Fusion.Rrf.{Tally, offset, tally, count_id, count_list, count_lists}

-- The ids behind `seen` that are new, once each, in the order of their first place.
unfoldable pub add_new : List Bytes → Bytes → List Bytes
add_new [] id = id ∷ []
add_new (key ∷ seen) id = if equal key id then key ∷ seen else key ∷ add_new seen id

unfoldable pub distinct_from : List Bytes → List Bytes → List Bytes
unfolding add_new
distinct_from seen [] = seen
distinct_from seen (id ∷ ids) = distinct_from (add_new seen id) ids

unfoldable pub concat : List (List Bytes) → List Bytes
concat [] = []
concat (ids ∷ lists) = ids ++ concat lists

pub keys-set :
    {V : Type 0} (id : Bytes) (v : V) (l : List (Bytes × V))
    → keys (set id v l) ≡ add_new (keys l) id
unfolding keys set add_new
keys-set id v [] = refl
keys-set id v ((key, w) ∷ l) = elim (Bool-cases (equal key id)) [
  | inl t ↦ rw t refl
  | inr f ↦ rw f (ap (◌∷◌ key) (keys-set id v l))
]

pub distinct_from-append :
    (seen xs ys : List Bytes)
    → distinct_from seen (xs ++ ys) ≡ distinct_from (distinct_from seen xs) ys
unfolding distinct_from
distinct_from-append seen [] ys = refl
distinct_from-append seen (x ∷ xs) ys = distinct_from-append (add_new seen x) xs ys

module _ (float : Float) where
  open float use {Num}

  keys-count_list :
      (n : ℕ) (ids : List Bytes) (t : Tally Num)
      → keys (count_list float n ids t).scores ≡ distinct_from (keys t.scores) ids
  unfolding count_list count_id distinct_from
  keys-count_list n [] t = refl
  keys-count_list n (id ∷ ids) t =
      keys-count_list (suc n) ids (count_id float n id t)
      ∙ ap (λ s. distinct_from s ids) (keys-set id _ t.scores)

  keys-count_lists :
      (k : ℕ) (lists : List (List Bytes)) (t : Tally Num)
      → keys (count_lists float k lists t).scores ≡ distinct_from (keys t.scores) (concat lists)
  unfolding count_lists concat distinct_from
  keys-count_lists k [] t = refl
  keys-count_lists k (list ∷ lists) t =
      keys-count_lists k lists (count_list float k list t)
      ∙ ap (λ s. distinct_from s (concat lists)) (keys-count_list k list t)
      ∙ sym (distinct_from-append (keys t.scores) list (concat lists))

  pub keys-tally :
      (lists : List (List Bytes)) (k : ℤ)
      → keys (tally float lists k).scores ≡ distinct_from [] (concat lists)
  unfolding tally keys
  keys-tally lists k =
      keys-count_lists (offset k) lists (record { scores = []; first_seen = []; order = 0 })
