-- ===== src/Fusion/Rrf/Scored.antt =====
-- The scores and the places that `RRF` counts in its maps, described without maps.
use pixkb.Base.{
  Bytes, ℕ, suc, ◌+◌, ◌≡◌, refl, sym, ap, ◌∙◌, List, [], ◌∷◌, ◌++◌, length, if◌then◌else◌, arith,
  Bool-cases, inl, inr,
}
use pixkb.Text.Ascii.{equal}
use pixkb.Text.Ascii.Equal.{equal_iff}
use pixkb.Text.Number.{ℤ}
use pixkb.Text.Members.{Distinct}
use pixkb.Fusion.Rank.{Float, value_at, has, set, keys}
use pixkb.Fusion.Keys.{Distinct-set, value_at-set-same, value_at-set-other}
use pixkb.Fusion.Rrf.{Tally, offset, count_id, count_list, count_lists, tally}
use pixkb.Fusion.Rrf.Keys.{add_new, distinct_from, distinct_from-append, concat}

-- the ids with their places, counted from `i`
unfoldable pub number : ℕ → List Bytes → List (Bytes × ℕ)
number i [] = []
number i (id ∷ ids) = (id, i) ∷ number (suc i) ids

-- the place of an id among the ids of the lists, of which each counts where it stands first
unfoldable pub place : List (List Bytes) → Bytes → ℕ
unfolding value_at number distinct_from concat
place lists id = value_at 0 id (number 0 (distinct_from [] (concat lists)))

module _ (float : Float) where
  open float use {Num, add, reciprocal}

  -- what the id gets from one list: the reciprocal of `n` and its rank, for each place it stands at
  unfoldable pub terms : ℕ → Bytes → List Bytes → List Num
  unfolding equal
  terms n id [] = []
  terms n id (x ∷ xs) =
      let rest = terms (suc n) id xs in if equal x id then reciprocal n ∷ rest else rest

  unfoldable pub all_terms : ℕ → Bytes → List (List Bytes) → List Num
  unfolding terms
  all_terms k id [] = []
  all_terms k id (list ∷ lists) = terms k id list ++ all_terms k id lists

  unfoldable pub total : Num → List Num → Num
  total sum [] = sum
  total sum (t ∷ ts) = total (add sum t) ts

  -- the sum over the lists of `1/(k + rank)`, from left to right
  unfoldable pub score : List (List Bytes) → ℤ → Bytes → Num
  unfolding all_terms total
  score lists k id = total float.zero (all_terms (offset k) id lists)

  total-append : (sum : Num) (ts us : List Num) → total sum (ts ++ us) ≡ total (total sum ts) us
  unfolding total
  total-append sum [] us = refl
  total-append sum (t ∷ ts) us = total-append (add sum t) ts us

  score-count_list :
      (n : ℕ) (ids : List Bytes) (t : Tally Num) (id : Bytes)
      → value_at float.zero id (count_list float n ids t).scores
        ≡ total (value_at float.zero id t.scores) (terms n id ids)
  unfolding count_list count_id terms total
  score-count_list n [] t id = refl
  score-count_list n (x ∷ xs) t id =
      let more : Num = add (value_at float.zero x t.scores) (reciprocal n) in
      score-count_list (suc n) xs (count_id float n x t) id ∙ elim (Bool-cases (equal x id)) [
        | inl e ↦
            let same : x ≡ id = (equal_iff x id).0 e in
            rw e (
              ap (λ v. total v (terms (suc n) id xs))
                (ap (λ i. value_at float.zero i (set x more t.scores)) (sym same)
                  ∙ value_at-set-same float.zero x more t.scores
                  ∙ ap (λ i. add (value_at float.zero i t.scores) (reciprocal n)) same))
        | inr f ↦ rw f (
            ap (λ v. total v (terms (suc n) id xs))
              (value_at-set-other float.zero id x more t.scores f))
      ]

  score-count_lists :
      (k : ℕ) (lists : List (List Bytes)) (t : Tally Num) (id : Bytes)
      → value_at float.zero id (count_lists float k lists t).scores
        ≡ total (value_at float.zero id t.scores) (all_terms k id lists)
  unfolding count_lists all_terms total
  score-count_lists k [] t id = refl
  score-count_lists k (list ∷ lists) t id =
      score-count_lists k lists (count_list float k list t) id
      ∙ ap (λ v. total v (all_terms k id lists)) (score-count_list k list t id)
      ∙ sym
          (total-append (value_at float.zero id t.scores) (terms k id list) (all_terms k id lists))

  -- The map of scores holds the sums.
  pub tally-score :
      (lists : List (List Bytes)) (k : ℤ) (id : Bytes)
      → value_at float.zero id (tally float lists k).scores ≡ score lists k id
  unfolding tally score value_at
  tally-score lists k id =
      score-count_lists (offset k) lists (record { scores = []; first_seen = []; order = 0 }) id

  -- the ids that were seen so far, with their places
  record IsNumbered (t : Tally Num) (ids : List Bytes) : Type 0 where
    seen : t.first_seen ≡ number 0 ids
    next : t.order ≡ length ids

  set-number :
      (i : ℕ) (id : Bytes) (ids : List Bytes) (o : ℕ)
      → o ≡ i + length ids
      → (if has id (number i ids) then number i ids else set id o (number i ids))
        ≡ number i (add_new ids id)
  unfolding number has set add_new
  set-number i id [] o e = ap (λ n. (id, n) ∷ []) (omega (arith, e))
  set-number i id (x ∷ xs) o e =
      let ih = set-number (suc i) id xs o (omega (arith, e)) in
      elim (Bool-cases (equal x id)) [
        | inl t ↦ rw t refl
        | inr f ↦ elim (Bool-cases (has id (number (suc i) xs))) [
          | inl t ↦ rw (f, t) (ap (◌∷◌ (x, i)) (rw t at ih))
          | inr g ↦ rw (f, g) (ap (◌∷◌ (x, i)) (rw g at ih))
        ]
      ]

  count-number :
      (i : ℕ) (id : Bytes) (ids : List Bytes)
      → (if has id (number i ids) then length ids else length ids + 1) ≡ length (add_new ids id)
  unfolding number has add_new
  count-number i id [] = refl
  count-number i id (x ∷ xs) = ground (arith, count-number (suc i) id xs)

  count_id-IsNumbered :
      (n : ℕ) (id : Bytes) (t : Tally Num) (ids : List Bytes)
      → IsNumbered t ids
      → IsNumbered (count_id float n id t) (add_new ids id)
  unfolding count_id
  count_id-IsNumbered n id t ids h = record {
    seen =
        ap (λ l. if has id l then l else set id t.order l) h.seen
        ∙ ap (λ o. if has id (number 0 ids) then number 0 ids else set id o (number 0 ids)) h.next
        ∙ set-number 0 id ids (length ids) (omega arith);
    next =
        ap (λ l. if has id l then t.order else t.order + 1) h.seen
        ∙ ap (λ o. if has id (number 0 ids) then o else o + 1) h.next
        ∙ count-number 0 id ids;
  }

  count_list-IsNumbered :
      (n : ℕ) (list : List Bytes) (t : Tally Num) (ids : List Bytes)
      → IsNumbered t ids
      → IsNumbered (count_list float n list t) (distinct_from ids list)
  unfolding count_list distinct_from
  count_list-IsNumbered n [] t ids h = h
  count_list-IsNumbered n (id ∷ list) t ids h =
      count_list-IsNumbered (suc n) list (count_id float n id t) (add_new ids id)
        (count_id-IsNumbered n id t ids h)

  count_lists-IsNumbered :
      (k : ℕ) (lists : List (List Bytes)) (t : Tally Num) (ids : List Bytes)
      → IsNumbered t ids
      → IsNumbered (count_lists float k lists t) (distinct_from ids (concat lists))
  unfolding count_lists distinct_from concat
  count_lists-IsNumbered k [] t ids h = h
  count_lists-IsNumbered k (list ∷ lists) t ids h =
      rw (distinct_from-append ids list (concat lists)) (
        count_lists-IsNumbered k lists (count_list float k list t) (distinct_from ids list)
          (count_list-IsNumbered k list t ids h))

  -- The map of first places holds them.
  pub tally-place :
      (lists : List (List Bytes)) (k : ℤ) (id : Bytes)
      → value_at 0 id (tally float lists k).first_seen ≡ place lists id
  unfolding tally place number
  tally-place lists k id =
      let start : Tally Num = record { scores = []; first_seen = []; order = 0 } in
      ap (λ l. value_at 0 id l)
        (count_lists-IsNumbered (offset k) lists start []
          (record { seen = refl; next = refl })).seen

  count_list-Distinct :
      (n : ℕ) (list : List Bytes) (t : Tally Num)
      → Distinct (keys t.scores)
      → Distinct (keys (count_list float n list t).scores)
  unfolding count_list count_id
  count_list-Distinct n [] t d = d
  count_list-Distinct n (id ∷ list) t d =
      count_list-Distinct (suc n) list (count_id float n id t) (Distinct-set id _ t.scores d)

  count_lists-Distinct :
      (k : ℕ) (lists : List (List Bytes)) (t : Tally Num)
      → Distinct (keys t.scores)
      → Distinct (keys (count_lists float k lists t).scores)
  unfolding count_lists
  count_lists-Distinct k [] t d = d
  count_lists-Distinct k (list ∷ lists) t d =
      count_lists-Distinct k lists (count_list float k list t) (count_list-Distinct k list t d)

  pub tally-Distinct :
      (lists : List (List Bytes)) (k : ℤ) → Distinct (keys (tally float lists k).scores)
  unfolding tally keys
  tally-Distinct lists k =
      count_lists-Distinct (offset k) lists (record { scores = []; first_seen = []; order = 0 }) tt
