-- ===== src/Similar/Page.antt =====
-- What a caller gets: hits other than the given concept, no more than the limit, ranked from 1 on.
use pixkb.Base.{
  Bytes, ℕ, zero, suc, ◌+◌, ◌-◌, ◌≤◌, ◌≡◌, refl, sym, ap, ◌∙◌, Bool, true, false, List, [], ◌∷◌,
  All, length, length-map, take, map, if◌then◌else◌, ◌==◌, arith, Bool-cases, inl, inr,
}
use pixkb.Text.Ascii.{equal}
use pixkb.Text.Number.{ℤ, pos, negsuc}
use pixkb.Similar.Hits.{StoreHit, Hit}
use pixkb.Similar.Select.{limit_of, renumber, select, tag_and_exclude}

-- the numbers behind `i`
abbrev pub count_from : ℕ → ℕ → List ℕ
count_from i zero = []
count_from i (suc n) = (i + 1) ∷ count_from (i + 1) n

length-take-le : {A : Type 0} (n : ℕ) (xs : List A) → length (take n xs) ≤ n
length-take-le zero xs = omega arith
length-take-le (suc n) [] = omega arith
length-take-le (suc n) (x ∷ xs) = omega (arith, length-take-le n xs)

All-if :
    {A : Type 0} (P : A → Type 0) (b : Bool) (xs : List A) → All P xs → All P (if b then [] else xs)
All-if P true xs h = tt
All-if P false xs h = h

pub one-le-limit_of : (limit : ℤ) → 1 ≤ limit_of limit
unfolding limit_of
one-le-limit_of (pos zero) = omega arith
one-le-limit_of (pos (suc n)) = omega arith
one-le-limit_of (negsuc n) = omega arith

module _ {Score : Type 0} where
  pub record IsPage (id : Bytes) (limit : ℕ) (hits : List (Hit Score)) : Type 0 where
    pub others : All (λ h. equal h.hit.id id ≡ false) hits
    pub bounded : length hits ≤ limit
    pub ranked : map (λ h. h.hit.rank) hits ≡ count_from 0 (length hits)

  -- the hits for other concepts
  unfoldable pub others_of : Bytes → List (StoreHit Score) → List (StoreHit Score)
  others_of id [] = []
  others_of id (h ∷ hs) = let rest = others_of id hs in if equal h.id id then rest else h ∷ rest

  abbrev pub tagged : (StoreHit Score → List Bytes) → StoreHit Score → Hit Score
  tagged why h = record { hit = h; why = why h }

  -- The loop takes the first hits for other concepts.
  pub select-eq :
      (why : StoreHit Score → List Bytes) (id : Bytes) (room : ℕ) (hits : List (StoreHit Score))
      → 1 ≤ room
      → select why id room hits ≡ map (tagged why) (take room (others_of id hits))
  unfolding select others_of
  select-eq why id zero hits h = absurd (omega arith)
  select-eq why id (suc room) [] h = refl
  select-eq why id (suc zero) (x ∷ hits) h = elim (Bool-cases (equal x.id id)) [
    | inl t ↦ rw t (select-eq why id 1 hits h)
    | inr f ↦ rw f refl
  ]
  select-eq why id (suc (suc room)) (x ∷ hits) h = elim (Bool-cases (equal x.id id)) [
    | inl t ↦ rw t (select-eq why id (suc (suc room)) hits h)
    | inr f ↦
        let some_left : (suc (suc room) == 1) ≡ false = ground arith in
        let one_less : suc (suc room) - 1 ≡ suc room = omega arith in
        rw (f, some_left, one_less)
          (ap (◌∷◌ (tagged why x)) (select-eq why id (suc room) hits (omega arith)))
  ]

  -- `tagAndExclude` gives the first hits for other concepts up to the limit, tagged, and ranked from
  -- 1 on.
  pub tag_and_exclude-eq :
      (hits : List (StoreHit Score)) (id why : Bytes) (limit : ℤ)
      → tag_and_exclude hits id why limit
        ≡ renumber 0 (map (tagged (λ h. why ∷ [])) (take (limit_of limit) (others_of id hits)))
  unfolding tag_and_exclude
  tag_and_exclude-eq hits id why limit =
      ap (renumber 0) (select-eq (λ h. why ∷ []) id (limit_of limit) hits (one-le-limit_of limit))

  length-renumber : (i : ℕ) (hs : List (Hit Score)) → length (renumber i hs) ≡ length hs
  unfolding renumber
  length-renumber i [] = refl
  length-renumber i (h ∷ hs) = ap suc (length-renumber (i + 1) hs)

  others-renumber :
      (id : Bytes) (i : ℕ) (hs : List (Hit Score))
      → All (λ h. equal h.hit.id id ≡ false) hs
      → All (λ h. equal h.hit.id id ≡ false) (renumber i hs)
  unfolding renumber
  others-renumber id i [] a = tt
  others-renumber id i (h ∷ hs) a = (a.0, others-renumber id (i + 1) hs a.1)

  ranks-renumber :
      (i : ℕ) (hs : List (Hit Score))
      → map (λ h. h.hit.rank) (renumber i hs) ≡ count_from i (length hs)
  unfolding renumber
  ranks-renumber i [] = refl
  ranks-renumber i (h ∷ hs) = ap (◌∷◌ (i + 1)) (ranks-renumber (i + 1) hs)

  pub renumber-IsPage :
      (id : Bytes) (limit : ℕ) (hs : List (Hit Score))
      → All (λ h. equal h.hit.id id ≡ false) hs
      → length hs ≤ limit
      → IsPage id limit (renumber 0 hs)
  renumber-IsPage id limit hs a l = record {
    others = others-renumber id 0 hs a;
    bounded = omega (arith, l, length-renumber 0 hs);
    ranked = ranks-renumber 0 hs ∙ ap (count_from 0) (sym (length-renumber 0 hs));
  }

  pub select-others :
      (why : StoreHit Score → List Bytes) (id : Bytes) (room : ℕ) (hits : List (StoreHit Score))
      → All (λ h. equal h.hit.id id ≡ false) (select why id room hits)
  unfolding select
  select-others why id room [] = tt
  select-others why id room (x ∷ hits) = elim (Bool-cases (equal x.id id)) [
    | inl t ↦ rw t (select-others why id room hits)
    | inr f ↦ rw f (
      f,
      All-if (λ h. equal h.hit.id id ≡ false) (room == 1) (select why id (room - 1) hits)
          (select-others why id (room - 1) hits),
    )
  ]

  pub select-bounded :
      (why : StoreHit Score → List Bytes) (id : Bytes) (room : ℕ) (hits : List (StoreHit Score))
      → 1 ≤ room
      → length (select why id room hits) ≤ room
  select-bounded why id room hits h =
      let all = others_of id hits in
      rw (select-eq why id room hits h)
        (omega (arith, length-map (tagged why) (take room all), length-take-le room all))
