-- ===== src/Fusion/Rank.antt =====
-- The order of the fused ids: a greater score first, then what was seen first, then the lesser id.
-- Floating-point numbers are a parameter, as is the order in which Go walks a map.
use pixkb.Base.{
  Bytes, ℕ, ◌≡◌, ◌↔◌, refl, Bool, true, false, not, ◌||◌, List, [], ◌∷◌, map, ltb, ◌==◌,
  if◌then◌else◌, arith, ◌⊎◌, inl, inr,
}
use pixkb.Text.Ascii.{equal}
use pixkb.Fusion.Sort.{IsOrder}

-- `float64`, with what the code uses of it
pub record Float : Type 1 where
  pub Num : Type 0
  pub zero : Num
  pub add : Num → Num → Num
  -- `1.0 / float64(n)`
  pub reciprocal : ℕ → Num
  -- `a < b`, and `a == b`
  pub less : Num → Num → Bool
  pub same : Num → Num → Bool

-- What holds of the comparisons of numbers other than NaN.
pub record IsFloat (float : Float) : Type 0 where
  pub order : IsOrder float.less
  pub same_iff : (a b : float.Num) → (float.same a b ≡ true) ↔ (a ≡ b)

-- `a < b` on strings
unfoldable pub text_less : Bytes → Bytes → Bool
text_less [] [] = false
text_less [] (y ∷ b) = true
text_less (x ∷ a) [] = false
text_less (x ∷ a) (y ∷ b) = let rest = text_less a b in if x == y then rest else ltb x y

-- the entries of a map from ids
unfoldable pub value_at : {V : Type 0} → V → Bytes → List (Bytes × V) → V
value_at missing id [] = missing
value_at missing id ((key, v) ∷ l) = if equal key id then v else value_at missing id l

unfoldable pub has : {V : Type 0} → Bytes → List (Bytes × V) → Bool
has id [] = false
has id ((key, v) ∷ l) = equal key id || has id l

-- `m[id] = v`
unfoldable pub set : {V : Type 0} → Bytes → V → List (Bytes × V) → List (Bytes × V)
set id v [] = (id, v) ∷ []
set id v ((key, w) ∷ l) = if equal key id then (key, v) ∷ l else (key, w) ∷ set id v l

unfoldable pub keys : {V : Type 0} → List (Bytes × V) → List Bytes
keys l = map (λ e. e.0) l

module _ (float : Float) where
  open float use {Num, zero, less, same}

  -- the function that `sort.SliceStable` is given
  unfoldable pub ranks_before : List (Bytes × Num) → List (Bytes × ℕ) → Bytes → Bytes → Bool
  ranks_before scores first_seen i j =
      let si = value_at zero i scores in
      let sj = value_at zero j scores in
      let oi = value_at 0 i first_seen in
      let oj = value_at 0 j first_seen in
      if not (same si sj) then less sj si else if not (oi == oj) then ltb oi oj else text_less i j

text_less-irreflexive : (a : Bytes) → text_less a a ≡ false
unfolding text_less
text_less-irreflexive [] = refl
text_less-irreflexive (x ∷ a) = ground (arith, text_less-irreflexive a)

text_less-transitive :
    (a b c : Bytes) → text_less a b ≡ true → text_less b c ≡ true → text_less a c ≡ true
unfolding text_less
text_less-transitive [] [] c h k = cc
text_less-transitive [] (y ∷ b) [] h k = cc
text_less-transitive [] (y ∷ b) (z ∷ c) h k = refl
text_less-transitive (x ∷ a) [] c h k = cc
text_less-transitive (x ∷ a) (y ∷ b) [] h k = cc
text_less-transitive (x ∷ a) (y ∷ b) (z ∷ c) h k = ground (arith, text_less-transitive a b c)

text_less-total : (a b : Bytes) → (a ≡ b) ⊎ (text_less a b ≡ true) ⊎ (text_less b a ≡ true)
unfolding text_less
text_less-total [] [] = inl refl
text_less-total [] (y ∷ b) = inr (inl refl)
text_less-total (x ∷ a) [] = inr (inr refl)
text_less-total (x ∷ a) (y ∷ b) = ground (arith, text_less-total a b)

pub text_less-IsOrder : IsOrder text_less
text_less-IsOrder = record {
  irreflexive = text_less-irreflexive;
  transitive = text_less-transitive;
  total = text_less-total;
}

module _ (float : Float) (is_float : IsFloat float) where
  open float use {Num, zero, less, same}

  -- the comparison by three keys, of which the last one is the id
  before : Num → Num → ℕ → ℕ → Bytes → Bytes → Bool
  before si sj oi oj i j =
      if not (same si sj) then less sj si else if not (oi == oj) then ltb oi oj else text_less i j

  before-irreflexive : (s : Num) (o : ℕ) (i : Bytes) → before s s o o i i ≡ false
  unfolding before
  before-irreflexive s o i = ground (arith, is_float.same_iff s s, text_less-irreflexive i)

  before-transitive :
      (si sj sk : Num) (oi oj ok : ℕ) (i j k : Bytes)
      → before si sj oi oj i j ≡ true
      → before sj sk oj ok j k ≡ true
      → before si sk oi ok i k ≡ true
  unfolding before
  before-transitive si sj sk oi oj ok i j k h l = ground (
    arith,
    is_float.same_iff si sj,
    is_float.same_iff sj sk,
    is_float.same_iff si sk,
    is_float.order.transitive sk sj si,
    is_float.order.irreflexive si,
    is_float.order.irreflexive sj,
    text_less-transitive i j k,
  )

  before-total :
      (si sj : Num) (oi oj : ℕ) (i j : Bytes)
      → (i ≡ j) ⊎ (before si sj oi oj i j ≡ true) ⊎ (before sj si oj oi j i ≡ true)
  unfolding before
  before-total si sj oi oj i j = ground (
    arith,
    is_float.same_iff si sj,
    is_float.same_iff sj si,
    is_float.order.total si sj,
    text_less-total i j,
  )

  -- The ids are in a strict total order, whatever the maps hold.
  pub ranks_before-IsOrder :
      (scores : List (Bytes × Num)) (first_seen : List (Bytes × ℕ))
      → IsOrder (ranks_before float scores first_seen)
  unfolding ranks_before before
  ranks_before-IsOrder scores first_seen = record {
    irreflexive = λ i. before-irreflexive (value_at zero i scores) (value_at 0 i first_seen) i;
    transitive = λ i j k.
        before-transitive (value_at zero i scores) (value_at zero j scores) (value_at zero k scores)
          (value_at 0 i first_seen) (value_at 0 j first_seen) (value_at 0 k first_seen) i j k;
    total = λ i j.
        before-total (value_at zero i scores) (value_at zero j scores) (value_at 0 i first_seen)
          (value_at 0 j first_seen) i j;
  }

  -- What does not come before an id has no greater score.
  pub not_before-score :
      (scores : List (Bytes × Num)) (first_seen : List (Bytes × ℕ)) (x y : Bytes)
      → ranks_before float scores first_seen y x ≡ false
      → less (value_at zero x scores) (value_at zero y scores) ≡ false
  unfolding ranks_before
  not_before-score scores first_seen x y h =
      let sx = value_at zero x scores in
      ground
        (arith, h, is_float.same_iff (value_at zero y scores) sx, is_float.order.irreflexive sx)
