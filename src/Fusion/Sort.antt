-- ===== src/Fusion/Sort.antt =====
-- `sort.SliceStable` as a stable insertion sort. Where the comparison is a strict total order, the
-- order that the slice comes in does not matter.
use pixkb.Base.{
  subst, ◌≡◌, refl, sym, ap, ◌∙◌, Bool, true, false, List, [], ◌∷◌, ◌⊎◌, inl, inr, if◌then◌else◌,
  Bool-cases, All, All-map,
}
use mathlib.Core.List.{Permᴰ}
use mathlib.Core.List.Permᴰ
use mathlib.Core.List.Permᴰ.{nil, cons, swap, trans}

-- a strict total order
pub record IsOrder {A : Type 0} (less : A → A → Bool) : Type 0 where
  pub irreflexive : (a : A) → less a a ≡ false
  pub transitive : (a b c : A) → less a b ≡ true → less b c ≡ true → less a c ≡ true
  pub total : (a b : A) → (a ≡ b) ⊎ (less a b ≡ true) ⊎ (less b a ≡ true)

pub All-Permᴰ : {A : Type 0} (P : A → Type 0) {l₁ l₂ : List A} → Permᴰ l₁ l₂ → All P l₁ → All P l₂
All-Permᴰ P nil h = tt
All-Permᴰ P (cons e p) h = (subst P e h.0, All-Permᴰ P p h.1)
All-Permᴰ P (swap e f) h = (subst P f h.1.0, (subst P e h.0, h.1.1))
All-Permᴰ P (trans p q) h = All-Permᴰ P q (All-Permᴰ P p h)

module _ {A : Type 0} (less : A → A → Bool) where
  -- before the first element that is not lesser, so that equal elements keep their order
  unfoldable pub insert : A → List A → List A
  insert x [] = x ∷ []
  insert x (y ∷ ys) = let rest = insert x ys in if less y x then y ∷ rest else x ∷ y ∷ ys

  unfoldable pub sort_stable : List A → List A
  unfolding insert
  sort_stable [] = []
  sort_stable (x ∷ xs) = insert x (sort_stable xs)

  -- no element stands behind one that it comes before
  abbrev pub IsSorted : List A → Type 0
  IsSorted [] = Unit
  IsSorted (x ∷ xs) = All (λ y. less y x ≡ false) xs × IsSorted xs

  module _ (order : IsOrder less) where
    open order use {irreflexive, transitive, total}

    asymmetric : (a b : A) → less a b ≡ true → less b a ≡ false
    asymmetric a b h = elim (Bool-cases (less b a)) [
      | inr f ↦ f
      | inl t ↦ cc (transitive a b a h t, irreflexive a)
    ]

    -- what is not lesser is the same or greater
    not_less : (a b : A) → less b a ≡ false → (a ≡ b) ⊎ (less a b ≡ true)
    not_less a b h = elim (total a b) [
      | inl same ↦ inl same
      | inr (inl t) ↦ inr t
      | inr (inr t) ↦ cc (t, h)
    ]

    behind : (x y z : A) → less y x ≡ false → less z y ≡ false → less z x ≡ false
    behind x y z h k = elim (not_less x y h) [
      | inl same ↦ rw same k
      | inr t ↦ elim (Bool-cases (less z x)) [ inr f ↦ f | inl u ↦ cc (transitive z x y u t, k) ]
    ]

    insert_comm-less :
        (a b : A) (l : List A) → less a b ≡ true → insert a (insert b l) ≡ insert b (insert a l)
    unfolding insert
    insert_comm-less a b [] h = rw (h, asymmetric a b h) refl
    insert_comm-less a b (y ∷ ys) h = elim (Bool-cases (less y a)) [
      | inl t ↦
          let u = transitive y a b t h in rw (u, t, u) (ap (◌∷◌ y) (insert_comm-less a b ys h))
      | inr f ↦ elim (Bool-cases (less y b)) [
        | inl t ↦ rw (t, f, h, t) refl
        | inr g ↦ rw (g, f, asymmetric a b h, h, g) refl
      ]
    ]

    insert_comm : (a b : A) (l : List A) → insert a (insert b l) ≡ insert b (insert a l)
    insert_comm a b l = elim (total a b) [
      | inl same ↦ rw same refl
      | inr (inl t) ↦ insert_comm-less a b l t
      | inr (inr t) ↦ sym (insert_comm-less b a l t)
    ]

    -- Sorting a list in another order gives the same list.
    pub sort_stable-Permᴰ : {l₁ l₂ : List A} → Permᴰ l₁ l₂ → sort_stable l₁ ≡ sort_stable l₂
    unfolding sort_stable
    sort_stable-Permᴰ nil = refl
    sort_stable-Permᴰ (cons {a} {b} {l₁} {l₂} e p) = rw (e, sort_stable-Permᴰ p) refl
    sort_stable-Permᴰ (swap {a} {b} {a'} {b'} {l} e f) =
        rw (← e, ← f) (insert_comm a b (sort_stable l))
    sort_stable-Permᴰ (trans p q) = sort_stable-Permᴰ p ∙ sort_stable-Permᴰ q

    insert-All : (P : A → Type 0) (x : A) (xs : List A) → P x → All P xs → All P (insert x xs)
    unfolding insert
    insert-All P x [] h k = (h, tt)
    insert-All P x (y ∷ ys) h k = elim (Bool-cases (less y x)) [
      | inl t ↦ rw t (k.0, insert-All P x ys h k.1)
      | inr f ↦ rw f (h, k)
    ]

    insert-IsSorted : (x : A) (xs : List A) → IsSorted xs → IsSorted (insert x xs)
    unfolding insert
    insert-IsSorted x [] h = (tt, tt)
    insert-IsSorted x (y ∷ ys) h = elim (Bool-cases (less y x)) [
      | inl t ↦
          rw t (
            insert-All (λ z. less z y ≡ false) x ys (asymmetric y x t) h.0,
            insert-IsSorted x ys h.1,
          )
      | inr f ↦ rw f ((f, All-map (λ z k. behind x y z f k) ys h.0), h)
    ]

    pub sort_stable-IsSorted : (xs : List A) → IsSorted (sort_stable xs)
    unfolding sort_stable
    sort_stable-IsSorted [] = tt
    sort_stable-IsSorted (x ∷ xs) = insert-IsSorted x (sort_stable xs) (sort_stable-IsSorted xs)

  insert-is_Permᴰ : (x : A) (xs : List A) → Permᴰ (insert x xs) (x ∷ xs)
  unfolding insert
  insert-is_Permᴰ x [] = Permᴰ.refl (x ∷ [])
  insert-is_Permᴰ x (y ∷ ys) = elim (Bool-cases (less y x)) [
    | inl t ↦ rw t (trans (cons refl (insert-is_Permᴰ x ys)) (swap refl refl))
    | inr f ↦ rw f (Permᴰ.refl (x ∷ y ∷ ys))
  ]

  -- Sorting only changes the order.
  pub sort_stable-is_Permᴰ : (xs : List A) → Permᴰ (sort_stable xs) xs
  unfolding sort_stable
  sort_stable-is_Permᴰ [] = nil
  sort_stable-is_Permᴰ (x ∷ xs) =
      trans (insert-is_Permᴰ x (sort_stable xs)) (cons refl (sort_stable-is_Permᴰ xs))
