-- ===== src/Fusion/Keys.antt =====
-- The entries of a map from ids: each id once, and what a read finds behind a write.
use mathlib.Core.List.{Permᴰ}
use mathlib.Core.List.Permᴰ.{nil, cons, swap, trans}
use pixkb.Base.{
  Bytes, ℕ, zero, suc, ◌≡◌, refl, sym, ◌∙◌, subst, false, List, [], ◌∷◌, take, arith, Bool-cases,
  inl, inr,
}
use pixkb.Text.Ascii.{equal}
use pixkb.Text.Ascii.Equal.{equal_iff, equal_refl, equal_comm}
use pixkb.Text.Members.{mem, Distinct}
use pixkb.Fusion.Rank.{value_at, has, set, keys}

module _ {V : Type 0} where
  -- What is another id than `id` and is not among the keys stays so behind a write.
  mem-keys-set :
      (x id : Bytes) (v : V) (l : List (Bytes × V))
      → equal id x ≡ false
      → mem x (keys l) ≡ false
      → mem x (keys (set id v l)) ≡ false
  unfolding mem keys set
  mem-keys-set x id v [] n h = ground (arith, n)
  mem-keys-set x id v ((key, w) ∷ l) n h = elim (Bool-cases (equal key id)) [
    | inl t ↦ rw t h
    | inr f ↦ rw f (ground (arith, h, mem-keys-set x id v l n))
  ]

  pub Distinct-set :
      (id : Bytes) (v : V) (l : List (Bytes × V)) → Distinct (keys l) → Distinct (keys (set id v l))
  unfolding keys set mem
  Distinct-set id v [] d = (refl, tt)
  Distinct-set id v ((key, w) ∷ l) d = elim (Bool-cases (equal key id)) [
    | inl t ↦ rw t d
    | inr f ↦ rw f (mem-keys-set key id v l (equal_comm key id f) d.0, Distinct-set id v l d.1)
  ]

  pub value_at-set-same :
      (missing : V) (id : Bytes) (v : V) (l : List (Bytes × V))
      → value_at missing id (set id v l) ≡ v
  unfolding value_at set
  value_at-set-same missing id v [] = rw (equal_refl id) refl
  value_at-set-same missing id v ((key, w) ∷ l) = elim (Bool-cases (equal key id)) [
    | inl t ↦ rw (t, t) refl
    | inr f ↦ rw (f, f) (value_at-set-same missing id v l)
  ]

  pub value_at-set-other :
      (missing : V) (x id : Bytes) (v : V) (l : List (Bytes × V))
      → equal id x ≡ false
      → value_at missing x (set id v l) ≡ value_at missing x l
  unfolding value_at set
  value_at-set-other missing x id v [] n = rw n refl
  value_at-set-other missing x id v ((key, w) ∷ l) n = elim (Bool-cases (equal key id)) [
    | inl t ↦
        let other : equal key x ≡ false =
          subst (λ k. equal k x ≡ false) (sym ((equal_iff key id).0 t)) n in
        rw (t, other) refl
    | inr f ↦ elim (Bool-cases (equal key x)) [
      | inl t ↦ rw (f, t) refl
      | inr g ↦ rw (f, g) (value_at-set-other missing x id v l n)
    ]
  ]

pub mem-Permᴰ : (x : Bytes) {xs ys : List Bytes} → Permᴰ xs ys → mem x xs ≡ mem x ys
unfolding mem
mem-Permᴰ x nil = refl
mem-Permᴰ x (cons {a} {b} {l₁} {l₂} e p) = rw (e, mem-Permᴰ x p) refl
mem-Permᴰ x (swap {a} {b} {a'} {b'} {l} e f) = rw (e, f) (ground arith)
mem-Permᴰ x (trans p q) = mem-Permᴰ x p ∙ mem-Permᴰ x q

pub Distinct-Permᴰ : {xs ys : List Bytes} → Permᴰ xs ys → Distinct xs → Distinct ys
unfolding mem
Distinct-Permᴰ nil d = tt
Distinct-Permᴰ (cons {a} {b} {l₁} {l₂} e p) d =
    (subst (λ x. mem x l₂ ≡ false) e (sym (mem-Permᴰ a p) ∙ d.0), Distinct-Permᴰ p d.1)
Distinct-Permᴰ (swap {a} {b} {a'} {b'} {l} e f) d =
    let other : equal a b ≡ false = equal_comm b a (ground (arith, d.0)) in
    subst (λ x. Distinct (x ∷ b' ∷ l)) f
      (subst (λ y. Distinct (b ∷ y ∷ l)) e
        (ground (arith, other, d.1.0), (ground (arith, d.0), d.1.1)))
Distinct-Permᴰ (trans p q) d = Distinct-Permᴰ q (Distinct-Permᴰ p d)

mem-take : (x : Bytes) (n : ℕ) (xs : List Bytes) → mem x xs ≡ false → mem x (take n xs) ≡ false
unfolding mem
mem-take x zero xs h = refl
mem-take x (suc n) [] h = refl
mem-take x (suc n) (y ∷ ys) h = ground (arith, h, mem-take x n ys)

pub Distinct-take : (n : ℕ) (xs : List Bytes) → Distinct xs → Distinct (take n xs)
Distinct-take zero xs d = tt
Distinct-take (suc n) [] d = tt
Distinct-take (suc n) (x ∷ xs) d = (mem-take x n xs d.0, Distinct-take n xs d.1)

pub mem-keys : {V : Type 0} (x : Bytes) (l : List (Bytes × V)) → mem x (keys l) ≡ has x l
unfolding mem keys has
mem-keys x [] = refl
mem-keys x ((key, w) ∷ l) = ground (arith, mem-keys x l)
