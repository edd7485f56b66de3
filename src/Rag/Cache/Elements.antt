-- ===== src/Rag/Cache/Elements.antt =====
-- The elements of the list by their handles and keys.
use pixkb.Base.{
  Bytes, ℕ, suc, ◌≡◌, refl, subst, ◌⊎◌, Bool, true, false, List, [], ◌∷◌, Option, none, some, All,
  take, length, ◌==◌, ==_iff, ==_refl, ap, if◌then◌else◌, arith, inl, inr,
}
use pixkb.Text.Ascii.{equal}
use pixkb.Text.Ascii.Equal.{equal_iff, equal_comm}
use pixkb.Rag.Cache.{Element, element_at, remove, back}
use pixkb.Rag.Cache.Entries.{entry, entries, lookup, without}

module _ {A : Type 0} where
  unfoldable pub handle_of : Bytes → List (Element A) → Option ℕ
  handle_of key [] = none
  handle_of key (e ∷ ll) = if equal e.key key then some e.handle else handle_of key ll

  -- another element than the one with this handle and this key
  pub record IsOther (handle : ℕ) (key : Bytes) (d : Element A) : Type 0 where
    pub handles : (d.handle == handle) ≡ false
    pub keys : equal d.key key ≡ false

  abbrev pub Apart : List (Element A) → Type 0
  Apart [] = Unit
  Apart (e ∷ ll) = All (IsOther e.handle e.key) ll × Apart ll

  IsOther-sym : (e d : Element A) → IsOther e.handle e.key d → IsOther d.handle d.key e
  IsOther-sym e d o = record {
    handles = ground (arith, o.handles);
    keys = equal_comm d.key e.key o.keys;
  }

  -- `e` stands behind the handle `h` in the list, and `rest` is the list without it.
  pub data Taken (h : ℕ) (e : Element A) : List (Element A) → List (Element A) → Type 0 where
    here : {ll : List (Element A)} → (e.handle == h) ≡ true → Taken h e (e ∷ ll) ll
    there :
        {d : Element A} {ll rest : List (Element A)}
        → (d.handle == h) ≡ false
        → Taken h e ll rest
        → Taken h e (d ∷ ll) (d ∷ rest)

  element_at-cons :
      (h : ℕ) (d : Element A) (ll : List (Element A)) {e : Element A}
      → element_at h (d ∷ ll) ≡ some e
      → (((d.handle == h) ≡ true) × (d ≡ e))
        ⊎ (((d.handle == h) ≡ false) × (element_at h ll ≡ some e))
  unfolding element_at
  element_at-cons h d ll {e} s = go (d.handle == h) refl s
    where
      go :
          (b : Bool)
          → (d.handle == h) ≡ b
          → (if b then some d else element_at h ll) ≡ some e
          → (((d.handle == h) ≡ true) × (d ≡ e))
            ⊎ (((d.handle == h) ≡ false) × (element_at h ll ≡ some e))
      go true t s = inl (t, cc)
      go false f s = inr (f, s)

  pub element_at-Taken :
      (h : ℕ) (ll : List (Element A)) {e : Element A}
      → element_at h ll ≡ some e
      → Taken h e ll (remove h ll)
  unfolding element_at remove
  element_at-Taken h [] s = absurd cc
  element_at-Taken h (d ∷ ll) {e} s = elim (element_at-cons h d ll s) [
    | inl (t, same) ↦ rw t (subst (λ x. Taken h x (d ∷ ll) ll) same (here t))
    | inr (f, more) ↦ rw f (there f (element_at-Taken h ll more))
  ]

  pub Taken-handle :
      {h : ℕ} {e : Element A} {ll rest : List (Element A)}
      → Taken h e ll rest
      → (e.handle == h) ≡ true
  Taken-handle (here t) = t
  Taken-handle (there f s) = Taken-handle s

  pub Taken-All :
      (P : Element A → Type 0) {h : ℕ} {e : Element A} {ll rest : List (Element A)}
      → Taken h e ll rest
      → All P ll
      → P e × All P rest
  Taken-All P (here t) a = a
  Taken-All P (there f s) a = let r = Taken-All P s a.1 in (r.0, (a.0, r.1))

  -- An element is another one than those that stay when it is taken out.
  pub Taken-Apart :
      {h : ℕ} {e : Element A} {ll rest : List (Element A)}
      → Taken h e ll rest
      → Apart ll
      → Apart (e ∷ rest)
  Taken-Apart (here t) a = a
  Taken-Apart (there {d} f s) a =
      let r = Taken-Apart s a.1 in
      let o = Taken-All (IsOther d.handle d.key) s a.0 in ((IsOther-sym d _ o.0, r.0), (o.1, r.1))

  pub length-Taken :
      {h : ℕ} {e : Element A} {ll rest : List (Element A)}
      → Taken h e ll rest
      → length ll ≡ suc (length rest)
  length-Taken (here t) = refl
  length-Taken (there f s) = omega (arith, length-Taken s)

  -- Taking an element out and putting it first keeps the handle under every key.
  pub handle_of-Taken :
      (key : Bytes) {h : ℕ} {e : Element A} {ll rest : List (Element A)}
      → Taken h e ll rest
      → Apart ll
      → handle_of key ll ≡ handle_of key (e ∷ rest)
  unfolding handle_of
  handle_of-Taken key (here t) a = refl
  handle_of-Taken key {e = e} (there {d} f s) a =
      let o = (Taken-All (IsOther d.handle d.key) s a.0).0 in
      ground (
        arith,
        handle_of-Taken key s a.1,
        o.keys,
        equal_iff d.key key,
        equal_iff e.key key,
        equal_iff e.key d.key,
      )

  pub Taken-element_at :
      {h : ℕ} {e : Element A} {ll rest : List (Element A)}
      → Taken h e ll rest
      → (element_at h ll ≡ some e) × (remove h ll ≡ rest)
  unfolding element_at remove
  Taken-element_at (here t) = rw t (refl, refl)
  Taken-element_at (there f s) = let r = Taken-element_at s in rw (f, r.0, r.1) (refl, refl)

  -- The list has an entry `e` for the key, behind the handle `h`, and `rest` are the others.
  pub record Found (key : Bytes) (h : ℕ) (e : Element A) (ll rest : List (Element A)) : Type 0 where
    pub taken : Taken h e ll rest
    pub key_is : e.key ≡ key
    pub ans_is : lookup key (entries ll) ≡ some e.ans
    pub rest_is : without key (entries ll) ≡ entries rest

  handle_of-cons :
      (key : Bytes) (h : ℕ) (d : Element A) (ll : List (Element A))
      → handle_of key (d ∷ ll) ≡ some h
      → ((equal d.key key ≡ true) × (d.handle ≡ h))
        ⊎ ((equal d.key key ≡ false) × (handle_of key ll ≡ some h))
  unfolding handle_of
  handle_of-cons key h d ll s = go (equal d.key key) refl s
    where
      go :
          (b : Bool)
          → equal d.key key ≡ b
          → (if b then some d.handle else handle_of key ll) ≡ some h
          → ((equal d.key key ≡ true) × (d.handle ≡ h))
            ⊎ ((equal d.key key ≡ false) × (handle_of key ll ≡ some h))
      go true t s = inl (t, cc)
      go false f s = inr (f, s)

  -- What the map finds, the list holds.
  pub handle_of-Found :
      (key : Bytes) (h : ℕ) (ll : List (Element A))
      → handle_of key ll ≡ some h
      → Apart ll
      → (e : Element A) × (rest : List (Element A)) × Found key h e ll rest
  unfolding handle_of lookup without entries
  handle_of-Found key h [] s a = absurd cc
  handle_of-Found key h (d ∷ ll) s a = elim (handle_of-cons key h d ll s) [
    | inl (t, same) ↦ (
      d,
      ll,
      record {
        taken = here ((==_iff d.handle h).1 same);
        key_is = (equal_iff d.key key).0 t;
        ans_is = rw t refl;
        rest_is = rw t refl;
      },
    )
    | inr (f, more) ↦
        let (e, rest, found) = handle_of-Found key h ll more a.1 in
        let other = (Taken-All (IsOther d.handle d.key) found.taken a.0).0 in
        (
          e,
          d ∷ rest,
          record {
            taken = there (ground (arith, other.handles, Taken-handle found.taken)) found.taken;
            key_is = found.key_is;
            ans_is = rw f found.ans_is;
            rest_is = rw (f, found.rest_is) refl;
          },
        )
  ]

  handle_of-cons-none :
      (key : Bytes) (d : Element A) (ll : List (Element A))
      → handle_of key (d ∷ ll) ≡ none
      → (equal d.key key ≡ false) × (handle_of key ll ≡ none)
  unfolding handle_of
  handle_of-cons-none key d ll s = go (equal d.key key) refl s
    where
      go :
          (b : Bool)
          → equal d.key key ≡ b
          → (if b then some d.handle else handle_of key ll) ≡ none
          → (equal d.key key ≡ false) × (handle_of key ll ≡ none)
      go true t s = absurd cc
      go false f s = (f, s)

  -- What the map misses, the list does not hold.
  pub handle_of-none :
      (key : Bytes) (ll : List (Element A))
      → handle_of key ll ≡ none
      → (lookup key (entries ll) ≡ none)
        × (without key (entries ll) ≡ entries ll)
        × All (λ d. equal d.key key ≡ false) ll
  unfolding lookup without entries
  handle_of-none key [] s = (refl, refl, tt)
  handle_of-none key (d ∷ ll) s =
      let (f, more) = handle_of-cons-none key d ll s in
      let r = handle_of-none key ll more in rw (f, r.0, r.1) (refl, refl, (refl, r.2))

  -- An absent key has no handle.
  pub handle_of-absent :
      (key : Bytes) (ll : List (Element A))
      → All (λ d. equal d.key key ≡ false) ll
      → handle_of key ll ≡ none
  unfolding handle_of
  handle_of-absent key [] a = refl
  handle_of-absent key (d ∷ ll) a = rw a.0 (handle_of-absent key ll a.1)

  -- The last element: taking it out leaves the others.
  pub back-Taken :
      (e : Element A) (ll : List (Element A))
      → Apart (e ∷ ll)
      → (d : Element A) × (rest : List (Element A)) × (back (e ∷ ll) ≡ some d)
        × Taken d.handle d (e ∷ ll) rest
        × (entries rest ≡ take (length ll) (entries (e ∷ ll)))
  unfolding back entries
  back-Taken e [] a = (e, [], refl, here (==_refl e.handle), refl)
  back-Taken e (d ∷ ll) a =
      let (x, rest, found, taken, shorter) = back-Taken d ll a.1 in
      let other = (Taken-All (IsOther e.handle e.key) taken a.0).0 in
      (x, e ∷ rest, found, there (IsOther-sym e x other).handles taken, ap (◌∷◌ (entry e)) shorter)
