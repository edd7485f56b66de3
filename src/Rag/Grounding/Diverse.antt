-- ===== src/Rag/Grounding/Diverse.antt =====
-- The order of `diversify`.
use pixkb.Base.{
  Bytes, ◌≡◌, refl, sym, ap, ◌∙◌, subst, Bool, true, false, not, ◌&&◌, List, [], ◌∷◌, ◌++◌, All,
  if◌then◌else◌, append_assoc, append-nil, arith, Bool-cases, inl, inr,
}
use pixkb.Text.Ascii.{is_empty, equal}
use pixkb.Text.Ascii.Equal.{equal_iff}
use pixkb.Text.Members.{mem}
use pixkb.Rag.Types.{Hit}
use pixkb.Rag.Grounding.{split_types, diversify}

-- The third list has the elements of the first two, each of which keeps its order.
pub data Interleaved {A : Type 0} : List A → List A → List A → Type 0 where
  done : Interleaved [] [] []
  from_first : {xs ys zs : List A} (x : A) → Interleaved xs ys zs → Interleaved (x ∷ xs) ys (x ∷ zs)
  from_second :
      {xs ys zs : List A} (y : A) → Interleaved xs ys zs → Interleaved xs (y ∷ ys) (y ∷ zs)

pub Interleaved-All :
    {A : Type 0} (P : A → Type 0) {xs ys zs : List A}
    → Interleaved xs ys zs
    → All P (xs ++ ys)
    → All P zs
Interleaved-All P done h = tt
Interleaved-All P (from_first x i) h = (h.0, Interleaved-All P i h.1)
Interleaved-All P (from_second {xs} {ys} y i) h =
    let (p, rest) = middle P xs y ys h in (p, Interleaved-All P i rest)
  where
    middle :
        {A : Type 0} (P : A → Type 0) (xs : List A) (y : A) (ys : List A)
        → All P (xs ++ (y ∷ ys))
        → P y × All P (xs ++ ys)
    middle P [] y ys h = h
    middle P (x ∷ xs) y ys h = let (p, rest) = middle P xs y ys h.1 in (p, (h.0, rest))

-- `seen` has the types that are not empty among these
abbrev Covers : List Bytes → List Bytes → Type 0
Covers seen earlier = (t : Bytes) → is_empty t ≡ false → mem t seen ≡ mem t earlier

module _ {Score : Type 0} where
  -- the hit has a type, and it is one of these
  abbrev pub repeats_one : List Bytes → Hit Score → Bool
  repeats_one seen h = not (is_empty h.type) && mem h.type seen

  -- the types seen behind a hit
  abbrev pub after : List Bytes → Hit Score → List Bytes
  after seen h = if is_empty h.type then seen else h.type ∷ seen

  -- The hits are parted: a hit that has the type of one before it goes to the second part, and any
  -- other one to the first; both keep the order. `earlier` has the types of the hits before these.
  pub data Parted
      : List Bytes → List (Hit Score) → List (Hit Score) → List (Hit Score) → Type 0 where
    none_left : {earlier : List Bytes} → Parted earlier [] [] []
    new :
        {earlier : List Bytes} (h : Hit Score) {first rest hits : List (Hit Score)}
        → repeats_one earlier h ≡ false
        → Parted (h.type ∷ earlier) first rest hits
        → Parted earlier (h ∷ first) rest (h ∷ hits)
    again :
        {earlier : List Bytes} (h : Hit Score) {first rest hits : List (Hit Score)}
        → repeats_one earlier h ≡ true
        → Parted (h.type ∷ earlier) first rest hits
        → Parted earlier first (h ∷ rest) (h ∷ hits)

  unfoldable pub firsts : List Bytes → List (Hit Score) → List (Hit Score)
  unfolding mem
  firsts seen [] = []
  firsts seen (h ∷ hs) =
      let later = firsts seen hs in
      let new = firsts (after seen h) hs in if repeats_one seen h then later else h ∷ new

  unfoldable pub repeated : List Bytes → List (Hit Score) → List (Hit Score)
  unfolding mem
  repeated seen [] = []
  repeated seen (h ∷ hs) =
      let later = repeated seen hs in
      let new = repeated (after seen h) hs in if repeats_one seen h then h ∷ later else new

  split_types-eq :
      (seen : List Bytes) (first rest hs : List (Hit Score))
      → split_types seen first rest hs ≡ (first ++ firsts seen hs) ++ (rest ++ repeated seen hs)
  unfolding split_types firsts repeated
  split_types-eq seen first rest [] = rw (append-nil first, append-nil rest) refl
  split_types-eq seen first rest (h ∷ hs) = elim (Bool-cases (repeats_one seen h)) [
    | inl t ↦ rw t (
        split_types-eq seen first (rest ++ (h ∷ [])) hs
        ∙ ap (λ l. (first ++ firsts seen hs) ++ l) (append_assoc rest (h ∷ []) (repeated seen hs)))
    | inr f ↦ rw f (
        split_types-eq (after seen h) (first ++ (h ∷ [])) rest hs
        ∙ ap (λ l. l ++ (rest ++ repeated (after seen h) hs))
            (append_assoc first (h ∷ []) (firsts (after seen h) hs)))
  ]

  pub Parted-Interleaved :
      {earlier : List Bytes} {first rest hits : List (Hit Score)}
      → Parted earlier first rest hits
      → Interleaved first rest hits
  Parted-Interleaved none_left = done
  Parted-Interleaved (new h n p) = from_first h (Parted-Interleaved p)
  Parted-Interleaved (again h n p) = from_second h (Parted-Interleaved p)

  same_answer :
      (seen earlier : List Bytes) (h : Hit Score)
      → Covers seen earlier
      → repeats_one seen h ≡ repeats_one earlier h
  same_answer seen earlier h c = ground (arith, c h.type)

  Covers-again :
      (seen earlier : List Bytes) (h : Hit Score)
      → Covers seen earlier
      → repeats_one seen h ≡ true
      → Covers seen (h.type ∷ earlier)
  unfolding mem
  Covers-again seen earlier h c r t n = elim (Bool-cases (equal h.type t)) [
    | inr f ↦ ground (arith, f, c t n)
    | inl e ↦
        let here : mem h.type seen ≡ true = ground (arith, r) in
        let there : mem t seen ≡ true =
          subst (λ u. mem u seen ≡ true) ((equal_iff h.type t).0 e) here in
        ground (arith, e, there)
  ]

  Covers-new :
      (seen earlier : List Bytes) (h : Hit Score)
      → Covers seen earlier
      → Covers (after seen h) (h.type ∷ earlier)
  unfolding mem
  Covers-new seen earlier h c t n = elim (Bool-cases (is_empty h.type)) [
    | inr f ↦ rw f (ground (arith, c t n))
    | inl e ↦ elim (Bool-cases (equal h.type t)) [
      | inr f ↦ rw e (ground (arith, f, c t n))
      | inl u ↦ cc (subst (λ v. is_empty v ≡ true) ((equal_iff h.type t).0 u) e, n)
    ]
  ]

  split-Parted :
      (seen earlier : List Bytes) (hs : List (Hit Score))
      → Covers seen earlier
      → Parted earlier (firsts seen hs) (repeated seen hs) hs
  unfolding firsts repeated
  split-Parted seen earlier [] c = none_left
  split-Parted seen earlier (h ∷ hs) c = elim (Bool-cases (repeats_one seen h)) [
    | inl t ↦
        let r : repeats_one earlier h ≡ true = sym (same_answer seen earlier h c) ∙ t in
        let p : Parted (h.type ∷ earlier) (firsts seen hs) (repeated seen hs) hs =
          split-Parted seen (h.type ∷ earlier) hs (Covers-again seen earlier h c t) in
        rw t (again h r p)
    | inr f ↦
        let r : repeats_one earlier h ≡ false = sym (same_answer seen earlier h c) ∙ f in
        let p : Parted (h.type ∷ earlier) (firsts (after seen h) hs) (repeated (after seen h) hs)
            hs =
          split-Parted (after seen h) (h.type ∷ earlier) hs (Covers-new seen earlier h c) in
        rw f (new h r p)
  ]

  abbrev pub IsDiverse : List (Hit Score) → List (Hit Score) → Type 0
  IsDiverse hits out =
      (first rest : List (Hit Score)) × (out ≡ first ++ rest) × Parted [] first rest hits

  -- `diversify` gives two parts, one behind the other: the second has the hits that have the type of
  -- a hit before them, and the first all others, each in the order of the hits; a hit without type
  -- has the type of none.
  pub diversify-IsDiverse : (hits : List (Hit Score)) → IsDiverse hits (diversify hits)
  unfolding diversify
  diversify-IsDiverse hits = (
    firsts [] hits,
    repeated [] hits,
    split_types-eq [] [] [] hits,
    split-Parted [] [] hits (λ t n. refl),
  )
