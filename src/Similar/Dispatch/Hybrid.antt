-- ===== src/Similar/Dispatch/Hybrid.antt =====
-- The fused signals, and the result of every mode.
use pixkb.Base.{
  Bytes, ℕ, zero, suc, ◌+◌, ◌≤◌, ◌≡◌, refl, ap, true, false, List, [], ◌∷◌, All, All-map, length,
  take, map, arith, Bool-cases, inl, inr,
}
use pixkb.Text.Ascii.{equal}
use pixkb.Text.Ascii.Equal.{equal_refl}
use pixkb.Fusion.Sort.{sort_stable, sort_stable-is_Permᴰ, All-Permᴰ}
use pixkb.Fusion.Rank.{Float, value_at, has, set, keys, ranks_before}
use pixkb.Fusion.Rrf.Keys.{add_new, keys-set}
use pixkb.Similar.Hits.{StoreHit, Hit}
use pixkb.Similar.Domain.{tag_domain, tag_adjacent, adjacent}
use pixkb.Text.Members.{mem}
use pixkb.Similar.Page.{IsPage, count_from}
use pixkb.Similar.Dispatch.{
  Fused, nothing, fuse_hit, fuse_list, fuse_lists, no_hit, fused_hits, fuse,
}
use mathlib.Core.List.{Permᴰ}
use mathlib.Core.List.Permᴰ
use mathlib.Core.List.Permᴰ.{trans}

All-value_at :
    {V : Type 0} (P : V → Type 0) (missing : V) (id : Bytes) (l : List (Bytes × V))
    → has id l ≡ true
    → All (λ e. P e.1) l
    → P (value_at missing id l)
unfolding has value_at
All-value_at P missing id [] h a = absurd cc
All-value_at P missing id ((key, v) ∷ l) h a = elim (Bool-cases (equal key id)) [
  | inl t ↦ rw t a.0
  | inr f ↦ rw f (All-value_at P missing id l (rw (← h) (rw f refl)) a.1)
]

All-set :
    {V : Type 0} (P : V → Type 0) (id : Bytes) (v : V) (l : List (Bytes × V))
    → P v
    → All (λ e. P e.1) l
    → All (λ e. P e.1) (set id v l)
unfolding set
All-set P id v [] p a = (p, tt)
All-set P id v ((key, w) ∷ l) p a = elim (Bool-cases (equal key id)) [
  | inl t ↦ rw t (p, a.1)
  | inr f ↦ rw f (a.0, All-set P id v l p a.1)
]

has-set_same : {V : Type 0} (id : Bytes) (v : V) (l : List (Bytes × V)) → has id (set id v l) ≡ true
unfolding has set
has-set_same id v [] = ground (arith, equal_refl id)
has-set_same id v ((key, w) ∷ l) = elim (Bool-cases (equal key id)) [
  | inl t ↦ rw (t, t) refl
  | inr f ↦ rw (f, f) (has-set_same id v l)
]

has-set :
    {V : Type 0} (other id : Bytes) (v : V) (l : List (Bytes × V))
    → has other l ≡ true
    → has other (set id v l) ≡ true
unfolding has set
has-set other id v [] h = absurd cc
has-set other id v ((key, w) ∷ l) h = elim (Bool-cases (equal key id)) [
  | inl t ↦ rw t h
  | inr f ↦ elim (Bool-cases (equal key other)) [
    | inl same ↦ rw (f, same) refl
    | inr differs ↦ rw (f, differs) (has-set other id v l (rw (← h) (rw differs refl)))
  ]
]

All-add_new :
    (P : Bytes → Type 0) (seen : List Bytes) (id : Bytes)
    → P id
    → All P seen
    → All P (add_new seen id)
unfolding add_new
All-add_new P [] id p a = (p, tt)
All-add_new P (key ∷ seen) id p a = elim (Bool-cases (equal key id)) [
  | inl t ↦ rw t a
  | inr f ↦ rw f (a.0, All-add_new P seen id p a.1)
]

module _ (float : Float) (id : Bytes) where
  open float use {Num}

  abbrev pub Others : List (Hit Num) → Type 0
  Others hs = All (λ h. equal h.hit.id id ≡ false) hs

  abbrev pub Ranked : ℕ → List (Hit Num) → Type 0
  Ranked i [] = Unit
  Ranked i (h ∷ hs) = (h.hit.rank ≡ i + 1) × Ranked (i + 1) hs

  -- Every id with a score has a hit, and the hits are for other concepts.
  record Known (t : Fused Num) : Type 0 where
    scored : All (λ key. has key t.by_id ≡ true) (keys t.scores)
    others : All (λ e. equal e.1.id id ≡ false) t.by_id

  scored-set :
      (key : Bytes) (n : Num) (scores : List (Bytes × Num)) (l : List (Bytes × StoreHit Num))
      → has key l ≡ true
      → All (λ k. has k l ≡ true) (keys scores)
      → All (λ k. has k l ≡ true) (keys (set key n scores))
  scored-set key n scores l h a =
      rw (keys-set key n scores) (All-add_new (λ k. has k l ≡ true) (keys scores) key h a)

  fuse_hit-Known :
      (h : Hit Num) (t : Fused Num)
      → equal h.hit.id id ≡ false
      → Known t
      → Known (fuse_hit float h t)
  unfolding fuse_hit
  fuse_hit-Known h t other k = elim (Bool-cases (has h.hit.id t.by_id)) [
    | inl seen ↦ record {
      scored = rw seen (scored-set h.hit.id _ t.scores t.by_id seen k.scored);
      others = rw seen k.others;
    }
    | inr f ↦
        let by_id = set h.hit.id h.hit t.by_id in
        let kept =
          All-map (λ key found. has-set key h.hit.id h.hit t.by_id found) (keys t.scores)
            k.scored in
        record {
          scored =
              rw f
                (scored-set h.hit.id _ t.scores by_id (has-set_same h.hit.id h.hit t.by_id) kept);
          others =
              rw f (All-set (λ x. equal x.id id ≡ false) h.hit.id h.hit t.by_id other k.others);
        }
  ]

  fuse_list-Known :
      (hs : List (Hit Num)) (t : Fused Num) → Others hs → Known t → Known (fuse_list float hs t)
  unfolding fuse_list
  fuse_list-Known [] t a k = k
  fuse_list-Known (h ∷ hs) t a k =
      fuse_list-Known hs (fuse_hit float h t) a.1 (fuse_hit-Known h t a.0 k)

  fuse_lists-Known :
      (lists : List (List (Hit Num))) (t : Fused Num)
      → All (λ hs. Others hs) lists
      → Known t
      → Known (fuse_lists float lists t)
  unfolding fuse_lists
  fuse_lists-Known [] t a k = k
  fuse_lists-Known (hs ∷ lists) t a k =
      fuse_lists-Known lists (fuse_list float hs t) a.1 (fuse_list-Known hs t a.0 k)

  fused_hits-Others :
      (walk : List Bytes → List Bytes) (t : Fused Num) (i : ℕ) (ids : List Bytes)
      → Known t
      → All (λ key. has key t.by_id ≡ true) ids
      → Others (fused_hits float walk t i ids) × Ranked i (fused_hits float walk t i ids)
  unfolding fused_hits
  fused_hits-Others walk t i [] k a = (tt, tt)
  fused_hits-Others walk t i (key ∷ ids) k a =
      let rest = fused_hits-Others walk t (i + 1) ids k a.1 in
      let other =
        All-value_at (λ x. equal x.id id ≡ false) (no_hit float) key t.by_id a.0 k.others in
      ((other, rest.0), (refl, rest.1))

  pub fuse-Others :
      (walk : List Bytes → List Bytes) (lists : List (List (Hit Num)))
      → ((ids : List Bytes) → Permᴰ (walk ids) ids)
      → All (λ hs. Others hs) lists
      → Others (fuse float walk lists) × Ranked 0 (fuse float walk lists)
  unfolding fuse keys
  fuse-Others walk lists w a =
      let t = fuse_lists float lists (nothing float) in
      let k = fuse_lists-Known lists (nothing float) a (record { scored = tt; others = tt }) in
      let less = ranks_before float t.scores t.first_seen in
      let sorted = trans (sort_stable-is_Permᴰ less (walk (keys t.scores))) (w (keys t.scores)) in
      fused_hits-Others walk t 0 (sort_stable less (walk (keys t.scores))) k
        (All-Permᴰ (λ key. has key t.by_id ≡ true) (Permᴰ.symm sorted) k.scored)

  tag_adjacent-Others :
      (adj : List Bytes) (i : ℕ) (hs : List (Hit Num))
      → Others hs
      → Ranked i hs
      → Others (tag_adjacent adj hs) × Ranked i (tag_adjacent adj hs)
  unfolding tag_adjacent
  tag_adjacent-Others adj i [] a r = (tt, tt)
  tag_adjacent-Others adj i (h ∷ hs) a r =
      let rest = tag_adjacent-Others adj (i + 1) hs a.1 r.1 in
      elim (Bool-cases (mem h.hit.type adj)) [
        | inl t ↦ rw t ((a.0, rest.0), (r.0, rest.1))
        | inr f ↦ rw f ((a.0, rest.0), (r.0, rest.1))
      ]

  pub tag_domain-Others :
      (type : Bytes) (hs : List (Hit Num))
      → Others hs
      → Ranked 0 hs
      → Others (tag_domain hs type) × Ranked 0 (tag_domain hs type)
  unfolding tag_domain
  tag_domain-Others type hs a r = go (adjacent type)
    where
      go :
          (adj : List Bytes)
          → Others (elim adj [ [] ↦ hs | t ∷ ts ↦ tag_adjacent (t ∷ ts) hs ])
            × Ranked 0 (elim adj [ [] ↦ hs | t ∷ ts ↦ tag_adjacent (t ∷ ts) hs ])
      go [] = (a, r)
      go (t ∷ ts) = tag_adjacent-Others (t ∷ ts) 0 hs a r

  pub take-Others :
      (n i : ℕ) (hs : List (Hit Num))
      → Others hs
      → Ranked i hs
      → Others (take n hs) × Ranked i (take n hs) × (length (take n hs) ≤ n)
  take-Others zero i hs a r = (tt, tt, omega arith)
  take-Others (suc n) i [] a r = (tt, tt, omega arith)
  take-Others (suc n) i (h ∷ hs) a r =
      let rest = take-Others n (i + 1) hs a.1 r.1 in
      ((a.0, rest.0), (r.0, rest.1), omega (arith, rest.2))

  ranks-Ranked :
      (i : ℕ) (hs : List (Hit Num))
      → Ranked i hs
      → map (λ h. h.hit.rank) hs ≡ count_from i (length hs)
  ranks-Ranked i [] r = refl
  ranks-Ranked i (h ∷ hs) r = rw r.0 (ap (◌∷◌ (i + 1)) (ranks-Ranked (i + 1) hs r.1))

  pub Ranked-IsPage :
      (limit : ℕ) (hs : List (Hit Num))
      → Others hs
      → Ranked 0 hs
      → length hs ≤ limit
      → IsPage id limit hs
  Ranked-IsPage limit hs a r l = record { others = a; bounded = l; ranked = ranks-Ranked 0 hs r }
