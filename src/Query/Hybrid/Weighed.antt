-- ===== src/Query/Hybrid/Weighed.antt =====
-- The weighted scores do not depend on the order in which the map of scores is walked.
use pixkb.Base.{
  Bytes, ℕ, zero, suc, ◌+◌, ◌≡◌, refl, sym, ap, ◌∙◌, subst, false, List, [], ◌∷◌, if◌then◌else◌,
  Bool-cases, inl, inr,
}
use pixkb.Text.Ascii.{equal}
use pixkb.Text.Ascii.Equal.{equal_iff}
use pixkb.Text.Members.{mem, Distinct}
use pixkb.Fusion.Rank.{value_at, set}
use pixkb.Fusion.Keys.{value_at-set-same, value_at-set-other, mem-Permᴰ, Distinct-Permᴰ}
use mathlib.Core.List.{Permᴰ}
use pixkb.Query.Tokens.{Numbers}
use pixkb.Query.Hybrid.{
  Noted, type_weight_at, title_boost_at, official_boost_at, weigh, fused_hit, explain_of, page_from,
}

module _ (to_lower : Bytes → Bytes) (numbers : Numbers) where
  open numbers use {float, mul}

  abbrev pub factor : Bytes → Noted float.Num → Bytes → float.Num
  factor q t id =
      mul (mul (type_weight_at to_lower numbers t id) (title_boost_at to_lower numbers q t id))
        (official_boost_at to_lower numbers t id)

  pub value_at-weigh :
      (q : Bytes) (t : Noted float.Num) (x : Bytes) (ids : List Bytes)
      (scores : List (Bytes × float.Num))
      → Distinct ids
      → value_at float.zero x (weigh to_lower numbers q t ids scores) ≡ (
          if mem x ids
          then mul (value_at float.zero x scores) (factor q t x)
          else value_at float.zero x scores)
  unfolding weigh mem
  value_at-weigh q t x [] scores d = refl
  value_at-weigh q t x (id ∷ ids) scores d =
      let once = mul (value_at float.zero id scores) (factor q t id) in
      let ih = value_at-weigh q t x ids (set id once scores) d.1 in
      elim (Bool-cases (equal id x)) [
        | inl e ↦
            let same = (equal_iff id x).0 e in
            let out : mem x ids ≡ false = subst (λ y. mem y ids ≡ false) same d.0 in
            let found : value_at float.zero x (set id once scores)
                ≡ mul (value_at float.zero x scores) (factor q t x) =
              subst
                (λ y.
                  value_at float.zero y (set id once scores)
                  ≡ mul (value_at float.zero y scores) (factor q t y))
                same (value_at-set-same float.zero id once scores) in
            rw e (ih ∙ rw out found)
        | inr n ↦
            let other = value_at-set-other float.zero x id once scores n in
            rw n (ih ∙ ap (λ v. if mem x ids then mul v (factor q t x) else v) other)
      ]

  -- Two orders of the same ids give the same score to each id.
  pub weigh-Permᴰ :
      (q : Bytes) (t : Noted float.Num) (x : Bytes) (ids ids' : List Bytes)
      (scores : List (Bytes × float.Num))
      → Permᴰ ids ids'
      → Distinct ids
      → value_at float.zero x (weigh to_lower numbers q t ids scores)
        ≡ value_at float.zero x (weigh to_lower numbers q t ids' scores)
  weigh-Permᴰ q t x ids ids' scores p d =
      value_at-weigh q t x ids scores d
      ∙ ap
          (λ b.
            if b
            then mul (value_at float.zero x scores) (factor q t x)
            else value_at float.zero x scores)
          (mem-Permᴰ x p)
      ∙ sym (value_at-weigh q t x ids' scores (Distinct-Permᴰ p d))

  -- A page depends on the score of each id only.
  pub page_from-scores :
      (q : Bytes) (t : Noted float.Num) (s s' : List (Bytes × float.Num)) (i room : ℕ)
      (ids : List Bytes)
      → ((x : Bytes) → value_at float.zero x s ≡ value_at float.zero x s')
      → page_from to_lower numbers q t s i room ids ≡ page_from to_lower numbers q t s' i room ids
  unfolding page_from fused_hit explain_of
  page_from-scores q t s s' i room [] h = refl
  page_from-scores q t s s' i zero (id ∷ ids) h = refl
  page_from-scores q t s s' i (suc room) (id ∷ ids) h =
      rw (h id, page_from-scores q t s s' (i + 1) room ids h) refl
