-- ===== src/Similar/Select.antt =====
-- `withHeadroom` and `tagAndExclude` of internal/similar/similar.go, with the loops that
-- internal/similar/signals.go and internal/similar/morelikethis.go repeat.
use pixkb.Base.{Bytes, ℕ, suc, ◌+◌, ◌^◌, ◌-◌, List, [], ◌∷◌, ◌==◌, if◌then◌else◌}
use pixkb.Text.Ascii.{equal}
use pixkb.Text.Number.{ℤ, pos, negsuc}
use pixkb.Similar.Hits.{StoreHit, Hit, Filter}

abbrev pub default_limit : ℕ
default_limit = 20

-- A limit of 0 or less is the default one.
unfoldable pub limit_of : ℤ → ℕ
limit_of (pos (suc n)) = suc n
limit_of _ = default_limit

-- `out.Limit++` on an int64
unfoldable pub increment : ℕ → ℤ
increment n = if n == 2 ^ 63 - 1 then negsuc (2 ^ 63 - 1) else pos (n + 1)

unfoldable pub with_headroom : {Time : Type 0} → Filter Time → Filter Time
with_headroom f = record f { limit = increment (limit_of f.limit) }

module _ {Score : Type 0} where
  -- `out[i].Rank = i + 1`, from the position `i` on
  unfoldable pub renumber : ℕ → List (Hit Score) → List (Hit Score)
  renumber i [] = []
  renumber i (h ∷ hs) = record h { hit = record h.hit { rank = i + 1 } } ∷ renumber (i + 1) hs

  -- The loop over the hits with room for `room` more of them, at least one: it stops when the room
  -- is used up.
  unfoldable pub select :
      (StoreHit Score → List Bytes) → Bytes → ℕ → List (StoreHit Score) → List (Hit Score)
  select why id room [] = []
  select why id room (h ∷ hs) =
      let rest = select why id room hs in
      let fewer = select why id (room - 1) hs in
      let more = if room == 1 then [] else fewer in
      if equal h.id id then rest else record { hit = h; why = why h } ∷ more

  unfoldable pub tag_and_exclude : List (StoreHit Score) → Bytes → Bytes → ℤ → List (Hit Score)
  unfolding select renumber limit_of
  tag_and_exclude hits id why limit = renumber 0 (select (λ h. why ∷ []) id (limit_of limit) hits)
