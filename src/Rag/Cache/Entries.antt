-- ===== src/Rag/Cache/Entries.antt =====
-- The cache as its users see it: keys and answers, the last used first.
use pixkb.Base.{Bytes, ℕ, List, [], ◌∷◌, Option, none, some, take, map, if◌then◌else◌}
use pixkb.Text.Ascii.{equal}
use pixkb.Rag.Cache.{Element}

module _ {A : Type 0} where
  abbrev pub entry : Element A → Bytes × A
  entry e = (e.key, e.ans)

  unfoldable pub entries : List (Element A) → List (Bytes × A)
  entries ll = map entry ll

  unfoldable pub lookup : Bytes → List (Bytes × A) → Option A
  lookup key [] = none
  lookup key ((k, a) ∷ l) = if equal k key then some a else lookup key l

  unfoldable pub without : Bytes → List (Bytes × A) → List (Bytes × A)
  without key [] = []
  without key ((k, a) ∷ l) = if equal k key then l else (k, a) ∷ without key l

  abbrev pub used_at : Bytes → Option A → List (Bytes × A) → List (Bytes × A)
  used_at key none l = l
  used_at key (some a) l = (key, a) ∷ without key l

  -- a read makes its entry the last used
  unfoldable pub used : Bytes → List (Bytes × A) → List (Bytes × A)
  used key l = used_at key (lookup key l) l

  -- a write makes its entry the last used, and the cache holds no more than its capacity
  unfoldable pub stored : ℕ → Bytes → A → List (Bytes × A) → List (Bytes × A)
  stored capacity key a l = take capacity ((key, a) ∷ without key l)
