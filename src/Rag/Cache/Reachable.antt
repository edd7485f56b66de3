-- ===== src/Rag/Cache/Reachable.antt =====
-- The caches that a program can come to: `NewLRUCache`, then any sequence of `Get` and `Put`.
use pixkb.Base.{
  Bytes, ℕ, zero, suc, List, ◌≤◌, ◌≡◌, refl, ap, ◌∙◌, some, length, arith, inl, inr, Bool-cases,
  Option-cases, ltb,
}
use pixkb.Text.Number.{ℤ, pos, negsuc}
use pixkb.Text.Ascii.Equal.{equal_refl}
use pixkb.Rag.Cache.{
  LruCache, new_lru_cache, get, put, get_at, put_at, evict, evict_at, push, item, back,
}
use pixkb.Rag.Cache.Entries.{entries, lookup, stored}
use pixkb.Rag.Cache.Elements.{handle_of}
use pixkb.Rag.Cache.Consistent.{IsConsistent, get-IsConsistent, put-IsConsistent}

module _ {A : Type 0} where
  pub data IsReachable : LruCache A → Type 0 where
    started : (n : ℤ) → IsReachable (new_lru_cache n)
    after_get : {c : LruCache A} → IsReachable c → (key : Bytes) → IsReachable (get c key).1
    after_put : {c : LruCache A} → IsReachable c → (key : Bytes) (a : A) → IsReachable (put c key a)

  get-capacity : (c : LruCache A) (key : Bytes) → (get c key).1.capacity ≡ c.capacity
  unfolding get get_at
  get-capacity c key = elim (Option-cases (item key c.items)) [
    | inl n ↦ rw n refl
    | inr (h, s) ↦ rw s refl
  ]

  evict-capacity : (c : LruCache A) → (evict c).capacity ≡ c.capacity
  unfolding evict evict_at
  evict-capacity c = elim (Bool-cases (ltb c.capacity (length c.ll))) [
    | inr room ↦ rw room refl
    | inl full ↦ elim (Option-cases (back c.ll)) [
      | inl n ↦ rw (full, n) refl
      | inr (e, s) ↦ rw (full, s) refl
    ]
  ]

  put-capacity : (c : LruCache A) (key : Bytes) (a : A) → (put c key a).capacity ≡ c.capacity
  unfolding put put_at push
  put-capacity c key a = elim (Option-cases (item key c.items)) [
    | inl n ↦ rw n (evict-capacity (push c key a))
    | inr (h, s) ↦ rw s refl
  ]

  new_lru_cache-IsConsistent :
      (n : ℤ) → IsConsistent {A = A} (new_lru_cache n) × (1 ≤ (new_lru_cache {A = A} n).capacity)
  unfolding new_lru_cache item handle_of
  new_lru_cache-IsConsistent (pos zero) = (
    record { linked = record { agrees = λ key. refl; apart = tt; old = tt }; fits = omega arith },
    omega arith,
  )
  new_lru_cache-IsConsistent (pos (suc n)) = (
    record { linked = record { agrees = λ key. refl; apart = tt; old = tt }; fits = omega arith },
    omega arith,
  )
  new_lru_cache-IsConsistent (negsuc n) = (
    record { linked = record { agrees = λ key. refl; apart = tt; old = tt }; fits = omega arith },
    omega arith,
  )

  -- In every cache that a program comes to, whatever capacity it asked for, the map and the list
  -- agree, no key stands twice, there are no more entries than the capacity, and there is room for
  -- one at least.
  pub IsReachable-IsConsistent :
      {c : LruCache A} → IsReachable c → IsConsistent c × (1 ≤ c.capacity)
  IsReachable-IsConsistent (started n) = new_lru_cache-IsConsistent n
  IsReachable-IsConsistent (after_get {c} r key) =
      let i = IsReachable-IsConsistent r in
      ((get-IsConsistent c key i.0).0, omega (arith, i.1, get-capacity c key))
  IsReachable-IsConsistent (after_put {c} r key a) =
      let i = IsReachable-IsConsistent r in
      ((put-IsConsistent c key a i.0).0, omega (arith, i.1, put-capacity c key a))

  lookup-stored :
      (n : ℕ) (key : Bytes) (a : A) (l : List (Bytes × A))
      → 1 ≤ n
      → lookup key (stored n key a l) ≡ some a
  unfolding lookup stored
  lookup-stored zero key a l h = absurd (omega arith)
  lookup-stored (suc n) key a l h = rw (equal_refl key) refl

  -- In every cache that a program comes to, an answer that was just stored is found.
  pub get-put :
      {c : LruCache A} → IsReachable c → (key : Bytes) (a : A) → (get (put c key a) key).0 ≡ some a
  get-put {c} r key a =
      let (i, room) = IsReachable-IsConsistent r in
      let (j, is_stored) = put-IsConsistent c key a i in
      (get-IsConsistent (put c key a) key j).1
      ∙ ap (lookup key) is_stored
      ∙ lookup-stored c.capacity key a (entries c.ll) room
