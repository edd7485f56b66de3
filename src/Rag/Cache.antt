-- ===== src/Rag/Cache.antt =====
-- `LRUCache` of internal/rag/cache.go, over any type of answers. An element of the list is a pointer
-- in the code: here it carries a handle, and the map holds handles. The mutex makes each operation
-- one step.
pub mod Entries
pub mod Elements
pub mod Consistent
pub mod Reachable
use pixkb.Base.{
  Bytes, ℕ, zero, suc, ◌+◌, List, [], ◌∷◌, Option, none, some, length, ltb, ◌==◌, if◌then◌else◌,
}
use pixkb.Text.Ascii.{equal}
use pixkb.Text.Number.{ℤ, pos, negsuc}

-- `*list.Element` with its `lruEntry`
pub record Element (A : Type 0) : Type 0 where
  pub handle : ℕ
  pub key : Bytes
  pub ans : A

pub record LruCache (A : Type 0) : Type 0 where
  pub capacity : ℕ
  -- front to back
  pub ll : List (Element A)
  pub items : List (Bytes × ℕ)
  -- the handle of the next element
  pub fresh : ℕ

-- a read of the map
unfoldable pub item : Bytes → List (Bytes × ℕ) → Option ℕ
item key [] = none
item key ((k, h) ∷ items) = if equal k key then some h else item key items

-- `delete`
unfoldable pub delete : Bytes → List (Bytes × ℕ) → List (Bytes × ℕ)
delete key [] = []
delete key ((k, h) ∷ items) =
    let rest = delete key items in if equal k key then rest else (k, h) ∷ rest

-- `NewLRUCache`
unfoldable pub new_lru_cache : {A : Type 0} → ℤ → LruCache A
new_lru_cache (pos (suc n)) = record { capacity = suc n; ll = []; items = []; fresh = 0 }
new_lru_cache _ = record { capacity = 128; ll = []; items = []; fresh = 0 }

module _ {A : Type 0} where
  -- the element behind a pointer
  unfoldable pub element_at : ℕ → List (Element A) → Option (Element A)
  element_at h [] = none
  element_at h (e ∷ ll) = if e.handle == h then some e else element_at h ll

  -- `list.Remove`
  unfoldable pub remove : ℕ → List (Element A) → List (Element A)
  remove h [] = []
  remove h (e ∷ ll) = if e.handle == h then ll else e ∷ remove h ll

  -- `list.Back`
  unfoldable pub back : List (Element A) → Option (Element A)
  back [] = none
  back (e ∷ []) = some e
  back (e ∷ d ∷ ll) = back (d ∷ ll)

  unfoldable pub front_of :
      Option (Element A) → List (Element A) → List (Element A) → List (Element A)
  front_of none rest ll = ll
  front_of (some e) rest ll = e ∷ rest

  -- `list.MoveToFront`
  unfoldable pub move_to_front : ℕ → List (Element A) → List (Element A)
  unfolding front_of
  move_to_front h ll = front_of (element_at h ll) (remove h ll) ll

  -- `el.Value.(*lruEntry).ans = a`
  unfoldable pub set_ans : ℕ → A → List (Element A) → List (Element A)
  set_ans h a [] = []
  set_ans h a (e ∷ ll) = if e.handle == h then record e { ans = a } ∷ ll else e ∷ set_ans h a ll

  unfoldable pub ans_of : Option (Element A) → Option A
  ans_of none = none
  ans_of (some e) = some e.ans

  -- `Get`, at what the map holds for the key
  unfoldable pub get_at : LruCache A → Option ℕ → Option A × LruCache A
  get_at c none = (none, c)
  get_at c (some h) = (ans_of (element_at h c.ll), record c { ll = move_to_front h c.ll })

  unfoldable pub get : LruCache A → Bytes → Option A × LruCache A
  unfolding get_at
  get c key = get_at c (item key c.items)

  -- the eviction of the oldest element
  unfoldable pub evict_at : LruCache A → Option (Element A) → LruCache A
  evict_at c none = c
  evict_at c (some oldest) = record c {
    ll = remove oldest.handle c.ll;
    items = delete oldest.key c.items;
  }

  unfoldable pub evict : LruCache A → LruCache A
  unfolding evict_at
  evict c = if ltb c.capacity (length c.ll) then evict_at c (back c.ll) else c

  -- `PushFront` of a new element, and its entry in the map
  unfoldable pub push : LruCache A → Bytes → A → LruCache A
  push c key a = record c {
    ll = record { handle = c.fresh; key = key; ans = a } ∷ c.ll;
    items = (key, c.fresh) ∷ c.items;
    fresh = c.fresh + 1;
  }

  -- `Put`, at what the map holds for the key
  unfoldable pub put_at : LruCache A → Bytes → A → Option ℕ → LruCache A
  unfolding evict push
  put_at c key a (some h) = record c { ll = move_to_front h (set_ans h a c.ll) }
  put_at c key a none = evict (push c key a)

  unfoldable pub put : LruCache A → Bytes → A → LruCache A
  unfolding put_at
  put c key a = put_at c key a (item key c.items)
