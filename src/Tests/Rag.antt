-- ===== src/Tests/Rag.antt =====
-- The answer cache at a capacity of two.
use pixkb.Base.{codes, ℕ, ◌≤◌, ◌≡◌, refl, [], ◌∷◌, some}
use pixkb.Text.Ascii.{equal}
use pixkb.Text.Number.{pos}
use pixkb.Rag.Cache.{
  LruCache, new_lru_cache, get, get_at, put, put_at, push, evict, evict_at, item, delete,
  element_at, remove, back, front_of, move_to_front, set_ans, ans_of,
}
use pixkb.Rag.Cache.Entries.{entries, lookup, used, stored}
use pixkb.Rag.Cache.Consistent.{IsConsistent, get-IsConsistent, put-IsConsistent}
use pixkb.Rag.Cache.Reachable.{
  IsReachable, started, after_get, after_put, IsReachable-IsConsistent, get-put,
}

-- `a` and `b` are stored, and `a` is read: the oldest entry is `b`.
abbrev two_answers : LruCache ℕ
two_answers = (get (put (put (new_lru_cache (pos 2)) (codes "a") 1) (codes "b") 2) (codes "a")).1

two_answers-IsReachable : IsReachable two_answers
two_answers-IsReachable =
    after_get (after_put (after_put (started (pos 2)) (codes "a") 1) (codes "b") 2) (codes "a")

third_evicts_oldest :
    entries (put two_answers (codes "c") 3).ll ≡ (codes "c", 3) ∷ (codes "a", 1) ∷ []
unfolding entries new_lru_cache get get_at put put_at push evict evict_at item delete element_at
    remove back front_of move_to_front set_ans ans_of equal
third_evicts_oldest = refl

two_answers-IsConsistent : IsConsistent two_answers
two_answers-IsConsistent = (IsReachable-IsConsistent two_answers-IsReachable).0

IsReachable-IsConsistent_example : IsConsistent two_answers × (1 ≤ two_answers.capacity)
IsReachable-IsConsistent_example = IsReachable-IsConsistent two_answers-IsReachable

put-IsConsistent_example :
    IsConsistent (put two_answers (codes "c") 3)
    × (entries (put two_answers (codes "c") 3).ll
        ≡ stored two_answers.capacity (codes "c") 3 (entries two_answers.ll))
put-IsConsistent_example = put-IsConsistent two_answers (codes "c") 3 two_answers-IsConsistent

get-IsConsistent_example :
    IsConsistent (get two_answers (codes "b")).1
    × ((get two_answers (codes "b")).0 ≡ lookup (codes "b") (entries two_answers.ll))
    × (entries (get two_answers (codes "b")).1.ll ≡ used (codes "b") (entries two_answers.ll))
get-IsConsistent_example = get-IsConsistent two_answers (codes "b") two_answers-IsConsistent

get-put_example : (get (put two_answers (codes "c") 3) (codes "c")).0 ≡ some 3
get-put_example = get-put two_answers-IsReachable (codes "c") 3
