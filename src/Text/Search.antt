-- ===== src/Text/Search.antt =====
-- Search in byte strings: `strings.Index`, `strings.Contains`, `strings.IndexByte`,
-- `strings.ReplaceAll` with an empty replacement, and `strings.Join`.
pub mod Removed
pub mod Fence
use pixkb.Base.{
  Bytes, ℕ, zero, suc, ◌-◌, Bool, true, false, ◌||◌, List, [], ◌∷◌, ◌++◌, Option, none, some,
  length, ◌==◌, if◌then◌else◌,
}
use pixkb.Text.Ascii.{is_prefix, is_empty}

abbrev pub next : Option ℕ → Option ℕ
next none = none
next (some i) = some (suc i)

-- `strings.Index`, which returns -1 for `none`
unfoldable pub index : Bytes → Bytes → Option ℕ
unfolding is_prefix
index sep [] = if is_empty sep then some 0 else none
index sep (c ∷ s) = let rest = index sep s in if is_prefix sep (c ∷ s) then some 0 else next rest

-- `strings.Contains`
unfoldable pub contains : Bytes → Bytes → Bool
unfolding is_prefix
contains sep [] = is_empty sep
contains sep (c ∷ s) = is_prefix sep (c ∷ s) || contains sep s

-- `strings.IndexByte`
unfoldable pub index_byte : ℕ → Bytes → Option ℕ
index_byte b [] = none
index_byte b (c ∷ s) = let rest = index_byte b s in if c == b then some 0 else next rest

-- The text without the occurrences of `old`, from left to right; `skip` bytes of one are left.
unfoldable pub remove_from : Bytes → ℕ → Bytes → Bytes
unfolding is_prefix
remove_from old skip [] = []
remove_from old (suc skip) (c ∷ s) = remove_from old skip s
remove_from old zero (c ∷ s) =
    let cut = remove_from old (length old - 1) s in
    let kept = remove_from old 0 s in if is_prefix old (c ∷ s) then cut else c ∷ kept

-- `strings.ReplaceAll(s, old, "")`
unfoldable pub remove_all : Bytes → Bytes → Bytes
unfolding remove_from
remove_all [] s = s
remove_all (o ∷ old) s = remove_from (o ∷ old) 0 s

-- `strings.Join`
unfoldable pub join : Bytes → List Bytes → Bytes
join sep [] = []
join sep (s ∷ []) = s
join sep (s ∷ t ∷ ts) = s ++ (sep ++ join sep (t ∷ ts))
