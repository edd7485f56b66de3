-- ===== src/Rag/Answer/Content.antt =====
-- What `extractJSON` takes from a reply: all of it, or what stands in its first Markdown fence.
use pixkb.Base.{
  Bytes, ℕ, ◌+◌, ◌≡◌, refl, sym, ap, ◌∙◌, false, [], ◌∷◌, ◌++◌, none, some, length, length-append,
  take, drop, append_assoc, drop-append, ==_refl, arith,
}
use pixkb.Text.Ascii.{is_prefix}
use pixkb.Text.Space.{trim_space}
use pixkb.Text.Search.{index, contains, index_byte}
use pixkb.Text.Search.Fence.{has_byte}
use pixkb.Rag.Answer.{ticks, up_to_ticks, behind_line, unfenced}

pub find_byte :
    (b : ℕ) (prose s : Bytes)
    → has_byte b prose ≡ false
    → index_byte b (prose ++ (b ∷ s)) ≡ some (length prose)
unfolding index_byte
find_byte b [] s h = rw (==_refl b) refl
find_byte b (c ∷ prose) s h = ground (arith, h, find_byte b prose s)

find_ticks :
    (intro s : Bytes)
    → has_byte 96 intro ≡ false
    → index ticks (intro ++ (ticks ++ s)) ≡ some (length intro)
unfolding index is_prefix
find_ticks [] s h = refl
find_ticks (c ∷ intro) s h = ground (arith, h, find_ticks intro s)

no_ticks : (s : Bytes) → contains ticks s ≡ false → index ticks s ≡ none
unfolding index contains is_prefix
no_ticks [] h = refl
no_ticks (c ∷ s) h = ground (arith, h, no_ticks s)

take-append : (s t : Bytes) → take (length s) (s ++ t) ≡ s
take-append [] t = refl
take-append (c ∷ s) t = ap (◌∷◌ c) (take-append s t)

-- behind a text and some bytes more
drop_behind : (s m t : Bytes) → drop (length s + length m) (s ++ (m ++ t)) ≡ t
drop_behind s m t =
    ap (λ n. drop n (s ++ (m ++ t))) (sym (length-append s m))
    ∙ ap (drop (length (s ++ m))) (sym (append_assoc s m t))
    ∙ drop-append (s ++ m) t

-- What stands in the reply: all of it, where it has no three backquotes in a row; or else the lines
-- between the first three, with what follows them on their line, and the next three or the end.
pub data IsContent (raw : Bytes) : Bytes → Type 0 where
  bare : contains ticks (trim_space raw) ≡ false → IsContent raw (trim_space raw)
  fenced :
      (intro info body rest : Bytes)
      → trim_space raw ≡ intro ++ (ticks ++ (info ++ (10 ∷ (body ++ (ticks ++ rest)))))
      → has_byte 96 intro ≡ false
      → has_byte 10 info ≡ false
      → has_byte 96 body ≡ false
      → IsContent raw (trim_space body)
  unclosed :
      (intro info body : Bytes)
      → trim_space raw ≡ intro ++ (ticks ++ (info ++ (10 ∷ body)))
      → has_byte 96 intro ≡ false
      → has_byte 10 info ≡ false
      → contains ticks body ≡ false
      → IsContent raw (trim_space body)

-- the lines behind the fence
behind_fence :
    (intro info body : Bytes)
    → has_byte 96 intro ≡ false
    → has_byte 10 info ≡ false
    → (let s = intro ++ (ticks ++ (info ++ (10 ∷ body))) in
        unfenced s (index ticks s) ≡ trim_space (up_to_ticks body (index ticks body)))
unfolding unfenced behind_line
behind_fence intro info body h k =
    let s = intro ++ (ticks ++ (info ++ (10 ∷ body))) in
    let start : index ticks s ≡ some (length intro) = find_ticks intro (info ++ (10 ∷ body)) h in
    let line : drop (length intro + 3) s ≡ info ++ (10 ∷ body) =
      drop_behind intro ticks (info ++ (10 ∷ body)) in
    let feed : index_byte 10 (info ++ (10 ∷ body)) ≡ some (length info) =
      find_byte 10 info body k in
    let lines : drop (length info + 1) (info ++ (10 ∷ body)) ≡ body =
      drop_behind info (10 ∷ []) body in
    rw (start, line, feed, lines) refl

pub unfenced-content :
    (raw content : Bytes)
    → IsContent raw content
    → unfenced (trim_space raw) (index ticks (trim_space raw)) ≡ content
unfolding unfenced up_to_ticks
unfenced-content raw _ (bare h) = rw (no_ticks (trim_space raw) h) refl
unfenced-content raw _ (fenced intro info body rest e h k l) = rw e (
    behind_fence intro info (body ++ (ticks ++ rest)) h k
    ∙ rw (find_ticks body rest l, take-append body (ticks ++ rest)) refl)
unfenced-content raw _ (unclosed intro info body e h k l) =
    rw e (behind_fence intro info body h k ∙ rw (no_ticks body l) refl)
