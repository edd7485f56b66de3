-- ===== src/Rag/Answer/Object.antt =====
-- The object that `extractJSON` finds in a reply with prose around it: texts in which the braces
-- outside of strings are balanced.
use pixkb.Base.{
  Bytes, ℕ, suc, ◌+◌, ◌-◌, ◌≤◌, ◌≡◌, refl, ap, ◌∙◌, true, false, [], ◌∷◌, ◌++◌, Option, none, some,
  length, length-append, take, drop, ◌==◌, append_assoc, drop-append, arith,
}
use pixkb.Text.Space.{trim_space}
use pixkb.Text.Search.{index, index_byte, next}
use pixkb.Text.Search.Fence.{has_byte}
use pixkb.Rag.Answer.Content.{IsContent, unfenced-content, find_byte}
use pixkb.Rag.Answer.{
  Scan, scan_byte, closes, object_length, outside, ticks, unfenced, object_at, cut_object,
  extract_json,
}

-- the inside of a string: a backslash takes the next byte with it
pub data IsString : Bytes → Type 0 where
  end : IsString []
  char :
      {s : Bytes} (c : ℕ)
      → (c == b'\\') ≡ false
      → (c == b'"') ≡ false
      → IsString s
      → IsString (c ∷ s)
  escaped : {s : Bytes} (c : ℕ) → IsString s → IsString (b'\\' ∷ c ∷ s)

-- the inside of an object
pub data IsBalanced : Bytes → Type 0 where
  empty : IsBalanced []
  other :
      {s : Bytes} (c : ℕ)
      → (c == b'"') ≡ false
      → (c == b'{') ≡ false
      → (c == b'}') ≡ false
      → IsBalanced s
      → IsBalanced (c ∷ s)
  quoted : {t s : Bytes} → IsString t → IsBalanced s → IsBalanced (b'"' ∷ (t ++ (b'"' ∷ s)))
  nested : {t s : Bytes} → IsBalanced t → IsBalanced s → IsBalanced (b'{' ∷ (t ++ (b'}' ∷ s)))

abbrev shift : ℕ → Option ℕ → Option ℕ
shift n none = none
shift n (some i) = some (n + i)

next-shift : (n : ℕ) (o : Option ℕ) → next (shift n o) ≡ shift (suc n) o
next-shift n none = refl
next-shift n (some i) = ap some (omega arith)

next-eq-shift : (o : Option ℕ) → next o ≡ shift 1 o
next-eq-shift none = refl
next-eq-shift (some i) = ap some (omega arith)

shift-next : (n : ℕ) (o : Option ℕ) → shift n (next o) ≡ shift (suc n) o
shift-next n none = refl
shift-next n (some i) = ap some (omega arith)

abbrev inside : ℕ → Scan
inside d = record { depth = d; in_str = true; esc = false }

-- A string is passed over.
string_passed :
    {t : Bytes} (d : ℕ) (s : Bytes)
    → IsString t
    → object_length (inside d) (t ++ (b'"' ∷ s))
      ≡ shift (suc (length t)) (object_length (outside d) s)
unfolding object_length scan_byte closes
string_passed d s end = next-eq-shift (object_length (outside d) s)
string_passed d s (char {s = t} c p q r) =
    rw (p, q)
      (ap next (string_passed d s r) ∙ next-shift (suc (length t)) (object_length (outside d) s))
string_passed d s (escaped {s = t} c r) =
    ap (λ o. next (next o)) (string_passed d s r)
    ∙ ap next (next-shift (suc (length t)) (object_length (outside d) s))
    ∙ next-shift (suc (suc (length t))) (object_length (outside d) s)

shift_zero : (o : Option ℕ) → o ≡ shift 0 o
shift_zero none = refl
shift_zero (some i) = ap some (omega arith)

-- a delimiter, a text, a delimiter and another text
shift_parts :
    (c : ℕ) (t s : Bytes) (o : Option ℕ)
    → next (shift (suc (length t)) (shift (length s) o)) ≡ shift (suc (length (t ++ (c ∷ s)))) o
shift_parts c t s none = refl
shift_parts c t s (some i) = ap some (omega (arith, length-append t (c ∷ s)))

-- What is balanced is passed over at any depth but the outermost.
balanced_passed :
    {t : Bytes} (d : ℕ) (s : Bytes)
    → 1 ≤ d
    → IsBalanced t
    → object_length (outside d) (t ++ s) ≡ shift (length t) (object_length (outside d) s)
unfolding object_length scan_byte closes
balanced_passed d s h empty = shift_zero (object_length (outside d) s)
balanced_passed d s h (other {s = t} c p q r b) =
    rw (p, q, r)
      (ap next (balanced_passed d s h b) ∙ next-shift (length t) (object_length (outside d) s))
balanced_passed d s h (quoted {t = u} {s = t} i b) = rw (append_assoc u (b'"' ∷ t) s) (
    ap next (string_passed d (t ++ s) i)
    ∙ ap (λ o. next (shift (suc (length u)) o)) (balanced_passed d s h b)
    ∙ shift_parts b'"' u t (object_length (outside d) s))
balanced_passed d s h (nested {t = u} {s = t} b b') =
    let back : d + 1 - 1 ≡ d = omega arith in
    let deep : (d == 0) ≡ false = ground arith in
    let here : object_length (outside (d + 1)) (b'}' ∷ (t ++ s))
        ≡ next (object_length (outside d) (t ++ s)) =
      rw (back, deep) refl in
    rw (append_assoc u (b'}' ∷ t) s) (
      ap next (balanced_passed (d + 1) (b'}' ∷ (t ++ s)) (omega arith) b)
      ∙ ap (λ o. next (shift (length u) o)) here
      ∙ ap (λ o. next (shift (length u) (next o))) (balanced_passed d s h b')
      ∙ ap next (shift-next (length u) (shift (length t) (object_length (outside d) s)))
      ∙ shift_parts b'}' u t (object_length (outside d) s))

-- An object is as long as it is.
object_length-object :
    {t : Bytes} (s : Bytes)
    → IsBalanced t
    → object_length (outside 0) (b'{' ∷ (t ++ (b'}' ∷ s))) ≡ some (suc (suc (length t)))
unfolding object_length scan_byte closes
object_length-object {t} s b =
    ap next (balanced_passed 1 (b'}' ∷ s) (omega arith) b) ∙ ap some (omega arith)

object_end : (t s : Bytes) → take (suc (length t)) (t ++ (b'}' ∷ s)) ≡ t ++ (b'}' ∷ [])
object_end [] s = refl
object_end (c ∷ t) s = ap (◌∷◌ c) (object_end t s)

-- Where a reply without three backquotes in a row, or else what stands in its first Markdown fence,
-- with no backquote before the fence or within it (an unclosed one may have single ones), is prose
-- without an opening brace, an object in which the braces outside of strings are balanced, and any
-- text behind it, then `extractJSON` gives the object.
pub extract_json-object :
    (raw content prose object tail : Bytes)
    → IsContent raw content
    → content ≡ prose ++ (b'{' ∷ (object ++ (b'}' ∷ tail)))
    → has_byte b'{' prose ≡ false
    → IsBalanced object
    → extract_json raw ≡ b'{' ∷ (object ++ (b'}' ∷ []))
unfolding extract_json object_at cut_object
extract_json-object raw content prose object tail i e h b =
    let whole = b'{' ∷ (object ++ (b'}' ∷ tail)) in
    let inner : unfenced (trim_space raw) (index ticks (trim_space raw)) ≡ prose ++ whole =
      unfenced-content raw content i ∙ e in
    let found : index_byte b'{' (prose ++ whole) ≡ some (length prose) =
      find_byte b'{' prose (object ++ (b'}' ∷ tail)) h in
    let behind : drop (length prose) (prose ++ whole) ≡ whole = drop-append prose whole in
    rw (inner, found, behind, object_length-object tail b, behind)
      (ap (◌∷◌ b'{') (object_end object tail))
