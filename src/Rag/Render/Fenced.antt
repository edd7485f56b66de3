-- ===== src/Rag/Render/Fenced.antt =====
-- The envelope of `Render`: no body closes it.
use pixkb.Base.{
  Bytes, codes, ℕ, zero, suc, ◌+◌, ◌≤◌, ◌<◌, ◌≡◌, refl, false, List, [], ◌∷◌, ◌++◌, some, length,
  arith, Bool-cases, inl, inr,
}
use pixkb.Text.Search.{contains, index, remove_all}
use pixkb.Text.Search.Removed.{
  IsPart, IsPart_refl, IsPart_trans, remove_all-IsPart, length-remove_all,
}
use pixkb.Text.Search.Fence.{index-line}
use pixkb.Rag.Types.{Chunk, Grounding}
use pixkb.Rag.Render.{
  doc_end, strip_from, strip_marker, block, block_of, joined, render_chunks, render,
}

-- What `stripMarker` makes of a text.
pub record IsStripped (marker s t : Bytes) : Type 0 where
  pub part : IsPart t s
  pub clean : contains marker t ≡ false
  pub unchanged : contains marker s ≡ false → t ≡ s

strip_from-IsStripped :
    (fuel : ℕ) (s marker : Bytes)
    → 1 ≤ length marker
    → length s < fuel
    → (t : Bytes) × (strip_from fuel s marker ≡ some t) × IsStripped marker s t
unfolding strip_from
strip_from-IsStripped zero s marker h k = absurd (omega arith)
strip_from-IsStripped (suc fuel) s marker h k = elim (Bool-cases (contains marker s)) [
  | inr f ↦ rw f (s, refl, record { part = IsPart_refl s; clean = f; unchanged = λ none_in. refl })
  | inl t ↦
      let (u, e, stripped) =
        strip_from-IsStripped fuel (remove_all marker s) marker h
          (omega (arith, k, length-remove_all marker s h t)) in
      rw t (
        u,
        e,
        record {
          part = IsPart_trans stripped.part (remove_all-IsPart marker s);
          clean = stripped.clean;
          unchanged = λ none_in. cc (none_in, t);
        },
      )
]

-- For a marker that is not empty, `stripMarker` comes to an end, and its result is the text without
-- some of its bytes, does not contain the marker, and is the text itself where that does not contain
-- the marker.
pub strip_marker-IsStripped :
    (s marker : Bytes)
    → 1 ≤ length marker
    → (t : Bytes) × (strip_marker s marker ≡ some t) × IsStripped marker s t
unfolding strip_marker
strip_marker-IsStripped s marker h = strip_from-IsStripped (length s + 1) s marker h (omega arith)

-- A body in its envelope: the marker that ends the envelope first occurs behind the body.
pub record IsFenced (c : Chunk) (body : Bytes) : Type 0 where
  pub stripped : IsStripped doc_end c.body body
  pub closes :
      (rest : Bytes) → index doc_end (body ++ (10 ∷ (doc_end ++ rest))) ≡ some (suc (length body))

abbrev pub Fenced : List Chunk → List Bytes → Type 0
Fenced [] [] = Unit
Fenced [] (b ∷ bs) = ⊥
Fenced (c ∷ cs) [] = ⊥
Fenced (c ∷ cs) (b ∷ bs) = IsFenced c b × Fenced cs bs

-- the blocks of the chunks with these bodies, an empty line between two
abbrev pub blocks : List Chunk → List Bytes → Bytes
blocks (c ∷ []) (b ∷ bs) = block c b
blocks (c ∷ d ∷ cs) (b ∷ bs) = block c b ++ (codes "\n\n" ++ blocks (d ∷ cs) bs)
blocks _ _ = []

stripped-IsFenced : (c : Chunk) (body : Bytes) → IsStripped doc_end c.body body → IsFenced c body
stripped-IsFenced c body s = record {
  stripped = s;
  closes = λ rest. index-line b'<' (codes "<<END-UNTRUSTED-DOCUMENT>>>") body rest refl s.clean;
}

-- `Render` gives the blocks of the chunks, each with its body without some of its bytes, in which
-- the marker that ends the envelope does not occur, not even together with the line feed behind it:
-- where it is first found from the start of the body on, the envelope ends.
pub render-Fenced :
    (g : Grounding)
    → (bodies : List Bytes) × (render g ≡ some (blocks g.chunks bodies)) × Fenced g.chunks bodies
unfolding render render_chunks block_of joined
render-Fenced g = fenced g.chunks
  where
    fenced :
        (cs : List Chunk)
        → (bodies : List Bytes) × (render_chunks cs ≡ some (blocks cs bodies)) × Fenced cs bodies
    fenced [] = ([], refl, tt)
    fenced (c ∷ []) =
        let (t, e, s) = strip_marker-IsStripped c.body doc_end (omega arith) in
        (t ∷ [], rw e refl, (stripped-IsFenced c t s, tt))
    fenced (c ∷ d ∷ cs) =
        let (t, e, s) = strip_marker-IsStripped c.body doc_end (omega arith) in
        let (bodies, q, rest) = fenced (d ∷ cs) in
        (t ∷ bodies, rw (e, q) refl, (stripped-IsFenced c t s, rest))
