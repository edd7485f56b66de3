-- ===== src/Rag/Render.antt =====
-- `Render`, `stripMarker` and `sourceOrNone` of internal/rag/rag.go. Each round of `stripMarker`
-- takes one unit of fuel.
pub mod Fenced
use pixkb.Base.{
  Bytes, codes, ℕ, zero, suc, ◌+◌, Bool, true, false, List, [], ◌∷◌, ◌++◌, Option, none, some,
  length, if◌then◌else◌,
}
use pixkb.Text.Ascii.{is_empty}
use pixkb.Text.Space.{trim_space}
use pixkb.Text.Search.{contains, remove_all}
use pixkb.Rag.Types.{Chunk, Grounding}

abbrev pub doc_begin : Bytes
doc_begin = codes "<<<UNTRUSTED-DOCUMENT>>>"

abbrev pub doc_end : Bytes
doc_end = codes "<<<END-UNTRUSTED-DOCUMENT>>>"

-- the loop; without fuel there is no result
unfoldable pub strip_from : ℕ → Bytes → Bytes → Option Bytes
unfolding contains remove_all
strip_from zero s marker = none
strip_from (suc fuel) s marker =
    let again = strip_from fuel (remove_all marker s) marker in
    if contains marker s then again else some s

-- With a marker that is not empty, each round makes the text shorter.
unfoldable pub strip_marker : Bytes → Bytes → Option Bytes
unfolding strip_from
strip_marker s marker = strip_from (length s + 1) s marker

unfoldable pub source_or_none : Bytes → Bytes
source_or_none s = if is_empty (trim_space s) then codes "(no source)" else s

-- what is written for a chunk in front of its body
unfoldable pub heading : Chunk → Bytes
unfolding source_or_none
heading c =
    codes "[concept: "
    ++ (c.id
        ++ (codes " | source: "
            ++ (source_or_none c.source_uri
                ++ (codes "]\n" ++ (c.title ++ (codes "\n" ++ doc_begin))))))

-- `fmt.Fprintf` with its format, for a body that is stripped
unfoldable pub block : Chunk → Bytes → Bytes
unfolding heading
block c body = heading c ++ (codes "\n" ++ (body ++ (codes "\n" ++ doc_end)))

unfoldable pub block_of : Chunk → Option Bytes → Option Bytes
unfolding block
block_of c none = none
block_of c (some body) = some (block c body)

-- two blocks, with the empty line between them
unfoldable pub joined : Option Bytes → Option Bytes → Option Bytes
joined none rest = none
joined (some b) none = none
joined (some b) (some rest) = some (b ++ (codes "\n\n" ++ rest))

-- the loop over the chunks
unfoldable pub render_chunks : List Chunk → Option Bytes
unfolding strip_marker block_of joined
render_chunks [] = some []
render_chunks (c ∷ []) = block_of c (strip_marker c.body doc_end)
render_chunks (c ∷ d ∷ cs) =
    joined (block_of c (strip_marker c.body doc_end)) (render_chunks (d ∷ cs))

unfoldable pub render : Grounding → Option Bytes
unfolding render_chunks
render g = render_chunks g.chunks
