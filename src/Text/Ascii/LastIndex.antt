-- ===== src/Text/Ascii/LastIndex.antt =====
-- `strings.LastIndex` looks at the end of a text first.
use pixkb.Base.{Bytes, ℕ, ◌+◌, ◌≡◌, [], ◌∷◌, ◌++◌, some, length, arith}
use pixkb.Text.Ascii.{last_index}

pub last_index-append :
    (sep s t : Bytes) {i : ℕ}
    → last_index sep t ≡ some i
    → last_index sep (s ++ t) ≡ some (length s + i)
unfolding last_index
last_index-append sep [] t e = ground arith
last_index-append sep (c ∷ s) t e = ground (arith, last_index-append sep s t e)
