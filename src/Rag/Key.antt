-- ===== src/Rag/Key.antt =====
-- `CacheKey` and `cacheKeyFor` of internal/rag/cache.go. The Unicode tables of `strings.ToLower`, the
-- verb `%g` and the hash, with its hexadecimal digits, are parameters.
pub mod Scope
use pixkb.Base.{Bytes, codes, Bool, true, false, List, [], ◌∷◌, ◌++◌}
use pixkb.Text.Number.{ℤ}
use pixkb.Text.Number.Decimal.{format_int}
use pixkb.Text.Fields.{fields}
use pixkb.Text.Search.{join}
use pixkb.Rag.Types.{Options}

-- `%t`
unfoldable pub format_bool : Bool → Bytes
format_bool true = codes "true"
format_bool false = codes "false"

-- texts, each behind a bar
unfoldable pub barred : List Bytes → Bytes
barred [] = []
barred (t ∷ ts) = b'|' ∷ (t ++ barred ts)

module _ (to_lower hash : Bytes → Bytes) where
  -- the question in lower case, with one space between its words
  unfoldable pub normalized : Bytes → Bytes
  unfolding fields join
  normalized question = to_lower (join (codes " ") (fields question))

  unfoldable pub cache_key : Bytes → ℤ → Bytes
  unfolding normalized format_int
  cache_key question epoch = hash (format_int epoch ++ (b'|' ∷ normalized question))

  module _ {Score : Type 0} (format_score : Score → Bytes) where
    -- the values of the options in the text that is hashed
    unfoldable pub option_fields : Options Score → List Bytes
    unfolding format_int format_bool
    option_fields o =
        (codes "topk=" ++ format_int o.top_k)
        ∷ (codes "max=" ++ format_int o.max_chars)
        ∷ (codes "rel=" ++ format_bool o.expand_related)
        ∷ (codes "seeds=" ++ format_int o.expand_seeds)
        ∷ (codes "multi=" ++ format_bool o.multi_query)
        ∷ (codes "div=" ++ format_bool o.diversify)
        ∷ (codes "sim=" ++ format_bool o.expand_similar)
        ∷ (codes "min=" ++ format_score o.min_score)
        ∷ (codes "nopii=" ++ format_bool o.no_pii_filter)
        ∷ []

    unfoldable pub payload : Bytes → Options Score → Bytes
    unfolding normalized option_fields barred
    payload question o =
        format_int o.epoch ++ (b'|' ∷ (normalized question ++ barred (option_fields o)))

    unfoldable pub cache_key_for : Bytes → Options Score → Bytes
    unfolding payload
    cache_key_for question o = hash (payload question o)
