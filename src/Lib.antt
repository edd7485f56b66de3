-- ===== src/Lib.antt =====
-- pixkb, a knowledge base on Pix and the regulation around it: a model of its parts that compute,
-- and what is proved of them.
--
-- * Brcode is internal/brcode/brcode.go, the payload of a Pix QR code. `Payload` is the record that
--   the other parts fill; Brcode.Tlv has the framing of its fields (`parseTLVs`, `encodeTLVs`,
--   `find`), Brcode.Crc the checksum, Brcode.Payload the checks of `Validate`, Brcode.Encode and
--   Brcode.Parse the two directions and `ValidateCode`.
-- * Hql is internal/hql, the query language. Hql.Lexer is lexer.go; Hql.Monad, Hql.Values and
--   Hql.Parser are parser.go, where the parser's position is the list of the tokens that are left
--   and is passed on explicitly; Hql.Schema and Hql.Functions are schema.go and functions.go; Hql.Sql
--   and Hql.Builder are sql.go, where a method takes the arguments that were appended so far and
--   returns them. `parse` hands its `Query` to `to_sql_at`.
-- * Rag is internal/rag. Rag.Types has the data, the retriever with its optional capabilities as
--   options, and the bundle; Rag.Grounding is `retrieve`, `diversify` and `BuildGrounding`, Rag.Render
--   `Render` and `stripMarker`, Rag.Answer answer.go, Rag.Pii pii.go, Rag.Key and Rag.Cache cache.go
--   (the cache is a list of elements with handles, and a map from keys to handles), Rag.Adapters and
--   Rag.Ask adapters.go. `ask` takes the cache and the world of the agent and gives both back.
-- * Kbmcp.Ask is the tool `kb_ask` of internal/kbmcp/ask.go, which calls `ask` with the cache that all
--   its requests share.
-- * Query is internal/query: Query.Tokens and Query.Hybrid are hybrid.go, with the maps of `hybridCore`
--   in one record, Query.Vocab vocab.go, Query.Expand expand.go, Query.Matched
--   matchedfields.go, and Query.Multi multi.go.
-- * Epoch is internal/epoch: Epoch.Diff is diff.go, and Epoch.Runner is runner.go, over the calls of
--   Epoch.Steps. A function there appends each call that it makes to those made before, and `Env` says
--   of each call whether it fails and what it returns, which may depend on all calls before it.
-- * Evalkit.Metrics is internal/evalkit/metrics.go.
-- * Fusion is internal/embed/rrf.go: scores by id, and the stable sort of the ids.
-- * Similar is internal/similar: Similar.Hits has the hits, the filter and the store as a record of
--   operations, Similar.Select the loops of similar.go, Similar.Signals the modes of signals.go and
--   morelikethis.go, Similar.Domain domain.go, and Similar.Dispatch dispatch.go, which calls them and
--   fuses their hits in the order of Fusion.
-- * Base, Text and Word are shared: lists, results and byte strings; what the code uses of Go's
--   strings, strconv and fmt on bytes; words of sixteen bits.
--
-- A Go string is a list of bytes, and an `int` that is an offset or a length is a natural number.
-- An error is a constructor with the values that its message shows. A Go map is an association list;
-- the order in which Go walks it is a parameter. Each loop that is not recursion on its input runs on
-- fuel: one unit for each byte of a text and one more, since each round of `parseTLVs` and of `lex`
-- takes a byte at least, and five units for each token and five more in the parser, which passes
-- through at most five functions between two tokens. `stripMarker` has one unit for each byte and one
-- more, since each round takes a byte at least. A read of the tokens out of range, which panics in Go,
-- is the error `out_of_range`.
--
-- Parameters are the Unicode tables behind `strings.ToUpper` and `strings.ToLower`,
-- `strings.ToValidUTF8`, the calendar of package time (`Clock`), SHA-256, `json.Unmarshal`, the regular
-- expressions of pii.go, the arms of the search, the embedder and the agents, and float64 (`Float`,
-- whose comparisons are assumed to order the numbers other than NaN; of `%g` it is assumed that it
-- writes different numbers as different texts without bars). Words of the query language are ASCII,
-- so its case folding is that of ASCII. The wrap-around of int64 is written out in the
-- durations; offsets and lengths stay below it. Not modelled are QR images, the database, the network,
-- the agents' processes, and the readers of file formats, which call other libraries, and
-- internal/link, internal/okf and internal/hygiene, which work on their results.
pub mod Base
pub mod Brcode
pub mod Epoch
pub mod Evalkit
pub mod Fusion
pub mod Hql
pub mod Kbmcp
pub mod Query
pub mod Rag
pub mod Similar
pub mod Tests
pub mod Text
pub mod Word
