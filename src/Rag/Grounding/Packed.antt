-- ===== src/Rag/Grounding/Packed.antt =====
-- The packing of `BuildGrounding`: what is taken of the concepts that can be used.
use pixkb.Base.{
  Bytes, ℕ, ◌+◌, ◌≤◌, ◌<◌, ◌≡◌, refl, true, false, List, [], ◌∷◌, ◌++◌, Option, none, some, length,
  ltb, arith, tests, ◌⊎◌, inl, inr, Bool-cases, Option-cases,
}
use pixkb.Rag.Types.{Chunk, ConceptSource}
use pixkb.Rag.Grounding.{usable, pack, pack_one}

-- the bytes of the bodies
abbrev pub total : List Chunk → ℕ
total [] = 0
total (c ∷ cs) = length c.body + total cs

abbrev pub with_usable : Option Chunk → List Chunk → List Chunk
with_usable none rest = rest
with_usable (some c) rest = c ∷ rest

-- What the budget allows of a list of chunks: a first part of it, which has one chunk or is within
-- the budget, and to which the next chunk would be too much.
pub data IsPacked (budget : ℕ) : List Chunk → List Chunk → Type 0 where
  everything :
      {all : List Chunk} → ((length all ≤ 1) ⊎ (total all ≤ budget)) → IsPacked budget all all
  cut :
      {taken all : List Chunk} (next : Chunk) (rest : List Chunk)
      → 1 ≤ length taken
      → ((length taken ≤ 1) ⊎ (total taken ≤ budget))
      → budget < total taken + length next.body
      → all ≡ taken ++ (next ∷ rest)
      → IsPacked budget taken all

-- What the loop takes of a list where `used` bytes are used already.
data Continued (budget used : ℕ) : List Chunk → List Chunk → Type 0 where
  all_taken :
      {all : List Chunk}
      → ((all ≡ []) ⊎ (used + total all ≤ budget))
      → Continued budget used all all
  stopped :
      {taken all : List Chunk} (next : Chunk) (rest : List Chunk)
      → ((taken ≡ []) ⊎ (used + total taken ≤ budget))
      → budget < used + total taken + length next.body
      → all ≡ taken ++ (next ∷ rest)
      → Continued budget used taken all

Continued-cons :
    (budget used : ℕ) (c : Chunk) (taken all : List Chunk)
    → used + length c.body ≤ budget
    → Continued budget (used + length c.body) taken all
    → Continued budget used (c ∷ taken) (c ∷ all)
Continued-cons budget used c taken all h (all_taken (inl e)) =
    all_taken (inr (rw e (omega (arith, h))))
Continued-cons budget used c taken all h (all_taken (inr p)) = all_taken (inr (omega (arith, p)))
Continued-cons budget used c taken all h (stopped next rest (inl e) over q) =
    stopped next rest (inr (rw e (omega (arith, h)))) (omega (arith, over)) (cc q)
Continued-cons budget used c taken all h (stopped next rest (inr p) over q) =
    stopped next rest (inr (omega (arith, p))) (omega (arith, over)) (cc q)

packed_first :
    (budget : ℕ) (c : Chunk) (taken all : List Chunk)
    → Continued budget (0 + length c.body) taken all
    → IsPacked budget (c ∷ taken) (c ∷ all)
packed_first budget c taken all (all_taken (inl e)) = everything (inl (rw e (omega arith)))
packed_first budget c taken all (all_taken (inr p)) = everything (inr (omega (arith, p)))
packed_first budget c taken all (stopped next rest (inl e) over q) =
    cut next rest (omega arith) (inl (rw e (omega arith))) (omega (arith, over)) (cc q)
packed_first budget c taken all (stopped next rest (inr p) over q) =
    cut next rest (omega arith) (inr (omega (arith, p))) (omega (arith, over)) (cc q)

module _ {Failure : Type 0} (cs : ConceptSource Failure) where
  -- the chunks of the concepts that can be used, in the order of the ids
  unfoldable pub usable_chunks : List Bytes → List Chunk
  unfolding usable
  usable_chunks [] = []
  usable_chunks (id ∷ ids) = with_usable (usable id (cs.concept id)) (usable_chunks ids)

  pack-Continued :
      (budget used : ℕ) (ids : List Bytes)
      → Continued budget used (pack cs budget true used ids) (usable_chunks ids)
  unfolding pack pack_one usable_chunks
  pack-Continued budget used [] = all_taken (inl refl)
  pack-Continued budget used (id ∷ ids) = elim (Option-cases (usable id (cs.concept id))) [
    | inl n ↦ rw n (pack-Continued budget used ids)
    | inr (c, s) ↦ elim (Bool-cases (ltb budget (used + length c.body))) [
      | inl t ↦ rw (s, t) (stopped c (usable_chunks ids) (inl refl) (omega (tests, t)) refl)
      | inr f ↦
          rw (s, f)
            (Continued-cons budget used c (pack cs budget true (used + length c.body) ids)
              (usable_chunks ids) (omega (tests, f))
              (pack-Continued budget (used + length c.body) ids))
    ]
  ]

  pub pack-IsPacked :
      (budget : ℕ) (ids : List Bytes)
      → IsPacked budget (pack cs budget false 0 ids) (usable_chunks ids)
  unfolding pack pack_one usable_chunks
  pack-IsPacked budget [] = everything (inl (omega arith))
  pack-IsPacked budget (id ∷ ids) = elim (Option-cases (usable id (cs.concept id))) [
    | inl n ↦ rw n (pack-IsPacked budget ids)
    | inr (c, s) ↦ rw s (
        packed_first budget c (pack cs budget true (0 + length c.body) ids) (usable_chunks ids)
          (pack-Continued budget (0 + length c.body) ids))
  ]
