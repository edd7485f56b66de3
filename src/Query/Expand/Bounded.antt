-- ===== src/Query/Expand/Bounded.antt =====
-- The queries of `ExpandQuery`.
use pixkb.Base.{
  Bytes, codes, ◌≤◌, ◌≡◌, refl, sym, ap, ◌∙◌, subst, Bool, false, ◌||◌, List, [], ◌∷◌, ◌++◌, All,
  length, map, arith, Bool-cases, inl, inr, length-append,
}
use pixkb.Text.Ascii.{is_empty}
use pixkb.Text.Space.{trim_space}
use pixkb.Text.Search.{join}
use pixkb.Text.Members.{mem, Distinct, Distinct-snoc}
use pixkb.Query.Tokens.{fold_tokens}
use pixkb.Query.Vocab.{VocabEntry, active_vocabulary}
use pixkb.Query.Expand.{Expansion, matched, add, add_entries, expand_query}

module _ (to_lower : Bytes → Bytes) (q : Bytes) where
  -- the queries behind the first one
  pub record IsExpanded (out : List Bytes) : Type 0 where
    pub rest : List Bytes
    pub first : out ≡ q ∷ rest
    -- no query is the original or another one in other case
    pub apart : Distinct (to_lower (trim_space q) ∷ map to_lower rest)
    pub visible : All (λ s. is_empty s ≡ false) rest

  record IsState (e : Expansion) : Type 0 where
    expanded : IsExpanded e.out
    seen : e.seen ≡ to_lower (trim_space q) ∷ map to_lower expanded.rest

  map-snoc :
      (f : Bytes → Bytes) (xs : List Bytes) (x : Bytes)
      → map f (xs ++ (x ∷ [])) ≡ map f xs ++ (f x ∷ [])
  map-snoc f [] x = refl
  map-snoc f (y ∷ ys) x = ap (◌∷◌ (f y)) (map-snoc f ys x)

  All-snoc :
      (P : Bytes → Type 0) (xs : List Bytes) (x : Bytes) → All P xs → P x → All P (xs ++ (x ∷ []))
  All-snoc P [] x h p = (p, tt)
  All-snoc P (y ∷ ys) x h p = (h.0, All-snoc P ys x h.1 p)

  add-IsState :
      (s : Bytes) (e : Expansion)
      → IsState e
      → length e.out ≤ 4
      → IsState (add to_lower s e).1
        × (length (add to_lower s e).1.out ≤ 5)
        × ((add to_lower s e).0 ≡ false → length (add to_lower s e).1.out ≤ 4)
  unfolding add
  add-IsState s e h l =
      let t = trim_space s in
      elim (Bool-cases (is_empty t || mem (to_lower t) e.seen)) [
        | inl skip ↦ rw skip (h, omega (arith, l), λ u. l)
        | inr fresh ↦
            let n = length-append e.out (t ∷ []) in
            let x = h.expanded in
            let first = to_lower (trim_space q) in
            let keys = ap (◌∷◌ first) (map-snoc to_lower x.rest t) in
            let new : mem (to_lower t) (first ∷ map to_lower x.rest) ≡ false =
              subst (λ l. mem (to_lower t) l ≡ false) h.seen (ground (arith, fresh)) in
            rw fresh (
              record {
                expanded = record {
                  rest = x.rest ++ (t ∷ []);
                  first = ap (λ o. o ++ (t ∷ [])) x.first;
                  apart =
                      subst Distinct (sym keys)
                        (Distinct-snoc (to_lower t) (first ∷ map to_lower x.rest) new x.apart);
                  visible =
                      All-snoc (λ s. is_empty s ≡ false) x.rest t x.visible (ground (arith, fresh));
                };
                seen = ap (λ l. l ++ (to_lower t ∷ [])) h.seen ∙ sym keys;
              },
              omega (arith, n, l),
              λ u. ground (arith, u),
            )
      ]

  add_entries-IsState :
      (tokens : List Bytes) (entries : List VocabEntry) (e : Expansion)
      → IsState e
      → length e.out ≤ 4
      → IsState (add_entries to_lower tokens entries e)
        × (length (add_entries to_lower tokens entries e).out ≤ 5)
  unfolding add_entries
  add_entries-IsState tokens [] e h l = (h, omega (arith, l))
  add_entries-IsState tokens (entry ∷ entries) e h l =
      elim (Bool-cases (matched tokens entry.stems)) [
        | inr f ↦ rw f (add_entries-IsState tokens entries e h l)
        | inl t ↦
            let (state, most, few) = add-IsState entry.subquery e h l in
            elim (Bool-cases (add to_lower entry.subquery e).0) [
              | inl enough ↦ rw (t, enough) (state, most)
              | inr more ↦
                  rw (t, more)
                    (add_entries-IsState tokens entries (add to_lower entry.subquery e).1 state
                      (few more))
            ]
      ]

  -- `ExpandQuery` gives the query itself, as it is, and behind it at most four more; none of those
  -- behind it is empty, or equals in lower case another one of them or the trimmed query.
  pub expand_query-IsExpanded :
      (vocabulary : List VocabEntry) (disabled : Bool)
      → IsExpanded (expand_query to_lower vocabulary disabled q)
        × (length (expand_query to_lower vocabulary disabled q) ≤ 5)
  unfolding expand_query mem
  expand_query-IsExpanded vocabulary disabled =
      let start : Expansion = record { out = q ∷ []; seen = to_lower (trim_space q) ∷ [] } in
      let tokens = fold_tokens to_lower q in
      let words = join (codes " ") tokens in
      let initial : IsState start = record {
        expanded = record { rest = []; first = refl; apart = (refl, tt); visible = tt };
        seen = refl;
      } in
      let (state, most, few) = add-IsState words start initial (omega arith) in
      elim (Bool-cases ((add to_lower words start).0 || disabled)) [
        | inl t ↦ rw t (state.expanded, most)
        | inr f ↦
            let (last, bound) =
              add_entries-IsState tokens (active_vocabulary vocabulary) (add to_lower words start).1
                state (few (ground (arith, f))) in
            rw f (last.expanded, bound)
      ]
