-- ===== src/Rag/Cache/Consistent.antt =====
-- What holds of the cache between its operations, and what each operation does to its entries.
use pixkb.Base.{
  Bytes, ℕ, suc, ◌≤◌, ◌<◌, ◌≡◌, refl, sym, ap, ◌∙◌, false, List, [], ◌∷◌, map, none, Option-cases,
  inl, inr, Bool-cases, All, All-map, take-all, length-map, take, length, ltb, if◌then◌else◌, arith,
}
use pixkb.Text.Ascii.{equal}
use pixkb.Text.Ascii.Equal.{equal_iff}
use pixkb.Rag.Cache.{
  Element, LruCache, item, delete, move_to_front, front_of, set_ans, ans_of, get_at, get, evict_at,
  evict, push, put_at, put,
}
use pixkb.Rag.Cache.Entries.{entry, entries, lookup, used, stored}
use pixkb.Rag.Cache.Elements.{
  handle_of, IsOther, Apart, Taken, here, there, Taken-All, Taken-Apart, length-Taken,
  handle_of-Taken, Taken-element_at, handle_of-Found, handle_of-none, handle_of-absent, back-Taken,
}

item-delete :
    (key key' : Bytes) (items : List (Bytes × ℕ))
    → item key (delete key' items) ≡ (if equal key' key then none else item key items)
unfolding item delete
item-delete key key' [] = ground arith
item-delete key key' ((k, h) ∷ items) =
    ground
      (arith, item-delete key key' items, equal_iff k key', equal_iff k key, equal_iff key' key)

module _ {A : Type 0} where
  -- The map holds the handle of the element for each key, the elements differ in handle and key,
  -- and no handle is used again.
  pub record IsLinked (c : LruCache A) : Type 0 where
    pub agrees : (key : Bytes) → item key c.items ≡ handle_of key c.ll
    pub apart : Apart c.ll
    pub old : All (λ e. e.handle < c.fresh) c.ll

  -- And the list is within the capacity.
  pub record IsConsistent (c : LruCache A) : Type 0 where
    pub linked : IsLinked c
    pub fits : length c.ll ≤ c.capacity

  move_to_front-Taken :
      {h : ℕ} {e : Element A} {ll rest : List (Element A)}
      → Taken h e ll rest
      → move_to_front h ll ≡ e ∷ rest
  unfolding move_to_front front_of
  move_to_front-Taken s = let r = Taken-element_at s in rw (r.0, r.1) refl

  set_ans-Taken :
      (a : A) {h : ℕ} {e : Element A} {ll rest : List (Element A)}
      → Taken h e ll rest
      → Taken h (record e { ans = a }) (set_ans h a ll) rest
  unfolding set_ans
  set_ans-Taken a (here t) = rw t (here t)
  set_ans-Taken a (there f s) = rw f (there f (set_ans-Taken a s))

  -- the cache whose element `e` is put first, with any answer
  moved-IsConsistent :
      (c : LruCache A) (a : A) {h : ℕ} {e : Element A} {rest : List (Element A)}
      → IsConsistent c
      → Taken h e c.ll rest
      → IsConsistent (record c { ll = record e { ans = a } ∷ rest })
  unfolding handle_of
  moved-IsConsistent c a i s = record {
    linked = record {
      agrees = λ key. i.linked.agrees key ∙ handle_of-Taken key s i.linked.apart;
      apart = Taken-Apart s i.linked.apart;
      old = Taken-All (λ e. e.handle < c.fresh) s i.linked.old;
    };
    fits = omega (arith, i.fits, length-Taken s);
  }

  -- `Get` answers from the entry of the key, if there is one, and makes it the last used.
  pub get-IsConsistent :
      (c : LruCache A) (key : Bytes)
      → IsConsistent c
      → IsConsistent (get c key).1
        × ((get c key).0 ≡ lookup key (entries c.ll))
        × (entries (get c key).1.ll ≡ used key (entries c.ll))
  unfolding get get_at used entries ans_of
  get-IsConsistent c key i = elim (Option-cases (handle_of key c.ll)) [
    | inl n ↦ let m = handle_of-none key c.ll n in rw (i.linked.agrees key, n, m.0) (i, refl, refl)
    | inr (h, s) ↦
        let (e, rest, found) = handle_of-Found key h c.ll s i.linked.apart in
        rw
          (
            i.linked.agrees key,
            s,
            (Taken-element_at found.taken).0,
            move_to_front-Taken found.taken,
            found.ans_is,
            found.rest_is,
          )
          (
            moved-IsConsistent c e.ans i found.taken,
            refl,
            ap (λ k. (k, e.ans) ∷ entries rest) found.key_is,
          )
  ]

  All-both :
      (fresh : ℕ) (key : Bytes) (ll : List (Element A))
      → All (λ e. e.handle < fresh) ll
      → All (λ e. equal e.key key ≡ false) ll
      → All (IsOther fresh key) ll
  All-both fresh key [] h k = tt
  All-both fresh key (e ∷ ll) h k =
      (record { handles = ground (arith, h.0); keys = k.0 }, All-both fresh key ll h.1 k.1)

  pushed-IsLinked :
      (c : LruCache A) (key : Bytes) (a : A)
      → IsConsistent c
      → handle_of key c.ll ≡ none
      → IsLinked (push c key a)
  unfolding push item handle_of
  pushed-IsLinked c key a i n = record {
    agrees = λ k. rw (i.linked.agrees k) refl;
    apart = (All-both c.fresh key c.ll i.linked.old (handle_of-none key c.ll n).2, i.linked.apart);
    old = (omega arith, All-map (λ e l. omega arith) c.ll i.linked.old);
  }

  -- Taking out the last element, and its key in the map, keeps the links.
  evicted-IsLinked :
      (c : LruCache A) {d : Element A} {rest : List (Element A)}
      → IsLinked c
      → Taken d.handle d c.ll rest
      → IsLinked (record c { ll = rest; items = delete d.key c.items })
  unfolding handle_of
  evicted-IsLinked c {d} {rest} l s =
      let apart = Taken-Apart s l.apart in
      record {
        agrees = λ key.
            let same = item-delete key d.key c.items in
            let moved = handle_of-Taken key s l.apart in
            elim (Bool-cases (equal d.key key)) [
              | inl t ↦
                  let gone = handle_of-absent d.key rest (All-map (λ e o. o.keys) rest apart.0) in
                  let there_is = (equal_iff d.key key).0 t in rw (same, t) (cc (gone, there_is))
              | inr f ↦ rw (same, f, l.agrees key, moved, f) refl
            ];
        apart = apart.1;
        old = (Taken-All (λ e. e.handle < c.fresh) s l.old).1;
      }

  entries-all : (n : ℕ) (ll : List (Element A)) → length ll ≤ n → entries ll ≡ take n (entries ll)
  unfolding entries
  entries-all n ll h = sym (take-all n (map entry ll) (omega (arith, length-map entry ll)))

  -- The eviction behind a push keeps as many entries as the capacity allows.
  evict-push :
      (c : LruCache A) (key : Bytes) (a : A)
      → IsLinked (push c key a)
      → length c.ll ≤ c.capacity
      → IsConsistent (evict (push c key a))
        × (entries (evict (push c key a)).ll ≡ take c.capacity (entries (push c key a).ll))
  unfolding evict evict_at push
  evict-push c key a l small = elim (Bool-cases (ltb c.capacity (suc (length c.ll)))) [
    | inl full ↦
        let (d, rest, last, taken, shorter) =
          back-Taken (record { handle = c.fresh; key = key; ans = a }) c.ll l.apart in
        let is_full : length c.ll ≡ c.capacity = ground (arith, full, small) in
        rw (full, last, (Taken-element_at taken).1)
          (
            record {
              linked = evicted-IsLinked (push c key a) l taken;
              fits = omega (arith, length-Taken taken);
            },
            rw (← is_full) shorter,
          )
    | inr room ↦
        let enough : suc (length c.ll) ≤ c.capacity = ground (arith, room) in
        rw room
          (record { linked = l; fits = enough }, entries-all c.capacity (push c key a).ll enough)
  ]

  -- `Put` makes its entry the last used, and drops the oldest one where the cache is full.
  pub put-IsConsistent :
      (c : LruCache A) (key : Bytes) (a : A)
      → IsConsistent c
      → IsConsistent (put c key a)
        × (entries (put c key a).ll ≡ stored c.capacity key a (entries c.ll))
  unfolding put put_at stored push entries
  put-IsConsistent c key a i = elim (Option-cases (handle_of key c.ll)) [
    | inl n ↦
        rw (i.linked.agrees key, n, (handle_of-none key c.ll n).1)
          (evict-push c key a (pushed-IsLinked c key a i n) i.fits)
    | inr (h, s) ↦
        let (e, rest, found) = handle_of-Found key h c.ll s i.linked.apart in
        let small : length rest < c.capacity = omega (arith, i.fits, length-Taken found.taken) in
        rw
          (i.linked.agrees key, s, move_to_front-Taken (set_ans-Taken a found.taken), found.rest_is)
          (
            moved-IsConsistent c a i found.taken,
            ap (λ k. (k, a) ∷ entries rest) found.key_is
                ∙ entries-all c.capacity (record { handle = h; key = key; ans = a } ∷ rest) small,
          )
  ]
