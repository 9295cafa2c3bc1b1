-- ===== src/SkipList/AsMap.antt =====
-- The skip list of include/common/skipList.h as a map: its operations on the sorted pairs that it
-- stands for.
use kvcache_raft.Common.{
  ℕ, suc, ◌≤◌, ◌≡◌, inl, inr, refl, sym, ap, ◌∙◌, subst, List, [], ◌∷◌, ◌++◌, Option, none, some,
  Bool, true, false, ok, arith, Option-cases, Bool-cases, get_elem?-replicate, in_bounds,
}
use kvcache_raft.SkipList.Order.{Order}
use kvcache_raft.SkipList.Types.{SkipList, forward_at, new_skip_list}
use kvcache_raft.SkipList.Ops.{
  get_random_level, search_element, insert_element, delete_element, insert_set_element, dump_file,
}
use kvcache_raft.SkipList.Cells.{Cell, first_at}
use kvcache_raft.SkipList.Rep.{Rep, entries, lookup, insert, remove}
use kvcache_raft.SkipList.Entries.{
  lookup-found, lookup-absent, insert-found, insert-absent, remove-found, remove-absent,
}
use kvcache_raft.SkipList.Search.{
  at_cell, between, Located-always, search_element-lookup, dump_file-entries,
}
use kvcache_raft.SkipList.Insert.{insert_at-Rep, new_cell}
use kvcache_raft.SkipList.Delete.{delete_at-Rep}

pub get_random_level_le : (max_level odd : ℕ) → get_random_level max_level odd ≤ max_level
unfolding get_random_level
get_random_level_le max_level odd = ground arith

abbrev pub is_some {ℓ} : {A : Type ℓ} → Option A → Bool
is_some none = false
is_some (some a) = true

module _ {K V : Type 0} (ord : Order K) where
  -- The skip list is well-formed, and `es` are its pairs in order.
  unfoldable pub Represents : SkipList K V → List (K × V) → Type 0
  Represents s es = (h : Cell K V) × (cs : List (Cell K V)) × Rep ord s h cs × (entries cs ≡ es)

  -- The pair replaces the one with its key.
  abbrev pub put : K → V → List (K × V) → List (K × V)
  put key value es = insert ord key value (remove ord key es)

  pub new_skip_list-Represents :
      (k : K) (v : V) (max_level : ℕ) (draws : ℕ → ℕ)
      → Represents (new_skip_list k v max_level draws) []
  unfolding Represents new_skip_list forward_at
  new_skip_list-Represents k v max_level draws = (
    record { addr = 0; level = max_level; key = k; value = v },
    [],
    record {
      top = refl;
      tall = refl;
      links = λ i le.
          ((λ p. ap in_bounds (get_elem?-replicate (suc max_level) i none (omega arith))), tt);
      held = tt;
      sorted = tt;
      low = tt;
      capped = omega arith;
      fresh = (omega arith, tt);
      distinct = (tt, tt);
      count = refl;
    },
    refl,
  )

  -- `search_element` finds the value of a key exactly when the key is there. It reads no missing or
  -- freed node, and its loops end.
  pub search_element-Represents :
      (key : K) (s : SkipList K V) (es : List (K × V))
      → Represents s es
      → search_element ord key s ≡ ok (lookup ord key es)
  unfolding Represents
  search_element-Represents key s es (h, cs, r, e) =
      search_element-lookup ord key s h cs r ∙ ap (λ z. ok (lookup ord key z)) e

  -- `dump_file` returns the keys and values of all elements, in the order of the keys: its walk along
  -- level 0 ends, and passes every element.
  pub dump_file-Represents :
      (s : SkipList K V) (es : List (K × V)) → Represents s es → dump_file s ≡ ok es
  unfolding Represents
  dump_file-Represents s es (h, cs, r, e) = dump_file-entries ord s h cs r ∙ ap ok e

  insert_element-entries :
      (key : K) (value : V) (s : SkipList K V) (h : Cell K V) (cs : List (Cell K V))
      → Rep ord s h cs
      → (t : SkipList K V) × (insert_element ord key value s
          ≡ ok (t, is_some (lookup ord key (entries cs))))
        × Represents t (insert ord key value (entries cs))
  unfolding insert_element Represents
  insert_element-entries key value s h cs r = elim (Located-always ord key s h cs r) [
    | at_cell pre c post e r' b k a f y ↦
        let old = ap (λ z. lookup ord key (entries z)) e ∙ lookup-found ord key pre c post k b in
        (
          s,
          rw (f, y, old),
          (
            h,
            cs,
            r,
            ap entries e
                ∙ sym (insert-found ord key pre c post k b value)
                ∙ ap (λ z. insert ord key value (entries z)) (sym e),
          ),
        )
    | between pre post e r' b a f y ↦
        let level = get_random_level s.max_level (s.draws s.drawn) in
        let (t, g, r2) =
          insert_at-Rep ord key value level s h pre post r' b a
            (get_random_level_le s.max_level (s.draws s.drawn)) in
        let n = new_cell s key value level in
        let old = ap (λ z. lookup ord key (entries z)) e ∙ lookup-absent ord key pre post b a in
        (
          t,
          rw (f, y, g, old),
          (
            h,
            pre ++ n ∷ post,
            r2,
            sym (insert-absent ord key pre post b a n refl)
                ∙ ap (λ z. insert ord key value (entries z)) (sym e),
          ),
        )
  ]

  delete_element-entries :
      (key : K) (s : SkipList K V) (h : Cell K V) (cs : List (Cell K V))
      → Rep ord s h cs
      → (t : SkipList K V) × (delete_element ord key s ≡ ok t)
        × Represents t (remove ord key (entries cs))
  unfolding delete_element Represents
  delete_element-entries key s h cs r = elim (Located-always ord key s h cs r) [
    | at_cell pre c post e r' b k a f y ↦
        let (t, g, r2) = delete_at-Rep ord s h pre c post r' in
        (
          t,
          rw (f, y, g),
          (
            h,
            pre ++ post,
            r2,
            sym (remove-found ord key pre c post k b)
                ∙ ap (λ z. remove ord key (entries z)) (sym e),
          ),
        )
    | between pre post e r' b a f y ↦ (
      s,
      (elim (Option-cases (first_at 0 post)) [ inl p ↦ rw (f, y, p) | inr (x, p) ↦ rw (f, y, p) ]),
      (
        h,
        cs,
        r,
        ap entries e
            ∙ sym (remove-absent ord key pre post b a)
            ∙ ap (λ z. remove ord key (entries z)) (sym e),
      ),
    )
  ]

  -- `insert_element` puts the pair in its place in the order unless the key is there, says whether it
  -- was, and keeps the list well-formed.
  pub insert_element-insert :
      (key : K) (value : V) (s : SkipList K V) (es : List (K × V))
      → Represents s es
      → (t : SkipList K V) × (insert_element ord key value s ≡ ok (t, is_some (lookup ord key es)))
        × Represents t (insert ord key value es)
  unfolding Represents
  insert_element-insert key value s es (h, cs, r, e) =
      subst
        (λ z.
          (t : SkipList K V) × (insert_element ord key value s ≡ ok (t, is_some (lookup ord key z)))
          × Represents t (insert ord key value z))
        e (insert_element-entries key value s h cs r)

  -- `delete_element` removes the pair of the key, if it is there, and keeps the list well-formed.
  pub delete_element-remove :
      (key : K) (s : SkipList K V) (es : List (K × V))
      → Represents s es
      → (t : SkipList K V) × (delete_element ord key s ≡ ok t) × Represents t (remove ord key es)
  unfolding Represents
  delete_element-remove key s es (h, cs, r, e) =
      subst
        (λ z.
          (t : SkipList K V) × (delete_element ord key s ≡ ok t) × Represents t (remove ord key z))
        e (delete_element-entries key s h cs r)

  remove-none : (key : K) (es : List (K × V)) → lookup ord key es ≡ none → remove ord key es ≡ es
  remove-none key [] h = refl
  remove-none key (e ∷ es) h = elim (Bool-cases (ord.eq e.0 key)) [
    | inl p ↦ absurd (ground arith)
    | inr p ↦ let ih = remove-none key es (rw (p) at h) in rw (p, ih)
  ]

  -- `insert_set_element` puts the pair in its place, in the place of the one with its key.
  pub insert_set_element-put :
      (key : K) (value : V) (s : SkipList K V) (es : List (K × V))
      → Represents s es
      → (t : SkipList K V) × (insert_set_element ord key value s ≡ ok t)
        × Represents t (put key value es)
  unfolding insert_set_element
  insert_set_element-put key value s es r =
      let found = search_element-Represents key s es r in
      elim (Option-cases (lookup ord key es)) [
        | inl e ↦
            let (t, f, r') = insert_element-insert key value s es r in
            (
              t,
              rw (found, e, f),
              subst (λ z. Represents t (insert ord key value z)) (sym (remove-none key es e)) r',
            )
        | inr (v, e) ↦
            let (t, f, r') = delete_element-remove key s es r in
            let (w, g, r'') = insert_element-insert key value t (remove ord key es) r' in
            (w, rw (found, e, f, g), r'')
      ]
