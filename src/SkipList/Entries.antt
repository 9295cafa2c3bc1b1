-- ===== src/SkipList/Entries.antt =====
-- The pairs of the skip list of include/common/skipList.h: what a map's operations are on them when
-- the place of the key is known.
use kvcache_raft.Common.{
  ◌≡◌, ◌≢◌, refl, sym, ap, ◌∙◌, subst, List, [], ◌∷◌, ◌++◌, none, some, true, All, Bool-cases, inl,
  inr,
}
use kvcache_raft.SkipList.Order.{Order, lt-eq, gt-eq}
use kvcache_raft.SkipList.Cells.{Cell}
use kvcache_raft.SkipList.Path.{Below}
use kvcache_raft.SkipList.Rep.{
  entries, entries-append, lookup, insert, remove, Above, NotBelow-Above, NotBelow-same,
}

key_eq : {K : Type 0} (ord : Order K) (key k : K) → k ≡ key → ord.eq k key ≡ true
key_eq ord key k e = subst (λ z. ord.eq k z ≡ true) e (ord.eq_refl k)

module _ {K V : Type 0} (ord : Order K) (key : K) where
  pub lookup-Below :
      (pre : List (Cell K V)) (es : List (K × V))
      → All (Below ord key) pre
      → lookup ord key (entries pre ++ es) ≡ lookup ord key es
  lookup-Below [] es p = refl
  lookup-Below (c ∷ cs) es p =
      let ne = lt-eq ord c.key key p.0 in (rw (ne)) ∙ lookup-Below cs es p.1

  pub lookup-Above :
      (post : List (Cell K V)) → All (Above ord key) post → lookup ord key (entries post) ≡ none
  lookup-Above [] p = refl
  lookup-Above (c ∷ cs) p = let ne = gt-eq ord c.key key p.0 in (rw (ne)) ∙ lookup-Above cs p.1

  pub insert-Below :
      (value : V) (pre : List (Cell K V)) (es : List (K × V))
      → All (Below ord key) pre
      → insert ord key value (entries pre ++ es) ≡ entries pre ++ insert ord key value es
  insert-Below value [] es p = refl
  insert-Below value (c ∷ cs) es p =
      let b = p.0 in (rw (b)) ∙ ap (◌∷◌ (c.key, c.value)) (insert-Below value cs es p.1)

  pub insert-Above :
      (value : V) (post : List (Cell K V))
      → All (Above ord key) post
      → insert ord key value (entries post) ≡ (key, value) ∷ entries post
  insert-Above value [] p = refl
  insert-Above value (c ∷ cs) p =
      let ne = gt-eq ord c.key key p.0 in let nb = NotBelow-Above ord key c p.0 in rw (nb, ne)

  pub remove-Below :
      (pre : List (Cell K V)) (es : List (K × V))
      → All (Below ord key) pre
      → remove ord key (entries pre ++ es) ≡ entries pre ++ remove ord key es
  remove-Below [] es p = refl
  remove-Below (c ∷ cs) es p =
      let ne = lt-eq ord c.key key p.0 in
      (rw (ne)) ∙ ap (◌∷◌ (c.key, c.value)) (remove-Below cs es p.1)

  pub remove-Above :
      (post : List (Cell K V))
      → All (Above ord key) post
      → remove ord key (entries post) ≡ entries post
  remove-Above [] p = refl
  remove-Above (c ∷ cs) p =
      let ne = gt-eq ord c.key key p.0 in
      (rw (ne)) ∙ ap (◌∷◌ (c.key, c.value)) (remove-Above cs p.1)

  module _ (pre : List (Cell K V)) (c : Cell K V) (post : List (Cell K V)) (k : c.key ≡ key)
      (b : All (Below ord key) pre) where
    pub lookup-found : lookup ord key (entries (pre ++ c ∷ post)) ≡ some c.value
    lookup-found =
        let e = key_eq ord key c.key k in
        ap (lookup ord key) (entries-append pre (c ∷ post))
        ∙ lookup-Below pre (entries (c ∷ post)) b
        ∙ (rw (e))

    pub insert-found :
        (value : V) → insert ord key value (entries (pre ++ c ∷ post)) ≡ entries (pre ++ c ∷ post)
    insert-found value =
        let e = key_eq ord key c.key k in
        let nb = NotBelow-same ord key c k in
        let self : insert ord key value (entries (c ∷ post)) ≡ entries (c ∷ post) = rw (nb, e) in
        ap (insert ord key value) (entries-append pre (c ∷ post))
        ∙ insert-Below value pre (entries (c ∷ post)) b
        ∙ ap (◌++◌ (entries pre)) self
        ∙ sym (entries-append pre (c ∷ post))

    pub remove-found : remove ord key (entries (pre ++ c ∷ post)) ≡ entries (pre ++ post)
    remove-found =
        let e = key_eq ord key c.key k in
        let self : remove ord key (entries (c ∷ post)) ≡ entries post = rw (e) in
        ap (remove ord key) (entries-append pre (c ∷ post))
        ∙ remove-Below pre (entries (c ∷ post)) b
        ∙ ap (◌++◌ (entries pre)) self
        ∙ sym (entries-append pre post)

  module _ (pre post : List (Cell K V)) (b : All (Below ord key) pre)
      (a : All (Above ord key) post) where
    pub lookup-absent : lookup ord key (entries (pre ++ post)) ≡ none
    lookup-absent =
        ap (lookup ord key) (entries-append pre post)
        ∙ lookup-Below pre (entries post) b
        ∙ lookup-Above post a

    pub insert-absent :
        (n : Cell K V)
        → n.key ≡ key
        → insert ord key n.value (entries (pre ++ post)) ≡ entries (pre ++ n ∷ post)
    insert-absent n k =
        ap (insert ord key n.value) (entries-append pre post)
        ∙ insert-Below n.value pre (entries post) b
        ∙ ap (◌++◌ (entries pre))
            (insert-Above n.value post a ∙ ap (λ z. (z, n.value) ∷ entries post) (sym k))
        ∙ sym (entries-append pre (n ∷ post))

    pub remove-absent : remove ord key (entries (pre ++ post)) ≡ entries (pre ++ post)
    remove-absent =
        ap (remove ord key) (entries-append pre post)
        ∙ remove-Below pre (entries post) b
        ∙ ap (◌++◌ (entries pre)) (remove-Above post a)
        ∙ sym (entries-append pre post)

  -- Another key's pair does not matter.
  pub lookup-other :
      (other : K) (xs : List (Cell K V)) (c : Cell K V) (ys : List (Cell K V))
      → c.key ≡ key
      → key ≢ other
      → lookup ord other (entries (xs ++ c ∷ ys)) ≡ lookup ord other (entries (xs ++ ys))
  lookup-other other [] c ys k ne = elim (Bool-cases (ord.eq c.key other)) [
    | inl e ↦ absurd (ne (sym k ∙ ord.eq_sound c.key other e))
    | inr e ↦ rw (e)
  ]
  lookup-other other (x ∷ xs) c ys k ne = elim (Bool-cases (ord.eq x.key other)) [
    | inl e ↦ rw (e)
    | inr e ↦ let ih = lookup-other other xs c ys k ne in rw (e, ih)
  ]
