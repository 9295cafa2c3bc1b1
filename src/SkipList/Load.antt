-- ===== src/SkipList/Load.antt =====
-- `load_file` of include/common/skipList.h.
use kvcache_raft.Common.{
  ℕ, zero, suc, ◌≡◌, refl, sym, ap, ◌∙◌, subst, List, [], ◌∷◌, some, ok, All, get_elem?, true,
  Bool-cases, inl, inr,
}
use kvcache_raft.SkipList.Order.{Order}
use kvcache_raft.SkipList.Types.{SkipList}
use kvcache_raft.SkipList.Ops.{search_element, load_file}
use kvcache_raft.SkipList.Rep.{lookup, insert}
use kvcache_raft.SkipList.AsMap.{
  Represents, is_some, search_element-Represents, insert_element-insert,
}

module _ {K V : Type 0} (ord : Order K) where
  lookup-insert_same :
      (key : K) (value : V) (es : List (K × V))
      → is_some (lookup ord key (insert ord key value es)) ≡ true
  lookup-insert_same key value [] = let e = ord.eq_refl key in rw (e)
  lookup-insert_same key value (e ∷ es) = elim (Bool-cases (ord.lt e.0 key)) [
    | inl lt ↦ elim (Bool-cases (ord.eq e.0 key)) [
      | inl eq ↦ rw (lt, eq)
      | inr ne ↦ let ih = lookup-insert_same key value es in rw (lt, ne, ih)
    ]
    | inr ge ↦ elim (Bool-cases (ord.eq e.0 key)) [
      | inl eq ↦ rw (ge, eq, eq)
      | inr ne ↦ let self = ord.eq_refl key in rw (ge, ne, self)
    ]
  ]

  lookup-insert_other :
      (key k : K) (value : V) (es : List (K × V))
      → is_some (lookup ord key es) ≡ true
      → is_some (lookup ord key (insert ord k value es)) ≡ true
  lookup-insert_other key k value [] h = absurd (cc)
  lookup-insert_other key k value (e ∷ es) h = elim (Bool-cases (ord.lt e.0 k)) [
    | inl lt ↦ elim (Bool-cases (ord.eq e.0 key)) [
      | inl eq ↦ rw (lt, eq)
      | inr ne ↦ let ih = lookup-insert_other key k value es (rw (ne) at h) in rw (lt, ne, ih)
    ]
    | inr ge ↦ elim (Bool-cases (ord.eq e.0 k)) [
      | inl eq ↦ (rw (ge, eq)) ∙ h
      | inr ne ↦ elim (Bool-cases (ord.eq k key)) [
        | inl same ↦ rw (ge, ne, same)
        | inr other ↦ (rw (ge, ne, other)) ∙ h
      ]
    ]
  ]

module _ {K : Type 0} (ord : Order K) where
  -- Every value is its key.
  abbrev Own : List (K × K) → Type 0
  Own es = All (λ e. e.1 ≡ e.0) es

  insert-Own : (key : K) (es : List (K × K)) → Own es → Own (insert ord key key es)
  insert-Own key [] h = (refl, tt)
  insert-Own key (e ∷ es) h = elim (Bool-cases (ord.lt e.0 key)) [
    | inl lt ↦ rw lt (h.0, insert-Own key es h.1)
    | inr ge ↦ elim (Bool-cases (ord.eq e.0 key)) [
      | inl eq ↦ rw (ge, eq) h
      | inr ne ↦ rw (ge, ne) (refl, h)
    ]
  ]

  lookup-Own :
      (key : K) (es : List (K × K))
      → Own es
      → is_some (lookup ord key es) ≡ true
      → lookup ord key es ≡ some key
  lookup-Own key [] o h = absurd (cc)
  lookup-Own key (e ∷ es) o h = elim (Bool-cases (ord.eq e.0 key)) [
    | inl eq ↦ (rw (eq)) ∙ ap some (o.0 ∙ ord.eq_sound e.0 key eq)
    | inr ne ↦ (rw (ne)) ∙ lookup-Own key es o.1 (rw (ne) at h)
  ]

  -- The keys, one by one, each with itself as the value.
  abbrev pub loaded : List K → List (K × K) → List (K × K)
  loaded [] es = es
  loaded (k ∷ ks) es = loaded ks (insert ord k k es)

  loaded-Own : (ks : List K) (es : List (K × K)) → Own es → Own (loaded ks es)
  loaded-Own [] es o = o
  loaded-Own (k ∷ ks) es o = loaded-Own ks (insert ord k k es) (insert-Own k es o)

  loaded_keeps :
      (ks : List K) (es : List (K × K)) (key : K)
      → is_some (lookup ord key es) ≡ true
      → is_some (lookup ord key (loaded ks es)) ≡ true
  loaded_keeps [] es key h = h
  loaded_keeps (k ∷ ks) es key h =
      loaded_keeps ks (insert ord k k es) key (lookup-insert_other ord key k k es h)

  loaded_has :
      (ks : List K) (es : List (K × K)) (i : ℕ) (key : K)
      → get_elem? ks i ≡ some key
      → is_some (lookup ord key (loaded ks es)) ≡ true
  loaded_has [] es i key h = absurd (cc)
  loaded_has (k ∷ ks) es zero key h =
      let same : k ≡ key = cc in
      loaded_keeps ks (insert ord k k es) key (
        subst (λ z. is_some (lookup ord key (insert ord z z es)) ≡ true) (sym same)
          (lookup-insert_same ord key key es))
  loaded_has (k ∷ ks) es (suc i) key h = loaded_has ks (insert ord k k es) i key h

  pub load_file-loaded :
      (ks : List K) (s : SkipList K K) (es : List (K × K))
      → Represents ord s es
      → (t : SkipList K K) × (load_file ord ks s ≡ ok t) × Represents ord t (loaded ks es)
  unfolding load_file
  load_file-loaded [] s es r = (s, refl, r)
  load_file-loaded (k ∷ ks) s es r =
      let (t, e, r') = insert_element-insert ord k k s es r in
      let (w, f, r'') = load_file-loaded ks t (insert ord k k es) r' in (w, (rw (e)) ∙ f, r'')

  -- An archive loaded into an empty list gives each of its keys the key itself as the value,
  -- whatever value was archived with it.
  pub load_file_keys :
      (ks : List K) (s : SkipList K K)
      → Represents ord s []
      → (t : SkipList K K) × (load_file ord ks s ≡ ok t)
        × ((i : ℕ) (key : K) → get_elem? ks i ≡ some key → search_element ord key t ≡ ok (some key))
  load_file_keys ks s r =
      let (t, e, r') = load_file-loaded ks s [] r in
      (
        t,
        e,
        λ i key at.
            search_element-Represents ord key t (loaded ks []) r'
            ∙ ap ok
                (lookup-Own key (loaded ks []) (loaded-Own ks [] tt) (loaded_has ks [] i key at)),
      )
