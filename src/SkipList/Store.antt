-- ===== src/SkipList/Store.antt =====
-- The skip list of include/common/skipList.h as the server's store.
use kvcache_raft.Common.{
  ◌≡◌, ◌≢◌, refl, sym, ap, ◌∙◌, subst, List, [], ◌∷◌, ◌++◌, Option, none, some, String, Outcome, ok,
  fault, map,
}
use kvcache_raft.SkipList.Order.{Order}
use kvcache_raft.SkipList.Types.{SkipList}
use kvcache_raft.SkipList.Ops.{search_element, insert_set_element, dump_file, load_file}
use kvcache_raft.SkipList.Cells.{Cell}
use kvcache_raft.SkipList.Rep.{Sorted, entries, lookup, insert, found, absent, Place-always}
use kvcache_raft.SkipList.Entries.{
  lookup-found, insert-absent, remove-found, remove-absent, lookup-other,
}
use kvcache_raft.SkipList.AsMap.{Represents, put, search_element-Represents, insert_set_element-put}
use kvcache_raft.SkipList.Load.{loaded, load_file-loaded}
use kvcache_raft.SkipList.Strings.{string_order}
use kvcache_raft.KvServer.Interfaces.{KvStore}

module _ {K V : Type 0} (ord : Order K) (key : K) (value : V) where
  abbrev at_key : Cell K V
  at_key = record { addr = 0; level = 0; key = key; value = value }

  lookup-put_cells :
      (cs : List (Cell K V))
      → Sorted ord cs
      → (lookup ord key (put ord key value (entries cs)) ≡ some value)
        × ((other : K)
            → key ≢ other
            → lookup ord other (put ord key value (entries cs)) ≡ lookup ord other (entries cs))
  lookup-put_cells cs s = elim (Place-always ord key cs s) [
    | found pre c post e b k a ↦
        let p : put ord key value (entries cs) ≡ entries (pre ++ at_key ∷ post) =
          ap (λ z. put ord key value (entries z)) e
          ∙ ap (insert ord key value) (remove-found ord key pre c post k b)
          ∙ insert-absent ord key pre post b a at_key refl in
        (
          ap (lookup ord key) p ∙ lookup-found ord key pre at_key post refl b,
          λ other ne.
              ap (lookup ord other) p
              ∙ lookup-other ord key other pre at_key post refl ne
              ∙ sym (lookup-other ord key other pre c post k ne)
              ∙ ap (λ z. lookup ord other (entries z)) (sym e),
        )
    | absent pre post e b a ↦
        let p : put ord key value (entries cs) ≡ entries (pre ++ at_key ∷ post) =
          ap (λ z. put ord key value (entries z)) e
          ∙ ap (insert ord key value) (remove-absent ord key pre post b a)
          ∙ insert-absent ord key pre post b a at_key refl in
        (
          ap (lookup ord key) p ∙ lookup-found ord key pre at_key post refl b,
          λ other ne.
              ap (lookup ord other) p
              ∙ lookup-other ord key other pre at_key post refl ne
              ∙ ap (λ z. lookup ord other (entries z)) (sym e),
        )
  ]

  lookup-put :
      (s : SkipList K V) (es : List (K × V))
      → Represents ord s es
      → (lookup ord key (put ord key value es) ≡ some value)
        × ((other : K)
            → key ≢ other
            → lookup ord other (put ord key value es) ≡ lookup ord other es)
  unfolding Represents
  lookup-put s es (h, cs, r, e) =
      subst
        (λ z.
          (lookup ord key (put ord key value z) ≡ some value)
          × ((other : K)
              → key ≢ other
              → lookup ord other (put ord key value z) ≡ lookup ord other z))
        e (lookup-put_cells cs r.sorted)

-- On a well-formed list `insert_set_element` returns, keeps the list well-formed, and `search_element`
-- then finds the new value at the key and at every other key what it found before.
pub search_element-insert_set_element :
    {K V : Type 0} (ord : Order K) (key : K) (value : V) (s : SkipList K V) (es : List (K × V))
    → Represents ord s es
    → (t : SkipList K V) × (insert_set_element ord key value s ≡ ok t)
      × Represents ord t (put ord key value es)
      × (search_element ord key t ≡ ok (some value))
      × ((other : K) → key ≢ other → search_element ord other t ≡ search_element ord other s)
search_element-insert_set_element ord key value s es r =
    let (t, e, r') = insert_set_element-put ord key value s es r in
    let (same, others) = lookup-put ord key value s es r in
    (
      t,
      e,
      r',
      search_element-Represents ord key t _ r' ∙ ap ok same,
      λ other ne.
          search_element-Represents ord other t _ r'
          ∙ ap ok (others other ne)
          ∙ sym (search_element-Represents ord other s es r),
    )

-- A skip list of the server, well-formed with its pairs.
pub record Store : Type 0 where
  pub skip_list : SkipList String String
  pub pairs : List (String × String)
  pub well_formed : Represents string_order skip_list pairs

-- The archive of the pairs: `SkipListDump` by boost. A text that is no archive gives `none`.
pub record PairArchive : Type 0 where
  pub pairs_text : List (String × String) → String
  pub read_pairs : String → Option (List (String × String))

abbrev pub or_none {ℓ} : {A : Type ℓ} → Outcome (Option A) → Option A
or_none (ok o) = o
or_none (fault x) = none

abbrev pub value_of {ℓ} : {A : Type ℓ} → A → Outcome A → A
value_of d (ok a) = a
value_of d (fault x) = d

abbrev pub put_pair : String → String → Store → Store
put_pair k v s =
    let (t, e, r) = insert_set_element-put string_order k v s.skip_list s.pairs s.well_formed in
    record {
      skip_list = value_of s.skip_list (insert_set_element string_order k v s.skip_list);
      pairs = put string_order k v s.pairs;
      well_formed =
          subst
            (λ o. Represents string_order (value_of s.skip_list o) (put string_order k v s.pairs))
            (sym e) r;
    }

abbrev pub load_keys : List String → Store → Store
load_keys ks s =
    let (t, e, r) = load_file-loaded string_order ks s.skip_list s.pairs s.well_formed in
    record {
      skip_list = value_of s.skip_list (load_file string_order ks s.skip_list);
      pairs = loaded string_order ks s.pairs;
      well_formed =
          subst
            (λ o. Represents string_order (value_of s.skip_list o) (loaded string_order ks s.pairs))
            (sym e) r;
    }

-- The skip list has what the server relies on.
abbrev pub skip_list_store : PairArchive → KvStore Store
skip_list_store archive = record {
  search_element = λ s k. or_none (search_element string_order k s.skip_list);
  insert_set_element = put_pair;
  dump_file = λ s. archive.pairs_text (value_of [] (dump_file s.skip_list));
  load_file = λ text s. elim (archive.read_pairs text) [
    | none ↦ s
    | some es ↦ load_keys (map (λ e. e.0) es) s
  ];
  search-insert_set_same = λ k v s.
      let (t, e, r, same, others) =
        search_element-insert_set_element string_order k v s.skip_list s.pairs s.well_formed in
      ap (λ o. or_none (search_element string_order k (value_of s.skip_list o))) e
      ∙ ap or_none same;
  search-insert_set_other = λ k k' v s ne.
      let (t, e, r, same, others) =
        search_element-insert_set_element string_order k v s.skip_list s.pairs s.well_formed in
      ap (λ o. or_none (search_element string_order k' (value_of s.skip_list o))) e
      ∙ ap or_none (others k' ne);
}
