-- ===== src/SkipList/Rep.antt =====
-- The skip list of include/common/skipList.h as the sorted list of its elements, and what its
-- operations are on that list.
use kvcache_raft.Common.{
  ℕ, ◌≤◌, ◌<◌, ◌≡◌, inl, inr, refl, ap, subst, List, [], ◌∷◌, ◌++◌, Option, none, some, true, false,
  if◌then◌else◌, All, All-mono, Pairwise, Bool-cases, length,
}
use kvcache_raft.SkipList.Order.{Order, not_above_below}
use kvcache_raft.SkipList.Types.{SkipList, forward_at}
use kvcache_raft.SkipList.Cells.{Cell, Links, Distinct}
use kvcache_raft.SkipList.Path.{Held, Below, NotBelow}

module _ {K V : Type 0} where
  -- The keys and values, in order.
  abbrev pub entries : List (Cell K V) → List (K × V)
  entries [] = []
  entries (c ∷ cs) = (c.key, c.value) ∷ entries cs

  pub entries-append : (xs ys : List (Cell K V)) → entries (xs ++ ys) ≡ entries xs ++ entries ys
  entries-append [] ys = refl
  entries-append (x ∷ xs) ys = ap (◌∷◌ (x.key, x.value)) (entries-append xs ys)

  module _ (ord : Order K) where
    abbrev pub Sorted : List (Cell K V) → Type 0
    Sorted cs = Pairwise (λ c d. ord.lt c.key d.key ≡ true) cs

    -- The skip list `s` has the header node `h` and the elements `cs`.
    pub record Rep (s : SkipList K V) (h : Cell K V) (cs : List (Cell K V)) : Type 0 where
      pub top : h.addr ≡ s.header
      pub tall : h.level ≡ s.max_level
      pub links : (i : ℕ) → i ≤ s.max_level → Links (forward_at s i) i (h ∷ cs)
      pub held : All (Held s) cs
      pub sorted : Sorted cs
      pub low : All (λ c. c.level ≤ s.skip_list_level) cs
      pub capped : s.skip_list_level ≤ s.max_level
      pub fresh : All (λ c. c.addr < s.next_address) (h ∷ cs)
      pub distinct : Distinct (h ∷ cs)
      pub count : s.element_count ≡ length cs

    -- What a map answers.
    abbrev pub lookup : K → List (K × V) → Option V
    lookup key [] = none
    lookup key (e ∷ es) = if ord.eq e.0 key then some e.1 else lookup key es

    -- The new pair goes to its place, unless the key is there.
    abbrev pub insert : K → V → List (K × V) → List (K × V)
    insert key value [] = (key, value) ∷ []
    insert key value (e ∷ es) =
        if ord.lt e.0 key
        then e ∷ insert key value es
        else (if ord.eq e.0 key then e ∷ es else (key, value) ∷ (e ∷ es))

    abbrev pub remove : K → List (K × V) → List (K × V)
    remove key [] = []
    remove key (e ∷ es) = if ord.eq e.0 key then es else e ∷ remove key es

    module _ (key : K) where
      abbrev pub Above : Cell K V → Type 0
      Above c = ord.lt key c.key ≡ true

      -- Where the key is in the list, or would be.
      pub data Place (cs : List (Cell K V)) : Type 0 where
        found :
            (pre : List (Cell K V)) (c : Cell K V) (post : List (Cell K V))
            → cs ≡ pre ++ c ∷ post
            → All (Below ord key) pre
            → c.key ≡ key
            → All Above post
            → Place cs
        absent :
            (pre post : List (Cell K V))
            → cs ≡ pre ++ post
            → All (Below ord key) pre
            → All Above post
            → Place cs

      place_cons :
          (c : Cell K V) (cs : List (Cell K V)) → Below ord key c → Place cs → Place (c ∷ cs)
      place_cons c cs b (found pre d post e p q r) =
          found (c ∷ pre) d post (ap (◌∷◌ c) e) (b, p) q r
      place_cons c cs b (absent pre post e p r) = absent (c ∷ pre) post (ap (◌∷◌ c) e) (b, p) r

      pub Place-always : (cs : List (Cell K V)) → Sorted cs → Place cs
      Place-always [] s = absent [] [] refl tt tt
      Place-always (c ∷ cs) s = elim (Bool-cases (ord.lt c.key key)) [
        | inl b ↦ place_cons c cs b (Place-always cs s.1)
        | inr b ↦ elim (Bool-cases (ord.eq c.key key)) [
          | inl e ↦
              let k = ord.eq_sound c.key key e in
              found [] c cs refl tt k (subst (λ z. All (λ d. ord.lt z d.key ≡ true) cs) k s.0)
          | inr e ↦
              let t = ord.lt_total c.key key b e in
              absent [] (c ∷ cs) refl tt (
                t,
                All-mono (λ d. ord.lt c.key d.key ≡ true) Above cs
                    (λ d. ord.lt_trans key c.key d.key t) s.0,
              )
        ]
      ]

      pub NotBelow-Above : (c : Cell K V) → Above c → NotBelow ord key c
      NotBelow-Above c h = not_above_below ord key c.key h

      pub NotBelow-same : (c : Cell K V) → c.key ≡ key → NotBelow ord key c
      NotBelow-same c h = subst (λ z. ord.lt c.key z ≡ false) h (ord.lt_irrefl c.key)
