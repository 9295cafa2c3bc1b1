-- ===== src/SkipList/Allocate.antt =====
-- The new node of include/common/skipList.h (`insert_element`) before it is linked in.
use kvcache_raft.Common.{
  ℕ, zero, suc, ◌+◌, ◌-◌, ◌≤◌, ◌<◌, ◌≡◌, ◌≢◌, refl, ap, ◌∙◌, subst, List, ◌∷◌, ◌++◌, none, some,
  ltb, if◌then◌else◌, ok, arith, All, All-mono, get_elem?, get_elem?-replicate, replicate, take,
  in_bounds, ◌>>=◌,
}
use kvcache_raft.SkipList.Types.{SkipList, new_node, forward_at, key_at, value_at, poke}
use kvcache_raft.SkipList.Ops.{raise_update}
use kvcache_raft.SkipList.Cells.{Cell, last_at, last_at-short}
use kvcache_raft.SkipList.Path.{path}
use kvcache_raft.SkipList.Writes.{poke_same, poke_other}

module _ {K V : Type 0} where
  -- `s` with the node of the new cell in memory, counted but not linked.
  abbrev pub allocate : SkipList K V → K → V → ℕ → SkipList K V
  allocate s key value level = record s {
    skip_list_level = if ltb s.skip_list_level level then level else s.skip_list_level;
    element_count = s.element_count + 1;
    nodes = poke s.nodes s.next_address (some (new_node key value level));
    next_address = s.next_address + 1;
    drawn = s.drawn + 1;
  }

  module _ (s : SkipList K V) (key : K) (value : V) (level : ℕ) where
    pub allocate-forward_at :
        (j b : ℕ)
        → b ≢ s.next_address
        → forward_at (allocate s key value level) j b ≡ forward_at s j b
    unfolding forward_at
    allocate-forward_at j b ne =
        ap (λ o. in_bounds o >>= λ x. in_bounds (get_elem? x.forward j))
          (poke_other s.nodes s.next_address (some (new_node key value level)) b ne)

    pub allocate-key_at :
        (b : ℕ) → b ≢ s.next_address → key_at (allocate s key value level) b ≡ key_at s b
    unfolding key_at
    allocate-key_at b ne =
        ap (λ o. in_bounds o >>= λ x. ok x.key)
          (poke_other s.nodes s.next_address (some (new_node key value level)) b ne)

    pub allocate-value_at :
        (b : ℕ) → b ≢ s.next_address → value_at (allocate s key value level) b ≡ value_at s b
    unfolding value_at
    allocate-value_at b ne =
        ap (λ o. in_bounds o >>= λ x. ok x.value)
          (poke_other s.nodes s.next_address (some (new_node key value level)) b ne)

    pub allocate-forward_at_new :
        (j : ℕ) → j ≤ level → forward_at (allocate s key value level) j s.next_address ≡ ok none
    unfolding forward_at
    allocate-forward_at_new j le =
        let e =
          poke_same s.nodes s.next_address (some (new_node key value level)) s.next_address refl in
        let r : get_elem? (replicate (suc level) none) j ≡ some none =
          get_elem?-replicate (suc level) j none (omega arith) in
        ap (λ o. in_bounds o >>= λ x. in_bounds (get_elem? x.forward j)) e ∙ ap in_bounds r

    pub allocate-key_at_new : key_at (allocate s key value level) s.next_address ≡ ok key
    unfolding key_at
    allocate-key_at_new =
        ap (λ o. in_bounds o >>= λ x. ok x.key)
          (poke_same s.nodes s.next_address (some (new_node key value level)) s.next_address refl)

    pub allocate-value_at_new : value_at (allocate s key value level) s.next_address ≡ ok value
    unfolding value_at
    allocate-value_at_new =
        ap (λ o. in_bounds o >>= λ x. ok x.value)
          (poke_same s.nodes s.next_address (some (new_node key value level)) s.next_address refl)

  path-replicate_none :
      (h : Cell K V) (pre : List (Cell K V)) (i m : ℕ)
      → All (λ c. c.level < i) pre
      → replicate m h.addr ≡ path h pre i m
  path-replicate_none h pre i zero low = refl
  path-replicate_none h pre i (suc m) low =
      let e = last_at-short i h pre low in
      let up =
        All-mono (λ (c : Cell K V). c.level < i) (λ c. c.level < i + 1) pre (λ c p. omega arith)
          low in
      (rw (e)) ∙ ap (◌∷◌ (last_at i h pre).addr) (path-replicate_none h pre (i + 1) m up)

  pub path-replicate :
      (h : Cell K V) (pre : List (Cell K V)) (i n m : ℕ)
      → All (λ c. c.level < i + n) pre
      → path h pre i n ++ replicate m h.addr ≡ path h pre i (n + m)
  path-replicate h pre i zero m low =
      subst (λ z. replicate m h.addr ≡ path h pre i z) (omega arith)
        (path-replicate_none h pre i m (
          All-mono (λ (c : Cell K V). c.level < i + 0) (λ c. c.level < i) pre (λ c p. omega arith)
            low))
  path-replicate h pre i (suc n) m low =
      let e : suc (n + m) ≡ suc n + m = omega arith in
      subst (λ z. path h pre i (suc n) ++ replicate m h.addr ≡ path h pre i z) e
        (ap (◌∷◌ (last_at i h pre).addr) (
          path-replicate h pre (i + 1) n m (
            All-mono (λ (c : Cell K V). c.level < i + suc n) (λ c. c.level < (i + 1) + n) pre
              (λ c p. omega arith) low)))

  pub take-path :
      (h : Cell K V) (pre : List (Cell K V)) (i k n : ℕ)
      → k ≤ n
      → take k (path h pre i n) ≡ path h pre i k
  take-path h pre i zero n le = refl
  take-path h pre i (suc k) zero le = absurd (omega arith)
  take-path h pre i (suc k) (suc n) le =
      ap (◌∷◌ (last_at i h pre).addr) (take-path h pre (i + 1) k n (omega arith))

  pub raise_update-path :
      (s : SkipList K V) (level : ℕ) (h : Cell K V) (pre : List (Cell K V))
      → h.addr ≡ s.header
      → All (λ c. c.level ≤ s.skip_list_level) pre
      → raise_update s level (path h pre 0 (suc s.skip_list_level)) ≡ path h pre 0 (suc level)
  unfolding raise_update
  raise_update-path s level h pre top low =
      let l = s.skip_list_level in
      let low' =
        All-mono (λ (c : Cell K V). c.level ≤ l) (λ c. c.level < 0 + suc l) pre (λ c p. omega arith)
          low in
      let r = path-replicate h pre 0 (suc l) (level - l) low' in
      let r' =
        subst
          (λ z.
            path h pre 0 (suc l) ++ replicate (level - l) z ≡ path h pre 0 (suc l + (level - l)))
          top r in
      ap (take (suc level)) r' ∙ take-path h pre 0 (suc level) (suc l + (level - l)) (omega arith)
