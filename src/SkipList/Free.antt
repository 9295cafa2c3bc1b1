-- ===== src/SkipList/Free.antt =====
-- include/common/skipList.h, `delete_element`: the levels and the memory when the node is out.
use kvcache_raft.Common.{
  ℕ, zero, suc, ◌-◌, ◌≤◌, ◌<◌, ◌≡◌, ◌≢◌, inl, inr, refl, ap, List, none, ok, arith, All, All-mono,
  Option-cases, get_elem?, in_bounds, ◌>>=◌,
}
use kvcache_raft.SkipList.Types.{SkipList, forward_at, key_at, value_at, poke}
use kvcache_raft.SkipList.Ops.{lower_level}
use kvcache_raft.SkipList.Cells.{Cell, first_at, none-first_at}
use kvcache_raft.SkipList.Writes.{poke_other}

module _ {K V : Type 0} where
  -- The loop over the levels stops at the highest one that has elements, or at 0.
  pub lower_level-All :
      (t : SkipList K V) (cs : List (Cell K V)) (n : ℕ)
      → ((i : ℕ) → i ≤ n → forward_at t i t.header ≡ ok (first_at i cs))
      → All (λ c. c.level ≤ n) cs
      → (level : ℕ) × (lower_level t n ≡ ok level) × (level ≤ n) × All (λ c. c.level ≤ level) cs
  unfolding lower_level
  lower_level-All t cs zero e low = (0, refl, omega arith, low)
  lower_level-All t cs (suc n) e low =
      let top = e (suc n) (omega arith) in
      elim (Option-cases (first_at (suc n) cs)) [
        | inl p ↦
            let low' =
              All-mono (λ (c : Cell K V). c.level < suc n) (λ c. c.level ≤ n) cs
                (λ c q. omega arith) (none-first_at (suc n) cs p) in
            let (level, f, g, q) = lower_level-All t cs n (λ i le. e i (omega arith)) low' in
            (level, rw (top, p, f), omega arith, q)
        | inr (a, p) ↦ (suc n, rw (top, p), omega arith, low)
      ]

  -- The memory without the node at `a`.
  abbrev pub freed : SkipList K V → ℕ → ℕ → SkipList K V
  freed t a level = record t {
    skip_list_level = level;
    nodes = poke t.nodes a none;
    element_count = t.element_count - 1;
  }

  module _ (t : SkipList K V) (a level b : ℕ) (ne : b ≢ a) where
    pub freed-forward_at : (j : ℕ) → forward_at (freed t a level) j b ≡ forward_at t j b
    unfolding forward_at
    freed-forward_at j =
        ap (λ o. in_bounds o >>= λ x. in_bounds (get_elem? x.forward j))
          (poke_other t.nodes a none b ne)

    pub freed-key_at : key_at (freed t a level) b ≡ key_at t b
    unfolding key_at
    freed-key_at = ap (λ o. in_bounds o >>= λ x. ok x.key) (poke_other t.nodes a none b ne)

    pub freed-value_at : value_at (freed t a level) b ≡ value_at t b
    unfolding value_at
    freed-value_at = ap (λ o. in_bounds o >>= λ x. ok x.value) (poke_other t.nodes a none b ne)
