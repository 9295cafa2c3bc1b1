-- ===== src/Counting.antt =====
-- Sums over the peers: `votedNum` and `replicatedCount` of src/raft/raft.cc.
use kvcache_raft.Common.{ℕ, zero, suc, ◌+◌, ◌≤◌, ◌<◌, ◌≡◌, ◌≢◌, refl, arith, dec_lt, subst}

unfoldable pub total : ℕ → (ℕ → ℕ) → ℕ
total zero f = 0
total (suc n) f = total n f + f n

pub total_eq : (n : ℕ) (f g : ℕ → ℕ) → ((v : ℕ) → v < n → f v ≡ g v) → total n f ≡ total n g
unfolding total
total_eq zero f g h = refl
total_eq (suc n) f g h = omega (arith, total_eq n f g (λ v l. h v (omega arith)), h n (omega arith))

-- One place more.
pub total_one_more :
    (n : ℕ) (f g : ℕ → ℕ) (v : ℕ)
    → v < n
    → g v ≡ f v + 1
    → ((w : ℕ) → w ≢ v → g w ≡ f w)
    → total n g ≡ total n f + 1
unfolding total
total_one_more zero f g v l e h = absurd (omega arith)
total_one_more (suc n) f g v l e h = elim (dec_lt v n) [
  | yes below ↦ omega (arith, total_one_more n f g v below e h, h n (omega arith))
  | no last ↦
      let s : v ≡ n = omega arith in
      let r = total_eq n g f (λ w m. h w (omega arith)) in
      let x : g n ≡ f n + 1 = subst (λ u. g u ≡ f u + 1) s e in omega (arith, r, x)
]

pub total_zero : (n : ℕ) (f : ℕ → ℕ) → ((v : ℕ) → v < n → f v ≡ 0) → total n f ≡ 0
unfolding total
total_zero zero f h = refl
total_zero (suc n) f h = omega (arith, total_zero n f (λ v l. h v (omega arith)), h n (omega arith))

-- Two counts that never meet fit into the number of peers.
pub total_disjoint :
    (n : ℕ) (f g : ℕ → ℕ) → ((v : ℕ) → v < n → f v + g v ≤ 1) → total n f + total n g ≤ n
unfolding total
total_disjoint zero f g h = omega arith
total_disjoint (suc n) f g h =
    omega (arith, total_disjoint n f g (λ v l. h v (omega arith)), h n (omega arith))

-- The place at the front apart from the others.
pub total_from_front : (n : ℕ) (f : ℕ → ℕ) → total (suc n) f ≡ f 0 + total n (λ v. f (suc v))
unfolding total
total_from_front zero f = omega arith
total_from_front (suc n) f = omega (arith, total_from_front n f)
