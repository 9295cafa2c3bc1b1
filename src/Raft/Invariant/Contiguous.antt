-- ===== src/Raft/Invariant/Contiguous.antt =====
-- `m_logs` of include/raft/raft.h as a run of consecutive indexes.
use kvcache_raft.Common.{
  ℕ, zero, suc, ◌+◌, ◌≤◌, ◌≡◌, refl, List, [], ◌∷◌, ◌++◌, some, arith, length, get_elem?, set, take,
  drop, last,
}
use kvcache_raft.Proto.{LogEntry}

-- The entries carry the indexes `b + 1`, `b + 2`, ...
abbrev pub Contiguous : ℕ → List LogEntry → Type 0
Contiguous b [] = Unit {0}
Contiguous b (e ∷ es) = (e.log_index ≡ suc b) × Contiguous (suc b) es

pub last-Contiguous :
    (b : ℕ) (e : LogEntry) (es : List LogEntry)
    → Contiguous b (e ∷ es)
    → (x : LogEntry) × (last (e ∷ es) ≡ some x) × (x.log_index ≡ b + length (e ∷ es))
last-Contiguous b e [] c = (e, refl, omega arith)
last-Contiguous b e (f ∷ es) c =
    let (x, p, q) = last-Contiguous (suc b) f es c.1 in (x, p, omega arith)

pub get_elem?-Contiguous :
    (b : ℕ) (es : List LogEntry) (i : ℕ) {x : LogEntry}
    → Contiguous b es
    → get_elem? es i ≡ some x
    → x.log_index ≡ b + i + 1
get_elem?-Contiguous b [] i c h = absurd (cc)
get_elem?-Contiguous b (e ∷ es) zero c h = ground arith
get_elem?-Contiguous b (e ∷ es) (suc i) c h = omega (arith, get_elem?-Contiguous (suc b) es i c.1 h)

pub append-Contiguous :
    (b : ℕ) (es : List LogEntry) (x : LogEntry)
    → Contiguous b es
    → x.log_index ≡ b + length es + 1
    → Contiguous b (es ++ x ∷ [])
append-Contiguous b [] x c h = (omega arith, tt)
append-Contiguous b (e ∷ es) x c h = (c.0, append-Contiguous (suc b) es x c.1 (omega arith))

pub set-Contiguous :
    (b : ℕ) (es : List LogEntry) (i : ℕ) (x : LogEntry)
    → Contiguous b es
    → x.log_index ≡ b + i + 1
    → Contiguous b (set es i x)
set-Contiguous b [] i x c h = tt
set-Contiguous b (e ∷ es) zero x c h = (omega arith, c.1)
set-Contiguous b (e ∷ es) (suc i) x c h = (c.0, set-Contiguous (suc b) es i x c.1 (omega arith))

pub take-Contiguous : (b n : ℕ) (es : List LogEntry) → Contiguous b es → Contiguous b (take n es)
take-Contiguous b zero es c = tt
take-Contiguous b (suc n) [] c = tt
take-Contiguous b (suc n) (e ∷ es) c = (c.0, take-Contiguous (suc b) n es c.1)

-- The base is a variable with an equation.
pub drop-Contiguous :
    (n b d : ℕ) (es : List LogEntry)
    → n ≤ length es
    → b + n ≡ d
    → Contiguous b es
    → Contiguous d (drop n es)
drop-Contiguous zero b d es h e c = let e' : b ≡ d = omega arith in rw (e') at c
drop-Contiguous (suc n) b d [] h e c = elim h [ ]
drop-Contiguous (suc n) b d (x ∷ es) h e c =
    drop-Contiguous n (suc b) d es (omega arith) (omega arith) c.1
