-- ===== src/Rpc/Tables.antt =====
-- The tables of calls of src/rpc/MrpcchannelMultiReq.cc: what is in them, counted.
use kvcache_raft.Common.{
  ℕ, ◌+◌, ◌<◌, ◌≡◌, inl, inr, refl, subst, List, [], ◌∷◌, ◌++◌, map, none, some, false, ◌==◌,
  if◌then◌else◌, arith, All, Bool-cases,
}
use kvcache_raft.Rpc.Pending.{PendingCall, find_key, erase_key, insert_key}

abbrev pub count : ℕ → List ℕ → ℕ
count d [] = 0
count d (x ∷ xs) = (if x == d then 1 else 0) + count d xs

pub count-append : (d : ℕ) (xs ys : List ℕ) → count d (xs ++ ys) ≡ count d xs + count d ys
count-append d [] ys = omega arith
count-append d (x ∷ xs) ys = omega (arith, count-append d xs ys)

-- The closures of the calls that wait.
abbrev pub dones : List (ℕ × PendingCall) → List ℕ
dones ps = map (λ e. e.1.done) ps

pub find_key_fresh :
    {A : Type 0} (k : ℕ) (es : List (ℕ × A)) → All (λ e. e.0 < k) es → find_key k es ≡ none
find_key_fresh k [] h = refl
find_key_fresh k (e ∷ es) h =
    let p = h.0 in let ne : (e.0 == k) ≡ false = ground arith in rw (ne) (find_key_fresh k es h.1)

pub insert_key_fresh :
    {A : Type 0} (k : ℕ) (a : A) (es : List (ℕ × A))
    → find_key k es ≡ none
    → insert_key k a es ≡ (k, a) ∷ es
insert_key_fresh k a es h = rw (insert_key, h)

pub erase_key-All :
    {A : Type 0} (n k : ℕ) (es : List (ℕ × A))
    → All (λ e. e.0 < n) es
    → All (λ e. e.0 < n) (erase_key k es)
erase_key-All n k [] h = tt
erase_key-All n k (e ∷ es) h = elim (Bool-cases (e.0 == k)) [
  | inl same ↦ rw same h.1
  | inr other ↦ rw other (h.0, erase_key-All n k es h.1)
]

pub count-erase_key :
    (d k : ℕ) (p : PendingCall) (ps : List (ℕ × PendingCall))
    → find_key k ps ≡ some p
    → count d (dones ps) ≡ count d (p.done ∷ []) + count d (dones (erase_key k ps))
count-erase_key d k p [] h = absurd (cc)
count-erase_key d k p (e ∷ ps) h = elim (Bool-cases (e.0 == k)) [
  | inl same ↦
      let q : e.1 ≡ p = ground arith in
      rw same (
        subst (λ z. count d (dones (e ∷ ps)) ≡ count d (z.done ∷ []) + count d (dones ps)) q
          (omega arith))
  | inr other ↦ let ih = count-erase_key d k p ps (rw (other) at h) in rw other (omega arith)
]
