-- ===== src/LockQueue.antt =====
-- The queue of include/common/LockQueue.h: each operation holds the lock, so it is one function of the
-- queue, oldest element first. `pop` is the part of `Pop` after its wait.
use kvcache_raft.Common.{
  ℕ, zero, suc, ◌+◌, ◌≡◌, sym, ap, ◌∙◌, List, [], ◌∷◌, ◌++◌, append_assoc, append-nil, true, false,
  ltb, Option, none, some, if◌then◌else◌, length, take, drop, min, arith,
}

module _ {T : Type 0} where
  unfoldable pub push : T → List T → List T
  push element q = q ++ element ∷ []

  -- `TryPop`; also `Pop`, and `timeOutPop` when it has waited, which returns `false` for `none`.
  unfoldable pub try_pop : List T → List T × Option T
  try_pop [] = ([], none)
  try_pop (x ∷ q) = (q, some x)

  -- The loop of `TryPopBulk`: the queue, the vector and the count.
  unfoldable pub bulk_from : ℕ → ℕ → List T → List T → List T × (List T × ℕ)
  bulk_from max_count count out [] = ([], (out, count))
  bulk_from max_count count out (x ∷ q) =
      let rest = bulk_from max_count (count + 1) (out ++ x ∷ []) q in
      if ltb count max_count then rest else (x ∷ q, (out, count))

  unfoldable pub try_pop_bulk : List T → ℕ → List T → List T × (List T × ℕ)
  try_pop_bulk out zero q = (q, (out, 0))
  try_pop_bulk out (suc n) q = bulk_from (suc n) 0 out q

  bulk_from-take :
      (n count : ℕ) (out q : List T)
      → bulk_from (count + n) count out q ≡ (drop n q, (out ++ take n q, count + min n (length q)))
  unfolding bulk_from
  bulk_from-take zero count out [] =
      let e : count ≡ count + min 0 0 = omega arith in
      ap (λ z. ([], (z, count))) (sym (append-nil out)) ∙ ap (λ z. ([], (out ++ [], z))) e
  bulk_from-take (suc n) count out [] =
      let e : count ≡ count + min (suc n) 0 = omega arith in
      ap (λ z. ([], (z, count))) (sym (append-nil out)) ∙ ap (λ z. ([], (out ++ [], z))) e
  bulk_from-take zero count out (x ∷ q) =
      let full : ltb count (count + 0) ≡ false = ground arith in
      let e : count ≡ count + min 0 (suc (length q)) = omega arith in
      (rw (full))
      ∙ ap (λ z. (x ∷ q, (z, count))) (sym (append-nil out))
      ∙ ap (λ z. (x ∷ q, (out ++ [], z))) e
  bulk_from-take (suc n) count out (x ∷ q) =
      let more : ltb count (count + suc n) ≡ true = ground arith in
      let same : count + suc n ≡ (count + 1) + n = omega arith in
      let ih = bulk_from-take n (count + 1) (out ++ x ∷ []) q in
      let size : (count + 1) + min n (length q) ≡ count + min (suc n) (suc (length q)) =
        omega arith in
      (rw (more))
      ∙ ap (λ k. bulk_from k (count + 1) (out ++ x ∷ []) q) same
      ∙ ih
      ∙ ap (λ z. (drop n q, (z, (count + 1) + min n (length q))))
          (append_assoc out (x ∷ []) (take n q))
      ∙ ap (λ z. (drop n q, (out ++ x ∷ take n q, z))) size

  -- `TryPopBulk` takes the oldest elements, as many as it is asked for or all if there are fewer, puts
  -- them in their order behind those that the vector has, leaves the others, and returns how many it
  -- took.
  pub try_pop_bulk-take :
      (out q : List T) (n : ℕ)
      → try_pop_bulk out n q ≡ (drop n q, (out ++ take n q, min n (length q)))
  unfolding try_pop_bulk
  try_pop_bulk-take out q zero =
      ap (λ z. (q, (z, 0))) (sym (append-nil out)) ∙ ap (λ z. (q, (out ++ [], z))) (omega arith)
  try_pop_bulk-take out q (suc n) =
      let e : 0 + suc n ≡ suc n = omega arith in
      let z : 0 + min (suc n) (length q) ≡ min (suc n) (length q) = omega arith in
      ap (λ k. bulk_from k 0 out q) (sym e)
      ∙ bulk_from-take (suc n) 0 out q
      ∙ ap (λ k. (drop (suc n) q, (out ++ take (suc n) q, k))) z
