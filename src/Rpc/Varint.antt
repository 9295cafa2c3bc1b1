-- ===== src/Rpc/Varint.antt =====
-- The length in front of a frame, a number in groups of seven bits: `appendVarint32` of
-- include/rpc/MrpcchannelMultiReq.h and `TryReadVarint32` of include/rpc/rpcprovider.h.
use kvcache_raft.Common.{
  ℕ, zero, suc, ◌+◌, ◌*◌, ◌/◌, ◌%◌, ◌^◌, ◌≤◌, ◌<◌, ◌≡◌, ◌⊎◌, inl, inr, refl, ap, ◌∙◌, List, [], ◌∷◌,
  ◌++◌, true, false, ltb, leb, if◌then◌else◌, arith, length, dec_lt, Bool-cases,
}

-- A byte is a number below 256; `%` and `/` by 128 are its mask and shift. Five rounds are enough
-- for 32 bits.
unfoldable pub append_from : ℕ → ℕ → List ℕ
append_from zero value = []
append_from (suc n) value =
    let rest = append_from n (value / 128) in
    if leb 128 value then (value % 128 + 128) ∷ rest else value ∷ []

unfoldable pub append_varint32 : ℕ → List ℕ
append_varint32 value = append_from 5 value

pub data VarintReadResult : Type 0 where
  read_ok : (value varint_len : ℕ) → VarintReadResult
  need_more bad_format : VarintReadResult

-- The loop from round `i` on, with `n` rounds left. The bits of a new group are above those of
-- `result`, so `|=` adds; what is shifted beyond 32 bits is lost.
unfoldable pub read_from : ℕ → ℕ → ℕ → List ℕ → VarintReadResult
read_from zero i result bytes = bad_format
read_from (suc n) i result [] = need_more
read_from (suc n) i result (byte ∷ bytes) =
    let value = result + byte % 128 * 2 ^ (7 * i) % 2 ^ 32 in
    let rest = read_from n (i + 1) value bytes in
    if ltb byte 128 then read_ok value (i + 1) else rest

unfoldable pub try_read_varint32 : List ℕ → VarintReadResult
try_read_varint32 bytes = read_from 5 0 0 bytes

-- One round reads what one round has written, if the rounds behind it do.
read_round :
    (n i v r total : ℕ) (rest : List ℕ)
    → (v < 128 → r + v % 128 * 2 ^ (7 * i) % 2 ^ 32 ≡ total)
    → (128 ≤ v
        → read_from n
            (i + 1)
            (r + (v % 128 + 128) % 128 * 2 ^ (7 * i) % 2 ^ 32)
            (append_from n (v / 128) ++ rest)
          ≡ read_ok total (i + 1 + length (append_from n (v / 128))))
    → read_from (suc n) i r (append_from (suc n) v ++ rest)
      ≡ read_ok total (i + length (append_from (suc n) v))
unfolding append_from read_from
read_round n i v r total rest short long = elim (dec_lt v 128) [
  | yes lt ↦
      let e : leb 128 v ≡ false = ground arith in
      let l : ltb v 128 ≡ true = ground arith in let t = short lt in rw (e, l, t)
  | no ge ↦
      let e : leb 128 v ≡ true = ground arith in
      let l : ltb (v % 128 + 128) 128 ≡ false = ground arith in
      let t = long (omega arith) in
      let k : i + 1 + length (append_from n (v / 128))
          ≡ i + suc (length (append_from n (v / 128))) =
        omega arith in
      rw (e, l, t) (ap (read_ok total) k)
]

module _ (rest : List ℕ) where
  read_four :
      (v r : ℕ)
      → v < 16
      → read_from 1 4 r (append_from 1 v ++ rest)
        ≡ read_ok (r + v * 268435456) (4 + length (append_from 1 v))
  read_four v r h =
      read_round 0 4 v r (r + v * 268435456) rest (λ lt. omega arith) (λ ge. absurd (omega arith))

  read_three :
      (v r : ℕ)
      → v < 2048
      → read_from 2 3 r (append_from 2 v ++ rest)
        ≡ read_ok (r + v * 2097152) (3 + length (append_from 2 v))
  read_three v r h =
      read_round 1 3 v r (r + v * 2097152) rest (λ lt. omega arith)
        (λ ge.
          let t =
            read_four (v / 128) (r + (v % 128 + 128) % 128 * 2 ^ (7 * 3) % 2 ^ 32) (omega arith) in
          t ∙ ap (λ x. read_ok x (4 + length (append_from 1 (v / 128)))) (omega arith))

  read_two :
      (v r : ℕ)
      → v < 262144
      → read_from 3 2 r (append_from 3 v ++ rest)
        ≡ read_ok (r + v * 16384) (2 + length (append_from 3 v))
  read_two v r h =
      read_round 2 2 v r (r + v * 16384) rest (λ lt. omega arith)
        (λ ge.
          let t =
            read_three (v / 128) (r + (v % 128 + 128) % 128 * 2 ^ (7 * 2) % 2 ^ 32) (omega arith) in
          t ∙ ap (λ x. read_ok x (3 + length (append_from 2 (v / 128)))) (omega arith))

  read_one :
      (v r : ℕ)
      → v < 33554432
      → read_from 4 1 r (append_from 4 v ++ rest)
        ≡ read_ok (r + v * 128) (1 + length (append_from 4 v))
  read_one v r h =
      read_round 3 1 v r (r + v * 128) rest (λ lt. omega arith)
        (λ ge.
          let t =
            read_two (v / 128) (r + (v % 128 + 128) % 128 * 2 ^ (7 * 1) % 2 ^ 32) (omega arith) in
          t ∙ ap (λ x. read_ok x (2 + length (append_from 3 (v / 128)))) (omega arith))

  -- What `appendVarint32` has written `TryReadVarint32` reads back, whatever follows, with its length.
  pub try_read_varint32-append_varint32 :
      (v : ℕ)
      → v < 2 ^ 32
      → try_read_varint32 (append_varint32 v ++ rest) ≡ read_ok v (length (append_varint32 v))
  unfolding try_read_varint32 append_varint32
  try_read_varint32-append_varint32 v h =
      (read_round 4 0 v 0 v rest (λ lt. omega arith)
        (λ ge.
          let t =
            read_one (v / 128) (0 + (v % 128 + 128) % 128 * 2 ^ (7 * 0) % 2 ^ 32) (omega arith) in
          t ∙ ap (λ x. read_ok x (1 + length (append_from 4 (v / 128)))) (omega arith)))
      ∙ ap (read_ok v) (omega arith)

-- Bytes that come later change no answer but `need_more`.
read_from-append :
    (n i r : ℕ) (xs ys : List ℕ)
    → (read_from n i r (xs ++ ys) ≡ read_from n i r xs) ⊎ (read_from n i r xs ≡ need_more)
unfolding read_from
read_from-append zero i r xs ys = inl refl
read_from-append (suc n) i r [] ys = inr refl
read_from-append (suc n) i r (x ∷ xs) ys = elim (Bool-cases (ltb x 128)) [
  | inl e ↦ inl (rw (e))
  | inr e ↦ elim (read_from-append n (i + 1) (r + x % 128 * 2 ^ (7 * i) % 2 ^ 32) xs ys) [
    | inl same ↦ inl (rw (e, same))
    | inr more ↦ inr ((rw (e)) ∙ more)
  ]
]

pub try_read_varint32-append :
    (xs ys : List ℕ)
    → (try_read_varint32 (xs ++ ys) ≡ try_read_varint32 xs) ⊎ (try_read_varint32 xs ≡ need_more)
unfolding try_read_varint32
try_read_varint32-append xs ys = read_from-append 5 0 0 xs ys

pub read_from_len :
    (n i r : ℕ) (xs : List ℕ) {v l : ℕ}
    → read_from n i r xs ≡ read_ok v l
    → (i < l) × (l ≤ i + length xs)
unfolding read_from
read_from_len zero i r xs h = absurd (cc)
read_from_len (suc n) i r [] h = absurd (cc)
read_from_len (suc n) i r (x ∷ xs) {v} {l} h = elim (Bool-cases (ltb x 128)) [
  | inl e ↦ let q : i + 1 ≡ l = ground arith in (omega arith, omega arith)
  | inr e ↦
      let (a, b) = read_from_len n (i + 1) (r + x % 128 * 2 ^ (7 * i) % 2 ^ 32) xs (rw (e) at h) in
      (omega arith, omega arith)
]

-- The length is that of bytes that are there.
pub try_read_varint32_len :
    (xs : List ℕ) {v l : ℕ} → try_read_varint32 xs ≡ read_ok v l → (0 < l) × (l ≤ length xs)
unfolding try_read_varint32
try_read_varint32_len xs h = let (a, b) = read_from_len 5 0 0 xs h in (a, omega arith)
