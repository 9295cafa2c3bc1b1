-- ===== src/Rpc/Frames.antt =====
-- The frame at the front of the buffer in `OnMessage` of src/rpc/rpcprovider.cc.
use kvcache_raft.Common.{
  ℕ, ◌+◌, ◌≤◌, ◌<◌, ◌≡◌, ◌⊎◌, inl, inr, refl, ap, List, ◌++◌, false, ◌||◌, ltb, ◌==◌, arith,
  Bool-cases, length, drop, length-append, length-drop, take-append, drop-append,
}
use kvcache_raft.Rpc.Varint.{
  VarintReadResult, read_ok, need_more, bad_format, try_read_varint32, try_read_varint32-append,
  try_read_varint32_len,
}
use kvcache_raft.Rpc.Provider.{
  max_frame_size, NextFrame, incomplete, invalid, frame, sized_frame, next_frame,
}

VarintReadResult-cases :
    (r : VarintReadResult)
    → (r ≡ need_more) ⊎ ((r ≡ bad_format) ⊎ ((v : ℕ) × (l : ℕ) × (r ≡ read_ok v l)))
VarintReadResult-cases need_more = inl refl
VarintReadResult-cases bad_format = inr (inl refl)
VarintReadResult-cases (read_ok v l) = inr (inr (v, l, refl))

pub NextFrame-cases :
    (r : NextFrame)
    → (r ≡ incomplete) ⊎ ((r ≡ invalid) ⊎ ((b : List ℕ) × (l : List ℕ) × (r ≡ frame b l)))
NextFrame-cases incomplete = inl refl
NextFrame-cases invalid = inr (inl refl)
NextFrame-cases (frame b l) = inr (inr (b, l, refl))

-- The same frame with more bytes behind it.
abbrev pub followed_by : NextFrame → List ℕ → NextFrame
followed_by incomplete ys = incomplete
followed_by invalid ys = invalid
followed_by (frame b l) ys = frame b (l ++ ys)

sized_frame-append :
    (size n : ℕ) (xs ys : List ℕ)
    → n ≤ length xs
    → (sized_frame size n xs ≡ incomplete)
      ⊎ (sized_frame size n (xs ++ ys) ≡ followed_by (sized_frame size n xs) ys)
unfolding sized_frame
sized_frame-append size n xs ys le = elim (Bool-cases ((size == 0) || ltb max_frame_size size)) [
  | inl e ↦ inr (rw (e))
  | inr e ↦ elim (Bool-cases (ltb (length xs) (n + size))) [
    | inl short ↦ inl (rw (e, short))
    | inr all ↦
        let size' = length-append xs ys in
        let rest = length-drop n xs in
        let all' : ltb (length (xs ++ ys)) (n + size) ≡ false = ground arith in
        let d = drop-append n xs ys le in
        let fits : size ≤ length (drop n xs) = ground arith in
        let t = take-append size (drop n xs) ys fits in
        let u = drop-append size (drop n xs) ys fits in inr (rw (e, all, all', d, t, u))
  ]
]

pub next_frame-append :
    (xs ys : List ℕ)
    → (next_frame xs ≡ incomplete) ⊎ (next_frame (xs ++ ys) ≡ followed_by (next_frame xs) ys)
unfolding next_frame
next_frame-append xs ys = elim (try_read_varint32-append xs ys) [
  | inr more ↦ inl (rw (next_frame, more))
  | inl same ↦ elim (VarintReadResult-cases (try_read_varint32 xs)) [
    | inl e ↦ inl (rw (next_frame, e))
    | inr (inl e) ↦ inr (rw (next_frame, same, e))
    | inr (inr (v, l, e)) ↦
        let len = try_read_varint32_len xs e in
        rw (next_frame, same, e) (sized_frame-append v l xs ys len.1)
  ]
]

sized_frame_left :
    (size n : ℕ) (xs : List ℕ) {b l : List ℕ}
    → 0 < n
    → n ≤ length xs
    → sized_frame size n xs ≡ frame b l
    → length l < length xs
unfolding sized_frame
sized_frame_left size n xs {b} {l} pos le h =
    elim (Bool-cases ((size == 0) || ltb max_frame_size size)) [
      | inl e ↦ absurd (ground arith)
      | inr e ↦ elim (Bool-cases (ltb (length xs) (n + size))) [
        | inl short ↦ absurd (ground arith)
        | inr all ↦
            let q : drop size (drop n xs) ≡ l = ground arith in
            let p1 = length-drop n xs in
            let p2 = length-drop size (drop n xs) in let p3 = ap length q in omega arith
      ]
    ]

pub next_frame_left :
    (xs : List ℕ) {b l : List ℕ} → next_frame xs ≡ frame b l → length l < length xs
unfolding next_frame
next_frame_left xs {b} {l} h = elim (VarintReadResult-cases (try_read_varint32 xs)) [
  | inl e ↦ absurd (ground arith)
  | inr (inl e) ↦ absurd (ground arith)
  | inr (inr (v, n, e)) ↦
      let len = try_read_varint32_len xs e in
      sized_frame_left v n xs len.0 len.1 (rw (next_frame, e) at h)
]

pub incomplete_not :
    {r : NextFrame}
    → r ≡ incomplete
    → ¬ ((r ≡ invalid) ⊎ ((b : List ℕ) × (l : List ℕ) × (r ≡ frame b l)))
incomplete_not e (inl h) = absurd (cc)
incomplete_not e (inr (b, l, h)) = absurd (cc)
