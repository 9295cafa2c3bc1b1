-- ===== src/Rpc/Stream.antt =====
-- The frames of a connection and how they arrive: `OnMessage` of src/rpc/rpcprovider.cc.
use kvcache_raft.Common.{
  ℕ, zero, suc, ◌<◌, ◌≡◌, ◌⊎◌, inl, inr, refl, sym, ap, ◌∙◌, List, [], ◌∷◌, ◌++◌, true, false,
  if◌then◌else◌, arith, Bool-cases, length, length-append, Outcome, ok, fault, ◌>>=◌,
}
use kvcache_raft.Rpc.Provider.{
  Services, RpcCallContext, incomplete, invalid, frame, next_frame, Served, Handled, unparsable,
  skipped, called, handle_frame, serve, on_message,
}
use kvcache_raft.Rpc.Frames.{
  NextFrame-cases, next_frame-append, next_frame_left, followed_by, incomplete_not,
}

module _ {A : Type 0} (services : Services A) where
  pub Handled-cases :
      (r : Handled A)
      → (r ≡ unparsable) ⊎ ((r ≡ skipped) ⊎ ((c : RpcCallContext A) × (r ≡ called c)))
  Handled-cases unparsable = inl refl
  Handled-cases skipped = inr (inl refl)
  Handled-cases (called c) = inr (inr (c, refl))

  abbrev add_call : RpcCallContext A → Served A → Served A
  add_call c s = record s { calls = c ∷ s.calls }

  -- One round of the loop, by what is at the front of the buffer.
  module _ (n : ℕ) (xs : List ℕ) where
    pub serve-incomplete :
        next_frame xs ≡ incomplete
        → serve services (suc n) xs ≡ ok (record { calls = []; left = xs; is_open = true })
    unfolding serve
    serve-incomplete e = rw (serve, e)

    serve-invalid :
        next_frame xs ≡ invalid
        → serve services (suc n) xs ≡ ok (record { calls = []; left = xs; is_open = false })
    unfolding serve
    serve-invalid e = rw (serve, e)

    module _ (b l : List ℕ) (e : next_frame xs ≡ frame b l) where
      serve-unparsable :
          handle_frame services b ≡ unparsable
          → serve services (suc n) xs ≡ ok (record { calls = []; left = l; is_open = false })
      unfolding serve
      serve-unparsable h = rw (serve, e, h)

      pub serve-skipped :
          handle_frame services b ≡ skipped → serve services (suc n) xs ≡ serve services n l
      unfolding serve
      serve-skipped h = rw (serve, e, h)

      pub serve-called :
          (c : RpcCallContext A)
          → handle_frame services b ≡ called c
          → serve services (suc n) xs
            ≡ (serve services n l >>= λ s. ok (record s { calls = c ∷ s.calls }))
      unfolding serve
      serve-called c h = rw (serve, e, h)

  -- The loop ends: each round takes bytes off the buffer.
  serve_enough :
      (n m : ℕ) (xs : List ℕ)
      → length xs < n
      → length xs < m
      → (s : Served A) × (serve services n xs ≡ ok s) × (serve services m xs ≡ ok s)
  serve_enough zero m xs a b = absurd (omega arith)
  serve_enough (suc n) zero xs a b = absurd (omega arith)
  serve_enough (suc n) (suc m) xs a b = elim (NextFrame-cases (next_frame xs)) [
    | inl e ↦ (
      record { calls = []; left = xs; is_open = true },
      serve-incomplete n xs e,
      serve-incomplete m xs e,
    )
    | inr (inl e) ↦ (
      record { calls = []; left = xs; is_open = false },
      serve-invalid n xs e,
      serve-invalid m xs e,
    )
    | inr (inr (body, l, e)) ↦
        let lt = next_frame_left xs e in
        let (s, p, q) = serve_enough n m l (omega arith) (omega arith) in
        elim (Handled-cases (handle_frame services body)) [
          | inl h ↦ (
            record { calls = []; left = l; is_open = false },
            serve-unparsable n xs body l e h,
            serve-unparsable m xs body l e h,
          )
          | inr (inl h) ↦ (s, serve-skipped n xs body l e h ∙ p, serve-skipped m xs body l e h ∙ q)
          | inr (inr (c, h)) ↦ (
            record s { calls = c ∷ s.calls },
            serve-called n xs body l e c h ∙ (rw (p)),
            serve-called m xs body l e c h ∙ (rw (q)),
          )
        ]
  ]

  -- Any fuel above the number of bytes is enough.
  pub on_message-serve :
      (n : ℕ) (xs : List ℕ) → length xs < n → on_message services xs ≡ serve services n xs
  unfolding on_message
  on_message-serve n xs lt =
      let (s, p, q) = serve_enough (suc (length xs)) n xs (omega arith) lt in p ∙ sym q

  -- What one call of `OnMessage` does with further bytes behind those on which it comes to `s`: it
  -- goes on with them, unless it has shut the connection and returned before it gets to them.
  abbrev after : Served A → List ℕ → Outcome (Served A)
  after s ys =
      if s.is_open
      then (on_message services (s.left ++ ys) >>= λ t.
          ok (record t { calls = s.calls ++ t.calls }))
      else ok (record s { left = s.left ++ ys })

  after-cons :
      (c : RpcCallContext A) (s : Served A) (ys : List ℕ)
      → (after s ys >>= λ t. ok (record t { calls = c ∷ t.calls }))
        ≡ after (record s { calls = c ∷ s.calls }) ys
  after-cons c s ys = elim (Bool-cases s.is_open) [
    | inr shut ↦ rw (shut)
    | inl open_ ↦
        let (t, p, q) =
          serve_enough (suc (length (s.left ++ ys))) (suc (length (s.left ++ ys))) (s.left ++ ys)
            (omega arith) (omega arith) in
        let m = on_message-serve (suc (length (s.left ++ ys))) (s.left ++ ys) (omega arith) in
        rw (open_, m, p)
  ]

  cons_all :
      (c : RpcCallContext A) (ys : List ℕ) (o : Outcome (Served A))
      → ((o >>= λ s. after s ys) >>= λ t. ok (record t { calls = c ∷ t.calls }))
        ≡ ((o >>= λ s. ok (record s { calls = c ∷ s.calls })) >>= λ s. after s ys)
  cons_all c ys (ok s) = after-cons c s ys
  cons_all c ys (fault x) = refl

  after_nothing :
      (xs : List ℕ) (ys : List ℕ)
      → on_message services (xs ++ ys) ≡ after (record { calls = []; left = xs; is_open = true }) ys
  after_nothing xs ys =
      let n = suc (length (xs ++ ys)) in
      let (t, p, q) = serve_enough n n (xs ++ ys) (omega arith) (omega arith) in
      let m = on_message-serve n (xs ++ ys) (omega arith) ∙ p in rw (m)

  serve_append :
      (n : ℕ) (xs ys : List ℕ)
      → length (xs ++ ys) < n
      → serve services n (xs ++ ys) ≡ (serve services n xs >>= λ s. after s ys)
  serve_append zero xs ys lt = absurd (omega arith)
  serve_append (suc n) xs ys lt = elim (NextFrame-cases (next_frame xs)) [
    | inl e ↦
        sym (on_message-serve (suc n) (xs ++ ys) lt)
        ∙ after_nothing xs ys
        ∙ ap (λ o. o >>= λ s. after s ys) (sym (serve-incomplete n xs e))
    | inr other ↦ elim (next_frame-append xs ys) [
      | inl e ↦ absurd (incomplete_not e other)
      | inr same ↦ elim other [
        | inl e ↦
            let e' : next_frame (xs ++ ys) ≡ invalid = same ∙ ap (λ f. followed_by f ys) e in
            serve-invalid n (xs ++ ys) e'
            ∙ ap (λ o. o >>= λ s. after s ys) (sym (serve-invalid n xs e))
        | inr (b, l, e) ↦
            let e' : next_frame (xs ++ ys) ≡ frame b (l ++ ys) =
              same ∙ ap (λ f. followed_by f ys) e in
            let shorter = next_frame_left (xs ++ ys) e' in
            let ih = serve_append n l ys (omega arith) in
            elim (Handled-cases (handle_frame services b)) [
              | inl h ↦
                  serve-unparsable n (xs ++ ys) b (l ++ ys) e' h
                  ∙ ap (λ o. o >>= λ s. after s ys) (sym (serve-unparsable n xs b l e h))
              | inr (inl h) ↦
                  serve-skipped n (xs ++ ys) b (l ++ ys) e' h
                  ∙ ih
                  ∙ ap (λ o. o >>= λ s. after s ys) (sym (serve-skipped n xs b l e h))
              | inr (inr (c, h)) ↦
                  serve-called n (xs ++ ys) b (l ++ ys) e' c h
                  ∙ ap (λ o. o >>= λ s. ok (add_call c s)) ih
                  ∙ cons_all c ys (serve services n l)
                  ∙ ap (λ o. o >>= λ s. after s ys) (sym (serve-called n xs b l e c h))
            ]
      ]
    ]
  ]

  -- The call of `OnMessage` with `xs` has kept the connection open, the next one has all of `ys`
  -- and what was left, and a single call with all bytes does what the two do.
  pub record GoesOn (xs ys : List ℕ) (s : Served A) : Type 0 where
    pub is_open : s.is_open ≡ true
    pub next : Served A
    pub split : on_message services (s.left ++ ys) ≡ ok next
    pub joined : on_message services (xs ++ ys) ≡ ok (record next { calls = s.calls ++ next.calls })

  -- The call of `OnMessage` with `xs` has shut the connection, and a single call with all bytes
  -- stops at the same place: it schedules the same calls and leaves `ys` in the buffer.
  pub record Stops (xs ys : List ℕ) (s : Served A) : Type 0 where
    pub shut : s.is_open ≡ false
    pub joined : on_message services (xs ++ ys) ≡ ok (record s { left = s.left ++ ys })

  -- `OnMessage` always returns. As long as it does not shut the connection, it does not matter how
  -- the bytes are split into messages: `xs` and `ys` in one message schedule the calls that `xs`
  -- and then `ys` do, in that order, and leave the same bytes. Where `xs` makes it shut the
  -- connection, `xs` and `ys` in one message schedule the calls of `xs` alone, and all of `ys`
  -- stays in the buffer behind what `xs` leaves.
  pub on_message-append :
      (xs ys : List ℕ)
      → (s : Served A) × (on_message services xs ≡ ok s) × (GoesOn xs ys s ⊎ Stops xs ys s)
  on_message-append xs ys =
      let n = suc (length (xs ++ ys)) in
      let size = length-append xs ys in
      let (s, p, q) = serve_enough n n xs (omega arith) (omega arith) in
      let both =
        on_message-serve n (xs ++ ys) (omega arith)
        ∙ serve_append n xs ys (omega arith)
        ∙ ap (λ o. o >>= λ s. after s ys) p in
      (
        s,
        on_message-serve n xs (omega arith) ∙ p,
        elim (Bool-cases s.is_open) [
          | inl open_ ↦
              let m = suc (length (s.left ++ ys)) in
              let (t, a, _) = serve_enough m m (s.left ++ ys) (omega arith) (omega arith) in
              let e = on_message-serve m (s.left ++ ys) (omega arith) ∙ a in
              inl (record { is_open = open_; next = t; split = e; joined = both ∙ rw (open_, e) })
          | inr shut_ ↦ inr (record { shut = shut_; joined = both ∙ rw shut_ refl })
        ],
      )
