-- ===== src/Clerk/Get.antt =====
-- `Get` of src/clerk/clerk.cc returns what a server has answered.
use kvcache_raft.Common.{
  ℕ, ◌+◌, ◌≤◌, ◌<◌, ◌≡◌, ◌⊎◌, inl, inr, refl, sym, ap, ◌∙◌, String, Bool, true, false, Option, none,
  some, Outcome, ok, arith, if◌then◌else◌, str_eq,
}
use kvcache_raft.Clerk.{
  Clerk, GetArgs, GetReply, Verdict, next_server, returns, get_verdict, retry, get,
}
use kvcache_raft.Clerk.Retry.{Answered, retry_early}

-- The errors that a server of this repository replies with.
abbrev pub Known : Option GetReply → Type 0
Known none = Unit
Known (some r) = (r.err ≡ "OK") ⊎ ((r.err ≡ "ErrNoKey") ⊎ (r.err ≡ "ErrWrongLeader"))

-- An answer that settles the call.
abbrev pub Settles : GetReply → Type 0
Settles r = (r.err ≡ "OK") ⊎ (r.err ≡ "ErrNoKey")

verdict_ok : (r : GetReply) → r.err ≡ "OK" → get_verdict (some r) ≡ returns true r.value
unfolding get_verdict
verdict_ok r h =
    let a : str_eq r.err "ErrWrongLeader" ≡ false = ap (λ z. str_eq z "ErrWrongLeader") h in
    let b : str_eq r.err "ErrNoKey" ≡ false = ap (λ z. str_eq z "ErrNoKey") h in
    let c : str_eq r.err "OK" ≡ true = ap (λ z. str_eq z "OK") h in rw (a, b, c)

verdict_no_key : (r : GetReply) → r.err ≡ "ErrNoKey" → get_verdict (some r) ≡ returns false ""
unfolding get_verdict
verdict_no_key r h =
    let a : str_eq r.err "ErrWrongLeader" ≡ false = ap (λ z. str_eq z "ErrWrongLeader") h in
    let b : str_eq r.err "ErrNoKey" ≡ true = ap (λ z. str_eq z "ErrNoKey") h in rw (a, b)

verdict_wrong : (r : GetReply) → r.err ≡ "ErrWrongLeader" → get_verdict (some r) ≡ next_server
unfolding get_verdict
verdict_wrong r h =
    let a : str_eq r.err "ErrWrongLeader" ≡ true = ap (λ z. str_eq z "ErrWrongLeader") h in rw (a)

-- An answer with a known error, by what the loop does with it.
get_verdict-Known :
    (o : Option GetReply)
    → Known o
    → (get_verdict o ≡ next_server)
      ⊎ ((r : GetReply) × (o ≡ some r)
          × (((r.err ≡ "OK") × (get_verdict o ≡ returns true r.value))
              ⊎ ((r.err ≡ "ErrNoKey") × (get_verdict o ≡ returns false ""))))
unfolding get_verdict
get_verdict-Known none k = inl refl
get_verdict-Known (some r) (inl h) = inr (r, refl, inl (h, verdict_ok r h))
get_verdict-Known (some r) (inr (inl h)) = inr (r, refl, inr (h, verdict_no_key r h))
get_verdict-Known (some r) (inr (inr h)) = inl (verdict_wrong r h)

Settles-returns :
    (r : GetReply) → Settles r → (b : Bool) × (x : String) × (get_verdict (some r) ≡ returns b x)
Settles-returns r (inl h) = (true, r.value, verdict_ok r h)
Settles-returns r (inr h) = (false, "", verdict_no_key r h)

module _ (answers : ℕ → ℕ → GetArgs → Option GetReply) (key : String) (c : Clerk) where
  abbrev pub args_of : GetArgs
  args_of = record { key = key; client_id = c.client_id; request_id = c.request_id + 1 }

  abbrev asked : ℕ → ℕ → Verdict
  asked t server = get_verdict (answers t server args_of)

  -- The call has returned the answer that some server gave to this very request: its value, and the
  -- server is kept as the leader, or an empty text for a key that is not there.
  pub Got : ℕ → Type 0
  Got n =
      (t : ℕ) × (server : ℕ) × (r : GetReply) × (server < c.servers)
      × (answers t server args_of ≡ some r)
      × (((r.err ≡ "OK")
            × (get n answers key c
                ≡ ok (
                  record c { request_id = c.request_id + 1; recent_leader_id = server },
                  r.value,
                )))
          ⊎ ((r.err ≡ "ErrNoKey")
              × (get n answers key c ≡ ok (record c { request_id = c.request_id + 1 }, ""))))

  abbrev settle : ℕ → Verdict → Outcome (Option ℕ × String)
  settle server (returns leads value) = ok (if leads then some server else none, value)
  settle server _ = ok (none, "")

  Answered-Got :
      (n : ℕ)
      → ((t server : ℕ) → Known (answers t server args_of))
      → Answered c.servers asked (retry n c.servers asked 0 c.recent_leader_id)
      → Got n
  unfolding Got Answered get
  Answered-Got n known (t, server, leads, value, s, e, f) =
      elim (get_verdict-Known (answers t server args_of) (known t server)) [
        | inl h ↦ absurd (cc)
        | inr (r, o, inl (h, v)) ↦
            let f' : retry n c.servers asked 0 c.recent_leader_id ≡ ok (some server, r.value) =
              f ∙ ap (settle server) (sym e ∙ v) in
            (t, server, r, s, o, inl (h, rw (f')))
        | inr (r, o, inr (h, v)) ↦
            let f' : retry n c.servers asked 0 c.recent_leader_id ≡ ok (none, "") =
              f ∙ ap (settle server) (sym e ∙ v) in
            (t, server, r, s, o, inr (h, rw (f')))
      ]

  -- `Get` ends: if every answer is one that a server can give, and from some attempt on one of the
  -- servers answers each call with a value or with the error of a missing key, then that many
  -- attempts and one more for each server are enough. It then returns what a server has answered to
  -- this request; a server that had the value is kept as the leader.
  pub get-Got :
      (n early leader : ℕ)
      → c.recent_leader_id < c.servers
      → leader < c.servers
      → ((t server : ℕ) → Known (answers t server args_of))
      → ((t : ℕ) → early ≤ t → (r : GetReply) × (answers t leader args_of ≡ some r) × Settles r)
      → early + c.servers ≤ n
      → Got n
  get-Got n early leader s lt known settled fuel = Answered-Got n known (
      retry_early c.servers asked leader early lt
        (λ t server h. elim (get_verdict-Known (answers t server args_of) (known t server)) [
          | inl e ↦ absurd (cc)
          | inr (r, o, inl (e, v)) ↦ absurd (cc)
          | inr (r, o, inr (e, v)) ↦ absurd (cc)
        ])
        (λ t late.
          let (r, o, k) = settled t late in
          let (b, x, e) = Settles-returns r k in (b, x, ap get_verdict o ∙ e))
        early n 0 c.recent_leader_id (omega arith) s fuel)
