-- ===== src/Clerk/Retry.antt =====
-- The loops of src/clerk/clerk.cc end, once some server answers for good.
use native.Mathlib.Nat.{mod-lt, mod-eq_of_lt, mod-add-mod, mod-eq-sub-mod}
use kvcache_raft.Common.{
  ℕ, zero, suc, ◌+◌, ◌-◌, ◌%◌, ◌≤◌, ◌<◌, ◌≡◌, ◌≢◌, ◌⊎◌, inl, inr, refl, sym, ap, ◌∙◌, subst, String,
  Bool, Option, none, some, Outcome, ok, arith, if◌then◌else◌, dec_lt,
}
use kvcache_raft.Clerk.{Verdict, next_server, same_server, returns, retry}

Verdict-cases :
    (v : Verdict)
    → (v ≡ next_server) ⊎ ((v ≡ same_server) ⊎ ((b : Bool) × (x : String) × (v ≡ returns b x)))
Verdict-cases next_server = inl refl
Verdict-cases same_server = inr (inl refl)
Verdict-cases (returns b x) = inr (inr (b, x, refl))

module _ (servers : ℕ) (ask : ℕ → ℕ → Verdict) where
  -- The loop has returned what one of the answers said.
  unfoldable pub Answered : Outcome (Option ℕ × String) → Type 0
  Answered o =
      (t : ℕ) × (server : ℕ) × (leads : Bool) × (value : String) × (server < servers)
      × (ask t server ≡ returns leads value)
      × (o ≡ ok (if leads then some server else none, value))

  retry-returns :
      (n t server : ℕ) (b : Bool) (x : String)
      → ask t server ≡ returns b x
      → retry (suc n) servers ask t server ≡ ok (if b then some server else none, x)
  unfolding retry
  retry-returns n t server b x e = rw (retry, e)

  retry-next :
      (n t server : ℕ)
      → ask t server ≡ next_server
      → retry (suc n) servers ask t server ≡ retry n servers ask (t + 1) ((server + 1) % servers)
  unfolding retry
  retry-next n t server e = rw (retry, e)

  module _ (leader from : ℕ) (lt : leader < servers)
      (moves : (t server : ℕ) → ask t server ≢ same_server)
      (answers : (t : ℕ)
        → from ≤ t
        → (b : Bool) × (x : String) × (ask t leader ≡ returns b x)) where
    -- `d` servers before the one that answers.
    retry_near :
        (d n t server : ℕ)
        → from ≤ t
        → server < servers
        → (server + d) % servers ≡ leader
        → d < n
        → Answered (retry n servers ask t server)
    unfolding Answered
    retry_near d zero t server late s near fuel = absurd (omega arith)
    retry_near zero (suc n) t server late s near fuel =
        let here : server ≡ leader =
          sym (mod-eq_of_lt s) ∙ ap (λ z. z % servers) (omega arith) ∙ near in
        let (b, x, e) = answers t late in
        let e' : ask t server ≡ returns b x = ap (ask t) here ∙ e in
        (t, server, b, x, s, e', retry-returns n t server b x e')
    retry_near (suc d) (suc n) t server late s near fuel = elim (Verdict-cases (ask t server)) [
      | inr (inl e) ↦ absurd (moves t server e)
      | inr (inr (b, x, e)) ↦ (t, server, b, x, s, e, retry-returns n t server b x e)
      | inl e ↦
          let near' : ((server + 1) % servers + d) % servers ≡ leader =
            mod-add-mod (server + 1) servers d ∙ ap (λ z. z % servers) (omega arith) ∙ near in
          subst (Answered) (sym (retry-next n t server e)) (
            retry_near d n (t + 1) ((server + 1) % servers) (omega arith)
              (mod-lt (server + 1) (omega arith)) near' (omega arith))
    ]

    distance :
        (server : ℕ)
        → server < servers
        → (d : ℕ) × (d < servers) × ((server + d) % servers ≡ leader)
    distance server s = elim (dec_lt leader server) [
      | no ge ↦
          (leader - server, omega arith, ap (λ z. z % servers) (omega arith) ∙ mod-eq_of_lt lt)
      | yes below ↦
          let sum : server + (leader + servers - server) ≡ leader + servers = omega arith in
          (
            leader + servers - server,
            omega arith,
            ap (λ z. z % servers) sum
                ∙ mod-eq-sub-mod (omega arith)
                ∙ ap (λ z. z % servers) (omega arith)
                ∙ mod-eq_of_lt lt,
          )
    ]

    -- `early` attempts before that server answers for good.
    pub retry_early :
        (early n t server : ℕ)
        → from ≤ t + early
        → server < servers
        → early + servers ≤ n
        → Answered (retry n servers ask t server)
    unfolding Answered
    retry_early zero n t server late s fuel =
        let (d, small, near) = distance server s in
        retry_near d n t server (omega arith) s near (omega arith)
    retry_early (suc early) zero t server late s fuel = absurd (omega arith)
    retry_early (suc early) (suc n) t server late s fuel = elim (Verdict-cases (ask t server)) [
      | inr (inl e) ↦ absurd (moves t server e)
      | inr (inr (b, x, e)) ↦ (t, server, b, x, s, e, retry-returns n t server b x e)
      | inl e ↦ subst (Answered) (sym (retry-next n t server e)) (
          retry_early early n (t + 1) ((server + 1) % servers) (omega arith)
            (mod-lt (server + 1) (omega arith)) (omega arith))
    ]
