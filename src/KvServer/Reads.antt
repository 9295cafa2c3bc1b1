-- ===== src/KvServer/Reads.antt =====
-- src/kvserver/KvServer.cc, `Get`: its reply, once it has waited.
use kvcache_raft.Common.{
  ℕ, ◌≡◌, ◌≤◌, ◌⊎◌, refl, sym, ◌∙◌, ap, arith, str_eq_iff, String, Bool, true, false, Option, none,
  some, inl, inr, Bool-cases, Option-cases,
}
use kvcache_raft.KvServer.Interfaces.{Op, KvStore}
use kvcache_raft.KvServer.Types.{KvServer, find_ch, find_id, is_request_duplicate}
use kvcache_raft.KvServer.Apply.{execute_get}
use kvcache_raft.KvServer.Calls.{Err, wrong_leader, is_own, found, get_reply, end_get, drop_channel}
use kvcache_raft.KvServer.Refinement.{View, Shows}
use kvcache_raft.KvServer.Retries.{find_ch-erase_ch}

-- The client's command has taken effect, as far as the call can tell: what came through the channel
-- bears the ids of the command; or nothing came in time, the map has applied a request of the
-- client with this id or a later one, and the node leads.
abbrev pub Settled : View → Op → Option Op → Bool → Type 0
Settled a op none leads =
    ((n : ℕ) × (a.ids op.client_id ≡ some n) × (op.request_id ≤ n)) × (leads ≡ true)
Settled a op (some came) leads = (came.client_id ≡ op.client_id) × (came.request_id ≡ op.request_id)

-- What a call of `Get` ends with.
pub record IsRead {S : Type 0} (a : View) (op : Op) (index : ℕ) (came : Option Op) (leads : Bool)
    (k k' : KvServer S) (r : Err × String) : Type 0 where
  pub reply :
      (Settled a op came leads × (r ≡ found (a.values op.key)))
      ⊎ ((¬ Settled a op came leads) × (r ≡ (wrong_leader, "")))
  pub untouched : k'.skip_list ≡ k.skip_list
  pub closed : find_ch index k'.wait_apply_ch ≡ none

is_own-same :
    (op came : Op)
    → is_own op came ≡ true
    → (came.client_id ≡ op.client_id) × (came.request_id ≡ op.request_id)
is_own-same op came h = grind (arith, str_eq_iff came.client_id op.client_id)

is_own-other :
    (op came : Op)
    → is_own op came ≡ false
    → ¬ ((came.client_id ≡ op.client_id) × (came.request_id ≡ op.request_id))
is_own-other op came h (p, q) = grind (arith, str_eq_iff came.client_id op.client_id)

module _ {S : Type 0} (store : KvStore S) where
  module _ (k : KvServer S) (a : View) (s : Shows store k a) (op : Op) where
    duplicate-applied :
        is_request_duplicate op.client_id op.request_id k ≡ true
        → (n : ℕ) × (a.ids op.client_id ≡ some n) × (op.request_id ≤ n)
    unfolding is_request_duplicate
    duplicate-applied h = elim (Option-cases (find_id op.client_id k.last_request_id)) [
      | inl e ↦ absurd (ground arith)
      | inr (n, e) ↦ (n, sym (s.ids op.client_id) ∙ e, ground arith)
    ]

    new-not_applied :
        is_request_duplicate op.client_id op.request_id k ≡ false
        → ¬ ((n : ℕ) × (a.ids op.client_id ≡ some n) × (op.request_id ≤ n))
    unfolding is_request_duplicate
    new-not_applied h (n, e, le) = let f = s.ids op.client_id ∙ e in ground arith

    get_reply-Shows :
        (came : Option Op) (leads : Bool)
        → let x = get_reply store op came leads k in
          ((Settled a op came leads × (x.1 ≡ found (a.values op.key)))
            ⊎ ((¬ Settled a op came leads) × (x.1 ≡ (wrong_leader, ""))))
          × (x.0.skip_list ≡ k.skip_list)
    unfolding get_reply execute_get
    get_reply-Shows none leads =
        elim (Bool-cases (is_request_duplicate op.client_id op.request_id k)) [
          | inr new ↦ rw new (inr (λ z. new-not_applied new z.0, refl), refl)
          | inl old ↦ elim (Bool-cases leads) [
            | inl l ↦
                rw (old, l) (inl ((duplicate-applied old, refl), ap found (s.values op.key)), refl)
            | inr l ↦ rw (old, l) (inr (λ z. absurd (cc), refl), refl)
          ]
        ]
    get_reply-Shows (some came) leads = elim (Bool-cases (is_own op came)) [
      | inl seen ↦ rw seen (inl (is_own-same op came seen, ap found (s.values op.key)), refl)
      | inr other ↦ rw other (inr (is_own-other op came other, refl), refl)
    ]

  -- On a server that shows a map, a call of `Get` replies with the key's value in the map, or that
  -- there is no such key, if what came through the channel bears the client's id and the request id
  -- of the command, or if nothing came in time, the map has applied a request of the client with
  -- this id or a later one, and the node leads; in every other case it replies that the node is not
  -- the leader. The store is not changed, and no channel is left at the command's index.
  pub end_get-Shows :
      (op : Op) (index : ℕ) (came : Option Op) (leads : Bool) (k : KvServer S) (a : View)
      → Shows store k a
      → let x = end_get store op index came leads k in IsRead a op index came leads k x.0 x.1
  unfolding end_get drop_channel
  end_get-Shows op index came leads k a s =
      let (p, q) = get_reply-Shows k a s op came leads in
      record {
        reply = p;
        untouched = q;
        closed = find_ch-erase_ch index (get_reply store op came leads k).0.wait_apply_ch;
      }
