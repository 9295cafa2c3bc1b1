-- ===== src/Raft/Terms/Appends.antt =====
-- The two sides of `AppendEntries` of src/raft/raft.cc and the rule on terms and votes.
use kvcache_raft.Common.{
  ℕ, ◌<◌, ◌≡◌, refl, List, Bool, Option, some, none, true, Outcome, ok, ◌>>◌, arith, IfReturns,
  IfReturns-all, get_elem?, in_bounds, assert, leb, ltb, ◌==◌, length, set, ◌+◌, ◌>>=◌, Bool-cases,
  inl, inr, IfReturns->>=, max, ◌-◌,
}
use kvcache_raft.Proto.{LogEntry, AppendEntriesArgs, AppendEntriesReply}
use kvcache_raft.Raft.Types.{RaftState, get_last_log_index, term_at}
use kvcache_raft.Raft.Saving.{persist_state}
use kvcache_raft.Raft.Election.{step_down}
use kvcache_raft.Raft.Append.{
  PendingWrite, BeginAppend, replied, waiting, begin_append, finish_append, follow, match_prev,
  pending_writes, next_index_hint, accept, apply_writes,
}
use kvcache_raft.Raft.Replication.{
  handle_append_entries, record_match, retreat, advance_commit_index, advance_from,
}
use kvcache_raft.Raft.Terms.Defs.{KeepsOrder}

-- The fields that the rule is about are the same, as after most handlers.
abbrev pub SameVote : RaftState → RaftState → Type 0
SameVote s t =
    (t.id ≡ s.id)
    × (t.peers ≡ s.peers)
    × (t.current_term ≡ s.current_term)
    × (t.vote_for_id ≡ s.vote_for_id)
    × (t.identity ≡ s.identity)

pub KeepsOrder-same : {s t : RaftState} → SameVote s t → KeepsOrder s t
KeepsOrder-same h = record {
  votes = record {
    same_id = h.0;
    same_peers = h.1;
    term_grows = omega arith;
    vote_kept = λ e c v. ground arith;
  };
  leads = λ l. ground arith;
}

pub KeepsOrder-trans : {s t u : RaftState} → KeepsOrder s t → KeepsOrder t u → KeepsOrder s u
KeepsOrder-trans h k = record {
  votes = record {
    same_id = ground arith;
    same_peers = ground arith;
    term_grows = omega arith;
    vote_kept = λ e c v. k.votes.vote_kept (omega arith) c (h.votes.vote_kept (omega arith) c v);
  };
  leads = λ l. let (a, b) = k.leads l in let (c, d) = h.leads a in (c, omega arith);
}

pub persist_state-KeepsOrder : (s : RaftState) → KeepsOrder s (persist_state s)
unfolding persist_state
persist_state-KeepsOrder s = KeepsOrder-same (refl, refl, refl, refl, refl)

pub step_down-KeepsOrder :
    (term : ℕ) (s : RaftState) → s.current_term < term → KeepsOrder s (step_down term s)
unfolding step_down
step_down-KeepsOrder term s h = record {
  votes = record {
    same_id = refl;
    same_peers = refl;
    term_grows = omega arith;
    vote_kept = λ e c v. absurd (omega arith);
  };
  leads = λ l. cc;
}

follow-KeepsOrder : (now term : ℕ) (s : RaftState) → KeepsOrder s (follow now term s)
unfolding follow
follow-KeepsOrder now term s = record {
  votes = record {
    same_id = refl;
    same_peers = refl;
    term_grows = ground arith;
    vote_kept = λ e c v. ground arith;
  };
  leads = λ l. cc;
}

-- The state that the first part of `AppendEntries` leaves.
abbrev pub state_of : BeginAppend → RaftState
state_of (replied s reply) = s
state_of (waiting s writes) = s

abbrev pub Begins : RaftState → BeginAppend → Type 0
Begins s b = KeepsOrder s (state_of b)

match_prev-KeepsOrder :
    (request : AppendEntriesArgs) (s : RaftState) → IfReturns (Begins s) (match_prev request s)
unfolding match_prev
match_prev-KeepsOrder request s = IfReturns-all (Begins s) (term_at s request.prev_log_index) _ λ t.
    elim (Bool-cases (request.prev_log_term == t)) [
      | inl same ↦ rw same (
          IfReturns-all (Begins s) (pending_writes s (get_last_log_index s) request.entries) _
            λ w. KeepsOrder-same (refl, refl, refl, refl, refl))
      | inr other ↦ rw other (
          IfReturns-all (Begins s)
            (next_index_hint s t (request.prev_log_index - s.last_snapshot_index)) _
            λ h. persist_state-KeepsOrder s)
    ]

IfReturns-KeepsOrder :
    (s f : RaftState) (m : Outcome BeginAppend)
    → KeepsOrder s f
    → IfReturns (Begins f) m
    → IfReturns (Begins s) m
IfReturns-KeepsOrder s f (ok b) k h = KeepsOrder-trans k h
IfReturns-KeepsOrder s f (Outcome.fault x) k h = tt

pub begin_append-KeepsOrder :
    (now : ℕ) (request : AppendEntriesArgs) (s : RaftState)
    → IfReturns (Begins s) (begin_append now request s)
unfolding begin_append
begin_append-KeepsOrder now request s =
    let f = follow now request.term s in
    let k = follow-KeepsOrder now request.term s in
    let p = KeepsOrder-trans k (persist_state-KeepsOrder f) in
    let m = IfReturns-KeepsOrder s f _ k (match_prev-KeepsOrder request f) in
    elim (Bool-cases (ltb request.term s.current_term)) [
      | inl stale ↦ rw stale (KeepsOrder-same (refl, refl, refl, refl, refl))
      | inr fresh ↦ elim (Bool-cases (ltb (get_last_log_index f) request.prev_log_index)) [
        | inl ahead ↦ rw (fresh, ahead) p
        | inr within ↦ elim (Bool-cases (ltb request.prev_log_index s.last_snapshot_index)) [
          | inl below ↦ rw (fresh, within, below) p
          | inr above ↦ rw (fresh, within, above) m
        ]
      ]
    ]

accept-KeepsOrder :
    (request : AppendEntriesArgs) (logs : List LogEntry) (s : RaftState)
    → KeepsOrder s (accept request logs s)
unfolding accept
accept-KeepsOrder request logs s = KeepsOrder-same (refl, refl, refl, refl, refl)

saved-KeepsOrder :
    (request : AppendEntriesArgs) (s : RaftState) (logs : List LogEntry)
    → KeepsOrder s (persist_state (accept request logs s))
saved-KeepsOrder request s logs =
    KeepsOrder-trans (accept-KeepsOrder request logs s)
      (persist_state-KeepsOrder (accept request logs s))

accepted-KeepsOrder :
    (request : AppendEntriesArgs) (s : RaftState) (m : Outcome (List LogEntry))
    → IfReturns
        (λ (r : RaftState × AppendEntriesReply). KeepsOrder s r.0)
        (m >>= λ logs.
          let t = accept request logs s in
          assert (leb t.commit_index (get_last_log_index t))
          >> ok (
            persist_state t,
            record { term = t.current_term; success = true; update_next_index = none },
          ))
accepted-KeepsOrder request s (ok logs) = ground (arith, saved-KeepsOrder request s logs)
accepted-KeepsOrder request s (Outcome.fault x) = tt

pub finish_append-KeepsOrder :
    (request : AppendEntriesArgs) (writes : List PendingWrite) (stable : Bool) (s : RaftState)
    → IfReturns (λ r. KeepsOrder s r.0) (finish_append request writes stable s)
unfolding finish_append
finish_append-KeepsOrder request writes stable s = ground (
  arith,
  persist_state-KeepsOrder s,
  accepted-KeepsOrder request s (apply_writes s.last_snapshot_index s.logs writes),
)

record_match-KeepsOrder :
    (server : ℕ) (args : AppendEntriesArgs) (s : RaftState)
    → IfReturns (KeepsOrder s) (record_match server args s)
unfolding record_match
record_match-KeepsOrder server args s =
    IfReturns-all (KeepsOrder s) (in_bounds (get_elem? s.match_index server)) _ λ old.
      let new = max old (args.prev_log_index + length args.entries) in
      let t = record s {
        match_index = set s.match_index server new;
        next_index = set s.next_index server (new + 1);
      } in
      IfReturns-all (KeepsOrder s) (assert (leb (new + 1) (get_last_log_index t + 1))) _
        λ _. KeepsOrder-same (refl, refl, refl, refl, refl)

advance_commit_index-KeepsOrder :
    (s : RaftState) → IfReturns (KeepsOrder s) (advance_commit_index s)
unfolding advance_commit_index
advance_commit_index-KeepsOrder s =
    IfReturns-all (KeepsOrder s) (advance_from s _) _
      λ c. KeepsOrder-same (refl, refl, refl, refl, refl)

retreat-KeepsOrder :
    (server : ℕ) (hint : Option ℕ) (s : RaftState) → KeepsOrder s (retreat server hint s)
retreat-KeepsOrder server none s = KeepsOrder-same (refl, refl, refl, refl, refl)
retreat-KeepsOrder server (some h) s = KeepsOrder-same (refl, refl, refl, refl, refl)

pub handle_append_entries-KeepsOrder :
    (server : ℕ) (args : AppendEntriesArgs) (reply : AppendEntriesReply) (reached : Bool)
    (s : RaftState) (n : ℕ)
    → IfReturns (λ r. KeepsOrder s r.0) (handle_append_entries server args reply reached s n)
unfolding handle_append_entries
handle_append_entries-KeepsOrder server args reply reached s n = ground (
  arith,
  step_down-KeepsOrder reply.term s,
  retreat-KeepsOrder server reply.update_next_index s,
  KeepsOrder-same {s = s} {t = s} (refl, refl, refl, refl, refl),
  counted,
)
  where
    counted :
        IfReturns
          (λ (r : RaftState × ℕ). KeepsOrder s r.0)
          (record_match server args s >>= λ t. advance_commit_index t >>= λ u. ok (u, n + 1))
    counted =
        IfReturns->>= (KeepsOrder s) (λ (r : RaftState × ℕ). KeepsOrder s r.0) _ _
          (record_match-KeepsOrder server args s)
          λ t w.
            IfReturns->>= (KeepsOrder t) (λ (r : RaftState × ℕ). KeepsOrder s r.0) _ _
              (advance_commit_index-KeepsOrder t) λ u x. KeepsOrder-trans w x
