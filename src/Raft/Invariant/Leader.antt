-- ===== src/Raft/Invariant/Leader.antt =====
-- `handleAppendEntries` and `doHeartBeat` of src/raft/raft.cc and the invariant.
use kvcache_raft.Common.{
  ℕ, ◌+◌, List, [], ◌∷◌, Bool, some, none, Option, in_bounds, assert, max, arith, length,
  length-set, set, get_elem?, ltb, leb, ◌==◌, IfReturns, Returns-IfReturns, IfReturns->>=,
  IfReturns-all, ok, Bool-cases, inl, inr, ◌>>=◌, if◌then◌else◌,
}
use kvcache_raft.Proto.{AppendEntriesArgs, AppendEntriesReply}
use kvcache_raft.Raft.Types.{RaftState, get_prev_log_info, is_leader}
use kvcache_raft.Raft.Election.{other_peers}
use kvcache_raft.Raft.Replication.{
  record_match, advance_commit_index, handle_append_entries, retreat, Dispatch, heartbeat_to,
  heartbeat_all, do_heartbeat, entries_after,
}
use kvcache_raft.Raft.Invariant.WellFormed.{IsWellFormed}
use kvcache_raft.Raft.Invariant.Votes.{step_down-IsWellFormed}
use kvcache_raft.Raft.Invariant.Commit.{advance_commit_index-IsWellFormed}

record_match-IsWellFormed :
    (server : ℕ) (args : AppendEntriesArgs) (s : RaftState)
    → IsWellFormed s
    → IfReturns IsWellFormed (record_match server args s)
unfolding record_match
record_match-IsWellFormed server args s v =
    IfReturns-all IsWellFormed (in_bounds (get_elem? s.match_index server)) _ λ old.
      let new = max old (args.prev_log_index + length args.entries) in
      let m = length-set s.match_index server new in
      let n = length-set s.next_index server (new + 1) in ground arith

retreat-IsWellFormed :
    (server : ℕ) (hint : Option ℕ) (s : RaftState)
    → IsWellFormed s
    → IsWellFormed (retreat server hint s)
retreat-IsWellFormed server none s v = v
retreat-IsWellFormed server (some h) s v = ground (arith, length-set s.next_index server h)

pub handle_append_entries-IsWellFormed :
    (server : ℕ) (args : AppendEntriesArgs) (reply : AppendEntriesReply) (reached : Bool)
    (s : RaftState) (n : ℕ)
    → IsWellFormed s
    → IfReturns (λ r. IsWellFormed r.0) (handle_append_entries server args reply reached s n)
unfolding handle_append_entries
handle_append_entries-IsWellFormed server args reply reached s n v = ground (
  arith,
  step_down-IsWellFormed reply.term v,
  retreat-IsWellFormed server reply.update_next_index s v,
  counted,
)
  where
    counted :
        IfReturns
          (λ (r : RaftState × ℕ). IsWellFormed r.0)
          (record_match server args s >>= λ t. advance_commit_index t >>= λ u. ok (u, n + 1))
    counted =
        IfReturns->>= IsWellFormed (λ (r : RaftState × ℕ). IsWellFormed r.0) _ _
          (record_match-IsWellFormed server args s v)
          λ t w.
            IfReturns->>= IsWellFormed (λ (r : RaftState × ℕ). IsWellFormed r.0) _ _
              (Returns-IfReturns IsWellFormed _ (advance_commit_index-IsWellFormed t w)) λ u x. x

heartbeat_to-IsWellFormed :
    (i : ℕ) (s : RaftState) → IsWellFormed s → IfReturns (λ r. IsWellFormed r.0) (heartbeat_to i s)
unfolding heartbeat_to
heartbeat_to-IsWellFormed i s v =
    IfReturns-all Kept (in_bounds (get_elem? s.next_index i)) _ λ next.
      IfReturns-all Kept (assert (leb 1 next)) _ λ _.
        elim (Bool-cases (leb next s.last_snapshot_index)) [
          | inl low ↦ rw low v
          | inr high ↦ rw high (
              IfReturns-all Kept (get_prev_log_info s i) _ λ prev.
                let t =
                  if ltb s.stable_log_index prev.0
                  then record s { next_index = set s.next_index i (s.stable_log_index + 1) }
                  else s in
                let w : IsWellFormed t =
                  ground (arith, length-set s.next_index i (s.stable_log_index + 1)) in
                IfReturns-all Kept
                  (if ltb s.stable_log_index prev.0 then get_prev_log_info t i else ok prev) _
                  λ start. IfReturns-all Kept (entries_after t start.0) _ λ entries.
                    IfReturns-all Kept (assert (prev.0 + length entries == s.stable_log_index)) _
                      λ _. w)
        ]
  where
    Kept : RaftState × Dispatch → Type 0
    Kept r = IsWellFormed r.0

heartbeat_all-IsWellFormed :
    (is : List ℕ) (s : RaftState)
    → IsWellFormed s
    → IfReturns (λ r. IsWellFormed r.0) (heartbeat_all is s)
unfolding heartbeat_all
heartbeat_all-IsWellFormed [] s v = v
heartbeat_all-IsWellFormed (i ∷ is) s v =
    IfReturns->>= (λ (r : RaftState × Dispatch). IsWellFormed r.0)
      (λ (r : RaftState × List Dispatch). IsWellFormed r.0) _ _ (heartbeat_to-IsWellFormed i s v)
      λ h w.
        IfReturns->>= (λ (r : RaftState × List Dispatch). IsWellFormed r.0)
          (λ (r : RaftState × List Dispatch). IsWellFormed r.0) _ _
          (heartbeat_all-IsWellFormed is h.0 w) λ l x. x

pub do_heartbeat-IsWellFormed :
    (now : ℕ) (s : RaftState)
    → IsWellFormed s
    → IfReturns (λ r. IsWellFormed r.0) (do_heartbeat now s)
unfolding do_heartbeat
do_heartbeat-IsWellFormed now s v = elim (Bool-cases (is_leader s.identity)) [
  | inr no_leader ↦ rw no_leader v
  | inl leads ↦ rw leads (
      IfReturns->>= (λ (r : RaftState × List Dispatch). IsWellFormed r.0)
        (λ (r : RaftState × List Dispatch). IsWellFormed r.0) _ _
        (heartbeat_all-IsWellFormed (other_peers s.id 0 s.peers) s v) λ r w. ground (arith, w))
]
