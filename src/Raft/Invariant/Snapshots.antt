-- ===== src/Raft/Invariant/Snapshots.antt =====
-- `InstallSnapshot` and `leaderSendSnapShotHandler` of src/raft/raft.cc and the invariant.
use kvcache_raft.Common.{
  ℕ, ◌+◌, ◌-◌, ◌≤◌, ◌<◌, List, Bool, arith, length, length-drop, length-set, ltb, leb, Returns,
  Returns-ok, Bool-cases, inl, inr,
}
use kvcache_raft.Proto.{LogEntry, InstallSnapshotRequest, InstallSnapshotResponse}
use kvcache_raft.Raft.Types.{RaftState}
use kvcache_raft.Raft.Saving.{persist_state}
use kvcache_raft.Raft.Election.{step_down}
use kvcache_raft.Raft.Snapshots.{
  leader_send_snapshot_handler, cut_prefix, take_snapshot, catch_up, install_snapshot,
}
use kvcache_raft.Raft.Invariant.Contiguous.{Contiguous, drop-Contiguous}
use kvcache_raft.Raft.Invariant.WellFormed.{IsWellFormed, get_last_log_index-Contiguous}
use kvcache_raft.Raft.Invariant.Votes.{persist_state-IsWellFormed}

pub leader_send_snapshot_handler-IsWellFormed :
    {s : RaftState} (now : ℕ) (reached : Bool) (args : InstallSnapshotRequest)
    (reply : InstallSnapshotResponse) (i : ℕ)
    → IsWellFormed s
    → IsWellFormed (leader_send_snapshot_handler now reached args reply i s).0
unfolding leader_send_snapshot_handler step_down persist_state
leader_send_snapshot_handler-IsWellFormed {s} now reached args reply i v = ground (
  arith,
  length-set s.match_index i args.last_snapshot_include_index,
  length-set s.next_index i (args.last_snapshot_include_index + 1),
)

catch_up-IsWellFormed :
    {s : RaftState} (now term : ℕ) → IsWellFormed s → IsWellFormed (catch_up now term s)
unfolding catch_up step_down persist_state
catch_up-IsWellFormed now term v = ground arith

-- What is left of the log continues the new snapshot.
abbrev pub Continues : RaftState → ℕ → List LogEntry → Type 0
Continues s index logs =
    Contiguous index logs × (s.last_snapshot_index + length s.logs ≤ index + length logs)

pub cut_prefix-Continues :
    (s : RaftState) (index : ℕ)
    → Contiguous s.last_snapshot_index s.logs
    → s.last_snapshot_index < index
    → Returns (Continues s index) (cut_prefix s index)
unfolding cut_prefix
cut_prefix-Continues s index c h = ground (
  arith,
  get_last_log_index-Contiguous s c,
  drop-Contiguous (index - s.last_snapshot_index) s.last_snapshot_index index s.logs,
  length-drop (index - s.last_snapshot_index) s.logs,
)

take_snapshot-IsWellFormed :
    (args : InstallSnapshotRequest) (logs : List LogEntry) (s : RaftState)
    → IsWellFormed s
    → Contiguous args.last_snapshot_include_index logs
    → s.last_snapshot_index + length s.logs ≤ args.last_snapshot_include_index + length logs
    → IsWellFormed (take_snapshot args logs s)
unfolding take_snapshot
take_snapshot-IsWellFormed args logs s v c h = ground arith

-- On a well-formed state `InstallSnapshot` returns on any request, with a well-formed state: the
-- log that it keeps continues the new snapshot, and nothing is erased out of bounds.
pub install_snapshot-IsWellFormed :
    (now : ℕ) (args : InstallSnapshotRequest) (s : RaftState)
    → IsWellFormed s
    → Returns (λ r. IsWellFormed r.0) (install_snapshot now args s)
unfolding install_snapshot
install_snapshot-IsWellFormed now args s v =
    let f = catch_up now args.term s in
    let w = catch_up-IsWellFormed {s = s} now args.term v in
    elim (Bool-cases (ltb args.term s.current_term)) [
      | inl stale ↦ rw stale v
      | inr _ ↦ elim (Bool-cases (leb args.last_snapshot_include_index f.last_snapshot_index)) [
        | inl old ↦ ground (arith, w)
        | inr new ↦
            let (logs, e, k) = Returns-ok (Continues f args.last_snapshot_include_index) _ (
              cut_prefix-Continues f args.last_snapshot_include_index w.contiguous
                (ground arith)) in
            let t = persist_state-IsWellFormed (take_snapshot-IsWellFormed args logs f w k.0 k.1) in
            ground arith
      ]
    ]
