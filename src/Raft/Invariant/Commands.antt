-- ===== src/Raft/Invariant/Commands.antt =====
-- `Start`, `onLogStable` and `applierTicker` of src/raft/raft.cc and the invariant.
use kvcache_raft.Common.{
  ℕ, zero, suc, ◌+◌, ◌-◌, ◌≤◌, ◌<◌, ◌≡◌, refl, List, [], ◌∷◌, Bool, String, some, arith, length,
  length-take, length-append, get_elem?, get_elem?-lt, drop-cons, map, ltb, Bool-cases, ok, inl,
  inr,
}
use kvcache_raft.Proto.{LogEntry, ApplyMsg}
use kvcache_raft.Raft.Types.{RaftState}
use kvcache_raft.Raft.Saving.{persist_state}
use kvcache_raft.Raft.Commands.{
  new_entry, start, command_msg, holds_index, drop_unstable, on_log_stable, copy_logs,
  take_committed, push_msgs,
}
use kvcache_raft.Raft.Invariant.Contiguous.{Contiguous, append-Contiguous, take-Contiguous}
use kvcache_raft.Raft.Invariant.WellFormed.{
  IsWellFormed, entries_from, get_last_log_index-Contiguous, log_at-Contiguous,
}

pub start-IsWellFormed :
    {s : RaftState} (command : String) → IsWellFormed s → IsWellFormed (start command s).0
unfolding start new_entry persist_state
start-IsWellFormed {s} command v =
    let e = new_entry command s in
    ground (
      arith,
      get_last_log_index-Contiguous s v.contiguous,
      length-append s.logs (e ∷ []),
      append-Contiguous s.last_snapshot_index s.logs e v.contiguous,
    )

drop_unstable-IsWellFormed :
    {s : RaftState} (index : ℕ) → IsWellFormed s → IsWellFormed (drop_unstable index s)
unfolding drop_unstable holds_index
drop_unstable-IsWellFormed {s} index v =
    let i = index - s.last_snapshot_index - 1 in
    ground (
      arith,
      take-Contiguous s.last_snapshot_index i s.logs v.contiguous,
      length-take i s.logs,
      λ (e : LogEntry) (h : get_elem? s.logs i ≡ some e). get_elem?-lt s.logs i h,
    )

pub on_log_stable-IsWellFormed :
    {s : RaftState} (written : Bool) (index : ℕ)
    → IsWellFormed s
    → IsWellFormed (on_log_stable written index s)
unfolding on_log_stable persist_state
on_log_stable-IsWellFormed written index v = ground (arith, drop_unstable-IsWellFormed index v)

-- The message that hands an entry to the server.
abbrev pub msg_of : LogEntry → ApplyMsg
msg_of e = command_msg e.command e.log_index

pub copy_logs-entries_from :
    (s : RaftState) (index count : ℕ)
    → Contiguous s.last_snapshot_index s.logs
    → s.last_snapshot_index < index
    → index + count ≤ s.last_snapshot_index + length s.logs + 1
    → copy_logs s index count ≡ ok (map msg_of (entries_from s index count))
unfolding copy_logs
copy_logs-entries_from s index zero c lo hi = refl
copy_logs-entries_from s index (suc count) c lo hi =
    let (e, p, q, r) = log_at-Contiguous s index c lo (omega arith) in
    let ih = copy_logs-entries_from s (index + 1) count c (omega arith) (omega arith) in
    let d = drop-cons s.logs (index - s.last_snapshot_index - 1) r in
    let n : index + 1 - s.last_snapshot_index - 1 ≡ suc (index - s.last_snapshot_index - 1) =
      omega arith in
    rw (p, ih, d, n, q) refl

-- On a well-formed state a round of the applier returns: it hands over the commands of the
-- entries above `m_lastApplied` up to the commit index, in the order of the log and under their
-- indexes, and changes nothing but `m_lastApplied`, which is the commit index then.
pub take_committed-lem :
    (s : RaftState)
    → IsWellFormed s
    → take_committed s
      ≡ ok (
        record s { last_applied = s.commit_index },
        map msg_of (entries_from s (s.last_applied + 1) (s.commit_index - s.last_applied)),
      )
unfolding take_committed
take_committed-lem s v = elim (Bool-cases (ltb s.last_applied s.commit_index)) [
  | inl behind ↦
      rw
        (
          behind,
          copy_logs-entries_from s (s.last_applied + 1) (s.commit_index - s.last_applied)
              v.contiguous (omega (arith, v.snapshot_le_applied))
              (ground (arith, v.commit_le_last, v.applied_le_commit)),
        )
        refl
  | inr level ↦
      let e : s.last_applied ≡ s.commit_index = ground (arith, v.applied_le_commit) in
      let n : s.commit_index - s.last_applied ≡ 0 = omega arith in rw level (ground arith)
]

pub push_msgs-IsWellFormed :
    {s : RaftState} (msgs : List ApplyMsg) → IsWellFormed s → IsWellFormed (push_msgs msgs s)
unfolding push_msgs
push_msgs-IsWellFormed msgs v = ground arith
