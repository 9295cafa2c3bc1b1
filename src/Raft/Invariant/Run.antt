-- ===== src/Raft/Invariant/Run.antt =====
-- A node of src/raft/raft.cc through sequences of handler calls.
use kvcache_raft.Common.{
  ℕ, String, ◌≡◌, subst, Bool, Outcome, ok, Returns, ReturnsOrExits, IfReturns, inl, inr,
  Bool-cases, leb, ltb, ◌||◌, arith, Returns-mono,
}
use kvcache_raft.Proto.{RequestVoteArgs, RequestVoteReply}
use kvcache_raft.Raft.Types.{RaftState}
use kvcache_raft.Raft.Election.{do_election, handle_request_vote_response}
use kvcache_raft.Raft.Append.{BeginAppend}
use kvcache_raft.Raft.Commands.{take_committed}
use kvcache_raft.Raft.Snapshots.{snapshot_upto}
use kvcache_raft.Raft.Terms.{LocalStep}
use kvcache_raft.Raft.Terms.Defs.{
  append_refused, append_waits, append_ends, append_replied, beats, repeated, installs,
  snapshot_replied, compacts, starts, writes_end, takes, pushes, saves,
}
use kvcache_raft.Raft.Invariant.WellFormed.{IsWellFormed}
use kvcache_raft.Raft.Invariant.Votes.{
  persist_state-IsWellFormed, do_election-IsWellFormed, request_vote-IsWellFormed,
  handle_request_vote_response-IsWellFormed,
}
use kvcache_raft.Raft.Invariant.Appends.{BeginIsWellFormed, begin_append-IsWellFormed}
use kvcache_raft.Raft.Invariant.Writes.{finish_append-IsWellFormed}
use kvcache_raft.Raft.Invariant.Snapshots.{
  leader_send_snapshot_handler-IsWellFormed, install_snapshot-IsWellFormed,
}
use kvcache_raft.Raft.Invariant.Compaction.{IsCutAt, snapshot_upto-IsCutAt, snapshot_upto_refused}
use kvcache_raft.Raft.Invariant.Commands.{
  start-IsWellFormed, on_log_stable-IsWellFormed, push_msgs-IsWellFormed, take_committed-lem,
}
use kvcache_raft.Raft.Invariant.Leader.{
  handle_append_entries-IsWellFormed, do_heartbeat-IsWellFormed,
}

-- A handler call: a local step, the start of an election, or a reply to a vote request.
pub data NodeStep (s : RaftState) : RaftState → Type 0 where
  local : {t : RaftState} → LocalStep s t → NodeStep s t
  elects : (now : ℕ) → NodeStep s (do_election now s).0
  counts :
      (args : RequestVoteArgs) (reply : RequestVoteReply) (reached : Bool) (votes : ℕ)
      → NodeStep s (handle_request_vote_response args reply reached s votes).0

pub data Run (s : RaftState) : RaftState → Type 0 where
  here : Run s s
  next : {t u : RaftState} → Run s t → NodeStep t u → Run s u

ReturnsOrExits-at :
    (m : Outcome BeginAppend) {b : BeginAppend}
    → ReturnsOrExits BeginIsWellFormed m
    → m ≡ ok b
    → BeginIsWellFormed b
ReturnsOrExits-at m h e = subst (ReturnsOrExits BeginIsWellFormed) e h

Returns-at {ℓ} :
    {A : Type ℓ} (P : A → Type 0) (m : Outcome A) {a : A} → Returns P m → m ≡ ok a → P a
Returns-at P m h e = subst (Returns P) e h

IfReturns-at {ℓ} :
    {A : Type ℓ} (P : A → Type 0) (m : Outcome A) {a : A} → IfReturns P m → m ≡ ok a → P a
IfReturns-at P m h e = subst (IfReturns P) e h

snapshot_upto-IsWellFormed :
    (index : ℕ) (text : String) (s : RaftState)
    → IsWellFormed s
    → Returns IsWellFormed (snapshot_upto index text s)
snapshot_upto-IsWellFormed index text s v =
    elim (Bool-cases (leb index s.last_snapshot_index || ltb s.commit_index index)) [
      | inl refused ↦ rw (snapshot_upto_refused index text s (ground arith)) v
      | inr taken ↦
          let (e, _, cut) = snapshot_upto-IsCutAt index text s v (ground arith) (ground arith) in
          Returns-mono (IsCutAt index e.log_term s) IsWellFormed _ cut (λ u c. c.well_formed)
    ]

take_committed-IsWellFormed :
    (s : RaftState) → IsWellFormed s → Returns (λ r. IsWellFormed r.0) (take_committed s)
take_committed-IsWellFormed s v = rw (take_committed-lem s v) (
    ground (
      arith, v.contiguous, v.snapshot_le_applied, v.applied_le_commit, v.commit_le_last,
      v.next_size, v.match_size,
    ))

LocalStep-IsWellFormed : {s t : RaftState} → LocalStep s t → IsWellFormed s → IsWellFormed t
LocalStep-IsWellFormed {s} (append_refused now q e) v =
    ReturnsOrExits-at _ (begin_append-IsWellFormed now q s v) e
LocalStep-IsWellFormed {s} (append_waits now q e) v =
    (ReturnsOrExits-at _ (begin_append-IsWellFormed now q s v) e).0
LocalStep-IsWellFormed {s} (append_ends q ws b e) v =
    Returns-at (λ r. IsWellFormed r.0) _ (finish_append-IsWellFormed q ws b s v) e
LocalStep-IsWellFormed {s} (append_replied i q r b n e) v =
    IfReturns-at (λ r. IsWellFormed r.0) _ (handle_append_entries-IsWellFormed i q r b s n v) e
LocalStep-IsWellFormed {s} (beats now e) v =
    IfReturns-at (λ r. IsWellFormed r.0) _ (do_heartbeat-IsWellFormed now s v) e
LocalStep-IsWellFormed (repeated now q) v = request_vote-IsWellFormed now q v
LocalStep-IsWellFormed {s} (installs now q e) v =
    Returns-at (λ r. IsWellFormed r.0) _ (install_snapshot-IsWellFormed now q s v) e
LocalStep-IsWellFormed (snapshot_replied now b q r i) v =
    leader_send_snapshot_handler-IsWellFormed now b q r i v
LocalStep-IsWellFormed {s} (compacts i x e) v =
    Returns-at IsWellFormed _ (snapshot_upto-IsWellFormed i x s v) e
LocalStep-IsWellFormed (starts c) v = start-IsWellFormed c v
LocalStep-IsWellFormed (writes_end b i) v = on_log_stable-IsWellFormed b i v
LocalStep-IsWellFormed {s} (takes e) v =
    Returns-at (λ r. IsWellFormed r.0) _ (take_committed-IsWellFormed s v) e
LocalStep-IsWellFormed (pushes m) v = push_msgs-IsWellFormed m v
LocalStep-IsWellFormed saves v = persist_state-IsWellFormed v

NodeStep-IsWellFormed : {s t : RaftState} → NodeStep s t → IsWellFormed s → IsWellFormed t
NodeStep-IsWellFormed (local st) v = LocalStep-IsWellFormed st v
NodeStep-IsWellFormed (elects now) v = do_election-IsWellFormed now v
NodeStep-IsWellFormed (counts q r b n) v = handle_request_vote_response-IsWellFormed q r b n v

-- Whatever handlers of a node run on a well-formed state and return, in whatever order and on
-- whatever messages, the state stays well formed: the log continues the snapshot without a gap,
-- and snapshot index <= last applied <= commit index <= last index.
pub Run-IsWellFormed : {s t : RaftState} → IsWellFormed s → Run s t → IsWellFormed t
Run-IsWellFormed v here = v
Run-IsWellFormed v (next r st) = NodeStep-IsWellFormed st (Run-IsWellFormed v r)
