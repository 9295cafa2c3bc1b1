-- ===== src/Raft/Terms/Handlers.antt =====
-- The rule on terms and votes, handler by handler of src/raft/raft.cc.
use kvcache_raft.Common.{
  ℕ, ◌≡◌, refl, String, List, [], ◌∷◌, Bool, Outcome, ok, arith, IfReturns, IfReturns-all,
  get_elem?, in_bounds, assert, leb, ltb, ◌==◌, if◌then◌else◌, length, set, ◌+◌, Bool-cases, inl,
  inr, IfReturns->>=, ◌||◌, ◌-◌, subst,
}
use kvcache_raft.Proto.{RequestVoteArgs, InstallSnapshotRequest, InstallSnapshotResponse, ApplyMsg}
use kvcache_raft.Raft.Types.{RaftState, is_leader, get_last_log_index, log_at, get_prev_log_info}
use kvcache_raft.Raft.Saving.{persist_state}
use kvcache_raft.Raft.Election.{request_vote, decide_vote, step_down, other_peers}
use kvcache_raft.Raft.Replication.{
  do_heartbeat, heartbeat_to, heartbeat_all, Dispatch, entries_after,
}
use kvcache_raft.Raft.Snapshots.{
  leader_send_snapshot_handler, install_snapshot, snapshot_upto, catch_up, cut_prefix,
  take_snapshot, copy_entries,
}
use kvcache_raft.Raft.Commands.{
  start, on_log_stable, drop_unstable, take_committed, push_msgs, copy_logs,
}
use kvcache_raft.Raft.Terms.Defs.{
  KeepsOrder, LocalStep, append_refused, append_waits, append_ends, append_replied, beats, repeated,
  installs, snapshot_replied, compacts, starts, writes_end, takes, pushes, saves,
}
use kvcache_raft.Raft.Terms.Appends.{
  KeepsOrder-same, KeepsOrder-trans, persist_state-KeepsOrder, step_down-KeepsOrder,
  begin_append-KeepsOrder, finish_append-KeepsOrder, handle_append_entries-KeepsOrder, Begins,
}

decide_vote-KeepsOrder :
    (now : ℕ) (request : RequestVoteArgs) (s : RaftState)
    → KeepsOrder s (decide_vote now request s).0
unfolding decide_vote persist_state
decide_vote-KeepsOrder now request s = record {
  votes = record {
    same_id = ground arith;
    same_peers = ground arith;
    term_grows = ground arith;
    vote_kept = λ e c v. ground arith;
  };
  leads = λ l. ground arith;
}

pub request_vote-KeepsOrder :
    (now : ℕ) (request : RequestVoteArgs) (s : RaftState)
    → KeepsOrder s (request_vote now request s).0
unfolding request_vote
request_vote-KeepsOrder now request s =
    let d = step_down request.term s in
    elim (Bool-cases (ltb request.term s.current_term)) [
      | inl stale ↦ rw stale (KeepsOrder-same (refl, refl, refl, refl, refl))
      | inr fresh ↦ elim (Bool-cases (ltb s.current_term request.term)) [
        | inl later ↦
            rw (fresh, later)
              (KeepsOrder-trans
                (KeepsOrder-trans (step_down-KeepsOrder request.term s (ground arith))
                  (persist_state-KeepsOrder d))
                (decide_vote-KeepsOrder now request (persist_state d)))
        | inr same ↦ rw (fresh, same) (decide_vote-KeepsOrder now request s)
      ]
    ]

heartbeat_to-KeepsOrder :
    (i : ℕ) (s : RaftState) → IfReturns (λ r. KeepsOrder s r.0) (heartbeat_to i s)
unfolding heartbeat_to
heartbeat_to-KeepsOrder i s = IfReturns-all Kept (in_bounds (get_elem? s.next_index i)) _ λ next.
    IfReturns-all Kept (assert (leb 1 next)) _ λ _.
      elim (Bool-cases (leb next s.last_snapshot_index)) [
        | inl low ↦ rw low (KeepsOrder-same (refl, refl, refl, refl, refl))
        | inr high ↦ rw high (
            IfReturns-all Kept (get_prev_log_info s i) _ λ prev.
              let t =
                if ltb s.stable_log_index prev.0
                then record s { next_index = set s.next_index i (s.stable_log_index + 1) }
                else s in
              let w : KeepsOrder s t = KeepsOrder-same (ground arith) in
              IfReturns-all Kept
                (if ltb s.stable_log_index prev.0 then get_prev_log_info t i else ok prev) _
                λ start. IfReturns-all Kept (entries_after t start.0) _ λ entries.
                  IfReturns-all Kept (assert (prev.0 + length entries == s.stable_log_index)) _
                    λ _. w)
      ]
  where
    Kept : RaftState × Dispatch → Type 0
    Kept r = KeepsOrder s r.0

heartbeat_all-KeepsOrder :
    (is : List ℕ) (s : RaftState) → IfReturns (λ r. KeepsOrder s r.0) (heartbeat_all is s)
unfolding heartbeat_all
heartbeat_all-KeepsOrder [] s = KeepsOrder-same (refl, refl, refl, refl, refl)
heartbeat_all-KeepsOrder (i ∷ is) s =
    IfReturns->>= (λ (r : RaftState × Dispatch). KeepsOrder s r.0)
      (λ (r : RaftState × List Dispatch). KeepsOrder s r.0) _ _ (heartbeat_to-KeepsOrder i s)
      λ h w.
        IfReturns->>= (λ (r : RaftState × List Dispatch). KeepsOrder h.0 r.0)
          (λ (r : RaftState × List Dispatch). KeepsOrder s r.0) _ _
          (heartbeat_all-KeepsOrder is h.0) λ l x. KeepsOrder-trans w x

do_heartbeat-KeepsOrder :
    (now : ℕ) (s : RaftState) → IfReturns (λ r. KeepsOrder s r.0) (do_heartbeat now s)
unfolding do_heartbeat
do_heartbeat-KeepsOrder now s = elim (Bool-cases (is_leader s.identity)) [
  | inr no_leader ↦ rw no_leader (KeepsOrder-same (refl, refl, refl, refl, refl))
  | inl leads ↦ rw leads (
      IfReturns->>= (λ (r : RaftState × List Dispatch). KeepsOrder s r.0)
        (λ (r : RaftState × List Dispatch). KeepsOrder s r.0) _ _
        (heartbeat_all-KeepsOrder (other_peers s.id 0 s.peers) s)
        λ r w. KeepsOrder-trans w (KeepsOrder-same (refl, refl, refl, refl, refl)))
]

catch_up-KeepsOrder : (now term : ℕ) (s : RaftState) → KeepsOrder s (catch_up now term s)
unfolding catch_up persist_state step_down
catch_up-KeepsOrder now term s = record {
  votes = record {
    same_id = ground arith;
    same_peers = ground arith;
    term_grows = ground arith;
    vote_kept = λ e c v. ground arith;
  };
  leads = λ l. cc;
}

install_snapshot-KeepsOrder :
    (now : ℕ) (args : InstallSnapshotRequest) (s : RaftState)
    → IfReturns (λ r. KeepsOrder s r.0) (install_snapshot now args s)
unfolding install_snapshot take_snapshot persist_state
install_snapshot-KeepsOrder now args s =
    let f = catch_up now args.term s in
    let k = catch_up-KeepsOrder now args.term s in
    elim (Bool-cases (ltb args.term s.current_term)) [
      | inl stale ↦ rw stale (KeepsOrder-same (refl, refl, refl, refl, refl))
      | inr fresh ↦ elim (Bool-cases (leb args.last_snapshot_include_index f.last_snapshot_index)) [
        | inl old ↦ rw (fresh, old) k
        | inr new ↦
            rw (fresh, new)
              (IfReturns-all (λ (r : RaftState × InstallSnapshotResponse). KeepsOrder s r.0)
                (cut_prefix f args.last_snapshot_include_index) _
                λ logs. KeepsOrder-trans k (KeepsOrder-same (refl, refl, refl, refl, refl)))
      ]
    ]

leader_send_snapshot_handler-KeepsOrder :
    (now : ℕ) (reached : Bool) (args : InstallSnapshotRequest) (reply : InstallSnapshotResponse)
    (i : ℕ) (s : RaftState)
    → KeepsOrder s (leader_send_snapshot_handler now reached args reply i s).0
unfolding leader_send_snapshot_handler persist_state step_down
leader_send_snapshot_handler-KeepsOrder now reached args reply i s = record {
  votes = record {
    same_id = ground arith;
    same_peers = ground arith;
    term_grows = ground arith;
    vote_kept = λ e c v. ground arith;
  };
  leads = λ l. ground arith;
}

snapshot_upto-KeepsOrder :
    (index : ℕ) (text : String) (s : RaftState)
    → IfReturns (KeepsOrder s) (snapshot_upto index text s)
unfolding snapshot_upto persist_state
snapshot_upto-KeepsOrder index text s =
    elim (Bool-cases (leb index s.last_snapshot_index || ltb s.commit_index index)) [
      | inl refused ↦ rw refused (KeepsOrder-same (refl, refl, refl, refl, refl))
      | inr taken ↦ rw taken (
          IfReturns-all (KeepsOrder s) (log_at s index) _ λ entry.
            IfReturns-all (KeepsOrder s) (copy_entries s (index + 1) (get_last_log_index s - index))
              _
              λ rest.
                IfReturns-all (KeepsOrder s) (assert (length rest + index == get_last_log_index s))
                  _ λ _. KeepsOrder-same (refl, refl, refl, refl, refl))
    ]

start-KeepsOrder : (command : String) (s : RaftState) → KeepsOrder s (start command s).0
unfolding start persist_state
start-KeepsOrder command s = KeepsOrder-same (ground arith)

on_log_stable-KeepsOrder :
    (written : Bool) (index : ℕ) (s : RaftState) → KeepsOrder s (on_log_stable written index s)
unfolding on_log_stable drop_unstable persist_state
on_log_stable-KeepsOrder written index s = KeepsOrder-same (ground arith)

take_committed-KeepsOrder : (s : RaftState) → IfReturns (λ r. KeepsOrder s r.0) (take_committed s)
unfolding take_committed
take_committed-KeepsOrder s = elim (Bool-cases (ltb s.last_applied s.commit_index)) [
  | inl behind ↦ rw behind (
      IfReturns-all (λ (r : RaftState × List ApplyMsg). KeepsOrder s r.0) (copy_logs s _ _) _
        λ msgs. KeepsOrder-same (refl, refl, refl, refl, refl))
  | inr level ↦ rw level (KeepsOrder-same (refl, refl, refl, refl, refl))
]

push_msgs-KeepsOrder : (msgs : List ApplyMsg) (s : RaftState) → KeepsOrder s (push_msgs msgs s)
unfolding push_msgs
push_msgs-KeepsOrder msgs s = KeepsOrder-same (refl, refl, refl, refl, refl)

-- What holds of every result, of the result at hand.
abbrev here {ℓ} :
    {A : Type ℓ} (P : A → Type 0) (m : Outcome A) {a : A} → IfReturns P m → m ≡ ok a → P a
here P m h e = subst (IfReturns P) e h

-- No handler but the start of an election and the count of a vote lets the term fall, changes a
-- vote within its term, changes the node's id or the number of peers, or makes a leader; and a
-- node that leads after it has led before, in the same term.
pub LocalStep-KeepsOrder : {s t : RaftState} → LocalStep s t → KeepsOrder s t
LocalStep-KeepsOrder {s} (append_refused now q e) =
    here (Begins s) _ (begin_append-KeepsOrder now q s) e
LocalStep-KeepsOrder {s} (append_waits now q e) =
    here (Begins s) _ (begin_append-KeepsOrder now q s) e
LocalStep-KeepsOrder {s} (append_ends q ws b e) =
    here (λ r. KeepsOrder s r.0) _ (finish_append-KeepsOrder q ws b s) e
LocalStep-KeepsOrder {s} (append_replied i q r b n e) =
    here (λ r. KeepsOrder s r.0) _ (handle_append_entries-KeepsOrder i q r b s n) e
LocalStep-KeepsOrder {s} (beats now e) =
    here (λ r. KeepsOrder s r.0) _ (do_heartbeat-KeepsOrder now s) e
LocalStep-KeepsOrder {s} (repeated now q) = request_vote-KeepsOrder now q s
LocalStep-KeepsOrder {s} (installs now q e) =
    here (λ r. KeepsOrder s r.0) _ (install_snapshot-KeepsOrder now q s) e
LocalStep-KeepsOrder {s} (snapshot_replied now b q r i) =
    leader_send_snapshot_handler-KeepsOrder now b q r i s
LocalStep-KeepsOrder {s} (compacts i x e) = here (KeepsOrder s) _ (snapshot_upto-KeepsOrder i x s) e
LocalStep-KeepsOrder {s} (starts c) = start-KeepsOrder c s
LocalStep-KeepsOrder {s} (writes_end b i) = on_log_stable-KeepsOrder b i s
LocalStep-KeepsOrder {s} (takes e) = here (λ r. KeepsOrder s r.0) _ (take_committed-KeepsOrder s) e
LocalStep-KeepsOrder {s} (pushes m) = push_msgs-KeepsOrder m s
LocalStep-KeepsOrder {s} saves = persist_state-KeepsOrder s
