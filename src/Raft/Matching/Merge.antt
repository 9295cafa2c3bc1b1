-- ===== src/Raft/Matching/Merge.antt =====
-- The entries that `AppendEntries` (src/raft/raft.cc) has planned writes for, one by one.
use kvcache_raft.Common.{
  ℕ, zero, suc, ◌+◌, ◌-◌, ◌≤◌, ◌<◌, ◌≡◌, ◌≢◌, refl, sym, ◌∙◌, subst, List, [], ◌∷◌, ◌++◌, false,
  some, max, arith, length, length-append, length-set, get_elem?, get_elem?-lt, get_elem?-set_self,
  get_elem?-set_ne, set, ltb, leb, ◌==◌, str_eq, str_eq_iff, ok, inl, inr, Bool-cases, dec_lt,
  get_elem?-append_old, get_elem?-append_new, get_elem?-none,
}
use kvcache_raft.Proto.{LogEntry}
use kvcache_raft.Raft.Types.{RaftState}
use kvcache_raft.Raft.Append.{PendingWrite, append_write, overwrite, compare_entry, pending_write}
use kvcache_raft.Raft.Invariant.Contiguous.{Contiguous}
use kvcache_raft.Raft.Invariant.WellFormed.{log_at-Contiguous}

-- The same command of the same term.
pub record SameEntry (x e : LogEntry) : Type 0 where
  pub same_term : x.log_term ≡ e.log_term
  pub same_command : x.command ≡ e.command

-- What one entry at offset `j` leads to.
pub data Planned (s : RaftState) (j : ℕ) (e : LogEntry) (ws : List PendingWrite) : Type 0 where
  appends : length s.logs ≤ j → ws ≡ append_write e ∷ [] → Planned s j e ws
  agrees : (x : LogEntry) → get_elem? s.logs j ≡ some x → SameEntry x e → ws ≡ [] → Planned s j e ws
  replaces :
      (x : LogEntry)
      → get_elem? s.logs j ≡ some x
      → x.log_index ≡ e.log_index
      → ws ≡ overwrite j e ∷ []
      → Planned s j e ws

compare_entry-Planned :
    (s : RaftState) (j : ℕ) (x e : LogEntry) (ws : List PendingWrite)
    → get_elem? s.logs j ≡ some x
    → x.log_index ≡ e.log_index
    → compare_entry j x e ≡ ok ws
    → Planned s j e ws
unfolding compare_entry
compare_entry-Planned s j x e ws at same h = elim (Bool-cases (x.log_term == e.log_term)) [
  | inr other ↦ replaces x at same (ground arith)
  | inl own ↦ elim (Bool-cases (str_eq x.command e.command)) [
    | inl c ↦
        agrees x at
          (record { same_term = ground arith; same_command = (str_eq_iff x.command e.command).0 c })
          (ground arith)
    | inr d ↦ absurd (ground arith)
  ]
]

pub pending_write-Planned :
    (s : RaftState) (j : ℕ) (e : LogEntry) (ws : List PendingWrite)
    → Contiguous s.last_snapshot_index s.logs
    → e.log_index ≡ s.last_snapshot_index + j + 1
    → pending_write s (s.last_snapshot_index + length s.logs) e ≡ ok ws
    → Planned s j e ws
unfolding pending_write
pending_write-Planned s j e ws c at h =
    let above : leb e.log_index s.last_snapshot_index ≡ false = ground arith in
    elim (Bool-cases (ltb (s.last_snapshot_index + length s.logs) e.log_index)) [
      | inl new ↦ appends (ground arith) (ground arith)
      | inr old ↦
          let (x, p, q, r) = log_at-Contiguous s e.log_index c (omega arith) (ground arith) in
          let o : e.log_index - s.last_snapshot_index - 1 ≡ j = omega arith in
          let r' : get_elem? s.logs j ≡ some x = subst (λ z. get_elem? s.logs z ≡ some x) o r in
          compare_entry-Planned s j x e ws r' q (rw (above, old, p, o) at h)
    ]

-- One entry: `logs'` has it at offset `j`, and differs from `logs` nowhere else.
pub record Placed (j : ℕ) (e : LogEntry) (logs logs' : List LogEntry) : Type 0 where
  pub found : (x : LogEntry) × (get_elem? logs' j ≡ some x) × SameEntry x e
  pub others : (v : ℕ) → v ≢ j → get_elem? logs' v ≡ get_elem? logs v
  pub size : length logs' ≡ max (suc j) (length logs)

-- `logs` is what has become of the node's log when the entries up to offset `j` are dealt with.
pub record IsBefore (s : RaftState) (j : ℕ) (logs : List LogEntry) : Type 0 where
  pub size : length logs ≡ max j (length s.logs)
  pub rest : (v : ℕ) → j ≤ v → get_elem? logs v ≡ get_elem? s.logs v

pub append-Placed :
    (s : RaftState) (j : ℕ) (e : LogEntry) (logs : List LogEntry)
    → IsBefore s j logs
    → length s.logs ≤ j
    → Placed j e logs (logs ++ e ∷ [])
append-Placed s j e logs b h =
    let n = length-append logs (e ∷ []) in
    let l : j ≡ length logs = omega (arith, b.size) in
    record {
      found =
          (e, get_elem?-append_new logs e j l, record { same_term = refl; same_command = refl });
      others = λ v ne. elim (dec_lt v (length logs)) [
        | yes lt ↦ get_elem?-append_old logs (e ∷ []) v lt
        | no ge ↦
            get_elem?-none (logs ++ e ∷ []) v (omega arith)
            ∙ sym (get_elem?-none logs v (omega arith))
      ];
      size = omega arith;
    }

pub set-Placed :
    (s : RaftState) (j : ℕ) (x e : LogEntry) (logs : List LogEntry)
    → IsBefore s j logs
    → get_elem? s.logs j ≡ some x
    → Placed j e logs (set logs j e)
set-Placed s j x e logs b at =
    let lt = get_elem?-lt s.logs j at in
    let n = length-set logs j e in
    record {
      found = (
        e,
        get_elem?-set_self logs j e (omega (arith, b.size)),
        record { same_term = refl; same_command = refl },
      );
      others = λ v ne. get_elem?-set_ne logs j v e (λ q. ne (sym q));
      size = omega (arith, b.size);
    }

pub keep-Placed :
    (s : RaftState) (j : ℕ) (x e : LogEntry) (logs : List LogEntry)
    → IsBefore s j logs
    → get_elem? s.logs j ≡ some x
    → SameEntry x e
    → Placed j e logs logs
keep-Placed s j x e logs b at same =
    let lt = get_elem?-lt s.logs j at in
    record {
      found = (x, b.rest j (omega arith) ∙ at, same);
      others = λ v ne. refl;
      size = omega (arith, b.size);
    }

pub Placed-IsBefore :
    (s : RaftState) (j : ℕ) (e : LogEntry) (logs logs' : List LogEntry)
    → IsBefore s j logs
    → Placed j e logs logs'
    → IsBefore s (suc j) logs'
Placed-IsBefore s j e logs logs' b p = record {
  size = omega (arith, b.size, p.size);
  rest = λ v h. p.others v (λ q. absurd (omega arith)) ∙ b.rest v (omega arith);
}

-- The entries from offset `j` on: each is in the log at its place, the log is otherwise as it was,
-- behind them too, and the writes pass the check of the second locked part.
pub record Merged (s : RaftState) (j : ℕ) (entries logs r : List LogEntry) : Type 0 where
  pub found :
      (k : ℕ) (e : LogEntry)
      → get_elem? entries k ≡ some e
      → (x : LogEntry) × (get_elem? r (j + k) ≡ some x) × SameEntry x e
  pub before : (v : ℕ) → v < j → get_elem? r v ≡ get_elem? logs v
  pub behind : (v : ℕ) → j + length entries ≤ v → get_elem? r v ≡ get_elem? logs v
  pub size : length r ≡ max (j + length entries) (length logs)

pub Merged-cons :
    (s : RaftState) (j : ℕ) (e : LogEntry) (es logs logs' r : List LogEntry)
    → Placed j e logs logs'
    → Merged s (suc j) es logs' r
    → Merged s j (e ∷ es) logs r
Merged-cons s j e es logs logs' r p m = record {
  found = found_at;
  before = λ v h. m.before v (omega arith) ∙ p.others v (λ q. absurd (omega arith));
  behind = λ v h. m.behind v (omega arith) ∙ p.others v (λ q. absurd (omega arith));
  size = omega (arith, m.size, p.size);
}
  where
    found_at :
        (k : ℕ) (f : LogEntry)
        → get_elem? (e ∷ es) k ≡ some f
        → (x : LogEntry) × (get_elem? r (j + k) ≡ some x) × SameEntry x f
    found_at zero f h =
        let (x, q, same) = p.found in
        let i : j + 0 ≡ j = omega arith in
        let g : e ≡ f = cc in (x, rw i (m.before j (omega arith) ∙ q), subst (SameEntry x) g same)
    found_at (suc k) f h =
        let (x, q, same) = m.found k f h in
        let i : suc j + k ≡ j + suc k = omega arith in
        (x, subst (λ z. get_elem? r z ≡ some x) i q, same)
