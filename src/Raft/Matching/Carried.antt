-- ===== src/Raft/Matching/Carried.antt =====
-- The writes that `AppendEntries` (src/raft/raft.cc) plans, checked and carried out on the log that
-- they were planned on.
use kvcache_raft.Common.{
  ℕ, suc, ◌+◌, ◌≡◌, refl, ◌∙◌, subst, List, [], ◌∷◌, ◌++◌, true, false, none, some, arith, length,
  get_elem?, get_elem?-lt, set, leb, ◌==◌, ok, ◌>>=◌, >>=-eq-ok,
}
use kvcache_raft.Proto.{LogEntry}
use kvcache_raft.Raft.Types.{RaftState}
use kvcache_raft.Raft.Append.{
  PendingWrite, append_write, overwrite, pending_write, pending_writes, fits_at, recheck,
  apply_write, apply_writes,
}
use kvcache_raft.Raft.Invariant.Contiguous.{Contiguous}
use kvcache_raft.Raft.Matching.Merge.{
  Planned, appends, agrees, replaces, pending_write-Planned, IsBefore, append-Placed, set-Placed,
  keep-Placed, Placed-IsBefore, Merged, Merged-cons,
}

-- The planned writes pass the check, stay within bounds, and merge the entries into the log.
pub record Carried (s : RaftState) (j : ℕ) (entries logs : List LogEntry) (ws : List PendingWrite)
    : Type 0 where
  pub passes : recheck s (s.last_snapshot_index + length logs) ws ≡ none
  pub result : List LogEntry
  pub writes : apply_writes s.last_snapshot_index logs ws ≡ ok result
  pub merged : Merged s j entries logs result

Carried-nil :
    (s : RaftState) (j : ℕ) (logs : List LogEntry) → IsBefore s j logs → Carried s j [] logs []
unfolding recheck apply_writes
Carried-nil s j logs b = record {
  passes = refl;
  result = logs;
  writes = refl;
  merged = record {
    found = λ k e h. absurd (cc);
    before = λ v h. refl;
    behind = λ v h. refl;
    size = omega (arith, b.size);
  };
}

apply_append :
    (b : ℕ) (logs : List LogEntry) (e : LogEntry)
    → leb e.log_index b ≡ false
    → apply_write b logs (append_write e) ≡ ok (logs ++ e ∷ [])
unfolding apply_write
apply_append b logs e h = rw h

apply_overwrite :
    (b : ℕ) (logs : List LogEntry) (j : ℕ) (x e : LogEntry)
    → get_elem? logs j ≡ some x
    → leb e.log_index b ≡ false
    → apply_write b logs (overwrite j e) ≡ ok (set logs j e)
unfolding apply_write
apply_overwrite b logs j x e at h = rw (h, at)

fits_at-same :
    (logs : List LogEntry) (j : ℕ) (x e : LogEntry)
    → get_elem? logs j ≡ some x
    → x.log_index ≡ e.log_index
    → fits_at logs j e ≡ true
unfolding fits_at
fits_at-same logs j x e q same = ground (arith, q, same)

Carried-cons :
    (s : RaftState) (j : ℕ) (e : LogEntry) (es logs : List LogEntry)
    (here later : List PendingWrite)
    → e.log_index ≡ s.last_snapshot_index + j + 1
    → IsBefore s j logs
    → Planned s j e here
    → ((logs' : List LogEntry) → IsBefore s (suc j) logs' → Carried s (suc j) es logs' later)
    → Carried s j (e ∷ es) logs (here ++ later)
unfolding recheck apply_writes
Carried-cons s j e es logs here later at b (agrees x q same n) ih =
    let p = keep-Placed s j x e logs b q same in
    let c = ih logs (Placed-IsBefore s j e logs logs b p) in
    rw n (record {
      passes = c.passes;
      result = c.result;
      writes = c.writes;
      merged = Merged-cons s j e es logs logs _ p c.merged;
    })
Carried-cons s j e es logs here later at b (appends h n) ih =
    let above : leb e.log_index s.last_snapshot_index ≡ false = ground arith in
    let p = append-Placed s j e logs b h in
    let c = ih (logs ++ e ∷ []) (Placed-IsBefore s j e logs _ b p) in
    let step : (e.log_index == s.last_snapshot_index + length logs + 1) ≡ true =
      ground (arith, b.size) in
    let to : s.last_snapshot_index + length (logs ++ e ∷ []) ≡ e.log_index =
      omega (arith, p.size, b.size) in
    let passes = rw to at c.passes in
    rw n (record {
      passes = rw (above, step) passes;
      result = c.result;
      writes = rw (apply_writes, apply_append s.last_snapshot_index logs e above) c.writes;
      merged = Merged-cons s j e es logs (logs ++ e ∷ []) _ p c.merged;
    })
Carried-cons s j e es logs here later at b (replaces x q same n) ih =
    let above : leb e.log_index s.last_snapshot_index ≡ false = ground arith in
    let p = set-Placed s j x e logs b q in
    let c = ih (set logs j e) (Placed-IsBefore s j e logs _ b p) in
    let fits = fits_at-same s.logs j x e q same in
    let here_ : get_elem? logs j ≡ some x = b.rest j (omega arith) ∙ q in
    let lt = get_elem?-lt s.logs j q in
    let to : s.last_snapshot_index + length (set logs j e) ≡ s.last_snapshot_index + length logs =
      omega (arith, p.size, b.size) in
    let passes = rw to at c.passes in
    rw n (record {
      passes = rw (above, fits) passes;
      result = c.result;
      writes =
          rw (apply_writes, apply_overwrite s.last_snapshot_index logs j x e here_ above) c.writes;
      merged = Merged-cons s j e es logs (set logs j e) _ p c.merged;
    })

pub pending_writes-Carried :
    (s : RaftState) (j : ℕ) (entries logs : List LogEntry) (ws : List PendingWrite)
    → Contiguous s.last_snapshot_index s.logs
    → Contiguous (s.last_snapshot_index + j) entries
    → IsBefore s j logs
    → pending_writes s (s.last_snapshot_index + length s.logs) entries ≡ ok ws
    → Carried s j entries logs ws
unfolding pending_writes
pending_writes-Carried s j [] logs ws c d b h =
    let n : [] ≡ ws = cc in subst (Carried s j [] logs) n (Carried-nil s j logs b)
pending_writes-Carried s j (e ∷ es) logs ws c d b h =
    let L = s.last_snapshot_index + length s.logs in
    let (here, p, q) =
      >>=-eq-ok (pending_write s L e)
        (λ here. pending_writes s L es >>= λ later. ok (here ++ later)) h in
    let (later, p', q') = >>=-eq-ok (pending_writes s L es) (λ later. ok (here ++ later)) q in
    let at : e.log_index ≡ s.last_snapshot_index + j + 1 = omega arith in
    let n : here ++ later ≡ ws = cc in
    let up : suc (s.last_snapshot_index + j) ≡ s.last_snapshot_index + suc j = omega arith in
    subst (Carried s j (e ∷ es) logs) n (
      Carried-cons s j e es logs here later at b (pending_write-Planned s j e here c at p)
        λ logs' b'.
          pending_writes-Carried s (suc j) es logs' later c (subst (λ z. Contiguous z es) up d.1) b'
            p')
