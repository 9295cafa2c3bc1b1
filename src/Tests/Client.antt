-- ===== src/Tests/Client.antt =====
-- Runs of the client and of the queue.
use kvcache_raft.Common.{
  List, ◌++◌, take, drop, min, length, [], ◌∷◌, ℕ, ◌≡◌, refl, inl, inr, Option, none, some, ok,
  ◌==◌, if◌then◌else◌, arith, Bool-cases,
}
use kvcache_raft.LockQueue.{push, try_pop_bulk, try_pop_bulk-take}
use kvcache_raft.Clerk.{Clerk, GetArgs, GetReply, get, retry, get_verdict}
use kvcache_raft.Clerk.Get.{Got, Known, get-Got}

-- The first server cannot be reached, the second does not lead, the third has the value.
abbrev answers : ℕ → ℕ → GetArgs → Option GetReply
answers t server args =
    if server == 0
    then none
    else if server == 1
    then some (record { err = "ErrWrongLeader"; value = "" })
    else some (record { err = "OK"; value = "v" })

abbrev clerk : Clerk
clerk = record { servers = 3; client_id = "c"; request_id = 4; recent_leader_id = 0 }

three_attempts :
    get 3 answers "x" clerk
    ≡ ok (record { servers = 3; client_id = "c"; request_id = 5; recent_leader_id = 2 }, "v")
unfolding get retry get_verdict
three_attempts = refl

answers-Known : (t server : ℕ) (args : GetArgs) → Known (answers t server args)
answers-Known t server args = elim (Bool-cases (server == 0)) [
  | inl e ↦ rw e tt
  | inr e ↦ elim (Bool-cases (server == 1)) [
    | inl f ↦ rw (e, f) (inr (inr refl))
    | inr f ↦ rw (e, f) (inl refl)
  ]
]

get-Got_example : Got answers "x" clerk 3
get-Got_example =
    get-Got answers "x" clerk 3 0 2 (omega arith) (omega arith)
      (λ t server. answers-Known t server (record { key = "x"; client_id = "c"; request_id = 5 }))
      (λ t late. (record { err = "OK"; value = "v" }, refl, inl refl)) (omega arith)

-- Two of three elements are taken from a queue.
abbrev queue : List ℕ
queue = push 3 (1 ∷ (2 ∷ []))

abbrev taken : List ℕ
taken = 9 ∷ []

try_pop_bulk-take_example :
    try_pop_bulk taken 2 queue ≡ (drop 2 queue, (taken ++ take 2 queue, min 2 (length queue)))
try_pop_bulk-take_example = try_pop_bulk-take taken queue 2
