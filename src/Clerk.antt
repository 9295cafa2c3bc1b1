-- ===== src/Clerk.antt =====
-- The client: src/clerk/clerk.cc and include/clerk/clerk.h. A server's answers are a function of the
-- attempt and the server; `none` is a call that fails.
pub mod Retry
pub mod Get
use kvcache_raft.Common.{
  ℕ, zero, suc, ◌+◌, ◌%◌, String, Bool, true, false, Option, none, some, str_eq, if◌then◌else◌,
  Outcome, ok, fault, out_of_fuel, ◌>>=◌,
}

-- `Clerk`, with the number of its servers.
pub record Clerk : Type 0 where
  pub servers : ℕ
  pub client_id : String
  pub request_id : ℕ
  pub recent_leader_id : ℕ

-- The arguments of a call that the servers tell commands apart by, and what it asks for.
pub record GetArgs : Type 0 where
  pub key : String
  pub client_id : String
  pub request_id : ℕ

pub record PutAppendArgs : Type 0 where
  pub key : String
  pub value : String
  pub op : String
  pub client_id : String
  pub request_id : ℕ

pub record GetReply : Type 0 where
  pub err : String
  pub value : String

-- What the loop does with an answer: it goes on with the next server, or with the same one, or it
-- returns a value, and then may keep the server as the leader.
pub data Verdict : Type 0 where
  next_server same_server : Verdict
  returns : Bool → String → Verdict

unfoldable pub get_verdict : Option GetReply → Verdict
get_verdict none = next_server
get_verdict (some reply) =
    if str_eq reply.err "ErrWrongLeader"
    then next_server
    else if str_eq reply.err "ErrNoKey"
    then returns false ""
    else if str_eq reply.err "OK"
    then returns true reply.value
    else same_server

-- A reply of `PutAppend` is its error.
unfoldable pub put_append_verdict : Option String → Verdict
put_append_verdict none = next_server
put_append_verdict (some err) =
    if str_eq err "ErrWrongLeader"
    then next_server
    else if str_eq err "OK"
    then returns true ""
    else same_server

-- The loop from attempt `t` on: the last server and, if it is one, the leader that is kept.
unfoldable pub retry : ℕ → ℕ → (ℕ → ℕ → Verdict) → ℕ → ℕ → Outcome (Option ℕ × String)
retry zero servers ask t server = fault out_of_fuel
retry (suc n) servers ask t server = elim (ask t server) [
  | next_server ↦ retry n servers ask (t + 1) ((server + 1) % servers)
  | same_server ↦ retry n servers ask (t + 1) server
  | returns leads value ↦ ok (if leads then some server else none, value)
]

abbrev pub keep_leader : Option ℕ → Clerk → Clerk
keep_leader none c = c
keep_leader (some server) c = record c { recent_leader_id = server }

-- `Get`, with at most `n` attempts.
unfoldable pub get :
    ℕ → (ℕ → ℕ → GetArgs → Option GetReply) → String → Clerk → Outcome (Clerk × String)
get n answers key c =
    let c' = record c { request_id = c.request_id + 1 } in
    let args : GetArgs = record {
      key = key;
      client_id = c.client_id;
      request_id = c'.request_id;
    } in
    retry n c.servers (λ t server. get_verdict (answers t server args)) 0 c.recent_leader_id
    >>= λ x. ok (keep_leader x.0 c', x.1)

-- `PutAppend`, with at most `n` attempts.
unfoldable pub put_append :
    ℕ → (ℕ → ℕ → PutAppendArgs → Option String) → String → String → String → Clerk → Outcome Clerk
put_append n answers key value op c =
    let c' = record c { request_id = c.request_id + 1 } in
    let args : PutAppendArgs = record {
      key = key;
      value = value;
      op = op;
      client_id = c.client_id;
      request_id = c'.request_id;
    } in
    retry n c.servers (λ t server. put_append_verdict (answers t server args)) 0 c.recent_leader_id
    >>= λ x. ok (keep_leader x.0 c')
