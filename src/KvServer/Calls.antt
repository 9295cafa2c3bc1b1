-- ===== src/KvServer/Calls.antt =====
-- src/kvserver/KvServer.cc: the calls of the clients, `PutAppend` and `Get`. A call waits for the
-- Raft node without the lock, so it is two functions: up to `timeOutPop`, and from its result on.
use kvcache_raft.Common.{
  ℕ, String, [], ◌∷◌, Bool, Option, none, some, ◌==◌, ◌&&◌, str_eq, if◌then◌else◌,
}
use kvcache_raft.KvServer.Interfaces.{Op, KvStore}
use kvcache_raft.KvServer.Types.{KvServer, find_ch, set_ch, erase_ch, is_request_duplicate}
use kvcache_raft.KvServer.Apply.{execute_get}

-- The errors of include/common/Constant.h that a reply can carry.
pub data Err : Type 0 where
  no_error no_key wrong_leader : Err

-- The command that came is the one that the call waits for.
abbrev pub is_own : Op → Op → Bool
is_own mine came = str_eq came.client_id mine.client_id && came.request_id == mine.request_id

-- The part of both calls after `Start`: a channel for the index, unless there is one.
unfoldable pub await_index : {S : Type 0} → ℕ → KvServer S → KvServer S
await_index index k = elim (find_ch index k.wait_apply_ch) [
  | none ↦ record k { wait_apply_ch = set_ch index [] k.wait_apply_ch }
  | some q ↦ k
]

-- `timeOutPop` on the channel of the index: the oldest command in it, or `none` at the timeout.
unfoldable pub time_out_pop : {S : Type 0} → ℕ → KvServer S → KvServer S × Option Op
time_out_pop index k = elim (find_ch index k.wait_apply_ch) [
  | none ↦ (k, none)
  | some [] ↦ (k, none)
  | some (op ∷ rest) ↦ (record k { wait_apply_ch = set_ch index rest k.wait_apply_ch }, some op)
]

-- The end of both calls: the channel is erased.
unfoldable pub drop_channel : {S : Type 0} → ℕ → KvServer S → KvServer S
drop_channel index k = record k { wait_apply_ch = erase_ch index k.wait_apply_ch }

-- `PutAppend` from the result of `timeOutPop` on.
unfoldable pub put_append_reply : {S : Type 0} → Op → Option Op → KvServer S → Err
put_append_reply op none k =
    if is_request_duplicate op.client_id op.request_id k then no_error else wrong_leader
put_append_reply op (some came) k = if is_own op came then no_error else wrong_leader

unfoldable pub end_put_append : {S : Type 0} → Op → ℕ → Option Op → KvServer S → KvServer S × Err
end_put_append op index came k = (drop_channel index k, put_append_reply op came k)

-- The reply of `Get` once the command has been seen: the error and the value.
abbrev pub found : Option String → Err × String
found none = (no_key, "")
found (some v) = (no_error, v)

module _ {S : Type 0} (store : KvStore S) where
  -- `Get` from the result of `timeOutPop` on; `leads` is what `GetState` returns at a timeout.
  unfoldable pub get_reply : Op → Option Op → Bool → KvServer S → KvServer S × (Err × String)
  get_reply op none leads k =
      let x = execute_get store op k in
      if is_request_duplicate op.client_id op.request_id k && leads
      then (x.0, found x.1)
      else (k, (wrong_leader, ""))
  get_reply op (some came) leads k =
      let x = execute_get store op k in
      if is_own op came then (x.0, found x.1) else (k, (wrong_leader, ""))

  unfoldable pub end_get : Op → ℕ → Option Op → Bool → KvServer S → KvServer S × (Err × String)
  end_get op index came leads k = let x = get_reply op came leads k in (drop_channel index x.0, x.1)
