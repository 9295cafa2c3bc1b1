-- ===== src/KvServer/Apply.antt =====
-- src/kvserver/KvServer.cc: what the Raft node hands over is applied to the store.
use kvcache_raft.Common.{
  ℕ, ◌/◌, String, [], ◌∷◌, ◌++◌, Bool, true, false, Option, none, some, ltb, str_eq, if◌then◌else◌,
}
use kvcache_raft.Proto.{ApplyMsg}
use kvcache_raft.KvServer.Interfaces.{Op, KvStore, Archive}
use kvcache_raft.KvServer.Types.{KvServer, find_ch, set_ch, set_id, is_request_duplicate, le_index}

-- `SendMessageToWaitChan`: the state and the result.
unfoldable pub send_message_to_wait_chan : {S : Type 0} → Op → ℕ → KvServer S → KvServer S × Bool
send_message_to_wait_chan op index k = elim (find_ch index k.wait_apply_ch) [
  | none ↦ (k, false)
  | some q ↦ (record k { wait_apply_ch = set_ch index (q ++ op ∷ []) k.wait_apply_ch }, true)
]

module _ {S : Type 0} (store : KvStore S) where
  -- `ExecutePutOpOnKVDB`
  unfoldable pub execute_put : Op → KvServer S → KvServer S
  execute_put op k = record k {
    skip_list = store.insert_set_element op.key op.value k.skip_list;
    last_request_id = set_id op.client_id op.request_id k.last_request_id;
  }

  -- `ExecuteAppendOpOnKVDB`
  unfoldable pub execute_append : Op → KvServer S → KvServer S
  execute_append op k = record k {
    skip_list = store.insert_set_element op.key op.value k.skip_list;
    last_request_id = set_id op.client_id op.request_id k.last_request_id;
  }

  -- `ExecuteGetOpOnKVDB`: the state, and the value if the key exists.
  unfoldable pub execute_get : Op → KvServer S → KvServer S × Option String
  execute_get op k = (
    record k { last_request_id = set_id op.client_id op.request_id k.last_request_id },
    store.search_element k.skip_list op.key,
  )

  -- The part of `GetCommandFromRaft` that executes the command.
  unfoldable pub execute : Op → KvServer S → KvServer S
  execute op k =
      if is_request_duplicate op.client_id op.request_id k
      then k
      else if str_eq op.operation "Put"
      then execute_put op k
      else if str_eq op.operation "Append"
      then execute_append op k
      else k

  module _ (archive : Archive) where
    -- `MakeSnapShot`
    unfoldable pub make_snapshot : KvServer S → String
    make_snapshot k = archive.server_text (store.dump_file k.skip_list) k.last_request_id

    -- `IfNeedToSendSnapShotCommand` with proportion 9, given the node's `GetRaftStateSize`: the
    -- arguments of the call of `Snapshot`, if there is one.
    unfoldable pub snapshot_command : ℕ → ℕ → KvServer S → Option (ℕ × String)
    snapshot_command size index k = elim k.max_raft_state [
      | none ↦ none
      | some most ↦ if ltb (most / 9) size then some (index, make_snapshot k) else none
    ]

    -- `GetCommandFromRaft` from the command at `index` on, which is above the snapshot.
    unfoldable pub apply_command : ℕ → Op → ℕ → KvServer S → KvServer S × Option (ℕ × String)
    apply_command size op index k =
        let done = execute op k in
        ((send_message_to_wait_chan op index done).0, snapshot_command size index done)

    -- `GetCommandFromRaft`. `none`: the archive throws.
    unfoldable pub get_command_from_raft :
        ℕ → ApplyMsg → KvServer S → Option (KvServer S × Option (ℕ × String))
    get_command_from_raft size message k = elim (archive.read_op message.command) [
      | none ↦ none
      | some op ↦ elim message.command_index [
        | none ↦ some (k, none)
        | some index ↦
            if le_index (some index) k.last_snapshot_raft_log_index
            then some (k, none)
            else some (apply_command size op index k)
      ]
    ]

    -- `ReadSnapShotToInstall`
    unfoldable pub read_snapshot_to_install : String → KvServer S → Option (KvServer S)
    read_snapshot_to_install snapshot k =
        if str_eq snapshot "" then some k else elim (archive.read_server snapshot) [
          | none ↦ none
          | some x ↦
              some (record k { skip_list = store.load_file x.0 k.skip_list; last_request_id = x.1 })
        ]

    -- `GetSnapShotFromRaft`
    unfoldable pub get_snapshot_from_raft : ApplyMsg → KvServer S → Option (KvServer S)
    get_snapshot_from_raft message k = elim (read_snapshot_to_install message.snapshot k) [
      | none ↦ none
      | some k' ↦ some (record k' { last_snapshot_raft_log_index = message.snapshot_index })
    ]
