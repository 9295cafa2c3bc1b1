-- ===== src/KvServer/Types.antt =====
-- include/kvserver/KvServer.h: the fields of the server.
use kvcache_raft.Common.{
  ℕ, String, List, [], ◌∷◌, Bool, Option, none, some, leb, ◌==◌, str_eq, if◌then◌else◌,
}
use kvcache_raft.KvServer.Interfaces.{Op}

-- `m_last_RequestId` and `waitApplyCh` are association lists; a channel is its queue, oldest first.
-- `m_maxRaftState` and `m_lastSnapShotRaftLogIndex` are `none` for -1.
pub record KvServer (S : Type 0) : Type 0 where
  pub skip_list : S
  pub last_request_id : List (String × ℕ)
  pub wait_apply_ch : List (ℕ × List Op)
  pub max_raft_state : Option ℕ
  pub last_snapshot_raft_log_index : Option ℕ

-- `m_last_RequestId.find`
unfoldable pub find_id : String → List (String × ℕ) → Option ℕ
find_id c [] = none
find_id c (x ∷ xs) = let rest = find_id c xs in if str_eq x.0 c then some x.1 else rest

-- `m_last_RequestId[c] = r`
unfoldable pub set_id : String → ℕ → List (String × ℕ) → List (String × ℕ)
set_id c r [] = (c, r) ∷ []
set_id c r (x ∷ xs) = let rest = set_id c r xs in if str_eq x.0 c then (c, r) ∷ xs else x ∷ rest

-- `waitApplyCh.find`
unfoldable pub find_ch : ℕ → List (ℕ × List Op) → Option (List Op)
find_ch i [] = none
find_ch i (x ∷ xs) = let rest = find_ch i xs in if x.0 == i then some x.1 else rest

-- The queue at `i`, replaced or inserted.
unfoldable pub set_ch : ℕ → List Op → List (ℕ × List Op) → List (ℕ × List Op)
set_ch i q [] = (i, q) ∷ []
set_ch i q (x ∷ xs) = let rest = set_ch i q xs in if x.0 == i then (i, q) ∷ xs else x ∷ rest

-- `waitApplyCh.erase`
unfoldable pub erase_ch : ℕ → List (ℕ × List Op) → List (ℕ × List Op)
erase_ch i [] = []
erase_ch i (x ∷ xs) = let rest = erase_ch i xs in if x.0 == i then rest else x ∷ rest

-- `ifRequestDuplicate`
unfoldable pub is_request_duplicate : {S : Type 0} → String → ℕ → KvServer S → Bool
is_request_duplicate c r k = elim (find_id c k.last_request_id) [
  | none ↦ Bool.false
  | some last ↦ leb r last
]

-- `<=` on indexes with -1.
abbrev pub le_index : Option ℕ → Option ℕ → Bool
le_index none n = Bool.true
le_index (some m) none = Bool.false
le_index (some m) (some n) = leb m n
