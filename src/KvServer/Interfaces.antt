-- ===== src/KvServer/Interfaces.antt =====
-- What the server uses: the operation of include/common/util.h, its ordered store, and the text
-- archives of the boost library.
use kvcache_raft.Common.{ℕ, String, List, Option, some, ◌≡◌, ◌≢◌}

-- `Op`
pub record Op : Type 0 where
  pub operation : String
  pub key : String
  pub value : String
  pub client_id : String
  pub request_id : ℕ

-- The store that the server holds, by its operations `search_element`, `insert_set_element`,
-- `dump_file` and `load_file`. What is written to a key is read back from it, and other keys keep
-- their values.
pub record KvStore (S : Type 0) : Type 1 where
  pub search_element : S → String → Option String
  pub insert_set_element : String → String → S → S
  pub dump_file : S → String
  pub load_file : String → S → S
  pub search-insert_set_same :
      (k v : String) (s : S) → search_element (insert_set_element k v s) k ≡ some v
  pub search-insert_set_other :
      (k k' v : String) (s : S)
      → k ≢ k'
      → search_element (insert_set_element k v s) k' ≡ search_element s k'

-- The archives of an operation and of the server's own fields; reading a text that is no archive
-- throws, which is `none`.
pub record Archive : Type 0 where
  pub read_op : String → Option Op
  pub server_text : String → List (String × ℕ) → String
  pub read_server : String → Option (String × List (String × ℕ))
