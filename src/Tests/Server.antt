-- ===== src/Tests/Server.antt =====
-- A key-value server over a store that is a function.
use kvcache_raft.Common.{
  ◌≡◌, refl, String, List, [], ◌∷◌, true, none, some, Option, inl, inr, Bool-cases, arith, str_eq,
  str_eq_iff, if◌then◌else◌,
}
use kvcache_raft.KvServer.Interfaces.{Op, KvStore, Archive}
use kvcache_raft.KvServer.Types.{KvServer, find_ch, find_id}
use kvcache_raft.KvServer.Apply.{execute, apply_command}
use kvcache_raft.KvServer.Calls.{no_error, await_index, time_out_pop, end_put_append, end_get}
use kvcache_raft.KvServer.Refinement.{
  View, Shows, LogCommand, perform_all, apply_all, apply_all-Shows,
}
use kvcache_raft.KvServer.Reads.{IsRead, end_get-Shows}
use kvcache_raft.KvServer.Retries.{execute-retry, put_append-applied}

abbrev values : KvStore (String → Option String)
values = record {
  search_element = λ s k. s k;
  insert_set_element = λ k v s k'. if str_eq k k' then some v else s k';
  dump_file = λ s. "";
  load_file = λ text s. s;
  search-insert_set_same =
      λ k v s. let z : str_eq k k ≡ true = (str_eq_iff k k).1 refl in rw z refl;
  search-insert_set_other = λ k k' v s ne. elim (Bool-cases (str_eq k k')) [
    | inl same ↦ absurd (ne ((str_eq_iff k k').0 same))
    | inr other ↦ rw other refl
  ];
}

abbrev put_x : Op
put_x = record { operation = "Put"; key = "x"; value = "1"; client_id = "c"; request_id = 1 }

abbrev append_x : Op
append_x = record { operation = "Append"; key = "x"; value = "2"; client_id = "c"; request_id = 2 }

abbrev texts : Archive
texts = record {
  read_op =
      λ t. if str_eq t "put" then some put_x else if str_eq t "append" then some append_x else none;
  server_text = λ t ids. "";
  read_server = λ t. none;
}

abbrev empty : KvServer (String → Option String)
empty = record {
  skip_list = λ k. none;
  last_request_id = [];
  wait_apply_ch = [];
  max_raft_state = none;
  last_snapshot_raft_log_index = some 0;
}

abbrev nothing : View
nothing = record { values = λ k. none; ids = λ c. none }

-- The Put comes twice.
abbrev commands : List LogCommand
commands =
    record { op = put_x; text = "put"; index = 1; size = 0 }
    ∷ record { op = put_x; text = "put"; index = 2; size = 0 }
    ∷ record { op = append_x; text = "append"; index = 3; size = 0 }
    ∷ []

empty-Shows : Shows values empty nothing
unfolding find_id
empty-Shows = record { values = λ k. refl; ids = λ c. refl }

-- The Append has replaced the value.
appended : (perform_all commands nothing).values "x" ≡ some "2"
appended = refl

apply_all-Shows_example :
    (k : KvServer (String → Option String)) × (apply_all values texts commands empty ≡ some k)
    × Shows values k (perform_all commands nothing)
apply_all-Shows_example =
    apply_all-Shows values texts commands empty nothing empty-Shows
      (refl, refl, (refl, refl, (refl, refl, tt)))

execute-retry_example :
    execute values put_x (execute values append_x empty) ≡ execute values append_x empty
execute-retry_example = execute-retry values append_x put_x empty refl refl (omega arith)

free : find_ch 1 empty.wait_apply_ch ≡ none
unfolding find_ch
free = refl

put_append-applied_example :
    let applied = (apply_command values texts 0 put_x 1 (await_index 1 empty)).0 in
    let popped = time_out_pop 1 applied in
    let ended = end_put_append put_x 1 popped.1 popped.0 in
    (ended.1 ≡ no_error) × (find_ch 1 ended.0.wait_apply_ch ≡ none)
put_append-applied_example = put_append-applied values texts put_x 1 0 empty free

abbrev get_x : Op
get_x = record { operation = "Get"; key = "x"; value = ""; client_id = "c"; request_id = 3 }

end_get-Shows_example :
    let x = end_get values get_x 4 (some get_x) true empty in
    IsRead nothing get_x 4 (some get_x) true empty x.0 x.1
end_get-Shows_example = end_get-Shows values get_x 4 (some get_x) true empty nothing empty-Shows
