-- ===== src/KvServer/Refinement.antt =====
-- src/kvserver/KvServer.cc against a plain map: the commands of the log, applied one by one.
use kvcache_raft.Common.{
  ℕ, ◌≡◌, refl, sym, ◌∙◌, ap, subst, String, List, [], ◌∷◌, Bool, true, false, Option, none, some,
  inl, inr, Bool-cases, Option-cases, arith, leb, str_eq, str_eq_iff, if◌then◌else◌, ◌||◌,
}
use kvcache_raft.Proto.{ApplyMsg}
use kvcache_raft.Raft.Commands.{command_msg}
use kvcache_raft.KvServer.Interfaces.{Op, KvStore, Archive}
use kvcache_raft.KvServer.Types.{KvServer, find_id, set_id, is_request_duplicate, le_index, find_ch}
use kvcache_raft.KvServer.Apply.{
  send_message_to_wait_chan, execute_put, execute_append, execute, apply_command,
  get_command_from_raft,
}

-- What the clients see of a server: the values, and the last request of each client.
pub record View : Type 0 where
  pub values : String → Option String
  pub ids : String → Option ℕ

abbrev pub is_write : Op → Bool
is_write op = str_eq op.operation "Put" || str_eq op.operation "Append"

abbrev pub is_old : Op → View → Bool
is_old op a = elim (a.ids op.client_id) [ none ↦ false | some last ↦ leb op.request_id last ]

-- A write that is new takes effect; all else does nothing.
abbrev pub perform : Op → View → View
perform op a =
    if is_old op a
    then a
    else if is_write op
    then record {
      values = λ k. if str_eq op.key k then some op.value else a.values k;
      ids = λ c. if str_eq op.client_id c then some op.request_id else a.ids c;
    }
    else a

pub find_id-set_id :
    (c d : String) (r : ℕ) (xs : List (String × ℕ))
    → find_id d (set_id c r xs) ≡ (if str_eq c d then some r else find_id d xs)
unfolding find_id set_id
find_id-set_id c d r [] = refl
find_id-set_id c d r (x ∷ xs) =
    let ih = find_id-set_id c d r xs in
    elim (Bool-cases (str_eq x.0 c)) [
      | inl here ↦
          let e : x.0 ≡ c = (str_eq_iff x.0 c).0 here in
          elim (Bool-cases (str_eq c d)) [
            | inl hit ↦ rw (here, hit) refl
            | inr miss ↦
                let m : str_eq x.0 d ≡ false = subst (λ z. str_eq z d ≡ false) (sym e) miss in
                rw (here, miss, m) refl
          ]
      | inr before ↦ elim (Bool-cases (str_eq x.0 d)) [
        | inl hit ↦
            let e : x.0 ≡ d = (str_eq_iff x.0 d).0 hit in
            elim (Bool-cases (str_eq c d)) [
              | inl same ↦
                  let f : c ≡ d = (str_eq_iff c d).0 same in
                  let g : str_eq x.0 c ≡ true = (str_eq_iff x.0 c).1 (e ∙ sym f) in absurd (cc)
              | inr other ↦ rw (before, hit, other) refl
            ]
        | inr miss ↦ rw (before, miss, ih) refl
      ]
    ]

module _ {S : Type 0} (store : KvStore S) where
  pub record Shows (k : KvServer S) (a : View) : Type 0 where
    pub values : (key : String) → store.search_element k.skip_list key ≡ a.values key
    pub ids : (c : String) → find_id c k.last_request_id ≡ a.ids c

  is_request_duplicate-Shows :
      (op : Op) (k : KvServer S) (a : View)
      → Shows k a
      → is_request_duplicate op.client_id op.request_id k ≡ is_old op a
  unfolding is_request_duplicate
  is_request_duplicate-Shows op k a s =
      ap (λ (z : Option ℕ). elim z [ none ↦ false | some last ↦ leb op.request_id last ])
        (s.ids op.client_id)

  search-insert_set :
      (key v key' : String) (s : S)
      → store.search_element (store.insert_set_element key v s) key'
        ≡ (if str_eq key key' then some v else store.search_element s key')
  search-insert_set key v key' s = elim (Bool-cases (str_eq key key')) [
    | inl same ↦ rw same (
        subst (λ z. store.search_element (store.insert_set_element key v s) z ≡ some v)
          ((str_eq_iff key key').0 same) (store.search-insert_set_same key v s))
    | inr other ↦
        rw other (
          store.search-insert_set_other key key' v s (λ e. let t = (str_eq_iff key key').1 e in cc))
  ]

  execute_put-Shows :
      (op : Op) (k : KvServer S) (a : View)
      → Shows k a
      → Shows (execute_put store op k) (record {
        values = λ key. if str_eq op.key key then some op.value else a.values key;
        ids = λ c. if str_eq op.client_id c then some op.request_id else a.ids c;
      })
  unfolding execute_put
  execute_put-Shows op k a s = record {
    values = λ key. rw (search-insert_set op.key op.value key k.skip_list, s.values key) refl;
    ids = λ c. rw (find_id-set_id op.client_id c op.request_id k.last_request_id, s.ids c) refl;
  }

  execute_append-put :
      (op : Op) (k : KvServer S) → execute_append store op k ≡ execute_put store op k
  unfolding execute_append execute_put
  execute_append-put op k = refl

  execute-Shows :
      (op : Op) (k : KvServer S) (a : View) → Shows k a → Shows (execute store op k) (perform op a)
  unfolding execute
  execute-Shows op k a s =
      let d = is_request_duplicate-Shows op k a s in
      let w = execute_put-Shows op k a s in
      elim (Bool-cases (is_old op a)) [
        | inl old ↦ rw (d, old) s
        | inr new ↦ elim (Bool-cases (str_eq op.operation "Put")) [
          | inl put ↦ rw (d, new, put) w
          | inr no_put ↦ elim (Bool-cases (str_eq op.operation "Append")) [
            | inl append ↦ rw (d, new, no_put, append, execute_append-put op k) w
            | inr none_of_them ↦ rw (d, new, no_put, none_of_them) s
          ]
        ]
      ]

-- A command of the log at `index`, as an operation and as text; `size` is `GetRaftStateSize` when it
-- is applied.
pub record LogCommand : Type 0 where
  pub op : Op
  pub text : String
  pub index : ℕ
  pub size : ℕ

-- The commands lie above the server's snapshot, and their texts are archives of them.
abbrev pub AreReadable : Archive → Option ℕ → List LogCommand → Type 0
AreReadable archive base [] = Unit
AreReadable archive base (c ∷ cs) =
    (archive.read_op c.text ≡ some c.op)
    × (le_index (some c.index) base ≡ false)
    × AreReadable archive base cs

abbrev pub perform_all : List LogCommand → View → View
perform_all [] a = a
perform_all (c ∷ cs) a = perform_all cs (perform c.op a)

module _ {S : Type 0} (store : KvStore S) (archive : Archive) where
  abbrev message_of : LogCommand → ApplyMsg
  message_of c = command_msg c.text c.index

  -- `ReadRaftApplyCommandLoop` on the messages of these commands.
  unfoldable pub apply_all : List LogCommand → KvServer S → Option (KvServer S)
  apply_all [] k = some k
  apply_all (c ∷ cs) k = elim (get_command_from_raft store archive c.size (message_of c) k) [
    | none ↦ none
    | some x ↦ apply_all cs x.0
  ]

  send-Shows :
      (op : Op) (index : ℕ) (k : KvServer S) (a : View)
      → Shows store k a
      → Shows store (send_message_to_wait_chan op index k).0 a
        × ((send_message_to_wait_chan op index k).0.last_snapshot_raft_log_index
            ≡ k.last_snapshot_raft_log_index)
  unfolding send_message_to_wait_chan
  send-Shows op index k a s = elim (Option-cases (find_ch index k.wait_apply_ch)) [
    | inl e ↦ rw (send_message_to_wait_chan, e) (s, refl)
    | inr (q, e) ↦
        rw (send_message_to_wait_chan, e) (record { values = s.values; ids = s.ids }, refl)
  ]

  execute_base :
      (op : Op) (k : KvServer S)
      → (execute store op k).last_snapshot_raft_log_index ≡ k.last_snapshot_raft_log_index
  unfolding execute execute_put execute_append
  execute_base op k = ground arith

  apply_command-Shows :
      (c : LogCommand) (k : KvServer S) (a : View)
      → Shows store k a
      → Shows store (apply_command store archive c.size c.op c.index k).0 (perform c.op a)
        × ((apply_command store archive c.size c.op c.index k).0.last_snapshot_raft_log_index
            ≡ k.last_snapshot_raft_log_index)
  unfolding apply_command
  apply_command-Shows c k a s =
      let (p, q) =
        send-Shows c.op c.index (execute store c.op k) (perform c.op a)
          (execute-Shows store c.op k a s) in
      (p, q ∙ execute_base c.op k)

  get_command_from_raft-above :
      (c : LogCommand) (k : KvServer S)
      → archive.read_op c.text ≡ some c.op
      → le_index (some c.index) k.last_snapshot_raft_log_index ≡ false
      → get_command_from_raft store archive c.size (message_of c) k
        ≡ some (apply_command store archive c.size c.op c.index k)
  unfolding get_command_from_raft
  get_command_from_raft-above c k t h = rw (get_command_from_raft, t, h) refl

  -- A server that shows a map and the last requests of the clients, and takes the messages of log
  -- commands that lie above its snapshot and whose texts are archives, throws nothing. It shows
  -- afterwards what becomes of the map and the last requests if each new Put or Append in turn sets
  -- its key and its client's request, and all other commands do nothing.
  pub apply_all-Shows :
      (cs : List LogCommand) (k : KvServer S) (a : View)
      → Shows store k a
      → AreReadable archive k.last_snapshot_raft_log_index cs
      → (k' : KvServer S) × (apply_all cs k ≡ some k') × Shows store k' (perform_all cs a)
  unfolding apply_all
  apply_all-Shows [] k a s h = (k, refl, s)
  apply_all-Shows (c ∷ cs) k a s h =
      let (p, q) = apply_command-Shows c k a s in
      let (k', e, r) =
        apply_all-Shows cs (apply_command store archive c.size c.op c.index k).0 (perform c.op a) p
          (subst (λ z. AreReadable archive z cs) (sym q) h.2) in
      (k', rw (apply_all, get_command_from_raft-above c k h.0 h.1) e, r)
