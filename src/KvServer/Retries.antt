-- ===== src/KvServer/Retries.antt =====
-- src/kvserver/KvServer.cc: commands that come twice, and a call that meets its command.
use kvcache_raft.Common.{
  ℕ, ◌≤◌, ◌≡◌, refl, sym, ◌∙◌, subst, String, List, [], ◌∷◌, ◌++◌, true, none, some, inl, inr,
  Bool-cases, arith, str_eq, str_eq_iff, ◌==◌,
}
use kvcache_raft.KvServer.Interfaces.{Op, KvStore, Archive}
use kvcache_raft.KvServer.Types.{
  KvServer, find_id, set_id, find_ch, set_ch, erase_ch, is_request_duplicate,
}
use kvcache_raft.KvServer.Apply.{
  send_message_to_wait_chan, execute_put, execute_append, execute, apply_command,
}
use kvcache_raft.KvServer.Calls.{
  no_error, await_index, time_out_pop, end_put_append, drop_channel, put_append_reply,
}
use kvcache_raft.KvServer.Refinement.{is_write, find_id-set_id}

str_eq_refl : (c : String) → str_eq c c ≡ true
str_eq_refl c = (str_eq_iff c c).1 refl

find_id-set_id_same :
    (c : String) (r : ℕ) (xs : List (String × ℕ)) → find_id c (set_id c r xs) ≡ some r
find_id-set_id_same c r xs = find_id-set_id c c r xs ∙ (rw (str_eq_refl c) refl)

find_ch-set_ch :
    (i : ℕ) (q : List Op) (xs : List (ℕ × List Op)) → find_ch i (set_ch i q xs) ≡ some q
unfolding find_ch set_ch
find_ch-set_ch i q [] = let z : (i == i) ≡ true = ground arith in rw z refl
find_ch-set_ch i q (x ∷ xs) = elim (Bool-cases (x.0 == i)) [
  | inl here ↦ let z : (i == i) ≡ true = ground arith in rw (here, z) refl
  | inr there ↦ rw (there, find_ch-set_ch i q xs, there) refl
]

pub find_ch-erase_ch : (i : ℕ) (xs : List (ℕ × List Op)) → find_ch i (erase_ch i xs) ≡ none
unfolding find_ch erase_ch
find_ch-erase_ch i [] = refl
find_ch-erase_ch i (x ∷ xs) = elim (Bool-cases (x.0 == i)) [
  | inl here ↦ rw (here, find_ch-erase_ch i xs) refl
  | inr there ↦ rw (there, find_ch-erase_ch i xs, there) refl
]

module _ {S : Type 0} where
  await_index-found :
      (i : ℕ) (k : KvServer S)
      → find_ch i k.wait_apply_ch ≡ none
      → find_ch i (await_index i k).wait_apply_ch ≡ some []
  unfolding await_index
  await_index-found i k h = rw (await_index, h) (find_ch-set_ch i [] k.wait_apply_ch)

  send-found :
      (op : Op) (i : ℕ) (q : List Op) (k : KvServer S)
      → find_ch i k.wait_apply_ch ≡ some q
      → find_ch i (send_message_to_wait_chan op i k).0.wait_apply_ch ≡ some (q ++ op ∷ [])
  unfolding send_message_to_wait_chan
  send-found op i q k h =
      rw (send_message_to_wait_chan, h) (find_ch-set_ch i (q ++ op ∷ []) k.wait_apply_ch)

  time_out_pop-found :
      (op : Op) (i : ℕ) (rest : List Op) (k : KvServer S)
      → find_ch i k.wait_apply_ch ≡ some (op ∷ rest)
      → (time_out_pop i k).1 ≡ some op
  unfolding time_out_pop
  time_out_pop-found op i rest k h = rw (time_out_pop, h) refl

  put_append_reply-own : (op : Op) (k : KvServer S) → put_append_reply op (some op) k ≡ no_error
  unfolding put_append_reply
  put_append_reply-own op k =
      let z : (op.request_id == op.request_id) ≡ true = ground arith in
      rw (str_eq_refl op.client_id, z) refl

module _ {S : Type 0} (store : KvStore S) where
  execute-is_request_duplicate :
      (op : Op) (r : ℕ) (k : KvServer S)
      → is_write op ≡ true
      → r ≤ op.request_id
      → is_request_duplicate op.client_id r (execute store op k) ≡ true
  unfolding execute execute_put execute_append is_request_duplicate
  execute-is_request_duplicate op r k w h =
      ground (arith, find_id-set_id_same op.client_id op.request_id k.last_request_id)

  execute-old :
      (op : Op) (k : KvServer S)
      → is_request_duplicate op.client_id op.request_id k ≡ true
      → execute store op k ≡ k
  unfolding execute
  execute-old op k h = rw h refl

  execute-wait_apply_ch :
      (op : Op) (k : KvServer S) → (execute store op k).wait_apply_ch ≡ k.wait_apply_ch
  unfolding execute execute_put execute_append
  execute-wait_apply_ch op k = ground arith

  -- A Put or Append that comes again, or an older request of its client that comes after it, changes
  -- nothing more: executing it after the first leaves the server as the first has left it.
  pub execute-retry :
      (op again : Op) (k : KvServer S)
      → is_write op ≡ true
      → again.client_id ≡ op.client_id
      → again.request_id ≤ op.request_id
      → execute store again (execute store op k) ≡ execute store op k
  execute-retry op again k w c h = execute-old again (execute store op k) (
      subst (λ z. is_request_duplicate z again.request_id (execute store op k) ≡ true) (sym c)
        (execute-is_request_duplicate op again.request_id k w h))

  module _ (archive : Archive) where
    -- A Put or Append call that opens a channel for the index of its command, finds the command there
    -- when it has been applied at that index, replies without an error, and leaves no channel at the index.
    pub put_append-applied :
        (op : Op) (index size : ℕ) (k : KvServer S)
        → find_ch index k.wait_apply_ch ≡ none
        → let applied = (apply_command store archive size op index (await_index index k)).0 in
          let popped = time_out_pop index applied in
          let ended = end_put_append op index popped.1 popped.0 in
          (ended.1 ≡ no_error) × (find_ch index ended.0.wait_apply_ch ≡ none)
    unfolding end_put_append drop_channel apply_command
    put_append-applied op index size k free =
        let k1 = await_index index k in
        let k2 = (apply_command store archive size op index k1).0 in
        let a : find_ch index (execute store op k1).wait_apply_ch ≡ some [] =
          rw (execute-wait_apply_ch op k1) (await_index-found index k free) in
        let b = send-found op index [] (execute store op k1) a in
        let c = time_out_pop-found op index [] k2 b in
        (
          subst (λ z. put_append_reply op z (time_out_pop index k2).0 ≡ no_error) (sym c)
              (put_append_reply-own op (time_out_pop index k2).0),
          find_ch-erase_ch index (time_out_pop index k2).0.wait_apply_ch,
        )
