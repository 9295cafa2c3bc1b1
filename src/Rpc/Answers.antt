-- ===== src/Rpc/Answers.antt =====
-- Every call is answered once: the pending calls of src/rpc/MrpcchannelMultiReq.cc over the life of a
-- connection.
use kvcache_raft.Common.{
  ℕ, suc, ◌+◌, ◌^◌, ◌≤◌, ◌<◌, ◌≡◌, ◌⊎◌, inl, inr, refl, sym, ap, ◌∙◌, subst, String, List, [], ◌∷◌,
  ◌++◌, Option, none, some, ok, arith, All, All-mono, Option-cases,
}
use kvcache_raft.Rpc.Pending.{
  PendingCall, RpcCallLifetime, Channel, find_key, Messages, CallResult, register_call, add_pending,
  send_or_fail, request_bytes, fetch_add, call_on, call_registered, call_method, complete_response,
  fail_all_pending,
}
use kvcache_raft.Rpc.Tables.{
  count, dones, count-append, find_key_fresh, insert_key_fresh, erase_key-All, count-erase_key,
}

module _ {M : Type 0} (messages : Messages M) where
  -- The life of a connection: at most `used` request ids, the closures of the calls that were accepted, and
  -- the closures that were run. A call is accepted when there is a connection and the controller is
  -- registered.
  pub data History : Channel M → ℕ → List ℕ → List ℕ → Type 0 where
    opened :
        (fd : Option ℕ)
        → History
            (record { client_fd = fd; next_request_id = 0; rpc_call_lifetime = []; pendings = [] })
            0
            []
            []
    reconnects :
        (fd : Option ℕ) {ch : Channel M} {used : ℕ} {accepted ran : List ℕ}
        → History ch used accepted ran
        → History (record ch { client_fd = fd }) used accepted ran
    registers :
        (controller : ℕ) (ctx : RpcCallLifetime M) {ch ch' : Channel M} {used : ℕ}
        {accepted ran : List ℕ}
        → register_call controller ctx ch ≡ ok ch'
        → History ch used accepted ran
        → History ch' used accepted ran
    accepts :
        (controller : ℕ) (service_name method_name : String) (fd : ℕ) (life : RpcCallLifetime M)
        {ch : Channel M} {used : ℕ} {accepted ran : List ℕ}
        → ch.client_fd ≡ some fd
        → find_key controller ch.rpc_call_lifetime ≡ some life
        → History ch used accepted ran
        → History
            (call_method messages controller service_name method_name ch).channel
            (suc used)
            (life.done ∷ accepted)
            ran
    refuses :
        (controller : ℕ) (service_name method_name : String) {ch : Channel M} {used : ℕ}
        {accepted ran : List ℕ}
        → (ch.client_fd ≡ none) ⊎ (find_key controller ch.rpc_call_lifetime ≡ none)
        → History ch used accepted ran
        → History
            (call_method messages controller service_name method_name ch).channel
            (suc used)
            accepted
            ran
    completes :
        (request_id : ℕ) (payload : List ℕ) {ch : Channel M} {used : ℕ} {accepted ran : List ℕ}
        → History ch used accepted ran
        → History
            (complete_response messages request_id payload ch).channel
            used
            accepted
            ((complete_response messages request_id payload ch).done ++ ran)
    fails :
        {ch : Channel M} {used : ℕ} {accepted ran : List ℕ}
        → History ch used accepted ran
        → History (fail_all_pending ch).channel used accepted ((fail_all_pending ch).done ++ ran)

  -- The ids of the pending calls have been handed out, and each accepted call is pending or answered.
  record Balanced (ch : Channel M) (used : ℕ) (accepted ran : List ℕ) : Type 0 where
    ids : ch.next_request_id ≤ used
    old : All (λ e. e.0 < ch.next_request_id) ch.pendings
    balance : (d : ℕ) → count d ran + count d (dones ch.pendings) ≡ count d accepted

  channel-send_or_fail :
      (controller : ℕ) (ch : Channel M) (wire : Option (List ℕ))
      → (send_or_fail messages controller ch wire).channel ≡ ch
  channel-send_or_fail controller ch none = refl
  channel-send_or_fail controller ch (some wire) = refl

  channel-call_method :
      (controller : ℕ) (service_name method_name : String) (fd : ℕ) (life : RpcCallLifetime M)
      (ch : Channel M)
      → ch.client_fd ≡ some fd
      → find_key controller ch.rpc_call_lifetime ≡ some life
      → (call_method messages controller service_name method_name ch).channel
        ≡ add_pending controller ch.next_request_id life (fetch_add ch)
  unfolding call_method
  channel-call_method controller service_name method_name fd life ch c f =
      let after = add_pending controller ch.next_request_id life (fetch_add ch) in
      let wire = request_bytes messages ch.next_request_id service_name method_name life.request in
      let on = call_on messages controller service_name method_name ch in
      let of = call_registered messages controller service_name method_name ch in
      let e : on ch.client_fd ≡ send_or_fail messages controller after wire = ap on c ∙ ap of f in
      ap (λ r. r.channel) e ∙ channel-send_or_fail controller after wire

  accepts-Balanced :
      (controller : ℕ) (service_name method_name : String) (fd : ℕ) (life : RpcCallLifetime M)
      (ch : Channel M) (used : ℕ) (accepted ran : List ℕ)
      → suc used < 2 ^ 64
      → ch.client_fd ≡ some fd
      → find_key controller ch.rpc_call_lifetime ≡ some life
      → Balanced ch used accepted ran
      → Balanced
          (call_method messages controller service_name method_name ch).channel
          (suc used)
          (life.done ∷ accepted)
          ran
  unfolding add_pending
  accepts-Balanced controller service_name method_name fd life ch used accepted ran lt c f b =
      let next = fetch_add ch in
      let after = add_pending controller ch.next_request_id life next in
      let e : (call_method messages controller service_name method_name ch).channel ≡ after =
        channel-call_method controller service_name method_name fd life ch c f in
      let ids = b.ids in
      let fresh = find_key_fresh ch.next_request_id ch.pendings b.old in
      let call : PendingCall = record {
        controller = life.controller;
        response = life.response;
        done = life.done;
        request_id = ch.next_request_id;
      } in
      let added : after.pendings ≡ (ch.next_request_id, call) ∷ ch.pendings =
        insert_key_fresh ch.next_request_id call ch.pendings fresh in
      subst (λ z. Balanced z (suc used) (life.done ∷ accepted) ran) (sym e)
        (record {
          ids = omega arith;
          old =
              subst (λ z. All (λ e. e.0 < after.next_request_id) z) (sym added)
                (
                  omega arith,
                  All-mono (λ (e : ℕ × PendingCall). e.0 < ch.next_request_id)
                      (λ e. e.0 < after.next_request_id) ch.pendings (λ e p. omega arith) b.old,
                );
          balance =
              λ d. let h = b.balance d in let a = ap (λ z. count d (dones z)) added in omega arith;
        })

  complete-Balanced :
      (request_id : ℕ) (payload : List ℕ) (ch : Channel M) (used : ℕ) (accepted ran : List ℕ)
      → Balanced ch used accepted ran
      → Balanced
          (complete_response messages request_id payload ch).channel
          used
          accepted
          ((complete_response messages request_id payload ch).done ++ ran)
  unfolding complete_response
  complete-Balanced request_id payload ch used accepted ran b =
      elim (Option-cases (find_key request_id ch.pendings)) [
        | inl e ↦ rw (complete_response, e) b
        | inr (p, e) ↦
            rw (complete_response, e)
              (record {
                ids = b.ids;
                old = erase_key-All ch.next_request_id request_id ch.pendings b.old;
                balance = λ d.
                    let h = b.balance d in
                    let k = count-erase_key d request_id p ch.pendings e in omega arith;
              })
      ]

  refuses-Balanced :
      (controller : ℕ) (service_name method_name : String) (ch : Channel M) (used : ℕ)
      (accepted ran : List ℕ)
      → suc used < 2 ^ 64
      → (ch.client_fd ≡ none) ⊎ (find_key controller ch.rpc_call_lifetime ≡ none)
      → Balanced ch used accepted ran
      → Balanced
          (call_method messages controller service_name method_name ch).channel
          (suc used)
          accepted
          ran
  unfolding call_method
  refuses-Balanced controller service_name method_name ch used accepted ran lt why b =
      let ids = b.ids in
      let on = call_on messages controller service_name method_name ch in
      let same : Balanced ch (suc used) accepted ran = record {
        ids = omega arith;
        old = b.old;
        balance = b.balance;
      } in
      let next : Balanced (fetch_add ch) (suc used) accepted ran = record {
        ids = omega arith;
        old =
            All-mono (λ (e : ℕ × PendingCall). e.0 < ch.next_request_id)
              (λ e. e.0 < (fetch_add ch).next_request_id) ch.pendings (λ e p. omega arith) b.old;
        balance = b.balance;
      } in
      let to = λ (r : CallResult M). Balanced r.channel (suc used) accepted ran in
      elim (Option-cases ch.client_fd) [
        | inl e ↦ subst to (sym (ap on e)) same
        | inr (fd, e) ↦ elim why [
          | inl e' ↦ subst to (sym (ap on e')) same
          | inr f ↦
              subst to
                (sym (
                  ap on e ∙ ap (call_registered messages controller service_name method_name ch) f))
                next
        ]
      ]

  registers-Balanced :
      (controller : ℕ) (ctx : RpcCallLifetime M) (ch ch' : Channel M) (used : ℕ)
      (accepted ran : List ℕ)
      → register_call controller ctx ch ≡ ok ch'
      → Balanced ch used accepted ran
      → Balanced ch' used accepted ran
  unfolding register_call
  registers-Balanced controller ctx ch ch' used accepted ran h b =
      elim (Option-cases (find_key controller ch.rpc_call_lifetime)) [
        | inr (old, e) ↦ absurd (ground arith)
        | inl e ↦
            let same : record ch { rpc_call_lifetime = (controller, ctx) ∷ ch.rpc_call_lifetime }
                ≡ ch' =
              ground arith in
            subst (λ z. Balanced z used accepted ran) same
              (record { ids = b.ids; old = b.old; balance = b.balance })
      ]

  History-Balanced :
      (ch : Channel M) (used : ℕ) (accepted ran : List ℕ)
      → used < 2 ^ 64
      → History ch used accepted ran
      → Balanced ch used accepted ran
  unfolding fail_all_pending
  History-Balanced ch used accepted ran lt (opened fd) = record {
    ids = omega arith;
    old = tt;
    balance = λ d. refl;
  }
  History-Balanced ch used accepted ran lt (reconnects fd h) =
      let b = History-Balanced _ used accepted ran lt h in
      record { ids = b.ids; old = b.old; balance = b.balance }
  History-Balanced _ _ _ _ lt (registers controller ctx {ch} {ch'} {used} {accepted} {ran} e h) =
      registers-Balanced controller ctx ch ch' used accepted ran e
        (History-Balanced ch used accepted ran lt h)
  History-Balanced _ _ _ _ lt
        (accepts controller service_name method_name fd life {ch} {used} {accepted} {ran} c f h) =
      accepts-Balanced controller service_name method_name fd life ch used accepted ran lt c f
        (History-Balanced ch used accepted ran (omega arith) h)
  History-Balanced _ _ _ _ lt
        (refuses controller service_name method_name {ch} {used} {accepted} {ran} why h) =
      refuses-Balanced controller service_name method_name ch used accepted ran lt why
        (History-Balanced ch used accepted ran (omega arith) h)
  History-Balanced _ _ _ _ lt (completes request_id payload {ch} {used} {accepted} {ran} h) =
      complete-Balanced request_id payload ch used accepted ran
        (History-Balanced ch used accepted ran lt h)
  History-Balanced _ _ _ _ lt (fails {ch} {used} {accepted} {ran} h) =
      let b = History-Balanced ch used accepted ran lt h in
      record {
        ids = b.ids;
        old = tt;
        balance = λ d.
            let e = b.balance d in let a = count-append d (dones ch.pendings) ran in omega arith;
      }

  -- Over the life of a connection that hands out less than 2 ^ 64 request ids, the closure of every
  -- accepted call is run once or the call still waits, and never both: a closure has been run and
  -- waits as often together as calls with it were accepted. When `failAllPending` has run, each was
  -- run as often as calls with it were accepted.
  pub History-answered :
      (ch : Channel M) (used : ℕ) (accepted ran : List ℕ)
      → used < 2 ^ 64
      → History ch used accepted ran
      → (d : ℕ)
      → (count d ran + count d (dones ch.pendings) ≡ count d accepted)
        × (count d ((fail_all_pending ch).done ++ ran) ≡ count d accepted)
  unfolding fail_all_pending
  History-answered ch used accepted ran lt h d =
      let b = (History-Balanced ch used accepted ran lt h).balance d in
      (b, let a = count-append d (dones ch.pendings) ran in omega arith)
