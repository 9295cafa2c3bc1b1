-- ===== src/Rpc/Pending.antt =====
-- The calls of one connection that wait for their answers: `registerCall`, `CallMethod`,
-- `completeResponse` and `failAllPending` of src/rpc/MrpcchannelMultiReq.cc. Controllers, response
-- objects and closures are numbers, for their addresses.
use kvcache_raft.Common.{
  ℕ, ◌+◌, ◌%◌, ◌^◌, String, List, [], ◌∷◌, map, Option, none, some, Bool, ◌==◌, if◌then◌else◌,
  Outcome, ok, fault, exit_called,
}
use kvcache_raft.Rpc.Provider.{RequestFrame}
use kvcache_raft.Rpc.RoundTrip.{wire_string}

-- `PendingCall`
pub record PendingCall : Type 0 where
  pub controller : ℕ
  pub response : ℕ
  pub done : ℕ
  pub request_id : ℕ

-- `RpcCallLifetime`
pub record RpcCallLifetime (M : Type 0) : Type 0 where
  pub controller : ℕ
  pub request : M
  pub response : ℕ
  pub done : ℕ

-- The fields of `MrpcchannelMultiReq`; `none` is the descriptor -1.
pub record Channel (M : Type 0) : Type 0 where
  pub client_fd : Option ℕ
  pub next_request_id : ℕ
  pub rpc_call_lifetime : List (ℕ × RpcCallLifetime M)
  pub pendings : List (ℕ × PendingCall)

module _ {A : Type 0} where
  -- `find`
  abbrev pub find_key : ℕ → List (ℕ × A) → Option A
  find_key k [] = none
  find_key k (e ∷ es) = if e.0 == k then some e.1 else find_key k es

  -- `erase`
  abbrev pub erase_key : ℕ → List (ℕ × A) → List (ℕ × A)
  erase_key k [] = []
  erase_key k (e ∷ es) = if e.0 == k then es else e ∷ erase_key k es

  -- `insert`, which keeps an entry that is there.
  abbrev pub insert_key : ℕ → A → List (ℕ × A) → List (ℕ × A)
  insert_key k a es = elim (find_key k es) [ none ↦ (k, a) ∷ es | some b ↦ es ]

-- What the generated code does: `SerializePartialToString` of a request and of a frame, and
-- `ParseFromString` of a response.
pub record Messages (M : Type 0) : Type 0 where
  pub serialize : M → Option (List ℕ)
  pub serialize_frame : RequestFrame → Option (List ℕ)
  pub parse_response : ℕ → List ℕ → Bool
  pub write_varint32 : ℕ → List ℕ

-- The channel after a call, the controllers on which `SetFailed` was called, and what goes to the
-- sender.
pub record CallResult (M : Type 0) : Type 0 where
  pub channel : Channel M
  pub failed : List ℕ
  pub sent : Option (List ℕ)

-- The channel after an answer, the controllers on which `SetFailed` was called, and the closures that
-- were run.
pub record Completed (M : Type 0) : Type 0 where
  pub channel : Channel M
  pub failed : List ℕ
  pub done : List ℕ

module _ {M : Type 0} where
  unfoldable pub register_call : ℕ → RpcCallLifetime M → Channel M → Outcome (Channel M)
  register_call controller ctx ch = elim (find_key controller ch.rpc_call_lifetime) [
    | none ↦ ok (record ch { rpc_call_lifetime = (controller, ctx) ∷ ch.rpc_call_lifetime })
    | some old ↦ fault exit_called
  ]

  -- `m_nextRequset_id.fetch_add(1)`, on 64 bits.
  abbrev pub fetch_add : Channel M → Channel M
  fetch_add ch = record ch { next_request_id = (ch.next_request_id + 1) % 2 ^ 64 }

  -- The call moves from those registered to those pending.
  unfoldable pub add_pending : ℕ → ℕ → RpcCallLifetime M → Channel M → Channel M
  add_pending controller request_id life ch = record ch {
    rpc_call_lifetime = erase_key controller ch.rpc_call_lifetime;
    pendings =
        insert_key request_id
          (record {
            controller = life.controller;
            response = life.response;
            done = life.done;
            request_id = request_id;
          })
          ch.pendings;
  }

  module _ (messages : Messages M) where
    -- The bytes for the sender, if the request and its frame can be written.
    unfoldable pub request_bytes : ℕ → String → String → M → Option (List ℕ)
    request_bytes request_id service_name method_name request = elim (messages.serialize request) [
      | none ↦ none
      | some payload ↦
          elim (messages.serialize_frame (record {
            request_id = request_id;
            service_name = service_name;
            method_name = method_name;
            payload = payload;
          })) [
            | none ↦ none
            | some frame_str ↦ some (wire_string messages.write_varint32 frame_str)
          ]
    ]

    abbrev pub send_or_fail : ℕ → Channel M → Option (List ℕ) → CallResult M
    send_or_fail controller ch none = record { channel = ch; failed = controller ∷ []; sent = none }
    send_or_fail controller ch (some wire) = record { channel = ch; failed = []; sent = some wire }

    -- `CallMethod` on a connection, with a fresh request id, by what the controller is registered
    -- with.
    abbrev pub call_registered :
        ℕ → String → String → Channel M → Option (RpcCallLifetime M) → CallResult M
    call_registered controller service_name method_name ch none = record {
      channel = fetch_add ch;
      failed = controller ∷ [];
      sent = none;
    }
    call_registered controller service_name method_name ch (some life) =
        send_or_fail controller (add_pending controller ch.next_request_id life (fetch_add ch))
          (request_bytes ch.next_request_id service_name method_name life.request)

    -- `CallMethod`, by the descriptor.
    abbrev pub call_on : ℕ → String → String → Channel M → Option ℕ → CallResult M
    call_on controller service_name method_name ch none = record {
      channel = ch;
      failed = controller ∷ [];
      sent = none;
    }
    call_on controller service_name method_name ch (some fd) =
        call_registered controller service_name method_name ch
          (find_key controller ch.rpc_call_lifetime)

    unfoldable pub call_method : ℕ → String → String → Channel M → CallResult M
    call_method controller service_name method_name ch =
        call_on controller service_name method_name ch ch.client_fd

    -- `completeResponse`, and the task that it schedules.
    unfoldable pub complete_response : ℕ → List ℕ → Channel M → Completed M
    complete_response request_id payload ch = elim (find_key request_id ch.pendings) [
      | none ↦ record { channel = ch; failed = []; done = [] }
      | some p ↦ record {
        channel = record ch { pendings = erase_key request_id ch.pendings };
        failed = if messages.parse_response p.response payload then [] else p.controller ∷ [];
        done = p.done ∷ [];
      }
    ]

  -- `failAllPending`
  unfoldable pub fail_all_pending : Channel M → Completed M
  fail_all_pending ch = record {
    channel = record ch { pendings = [] };
    failed = map (λ e. e.1.controller) ch.pendings;
    done = map (λ e. e.1.done) ch.pendings;
  }
