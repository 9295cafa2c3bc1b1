-- ===== src/Tests/Remote.antt =====
-- Runs of the remote calls.
use kvcache_raft.Common.{
  ℕ, ◌+◌, ◌≡◌, ◌⊎◌, refl, List, [], ◌∷◌, ◌++◌, none, some, Option, zero, ok, true, false, arith,
  length, str_eq, if◌then◌else◌,
}
use kvcache_raft.Rpc.Varint.{
  read_ok, try_read_varint32, append_varint32, append_from, read_from,
  try_read_varint32-append_varint32,
}
use kvcache_raft.Rpc.Provider.{
  Services, RequestFrame, Served, handle_frame, parse_request, on_message, serve, next_frame,
  sized_frame,
}
use kvcache_raft.Rpc.Stream.{GoesOn, Stops, on_message-append}
use kvcache_raft.Rpc.RoundTrip.{wire_string, wire_strings, on_message-wire_strings}
use kvcache_raft.Rpc.Socket.{SocketEvent, arrives, interrupted, recv_frame}
use kvcache_raft.Rpc.Arrival.{Reads, recv_frame-wire_string}
use kvcache_raft.Rpc.Pending.{
  RpcCallLifetime, Channel, Messages, register_call, call_method, fail_all_pending,
}
use kvcache_raft.Rpc.Tables.{count, dones}
use kvcache_raft.Rpc.Answers.{History, opened, registers, accepts, History-answered}

-- Every body is a frame for the one service, with the body as its payload.
abbrev services : Services (List ℕ)
services = record {
  parse_frame = λ bytes. some (record {
    request_id = length bytes;
    service_name = "raft";
    method_name = "vote";
    payload = bytes;
  });
  service_map = λ s. if str_eq s "raft" then some (λ m. some (λ p. some p)) else none;
}

-- Two calls come out of two frames.
two_frames :
    on_message services (2 ∷ (7 ∷ (8 ∷ (1 ∷ (9 ∷ (3 ∷ []))))))
    ≡ ok (record {
      calls =
          record {
            request_id = 2;
            service_name = "raft";
            method_name = "vote";
            request = 7 ∷ (8 ∷ []);
          }
          ∷ (record {
            request_id = 1;
            service_name = "raft";
            method_name = "vote";
            request = 9 ∷ [];
          }
              ∷ []);
      left = 3 ∷ [];
      is_open = true;
    })
unfolding on_message serve next_frame sized_frame try_read_varint32 read_from handle_frame
    parse_request
two_frames = refl

-- A frame of the byte 0 does not parse.
abbrev parse_unless_zero : List ℕ → Option RequestFrame
parse_unless_zero (zero ∷ rest) = none
parse_unless_zero bytes = services.parse_frame bytes

abbrev picky : Services (List ℕ)
picky = record services { parse_frame = parse_unless_zero }

-- A good frame behind the bad one stays in the buffer.
stops_at_bad_frame :
    on_message picky (1 ∷ (0 ∷ (1 ∷ (7 ∷ []))))
    ≡ ok (record { calls = []; left = 1 ∷ (7 ∷ []); is_open = false })
unfolding on_message serve next_frame sized_frame try_read_varint32 read_from handle_frame
    parse_request
stops_at_bad_frame = refl

-- The next call of `OnMessage` on the same buffer schedules it.
goes_on_behind_it :
    on_message picky (1 ∷ (7 ∷ []))
    ≡ ok (record {
      calls =
          record { request_id = 1; service_name = "raft"; method_name = "vote"; request = 7 ∷ [] }
          ∷ [];
      left = [];
      is_open = true;
    })
unfolding on_message serve next_frame sized_frame try_read_varint32 read_from handle_frame
    parse_request
goes_on_behind_it = refl

try_read_varint32-append_varint32_example :
    try_read_varint32 (append_varint32 300 ++ 9 ∷ []) ≡ read_ok 300 (length (append_varint32 300))
try_read_varint32-append_varint32_example =
    try_read_varint32-append_varint32 (9 ∷ []) 300 (omega arith)

on_message-append_example :
    (s : Served (List ℕ)) × (on_message services (2 ∷ (7 ∷ [])) ≡ ok s)
    × (GoesOn services (2 ∷ (7 ∷ [])) (8 ∷ []) s ⊎ Stops services (2 ∷ (7 ∷ [])) (8 ∷ []) s)
on_message-append_example = on_message-append services (2 ∷ (7 ∷ [])) (8 ∷ [])

on_message-wire_strings_example :
    on_message services (wire_strings append_varint32 ((7 ∷ (8 ∷ [])) ∷ ((9 ∷ []) ∷ [])))
    ≡ ok (record {
      calls =
          record {
            request_id = 2;
            service_name = "raft";
            method_name = "vote";
            request = 7 ∷ (8 ∷ []);
          }
          ∷ (record {
            request_id = 1;
            service_name = "raft";
            method_name = "vote";
            request = 9 ∷ [];
          }
              ∷ []);
      left = [];
      is_open = true;
    })
unfolding handle_frame parse_request
on_message-wire_strings_example =
    on_message-wire_strings append_varint32 (λ v h. refl) services
      ((7 ∷ (8 ∷ [])) ∷ ((9 ∷ []) ∷ []))
      (
        (omega arith, omega arith, λ e. absurd (cc)),
        ((omega arith, omega arith, λ e. absurd (cc)), tt),
      )

-- The bytes of a frame come in two chunks, with an interruption between them.
abbrev chunks : List SocketEvent
chunks = arrives (2 ∷ (7 ∷ [])) ∷ (interrupted ∷ (arrives (8 ∷ (9 ∷ [])) ∷ []))

recv_frame-wire_string_example : Reads (recv_frame chunks) (7 ∷ (8 ∷ [])) (9 ∷ [])
unfolding wire_string append_varint32 append_from
recv_frame-wire_string_example =
    recv_frame-wire_string append_varint32 (λ v h. refl) (7 ∷ (8 ∷ [])) (9 ∷ []) chunks
      (omega arith) (omega arith) refl

abbrev messages : Messages ℕ
messages = record {
  serialize = λ m. some (m ∷ []);
  serialize_frame = λ f. some f.payload;
  parse_response = λ r bytes. true;
  write_varint32 = append_varint32;
}

abbrev ctx : RpcCallLifetime ℕ
ctx = record { controller = 5; request = 1; response = 6; done = 7 }

abbrev idle : Channel ℕ
idle = record { client_fd = some 3; next_request_id = 0; rpc_call_lifetime = []; pendings = [] }

abbrev registered : Channel ℕ
registered = record idle { rpc_call_lifetime = (5, ctx) ∷ [] }

abbrev called_once : Channel ℕ
called_once = (call_method messages 5 "raft" "vote" registered).channel

once : History messages called_once 1 (7 ∷ []) []
unfolding register_call
once = accepts 5 "raft" "vote" 3 ctx refl refl (registers 5 ctx refl (opened (some 3)))

History-answered_example :
    (count 7 [] + count 7 (dones called_once.pendings) ≡ count 7 (7 ∷ []))
    × (count 7 ((fail_all_pending called_once).done ++ []) ≡ count 7 (7 ∷ []))
History-answered_example = History-answered messages called_once 1 (7 ∷ []) [] (omega arith) once 7
