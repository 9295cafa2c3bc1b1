-- ===== src/Rpc/Provider.antt =====
-- The server's side of the remote calls: `OnMessage` of src/rpc/rpcprovider.cc.
use kvcache_raft.Common.{
  ℕ, zero, suc, ◌+◌, ◌*◌, String, List, [], ◌∷◌, Option, none, some, Bool, true, false, ◌||◌, ltb,
  ◌==◌, if◌then◌else◌, length, take, drop, Outcome, ok, fault, out_of_fuel, ◌>>=◌,
}
use kvcache_raft.Rpc.Varint.{read_ok, need_more, bad_format, try_read_varint32}

-- `kMaxFrameSize`, 16 MB
abbrev pub max_frame_size : ℕ
max_frame_size = 16 * 1024 * 1024

-- `RPC::RpcRequestFrame`
pub record RequestFrame : Type 0 where
  pub request_id : ℕ
  pub service_name : String
  pub method_name : String
  pub payload : List ℕ

-- `RpcCallContext` of a call that is scheduled, with the parsed request.
pub record RpcCallContext (A : Type 0) : Type 0 where
  pub request_id : ℕ
  pub service_name : String
  pub method_name : String
  pub request : A

-- What the generated code offers: `ParseFromString` of a frame, and for a service and a method, if
-- they are registered, `ParseFromString` of its requests.
pub record Services (A : Type 0) : Type 0 where
  pub parse_frame : List ℕ → Option RequestFrame
  pub service_map : String → Option (String → Option (List ℕ → Option A))

-- The frame at the front of the buffer, and what is left behind it.
pub data NextFrame : Type 0 where
  incomplete invalid : NextFrame
  frame : (body left : List ℕ) → NextFrame

unfoldable pub sized_frame : ℕ → ℕ → List ℕ → NextFrame
sized_frame size varint_len buffer =
    if (size == 0) || ltb max_frame_size size
    then invalid
    else if ltb (length buffer) (varint_len + size)
    then incomplete
    else frame (take size (drop varint_len buffer)) (drop size (drop varint_len buffer))

unfoldable pub next_frame : List ℕ → NextFrame
next_frame buffer = elim (try_read_varint32 buffer) [
  | need_more ↦ incomplete
  | bad_format ↦ invalid
  | read_ok size varint_len ↦ sized_frame size varint_len buffer
]

-- What `OnMessage` has done: the calls it has scheduled, the buffer it leaves, and whether it has
-- left the connection open.
pub record Served (A : Type 0) : Type 0 where
  pub calls : List (RpcCallContext A)
  pub left : List ℕ
  pub is_open : Bool

-- One frame: it does not parse, it names nothing that is registered or its request does not parse,
-- or it becomes a call.
pub data Handled (A : Type 0) : Type 0 where
  unparsable skipped : Handled A
  called : RpcCallContext A → Handled A

module _ {A : Type 0} (services : Services A) where
  unfoldable pub parse_request : RequestFrame → Option (List ℕ → Option A) → Handled A
  parse_request f none = skipped
  parse_request f (some parse) = elim (parse f.payload) [
    | none ↦ skipped
    | some a ↦ called (record {
      request_id = f.request_id;
      service_name = f.service_name;
      method_name = f.method_name;
      request = a;
    })
  ]

  unfoldable pub handle_frame : List ℕ → Handled A
  handle_frame body = elim (services.parse_frame body) [
    | none ↦ unparsable
    | some f ↦ elim (services.service_map f.service_name) [
      | none ↦ skipped
      | some method_map ↦ parse_request f (method_map f.method_name)
    ]
  ]

  -- The loop of `OnMessage`.
  unfoldable pub serve : ℕ → List ℕ → Outcome (Served A)
  serve zero buffer = fault out_of_fuel
  serve (suc n) buffer = elim (next_frame buffer) [
    | incomplete ↦ ok (record { calls = []; left = buffer; is_open = true })
    | invalid ↦ ok (record { calls = []; left = buffer; is_open = false })
    | frame body left ↦ elim (handle_frame body) [
      | unparsable ↦ ok (record { calls = []; left = left; is_open = false })
      | skipped ↦ serve n left
      | called c ↦ serve n left >>= λ s. ok (record s { calls = c ∷ s.calls })
    ]
  ]

  unfoldable pub on_message : List ℕ → Outcome (Served A)
  on_message buffer = serve (suc (length buffer)) buffer
