-- ===== src/Rpc/Socket.antt =====
-- The client's reading of its socket: `recvExact`, `recvVarint32` and the frame of `recvLoop` of
-- src/rpc/MrpcchannelMultiReq.cc.
use kvcache_raft.Common.{
  ℕ, zero, suc, ◌+◌, ◌-◌, ◌*◌, ◌%◌, ◌^◌, List, [], ◌∷◌, ◌++◌, ◌||◌, ltb, leb, ◌==◌, if◌then◌else◌,
  length, take, drop,
}
use kvcache_raft.Rpc.Provider.{max_frame_size}

-- What `recv` finds: bytes, of which it takes as many as it is asked for, or that it was interrupted
-- (EINTR), that the other side has closed, or another error.
pub data SocketEvent : Type 0 where
  arrives : List ℕ → SocketEvent
  interrupted closed failed : SocketEvent

-- A value with the events that are still to come, or `false`; or the call has not returned yet.
pub data Received (A : Type 0) : Type 0 where
  received : A → List SocketEvent → Received A
  broken waiting : Received A

abbrev pub and_then : {A B : Type 0} → Received A → (A → List SocketEvent → Received B) → Received B
and_then (received a es) k = k a es
and_then broken k = broken
and_then waiting k = waiting

-- The bytes of one `recv`, with `n` asked for and `rest` the reading that goes on behind them.
unfoldable pub take_chunk : ℕ → List ℕ → List SocketEvent → Received (List ℕ) → Received (List ℕ)
take_chunk n [] es rest = broken
take_chunk n (b ∷ bs) es rest =
    if leb (length (b ∷ bs)) n
    then and_then rest (λ more es'. received ((b ∷ bs) ++ more) es')
    else received (take n (b ∷ bs)) (arrives (drop n (b ∷ bs)) ∷ es)

-- `recvExact`; a `recv` of no bytes says that the other side has closed.
unfoldable pub recv_exact : ℕ → List SocketEvent → Received (List ℕ)
recv_exact zero es = received [] es
recv_exact (suc n) [] = waiting
recv_exact (suc n) (interrupted ∷ es) = recv_exact (suc n) es
recv_exact (suc n) (closed ∷ es) = broken
recv_exact (suc n) (failed ∷ es) = broken
recv_exact (suc n) (arrives bs ∷ es) = take_chunk (suc n) bs es (recv_exact (suc n - length bs) es)

-- `recvVarint32` from round `i` on, with `n` rounds left.
unfoldable pub recv_from : ℕ → ℕ → ℕ → List SocketEvent → Received ℕ
recv_from zero i value es = broken
recv_from (suc n) i value es = and_then (recv_exact 1 es) λ bytes es'. elim bytes [
  | [] ↦ broken
  | byte ∷ more ↦
      let value' = value + byte % 128 * 2 ^ (7 * i) % 2 ^ 32 in
      let rest = recv_from n (i + 1) value' es' in
      if ltb byte 128 then received value' es' else rest
]

unfoldable pub recv_varint32 : List SocketEvent → Received ℕ
recv_varint32 es = recv_from 5 0 0 es

-- One frame of `recvLoop`, up to `ParseFromString`; `broken` closes the connection.
unfoldable pub recv_frame : List SocketEvent → Received (List ℕ)
recv_frame es =
    and_then (recv_varint32 es)
      λ size es'. if (size == 0) || ltb max_frame_size size then broken else recv_exact size es'
