-- ===== src/Rpc/RoundTrip.antt =====
-- From the client to the server: what `CallMethod` of src/rpc/MrpcchannelMultiReq.cc puts on the wire
-- is what `OnMessage` of src/rpc/rpcprovider.cc takes off it.
use kvcache_raft.Common.{
  ℕ, zero, suc, ◌+◌, ◌%◌, ◌^◌, ◌≤◌, ◌<◌, ◌≡◌, ◌≢◌, inl, inr, refl, ap, ◌∙◌, List, [], ◌∷◌, ◌++◌,
  append_assoc, true, false, ◌||◌, ltb, ◌==◌, arith, All, length, length-append, take-append_self,
  drop-append_self, ok,
}
use kvcache_raft.Rpc.Varint.{
  try_read_varint32, read_from, append_varint32, try_read_varint32-append_varint32,
}
use kvcache_raft.Rpc.Provider.{
  max_frame_size, Services, RpcCallContext, frame, incomplete, sized_frame, next_frame, Served,
  Handled, unparsable, called, handle_frame, serve, on_message,
}
use kvcache_raft.Rpc.Stream.{
  Handled-cases, serve-incomplete, serve-skipped, serve-called, on_message-serve,
}

-- The bytes of one frame; `write_varint32` is that of protobuf's CodedOutputStream.
unfoldable pub wire_string : (ℕ → List ℕ) → List ℕ → List ℕ
wire_string write_varint32 frame_str = write_varint32 (length frame_str % 2 ^ 32) ++ frame_str

abbrev pub wire_strings : (ℕ → List ℕ) → List (List ℕ) → List ℕ
wire_strings write_varint32 [] = []
wire_strings write_varint32 (b ∷ bs) =
    wire_string write_varint32 b ++ wire_strings write_varint32 bs

sized_frame_all :
    (bytes body rest : List ℕ)
    → 0 < length body
    → length body ≤ max_frame_size
    → sized_frame (length body) (length bytes) (bytes ++ (body ++ rest)) ≡ frame body rest
unfolding sized_frame
sized_frame_all bytes body rest pos le =
    let ok_size : ((length body == 0) || ltb max_frame_size (length body)) ≡ false = ground arith in
    let l1 = length-append bytes (body ++ rest) in
    let l2 = length-append body rest in
    let there : ltb (length (bytes ++ (body ++ rest))) (length bytes + length body) ≡ false =
      ground arith in
    let d = drop-append_self bytes (body ++ rest) in
    let t = take-append_self body rest in
    let u = drop-append_self body rest in rw (ok_size, there, d, t, u)

next_frame_nil : next_frame [] ≡ incomplete
unfolding next_frame try_read_varint32 read_from
next_frame_nil = refl

module _ (write_varint32 : ℕ → List ℕ)
    (writes : (v : ℕ) → v < 2 ^ 32 → write_varint32 v ≡ append_varint32 v) where
  next_frame-wire_string :
      (body rest : List ℕ)
      → 0 < length body
      → length body ≤ max_frame_size
      → next_frame (wire_string write_varint32 body ++ rest) ≡ frame body rest
  unfolding next_frame wire_string
  next_frame-wire_string body rest pos le =
      let small : length body % 2 ^ 32 ≡ length body = omega arith in
      let w : write_varint32 (length body % 2 ^ 32) ≡ append_varint32 (length body) =
        ap write_varint32 small ∙ writes (length body) (omega arith) in
      let whole : (write_varint32 (length body % 2 ^ 32) ++ body) ++ rest
          ≡ append_varint32 (length body) ++ (body ++ rest) =
        append_assoc (write_varint32 (length body % 2 ^ 32)) body rest
        ∙ ap (λ z. z ++ (body ++ rest)) w in
      let read = try_read_varint32-append_varint32 (body ++ rest) (length body) (omega arith) in
      let at_front : next_frame (append_varint32 (length body) ++ (body ++ rest))
          ≡ frame body rest =
        rw (next_frame, read) (sized_frame_all (append_varint32 (length body)) body rest pos le) in
      ap next_frame whole ∙ at_front

  wire_string_len : (body : List ℕ) → 0 < length body → 0 < length (wire_string write_varint32 body)
  unfolding wire_string
  wire_string_len body pos =
      let size = length-append (write_varint32 (length body % 2 ^ 32)) body in omega arith

  module _ {A : Type 0} (services : Services A) where
    -- The calls that frames ask for, one by one.
    abbrev pub call_of : Handled A → List (RpcCallContext A)
    call_of (called c) = c ∷ []
    call_of _ = []

    abbrev pub calls_of : List (List ℕ) → List (RpcCallContext A)
    calls_of [] = []
    calls_of (b ∷ bs) = call_of (handle_frame services b) ++ calls_of bs

    -- A frame that the server takes: not empty, not too long, and one that parses.
    abbrev pub Acceptable : List ℕ → Type 0
    Acceptable b =
        (0 < length b) × (length b ≤ max_frame_size) × (handle_frame services b ≢ unparsable)

    abbrev all_served : List (List ℕ) → Served A
    all_served bs = record { calls = calls_of bs; left = []; is_open = true }

    serve-wire_strings :
        (n : ℕ) (bs : List (List ℕ))
        → length (wire_strings write_varint32 bs) < n
        → All Acceptable bs
        → serve services n (wire_strings write_varint32 bs) ≡ ok (all_served bs)
    serve-wire_strings zero bs lt a = absurd (omega arith)
    serve-wire_strings (suc n) [] lt a = serve-incomplete services n [] next_frame_nil
    serve-wire_strings (suc n) (b ∷ bs) lt a =
        let e = next_frame-wire_string b (wire_strings write_varint32 bs) a.0.0 a.0.1 in
        let size = length-append (wire_string write_varint32 b) (wire_strings write_varint32 bs) in
        let pos = wire_string_len b a.0.0 in
        let ih = serve-wire_strings n bs (omega arith) a.1 in
        elim (Handled-cases services (handle_frame services b)) [
          | inl h ↦ absurd (a.0.2 h)
          | inr (inl h) ↦
              serve-skipped services n (wire_strings write_varint32 (b ∷ bs)) b
                (wire_strings write_varint32 bs) e h
              ∙ ih
              ∙ (rw (h))
          | inr (inr (c, h)) ↦
              serve-called services n (wire_strings write_varint32 (b ∷ bs)) b
                (wire_strings write_varint32 bs) e c h
              ∙ (rw (ih, h))
        ]

    -- The server schedules the calls of all frames that the client has written, in their order, leaves
    -- nothing in the buffer and keeps the connection open, when protobuf writes the length as
    -- `appendVarint32` does, and each frame has at most 16 MB, is not empty and parses.
    pub on_message-wire_strings :
        (bs : List (List ℕ))
        → All Acceptable bs
        → on_message services (wire_strings write_varint32 bs) ≡ ok (all_served bs)
    on_message-wire_strings bs a =
        let n = suc (length (wire_strings write_varint32 bs)) in
        on_message-serve services n (wire_strings write_varint32 bs) (omega arith)
        ∙ serve-wire_strings n bs (omega arith) a
