-- ===== src/Rpc/Arrival.antt =====
-- The client reads the same whatever the chunks in which the bytes arrive: `recvExact`,
-- `recvVarint32` and `recvLoop` of src/rpc/MrpcchannelMultiReq.cc.
use kvcache_raft.Common.{
  ℕ, zero, suc, ◌+◌, ◌-◌, ◌*◌, ◌%◌, ◌^◌, ◌≤◌, ◌<◌, ◌≡◌, inl, inr, refl, sym, ap, ◌∙◌, List, [], ◌∷◌,
  ◌++◌, append_assoc, true, false, ◌||◌, ltb, leb, ◌==◌, arith, Bool-cases, length, take, drop,
  length-append, length-drop, take-append, drop-append, take-append_self, drop-append_self, dec_lt,
}
use kvcache_raft.Rpc.Varint.{
  read_ok, read_from, read_from_len, try_read_varint32, append_varint32,
  try_read_varint32-append_varint32,
}
use kvcache_raft.Rpc.Provider.{max_frame_size}
use kvcache_raft.Rpc.RoundTrip.{wire_string}
use kvcache_raft.Rpc.Socket.{
  SocketEvent, arrives, interrupted, closed, failed, Received, received, and_then, take_chunk,
  recv_exact, recv_from, recv_varint32, recv_frame,
}

-- The bytes that arrive before the connection ends.
abbrev pub stream : List SocketEvent → List ℕ
stream [] = []
stream (arrives [] ∷ es) = []
stream (arrives (b ∷ bs) ∷ es) = (b ∷ bs) ++ stream es
stream (interrupted ∷ es) = stream es
stream (closed ∷ es) = []
stream (failed ∷ es) = []

-- The reading returns `a`, and `rest` is still to come.
abbrev pub Reads : {A : Type 0} → Received A → A → List ℕ → Type 0
Reads r a rest = (es : List SocketEvent) × (r ≡ received a es) × (stream es ≡ rest)

take_over :
    {A : Type 0} (n : ℕ) (xs ys : List A)
    → length xs ≤ n
    → take n (xs ++ ys) ≡ xs ++ take (n - length xs) ys
take_over n [] ys h = ap (λ k. take k ys) (omega arith)
take_over zero (x ∷ xs) ys h = absurd (omega arith)
take_over (suc n) (x ∷ xs) ys h =
    ap (◌∷◌ x) (take_over n xs ys (omega arith) ∙ ap (λ k. xs ++ take k ys) (omega arith))

drop_over :
    {A : Type 0} (n : ℕ) (xs ys : List A)
    → length xs ≤ n
    → drop n (xs ++ ys) ≡ drop (n - length xs) ys
drop_over n [] ys h = ap (λ k. drop k ys) (omega arith)
drop_over zero (x ∷ xs) ys h = absurd (omega arith)
drop_over (suc n) (x ∷ xs) ys h =
    drop_over n xs ys (omega arith) ∙ ap (λ k. drop k ys) (omega arith)

stream_arrives :
    (xs : List ℕ) (es : List SocketEvent)
    → 0 < length xs
    → stream (arrives xs ∷ es) ≡ xs ++ stream es
stream_arrives [] es h = absurd (omega arith)
stream_arrives (x ∷ xs) es h = refl

module _ (n b : ℕ) (bs : List ℕ) (es : List SocketEvent) (rest : Received (List ℕ)) where
  take_chunk-more :
      n < length (b ∷ bs)
      → take_chunk n (b ∷ bs) es rest ≡ received (take n (b ∷ bs)) (arrives (drop n (b ∷ bs)) ∷ es)
  unfolding take_chunk
  take_chunk-more lt = let e : leb (length (b ∷ bs)) n ≡ false = ground arith in rw (take_chunk, e)

  take_chunk-all :
      length (b ∷ bs) ≤ n
      → take_chunk n (b ∷ bs) es rest ≡ and_then rest (λ more es'. received ((b ∷ bs) ++ more) es')
  unfolding take_chunk
  take_chunk-all le = let e : leb (length (b ∷ bs)) n ≡ true = ground arith in rw (take_chunk, e)

-- `recvExact` reads the first bytes of the stream, whatever the chunks, if there are as many.
recv_exact-stream :
    (n : ℕ) (es : List SocketEvent)
    → n ≤ length (stream es)
    → Reads (recv_exact n es) (take n (stream es)) (drop n (stream es))
unfolding recv_exact
recv_exact-stream zero es le = (es, refl, refl)
recv_exact-stream (suc n) [] le = absurd (omega arith)
recv_exact-stream (suc n) (interrupted ∷ es) le = recv_exact-stream (suc n) es le
recv_exact-stream (suc n) (closed ∷ es) le = absurd (omega arith)
recv_exact-stream (suc n) (failed ∷ es) le = absurd (omega arith)
recv_exact-stream (suc n) (arrives [] ∷ es) le = absurd (omega arith)
recv_exact-stream (suc n) (arrives (b ∷ bs) ∷ es) le =
    let c = b ∷ bs in
    let size = length-append c (stream es) in
    elim (dec_lt (suc n) (length c)) [
      | yes lt ↦
          let rest : suc n ≤ length c = omega arith in
          let d = length-drop (suc n) c in
          let e = take_chunk-more (suc n) b bs es (recv_exact (suc n - length c) es) lt in
          (
            arrives (drop (suc n) c) ∷ es,
            e
                ∙ ap (λ z. received z (arrives (drop (suc n) c) ∷ es))
                    (sym (take-append (suc n) c (stream es) rest)),
            stream_arrives (drop (suc n) c) es (omega arith)
                ∙ sym (drop-append (suc n) c (stream es) rest),
          )
      | no ge ↦
          let le' : length c ≤ suc n = omega arith in
          let (es', f, q) = recv_exact-stream (suc n - length c) es (omega arith) in
          let e = take_chunk-all (suc n) b bs es (recv_exact (suc n - length c) es) le' in
          (
            es',
            e
                ∙ ap (λ r. and_then r (λ more es''. received (c ++ more) es'')) f
                ∙ ap (λ z. received z es') (sym (take_over (suc n) c (stream es) le')),
            q ∙ sym (drop_over (suc n) c (stream es) le'),
          )
    ]

recv_from-read_from :
    (n i r : ℕ) (es : List SocketEvent) (xs : List ℕ) {v l : ℕ}
    → stream es ≡ xs
    → read_from n i r xs ≡ read_ok v l
    → Reads (recv_from n i r es) v (drop (l - i) xs)
unfolding recv_from read_from
recv_from-read_from zero i r es xs s h = absurd (cc)
recv_from-read_from (suc n) i r es [] s h = absurd (cc)
recv_from-read_from (suc n) i r es (x ∷ xs) {v} {l} s h =
    let some_left : 1 ≤ length (stream es) = let z = ap length s in omega arith in
    let (es', e, q) = recv_exact-stream 1 es some_left in
    let e' : recv_exact 1 es ≡ received (x ∷ []) es' = e ∙ ap (λ z. received (take 1 z) es') s in
    let q' : stream es' ≡ xs = q ∙ ap (drop 1) s in
    let value = r + x % 128 * 2 ^ (7 * i) % 2 ^ 32 in
    elim (Bool-cases (ltb x 128)) [
      | inl short ↦
          let v' : value ≡ v = ground arith in
          let l' : i + 1 ≡ l = ground arith in
          let one : 1 ≡ l - i = omega arith in
          (es', (rw (e', short)) ∙ ap (λ z. received z es') v', q' ∙ ap (λ k. drop k (x ∷ xs)) one)
      | inr long ↦
          let h' = rw (long) at h in
          let (es'', f, w) = recv_from-read_from n (i + 1) value es' xs q' h' in
          let len = read_from_len n (i + 1) value xs h' in
          let k : suc (l - (i + 1)) ≡ l - i = omega arith in
          (es'', (rw (e', long)) ∙ f, w ∙ ap (λ j. drop j (x ∷ xs)) k)
    ]

-- The client reads back the body of a frame, in whatever chunks the bytes arrive and with any
-- interruptions between them, and leaves what is behind it, when protobuf has written the length as
-- `appendVarint32` does, and the body has at most 16 MB and is not empty.
pub recv_frame-wire_string :
    (write_varint32 : ℕ → List ℕ)
    → ((v : ℕ) → v < 2 ^ 32 → write_varint32 v ≡ append_varint32 v)
    → (body rest : List ℕ) (es : List SocketEvent) → 0 < length body
    → length body ≤ max_frame_size
    → stream es ≡ wire_string write_varint32 body ++ rest
    → Reads (recv_frame es) body rest
unfolding recv_frame recv_varint32 wire_string try_read_varint32
recv_frame-wire_string write writes body rest es pos le s =
    let small : length body % 2 ^ 32 ≡ length body = omega arith in
    let w = ap write small ∙ writes (length body) (omega arith) in
    let bytes = append_varint32 (length body) in
    let s' : stream es ≡ bytes ++ (body ++ rest) =
      s ∙ append_assoc (write (length body % 2 ^ 32)) body rest ∙ ap (λ z. z ++ (body ++ rest)) w in
    let read = try_read_varint32-append_varint32 (body ++ rest) (length body) (omega arith) in
    let (es', e, q) = recv_from-read_from 5 0 0 es (bytes ++ (body ++ rest)) s' read in
    let q' : stream es' ≡ body ++ rest =
      q
      ∙ ap (λ k. drop k (bytes ++ (body ++ rest))) (omega arith)
      ∙ drop-append_self bytes (body ++ rest) in
    let size = length-append body rest in
    let there : length body ≤ length (stream es') = let z = ap length q' in omega arith in
    let (es'', f, p) = recv_exact-stream (length body) es' there in
    let sized : ((length body == 0) || ltb max_frame_size (length body)) ≡ false = ground arith in
    (
      es'',
      (rw (e, sized))
          ∙ f
          ∙ ap (λ z. received z es'') (ap (take (length body)) q' ∙ take-append_self body rest),
      p ∙ ap (drop (length body)) q' ∙ drop-append_self body rest,
    )
