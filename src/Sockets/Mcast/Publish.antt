-- ===== src/Sockets/Mcast/Publish.antt =====
-- What a publisher's socket of ch06/common/mcast_socket.cpp puts into the stream.
use mathlib.Core.List.{append-nil, append_assoc}
use building_low_latency_app.Prelude.{
  ℕ, suc, ◌+◌, ◌<◌, ◌≡◌, none, true, false, [], ◌∷◌, ◌++◌, arith, refl, ap, sym, ◌∙◌, update,
  ==-refl,
}
use building_low_latency_app.Prelude.Lists.{length, tabulate, tabulate-ext, tabulate-snoc}
use building_low_latency_app.Prelude.Result.{ok, assert}
use building_low_latency_app.Framing.{Bytes}
use building_low_latency_app.Sockets.Mcast.{
  McastSocket, copy, send, Callback, receive, publish, send_and_recv, mcast_buffer_size,
}

-- The bytes that wait to be sent.
abbrev pub waiting : McastSocket → Bytes
waiting s = tabulate s.next_send_valid_index s.outbound_data

tabulate-update :
    (i b : ℕ) (array : ℕ → ℕ) → tabulate (suc i) (update array i b) ≡ tabulate i array ++ (b ∷ [])
tabulate-update i b array =
    tabulate-snoc i (update array i b)
    ∙ rw (tabulate-ext i (update array i b) array (λ k less. ground arith), ==-refl i)

tabulate-copy :
    (bytes : Bytes) (i : ℕ) (array : ℕ → ℕ)
    → tabulate (i + length bytes) (copy bytes i array) ≡ tabulate i array ++ bytes
unfolding copy
tabulate-copy [] i array =
    ap (λ n. tabulate n array) (omega arith) ∙ sym (append-nil (tabulate i array))
tabulate-copy (b ∷ bs) i array =
    ap (λ n. tabulate n (copy bs (suc i) (update array i b))) (omega arith)
    ∙ tabulate-copy bs (suc i) (update array i b)
    ∙ ap (λ t. t ++ bs) (tabulate-update i b array)
    ∙ append_assoc (tabulate i array) (b ∷ []) bs

-- The socket after `send`.
abbrev pub with_bytes : Bytes → McastSocket → McastSocket
with_bytes bytes s = record s {
  outbound_data = copy bytes s.next_send_valid_index s.outbound_data;
  next_send_valid_index = s.next_send_valid_index + length bytes;
}

send-eq :
    (bytes : Bytes) (s : McastSocket)
    → s.next_send_valid_index + length bytes < mcast_buffer_size
    → send bytes s ≡ ok (with_bytes bytes s)
unfolding send assert
send-eq bytes s room = ground arith

-- While less than the buffer's size waits, `send` puts the bytes behind those that wait and touches
-- nothing else.
pub send-waiting :
    (bytes : Bytes) (s : McastSocket)
    → s.next_send_valid_index + length bytes < mcast_buffer_size
    → (t : McastSocket) × (send bytes s ≡ ok t)
      × (waiting t ≡ waiting s ++ bytes)
      × (t.inbound_data ≡ s.inbound_data)
      × (t.stream ≡ s.stream)
send-waiting bytes s room = (
  with_bytes bytes s,
  send-eq bytes s room,
  tabulate-copy bytes s.next_send_valid_index s.outbound_data,
  refl,
  refl,
)

publish-idle :
    (s : McastSocket)
    → s.inbound_data ≡ []
    → 0 < s.next_send_valid_index
    → publish true s ≡ record s { next_send_valid_index = 0; stream = s.stream ++ ([] ∷ []) }
unfolding publish
publish-idle s idle more = ground arith

-- What a publisher sends does not reach the stream: on a socket that has received nothing, a
-- `send` of bytes followed by `sendAndRecv` puts one datagram into the stream, if the kernel takes it,
-- and the datagram is empty. Nothing waits afterwards.
pub send-lost :
    {A : Type 0} (callback : Callback A) (bytes : Bytes) (s : McastSocket) (a : A)
    → s.inbound_data ≡ []
    → 0 < length bytes
    → s.next_send_valid_index + length bytes < mcast_buffer_size
    → (t u : McastSocket) × (send bytes s ≡ ok t)
      × (send_and_recv callback none true (t, a) ≡ ok (false, u, a))
      × (u.stream ≡ s.stream ++ ([] ∷ []))
      × (waiting u ≡ [])
unfolding send_and_recv receive publish
send-lost callback bytes s a idle some_bytes room =
    let t = with_bytes bytes s in
    (
      t,
      record t { next_send_valid_index = 0; stream = s.stream ++ ([] ∷ []) },
      send-eq bytes s room,
      ap (λ u. ok (false, u, a)) (publish-idle t idle (omega arith)),
      refl,
      refl,
    )
