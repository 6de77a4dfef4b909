-- ===== src/Sockets/Tcp/Send.antt =====
-- What leaves a connection of ch06/common/tcp_socket.cpp.
use mathlib.Core.List.{append-nil, append_assoc, flatten}
use building_low_latency_app.Prelude.{
  ℕ, ◌+◌, ◌≤◌, ◌≡◌, Option, none, some, List, [], ◌∷◌, ◌++◌, arith, refl, ap, sym, ◌∙◌, is_some,
}
use building_low_latency_app.Prelude.Lists.{length, length-append, take}
use building_low_latency_app.Prelude.Result.{Result, ok, ◌>>=◌}
use building_low_latency_app.Framing.{Bytes}
use building_low_latency_app.Sockets.Tcp.{
  tcp_buffer_size, TcpSocket, Timeval, Round, kernel_time, send, Callback, receive, send_and_recv,
}

-- `send` of each of the messages.
unfoldable pub send_each : List Bytes → TcpSocket → Result TcpSocket
send_each [] s = ok s
send_each (m ∷ ms) s = send m s >>= send_each ms

send-eq :
    (m : Bytes) (s : TcpSocket)
    → length s.outbound_data + length m ≤ tcp_buffer_size
    → send m s ≡ ok (record s { outbound_data = s.outbound_data ++ m })
unfolding send
send-eq m s room = ground arith

send_each-eq :
    (ms : List Bytes) (s : TcpSocket)
    → length s.outbound_data + length (flatten ms) ≤ tcp_buffer_size
    → send_each ms s ≡ ok (record s { outbound_data = s.outbound_data ++ flatten ms })
unfolding send_each flatten
send_each-eq [] s room =
    ap (λ t. ok (record s { outbound_data = t })) (sym (append-nil s.outbound_data))
send_each-eq (m ∷ ms) s room =
    let next : TcpSocket = record s { outbound_data = s.outbound_data ++ m } in
    rw (send-eq m s (omega (arith, length-append m (flatten ms)))) (
      send_each-eq ms next
        (omega (arith, length-append m (flatten ms), length-append s.outbound_data m))
      ∙ ap (λ t. ok (record s { outbound_data = t })) (append_assoc s.outbound_data m (flatten ms)))

-- What the round does to the rest of the connection: with no arrival nothing, and else what the
-- callback leaves of the bytes that waited and those that came.
abbrev pub Arrived :
    {A : Type 0} → Callback A → Option (Bytes × Option Timeval) → Bytes → A → Bytes → A → Type 0
Arrived callback none inbound a left b = (left ≡ inbound) × (b ≡ a)
Arrived callback (some (bytes, t)) inbound a left b =
    callback (kernel_time t) (inbound ++ bytes) a ≡ ok (left, b)

receive-Arrived :
    {A : Type 0} (callback : Callback A) (x : Option (Bytes × Option Timeval)) (s : TcpSocket)
    (a : A)
    → ((t : ℕ) (bytes : Bytes) → (r : Bytes × A) × (callback t bytes a ≡ ok r))
    → (left : Bytes) × (b : A) × (receive callback x (s, a)
        ≡ ok (record s { inbound_data = left }, b))
      × Arrived callback x s.inbound_data a left b
unfolding receive
receive-Arrived callback none s a returns = (s.inbound_data, a, refl, (refl, refl))
receive-Arrived callback (some (bytes, t)) s a returns =
    let (r, e) = returns (kernel_time t) (s.inbound_data ++ bytes) in (r.0, r.1, rw e refl, e)

-- When all messages fit into the buffer behind what waits there, and the callback returns, the next
-- `sendAndRecv` hands what waits and the messages to the kernel as one run of bytes, in order, whether
-- or not bytes have arrived. What the kernel does not take of it is lost: the buffer is empty
-- afterwards. The inbound buffer holds what the callback leaves.
pub send-wire :
    {A : Type 0} (callback : Callback A) (ms : List Bytes) (round : Round) (s : TcpSocket) (a : A)
    → length s.outbound_data + length (flatten ms) ≤ tcp_buffer_size
    → ((t : ℕ) (bytes : Bytes) → (r : Bytes × A) × (callback t bytes a ≡ ok r))
    → (t u : TcpSocket) × (b : A) × (send_each ms s ≡ ok t)
      × (send_and_recv callback round (t, a) ≡ ok (is_some round.arrival, u, b))
      × (u.wire ≡ s.wire ++ take round.accepted (s.outbound_data ++ flatten ms))
      × (u.outbound_data ≡ [])
      × Arrived callback round.arrival s.inbound_data a u.inbound_data b
unfolding send_and_recv
send-wire callback ms round s a fits returns =
    let out = s.outbound_data ++ flatten ms in
    let t : TcpSocket = record s { outbound_data = out } in
    let (left, b, run, arrived) = receive-Arrived callback round.arrival t a returns in
    (
      t,
      record s {
        outbound_data = [];
        inbound_data = left;
        wire = s.wire ++ take round.accepted out;
      },
      b,
      send_each-eq ms s fits,
      rw run refl,
      refl,
      refl,
      arrived,
    )
