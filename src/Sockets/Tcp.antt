-- ===== src/Sockets/Tcp.antt =====
-- ch06/common/tcp_socket.cpp: the buffers of a TCP connection.
pub mod Send
pub mod Stream
pub mod Gateway
mod Tests
use building_low_latency_app.Prelude.{
  ℕ, ◌+◌, ◌*◌, Bool, true, false, Option, none, some, List, [], ◌∷◌, ◌++◌, if◌then◌else◌, leb,
  is_some,
}
use building_low_latency_app.Prelude.Lists.{length, take}
use building_low_latency_app.Prelude.Result.{Result, ok, abort, ◌>>=◌, undefined}
use building_low_latency_app.Framing.{Bytes}

abbrev pub tcp_buffer_size : ℕ
tcp_buffer_size = 64 * 1024 * 1024

-- The valid bytes of the two buffers. `wire` is what the kernel took to send.
pub record TcpSocket : Type 0 where
  pub outbound_data : Bytes
  pub inbound_data : Bytes
  pub wire : Bytes

-- `send`. Nothing checks that the bytes fit.
unfoldable pub send : Bytes → TcpSocket → Result TcpSocket
send bytes s =
    if leb (length s.outbound_data + length bytes) tcp_buffer_size
    then ok (record s { outbound_data = s.outbound_data ++ bytes })
    else abort undefined

abbrev pub nanos_to_micros : ℕ
nanos_to_micros = 1000

abbrev pub nanos_to_secs : ℕ
nanos_to_secs = nanos_to_micros * 1000 * 1000

-- `timeval`: seconds and microseconds
abbrev pub Timeval : Type 0
Timeval = ℕ × ℕ

-- What the kernel does in a call of `sendAndRecv`: the bytes that `recvmsg` reads, if it reads some,
-- with the packet's time, if it has one; and how many bytes `send` takes, 0 if it fails.
pub record Round : Type 0 where
  pub arrival : Option (Bytes × Option Timeval)
  pub accepted : ℕ

-- `kernel_time`, in nanoseconds
abbrev pub kernel_time : Option Timeval → ℕ
kernel_time none = 0
kernel_time (some (secs, micros)) = secs * nanos_to_secs + micros * nanos_to_micros

-- `recv_callback_`: what it leaves in the inbound buffer, and what it does to the rest of the program.
abbrev pub Callback : Type 0 → Type 0
Callback A = ℕ → Bytes → A → Result (Bytes × A)

-- The first part of `sendAndRecv`.
unfoldable pub receive :
    {A : Type 0}
    → Callback A
    → Option (Bytes × Option Timeval)
    → TcpSocket × A
    → Result (TcpSocket × A)
receive callback none (s, a) = ok (s, a)
receive callback (some (bytes, t)) (s, a) =
    callback (kernel_time t) (s.inbound_data ++ bytes) a >>= λ r.
    ok (record s { inbound_data = r.0 }, r.1)

-- `sendAndRecv`
unfoldable pub send_and_recv :
    {A : Type 0} → Callback A → Round → TcpSocket × A → Result (Bool × TcpSocket × A)
unfolding receive
send_and_recv callback round state = receive callback round.arrival state >>= λ r. ok (
  is_some round.arrival,
  record r.0 { outbound_data = []; wire = r.0.wire ++ take round.accepted r.0.outbound_data },
  r.1,
)
