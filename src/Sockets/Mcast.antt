-- ===== src/Sockets/Mcast.antt =====
-- ch06/common/mcast_socket.cpp: a socket of a multicast stream.
pub mod Publish
mod Tests
use building_low_latency_app.Prelude.{
  ℕ, suc, ◌+◌, ◌*◌, Bool, true, false, Option, none, some, List, [], ◌∷◌, ◌++◌, if◌then◌else◌, leb,
  ltb, update, is_some,
}
use building_low_latency_app.Prelude.Lists.{length, tabulate}
use building_low_latency_app.Prelude.Result.{Result, ok, abort, ◌>>=◌, ◌>>◌, assert, undefined}
use building_low_latency_app.Framing.{Bytes}

abbrev pub mcast_buffer_size : ℕ
mcast_buffer_size = 64 * 1024 * 1024

-- `outbound_data_` is the whole array, `inbound_data` the valid bytes. `socket_fd` is none for -1.
-- `stream` is what the kernel took: the datagrams sent.
pub record McastSocket : Type 0 where
  pub socket_fd : Option ℕ
  pub outbound_data : ℕ → ℕ
  pub next_send_valid_index : ℕ
  pub inbound_data : Bytes
  pub stream : List Bytes

-- `leave`
unfoldable pub leave : McastSocket → McastSocket
leave s = record s { socket_fd = none }

-- `memcpy`
unfoldable pub copy : Bytes → ℕ → (ℕ → ℕ) → ℕ → ℕ
copy [] i array = array
copy (b ∷ bs) i array = copy bs (suc i) (update array i b)

-- `send`. The check follows the copy.
unfoldable pub send : Bytes → McastSocket → Result McastSocket
send bytes s =
    let next = s.next_send_valid_index + length bytes in
    if leb next mcast_buffer_size
    then assert (ltb next mcast_buffer_size)
      >> ok (record s {
        outbound_data = copy bytes s.next_send_valid_index s.outbound_data;
        next_send_valid_index = next;
      })
    else abort undefined

-- `recv_callback_`: what it leaves in the inbound buffer, and what it does to the rest of the program.
abbrev pub Callback : Type 0 → Type 0
Callback A = Bytes → A → Result (Bytes × A)

-- The first part of `sendAndRecv`: the bytes of the datagram that `recv` reads, if there is one.
unfoldable pub receive :
    {A : Type 0} → Callback A → Option Bytes → McastSocket × A → Result (McastSocket × A)
receive callback none (s, a) = ok (s, a)
receive callback (some bytes) (s, a) =
    callback (s.inbound_data ++ bytes) a >>= λ r. ok (record s { inbound_data = r.0 }, r.1)

-- The second part; the kernel takes a datagram whole or not at all. The code passes
-- `next_rcv_valid_index_` for the number of bytes.
unfoldable pub publish : Bool → McastSocket → McastSocket
publish taken s =
    let datagram = tabulate (length s.inbound_data) s.outbound_data in
    if ltb 0 s.next_send_valid_index
    then record s {
      next_send_valid_index = 0;
      stream = if taken then s.stream ++ (datagram ∷ []) else s.stream;
    }
    else record s { next_send_valid_index = 0 }

-- `sendAndRecv`
unfoldable pub send_and_recv :
    {A : Type 0}
    → Callback A
    → Option Bytes
    → Bool
    → McastSocket × A
    → Result (Bool × McastSocket × A)
unfolding receive publish
send_and_recv callback arrival taken state =
    receive callback arrival state >>= λ r. ok (is_some arrival, publish taken r.0, r.1)
