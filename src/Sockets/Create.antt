-- ===== src/Sockets/Create.antt =====
-- ch06/common/socket_utils.h: how a socket is made. What the system calls answer is a parameter.
pub mod Calls
mod Tests
use building_low_latency_app.Prelude.{
  ℕ, Bool, true, false, not, ◌&&◌, Option, none, some, List, [], ◌∷◌, ◌++◌, if◌then◌else◌,
}
use building_low_latency_app.Prelude.Result.{Result, ok, abort, ◌>>=◌, ◌>>◌, assert, assertion}
use building_low_latency_app.Framing.{Bytes}
use building_low_latency_app.Texts.Decimal.{codes, to_string}
use building_low_latency_app.Texts.Fields.{render}

pub record SocketCfg : Type 0 where
  pub ip : Bytes
  pub iface : Bytes
  pub port : ℕ
  pub is_udp : Bool
  pub is_listening : Bool
  pub needs_so_timestamp : Bool

-- A `bool` is written as 1 or 0.
abbrev pub flag_to_string : Bool → Bytes
flag_to_string true = codes "1"
flag_to_string false = codes "0"

-- `SocketCfg::toString`
unfoldable pub socket_cfg_to_string : SocketCfg → Bytes
unfolding render
socket_cfg_to_string c =
    render
      (codes "SocketCfg[ip:"
        ∷ codes " iface:"
        ∷ codes " port:"
        ∷ codes " is_udp:"
        ∷ codes " is_listening_:"
        ∷ codes " needs_SO_timestamp:"
        ∷ [])
      (c.ip
        ∷ c.iface
        ∷ to_string c.port
        ∷ flag_to_string c.is_udp
        ∷ flag_to_string c.is_listening
        ∷ flag_to_string c.needs_so_timestamp
        ∷ [])
      (codes "]")

-- `connect` returns 0; fails with `EINPROGRESS`; fails otherwise.
pub data ConnectAnswer : Type 0 where
  connected in_progress refused : ConnectAnswer

-- What the kernel answers for one address. `flags` is what `fcntl(F_GETFL)` returns, none for -1, else
-- whether `O_NONBLOCK` is set. The others say whether a call succeeds.
pub record Answers : Type 0 where
  pub fd : Option ℕ
  pub flags : Option Bool
  pub set_flags : Bool
  pub no_delay : Bool
  pub connect : ConnectAnswer
  pub reuse_address : Bool
  pub bind : Bool
  pub listen : Bool
  pub so_timestamp : Bool

-- A call on a socket that was made.
pub data Call : Type 0 where
  non_blocking_set no_delay_set connect_called address_reused bound listening : ℕ → Call
  so_timestamp_set : ℕ → Call

-- `setNonBlocking`
unfoldable pub set_non_blocking : Option Bool → Bool → Bool
set_non_blocking none set = false
set_non_blocking (some true) set = true
set_non_blocking (some false) set = set

-- `rc_connect == 0 || errno == EINPROGRESS`
abbrev pub may_connect : ConnectAnswer → Bool
may_connect refused = false
may_connect _ = true

-- A call that is made under a condition, and must succeed.
unfoldable pub call : Bool → Bool → Call → Result (List Call)
call needed succeeds c = if needed then assert succeeds >> ok (c ∷ []) else ok []

-- The body of the loop of `createSocket`: the socket, and the calls made on it.
unfoldable pub open_address : SocketCfg → Answers → Result (ℕ × List Call)
unfolding call
open_address cfg k = elim k.fd [
  | none ↦ abort assertion
  | some fd ↦ do
    a ← call true (set_non_blocking k.flags k.set_flags) (non_blocking_set fd)
    b ← call (not cfg.is_udp) k.no_delay (no_delay_set fd)
    c ← call (not cfg.is_listening) (may_connect k.connect) (connect_called fd)
    d ← call cfg.is_listening k.reuse_address (address_reused fd)
    e ← call cfg.is_listening k.bind (bound fd)
    f ← call (not cfg.is_udp && cfg.is_listening) k.listen (listening fd)
    g ← call cfg.needs_so_timestamp k.so_timestamp (so_timestamp_set fd)
    ok (fd, a ++ (b ++ (c ++ (d ++ (e ++ (f ++ g))))))
]

-- The loop over the addresses: the last socket made is returned, none for -1.
unfoldable pub open_each : SocketCfg → List Answers → Option ℕ → Result (Option ℕ × List Call)
open_each cfg [] fd = ok (fd, [])
open_each cfg (k ∷ ks) fd = do
  r ← open_address cfg k
  rest ← open_each cfg ks (some r.0)
  ok (rest.0, r.1 ++ rest.1)

-- `createSocket`. `getaddrinfo` fails, or gives addresses.
unfoldable pub create_socket : SocketCfg → Option (List Answers) → Result (Option ℕ × List Call)
create_socket cfg none = abort assertion
create_socket cfg (some ks) = open_each cfg ks none
