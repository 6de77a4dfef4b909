-- ===== src/Sockets/Create/Calls.antt =====
-- Which calls make a socket of ch06/common/socket_utils.h.
use building_low_latency_app.Prelude.{
  ℕ, ◌≡◌, Bool, true, ◌&&◌, Bool-cases, Option, none, some, is_some, List, [], ◌∷◌, ◌++◌, arith,
  refl, inl, inr, Option-cases, if◌then◌else◌,
}
use building_low_latency_app.Prelude.Result.{ok, abort, assert, assertion}
use building_low_latency_app.Sockets.Create.{
  SocketCfg, Answers, Call, set_non_blocking, may_connect, call, open_address, open_each,
  create_socket, non_blocking_set, no_delay_set, connect_called, address_reused, bound, listening,
  so_timestamp_set,
}

-- The calls for a kind of socket: a client connects; a server reuses its address and binds it, and
-- listens over TCP.
unfoldable pub calls_for : SocketCfg → ℕ → List Call
calls_for cfg fd =
    (non_blocking_set fd ∷ [])
    ++ (if cfg.is_udp then [] else no_delay_set fd ∷ [])
    ++ (if cfg.is_listening
        then address_reused fd ∷ bound fd ∷ (if cfg.is_udp then [] else listening fd ∷ [])
        else connect_called fd ∷ [])
    ++ (if cfg.needs_so_timestamp then so_timestamp_set fd ∷ [] else [])

-- Whether the calls for a kind of socket all succeed.
unfoldable pub succeeds_for : SocketCfg → Answers → Bool
succeeds_for cfg k =
    is_some k.fd
    && set_non_blocking k.flags k.set_flags
    && (if cfg.is_udp then true else k.no_delay)
    && (if cfg.is_listening
        then k.reuse_address && k.bind && (if cfg.is_udp then true else k.listen)
        else may_connect k.connect)
    && (if cfg.needs_so_timestamp then k.so_timestamp else true)

-- The sockets that are made, in order.
unfoldable pub all_for : SocketCfg → List Answers → List Call
all_for cfg [] = []
all_for cfg (k ∷ ks) = elim k.fd [ none ↦ [] | some fd ↦ calls_for cfg fd ++ all_for cfg ks ]

unfoldable pub all_succeed : SocketCfg → List Answers → Bool
all_succeed cfg [] = true
all_succeed cfg (k ∷ ks) = succeeds_for cfg k && all_succeed cfg ks

unfoldable pub last_fd : List Answers → Option ℕ → Option ℕ
last_fd [] fd = fd
last_fd (k ∷ ks) fd = last_fd ks k.fd

open_address-eq :
    (cfg : SocketCfg) (k : Answers) (fd : ℕ)
    → k.fd ≡ some fd
    → open_address cfg k
      ≡ (if succeeds_for cfg k then ok (fd, calls_for cfg fd) else abort assertion)
unfolding open_address call assert calls_for succeeds_for
open_address-eq cfg k fd e = ground arith

open_address-none :
    (cfg : SocketCfg) (k : Answers) → k.fd ≡ none → open_address cfg k ≡ abort assertion
unfolding open_address
open_address-none cfg k e = ground arith

open_each-eq :
    (cfg : SocketCfg) (ks : List Answers) (fd : Option ℕ)
    → open_each cfg ks fd
      ≡ (if all_succeed cfg ks then ok (last_fd ks fd, all_for cfg ks) else abort assertion)
unfolding open_each all_succeed last_fd all_for succeeds_for
open_each-eq cfg [] fd = refl
open_each-eq cfg (k ∷ ks) fd = elim (Option-cases k.fd) [
  | inl e ↦ rw (open_address-none cfg k e, e) refl
  | inr (s, e) ↦ elim (Bool-cases (succeeds_for cfg k)) [
    | inl h ↦ rw (open_address-eq cfg k s e, h, e, open_each-eq cfg ks (some s)) (ground arith)
    | inr h ↦ rw (open_address-eq cfg k s e, h)
  ]
]

-- `createSocket` returns when `getaddrinfo` gives addresses and every call that the kind of socket
-- needs succeeds on each of them, and stops the process otherwise. It then has made the calls of that
-- kind for each address, in order, and returns the last address's socket, none for no address.
pub create_socket_lem :
    (cfg : SocketCfg) (ks : List Answers)
    → (create_socket cfg none ≡ abort assertion)
      × (create_socket cfg (some ks)
          ≡ (if all_succeed cfg ks then ok (last_fd ks none, all_for cfg ks) else abort assertion))
unfolding create_socket
create_socket_lem cfg ks = (refl, open_each-eq cfg ks none)
