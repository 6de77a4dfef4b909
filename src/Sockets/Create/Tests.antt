-- ===== src/Sockets/Create/Tests.antt =====
-- Sockets made by `createSocket` (ch06/common/socket_utils.h).
use building_low_latency_app.Prelude.{◌≡◌, none, some, true, false, [], ◌∷◌, refl, if◌then◌else◌}
use building_low_latency_app.Prelude.Result.{ok, abort, assertion, assert}
use building_low_latency_app.Texts.Decimal.{codes, digits, to_string}
use building_low_latency_app.Texts.Fields.{render}
use building_low_latency_app.Sockets.Create.{
  SocketCfg, Answers, connected, refused, bound, listening, address_reused, non_blocking_set,
  no_delay_set, so_timestamp_set, call, set_non_blocking, open_address, open_each, create_socket,
  socket_cfg_to_string,
}
use building_low_latency_app.Sockets.Open.{connect, init, listen}
use building_low_latency_app.Sockets.Create.Calls.{all_succeed, all_for, last_fd, create_socket_lem}

abbrev server_cfg : SocketCfg
server_cfg = record {
  ip = codes "127.0.0.1";
  iface = codes "lo";
  port = 12345;
  is_udp = false;
  is_listening = true;
  needs_so_timestamp = true;
}

abbrev granted : Answers
granted = record {
  fd = some 3;
  flags = some false;
  set_flags = true;
  no_delay = true;
  connect = connected;
  reuse_address = true;
  bind = true;
  listen = true;
  so_timestamp = true;
}

create_socket_lem_example :
    (create_socket server_cfg none ≡ abort assertion)
    × (create_socket server_cfg (some (granted ∷ [])) ≡ (
        if all_succeed server_cfg (granted ∷ [])
        then ok (last_fd (granted ∷ []) none, all_for server_cfg (granted ∷ []))
        else abort assertion))
create_socket_lem_example = create_socket_lem server_cfg (granted ∷ [])

server_calls :
    create_socket server_cfg (some (granted ∷ []))
    ≡ ok (
      some 3,
      non_blocking_set 3
          ∷ no_delay_set 3
          ∷ address_reused 3
          ∷ bound 3
          ∷ listening 3
          ∷ so_timestamp_set 3
          ∷ [],
    )
unfolding create_socket open_each open_address call set_non_blocking assert
server_calls = refl

cfg_text :
    socket_cfg_to_string server_cfg
    ≡ codes
        "SocketCfg[ip:127.0.0.1 iface:lo port:12345 is_udp:0 is_listening_:1 needs_SO_timestamp:1]"
unfolding socket_cfg_to_string to_string digits render
cfg_text = refl

-- The listener of a server, a client that is refused, and a member of a stream.
listener_opened :
    listen (some 9) (codes "lo") 12345 (some (granted ∷ [])) true
    ≡ ok (
      some 3,
      non_blocking_set 3
          ∷ no_delay_set 3
          ∷ address_reused 3
          ∷ bound 3
          ∷ listening 3
          ∷ so_timestamp_set 3
          ∷ [],
    )
unfolding listen connect create_socket open_each open_address call set_non_blocking assert
listener_opened = refl

client_refused :
    connect
      (codes "127.0.0.1")
      (codes "lo")
      12345
      false
      (some (record granted { connect = refused } ∷ []))
    ≡ abort assertion
unfolding connect create_socket open_each open_address call set_non_blocking assert
client_refused = refl

stream_joined :
    init (codes "233.252.14.1") (codes "lo") 20000 true (some (granted ∷ []))
    ≡ ok (some 3, non_blocking_set 3 ∷ address_reused 3 ∷ bound 3 ∷ [])
unfolding init create_socket open_each open_address call set_non_blocking assert
stream_joined = refl
