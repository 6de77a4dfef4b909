-- ===== src/Sockets/Mcast/Tests.antt =====
-- Runs of a multicast socket (ch06/common/mcast_socket.cpp).
use building_low_latency_app.Prelude.{◌≡◌, none, some, true, false, [], ◌∷◌, ◌++◌, arith, refl}
use building_low_latency_app.Prelude.Result.{ok}
use building_low_latency_app.Framing.{Bytes}
use building_low_latency_app.Sockets.Mcast.{
  McastSocket, Callback, copy, send, leave, publish, send_and_recv,
}
use building_low_latency_app.Sockets.Mcast.Publish.{waiting, send-lost}

abbrev idle : McastSocket
idle = record {
  socket_fd = some 3;
  outbound_data = λ _. 0;
  next_send_valid_index = 0;
  inbound_data = [];
  stream = [];
}

abbrev keep : Callback (Unit {0})
keep bytes a = ok (bytes, a)

abbrev update_bytes : Bytes
update_bytes = 1 ∷ 2 ∷ 3 ∷ []

send-lost_example :
    (t u : McastSocket) × (send update_bytes idle ≡ ok t)
    × (send_and_recv keep none true (t, tt) ≡ ok (false, u, tt))
    × (u.stream ≡ [] ++ ([] ∷ []))
    × (waiting u ≡ [])
send-lost_example = send-lost keep update_bytes idle tt refl (omega arith) (omega arith)

-- A socket that has received two bytes sends as many of its own three.
abbrev heard : McastSocket
heard = record idle {
  outbound_data = copy update_bytes 0 (λ _. 0);
  next_send_valid_index = 3;
  inbound_data = 7 ∷ 8 ∷ [];
}

two_sent : (publish true heard).stream ≡ (1 ∷ 2 ∷ []) ∷ []
unfolding publish copy
two_sent = refl

left : (leave idle).socket_fd ≡ none
unfolding leave
left = refl
