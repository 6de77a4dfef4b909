-- ===== src/Sockets/Server/Tests.antt =====
-- Runs of a server's lists (ch06/common/tcp_server.cpp).
use building_low_latency_app.Prelude.{ℕ, ◌≡◌, none, some, true, false, List, [], ◌∷◌, arith, refl}
use building_low_latency_app.Prelude.Lists.{All}
use building_low_latency_app.Prelude.Result.{ok, ◌>>=◌, assert}
use building_low_latency_app.Sockets.Tcp.{Round, Callback, receive, send_and_recv}
use building_low_latency_app.Sockets.Server.{
  Socket, TcpServer, Event, Accepted, found, new_socket, add_socket, add_if, on_socket, on_event,
  on_events, accept_one, accept_each, poll, serve_one, serve_each, server_send_and_recv,
}
use building_low_latency_app.Sockets.Server.Lists.{IsDistinct, IsValid}
use building_low_latency_app.Sockets.Server.Poll.{Kept, Listed, is_called, poll_lem}

abbrev server : TcpServer
server = record { receive_sockets = 5 ∷ []; send_sockets = []; sockets = λ _. new_socket }

server-IsValid : IsValid server
unfolding IsDistinct
server-IsValid = ((refl, tt), tt)

-- The listener is readable, 5 is readable and writable, 6 has failed.
abbrev events : List Event
events =
    record { socket = none; readable = true; writable = false; failed = false }
    ∷ record { socket = some 5; readable = true; writable = true; failed = false }
    ∷ record { socket = some 6; readable = false; writable = false; failed = true }
    ∷ []

abbrev accepted : List Accepted
accepted = record { fd = 7; configured = true; watched = true } ∷ []

poll_lem_example :
    (u : TcpServer) × (poll 4 events accepted server ≡ ok u)
    × IsValid u
    × Kept server u
    × All (Listed u) events
    × (is_called events ≡ true → All (λ c. found c.fd u.receive_sockets ≡ true) accepted)
poll_lem_example = poll_lem 4 events accepted server (omega arith) ((refl, refl), tt) server-IsValid

-- The lists after the call.
polled :
    ◌>>=◌ {B = List Socket × List Socket}
      (poll 4 events accepted server)
      (λ u. ok (u.receive_sockets, u.send_sockets))
    ≡ ok (5 ∷ 6 ∷ 7 ∷ [], 5 ∷ [])
unfolding poll on_events on_event on_socket add_if add_socket accept_each accept_one assert
polled = refl

-- Counts the reads, and leaves nothing in the buffer.
abbrev count : Socket → Callback ℕ
count s time bytes n = ok ([], ℕ.suc n)

abbrev reads : Socket → Round
reads s = record { arrival = some (1 ∷ [], none); accepted = 0 }

abbrev silence : Socket → Round
silence s = record { arrival = none; accepted = 0 }

abbrev finish : ℕ → ℕ
finish n = 100

finished : (server_send_and_recv count finish reads silence (server, 0) >>= λ r. ok (r.1)) ≡ ok 100
unfolding server_send_and_recv serve_each serve_one send_and_recv receive
finished = refl
