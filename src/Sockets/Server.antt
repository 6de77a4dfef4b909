-- ===== src/Sockets/Server.antt =====
-- ch06/common/tcp_server.cpp: the connections of a server.
pub mod Lists
pub mod Poll
pub mod Serve
mod Tests
use building_low_latency_app.Prelude.{
  ℕ, Bool, true, false, Option, none, some, List, [], ◌∷◌, ◌++◌, ◌||◌, ◌&&◌, if◌then◌else◌, ◌==◌,
  leb, update,
}
use building_low_latency_app.Prelude.Lists.{length}
use building_low_latency_app.Prelude.Result.{Result, ok, abort, ◌>>=◌, ◌>>◌, assert, undefined}
use building_low_latency_app.Sockets.Tcp.{TcpSocket, Round, Callback, send_and_recv}

-- A connection, by its file descriptor.
abbrev pub Socket : Type 0
Socket = ℕ

-- The sockets themselves, the memory behind the pointers, are in `sockets`.
pub record TcpServer : Type 0 where
  pub receive_sockets : List Socket
  pub send_sockets : List Socket
  pub sockets : Socket → TcpSocket

-- An entry of `events_`: its socket, none for the listener, and its flags `EPOLLIN`, `EPOLLOUT` and
-- `EPOLLERR | EPOLLHUP`.
pub record Event : Type 0 where
  pub socket : Option Socket
  pub readable : Bool
  pub writable : Bool
  pub failed : Bool

-- A connection that `accept` returns, and whether `setNonBlocking` and `setNoDelay`, and
-- `addToEpollList`, succeed on it.
pub record Accepted : Type 0 where
  pub fd : Socket
  pub configured : Bool
  pub watched : Bool

-- `std::find(…) != end()`
abbrev pub found : Socket → List Socket → Bool
found s [] = false
found s (x ∷ xs) = (x == s) || found s xs

-- `if (std::find(…) == end()) push_back(socket)`
unfoldable pub add_socket : Socket → List Socket → List Socket
add_socket s xs = if found s xs then xs else xs ++ (s ∷ [])

-- The same, if the event has a flag.
unfoldable pub add_if : Bool → Socket → List Socket → List Socket
add_if flag s xs = if flag then add_socket s xs else xs

-- The body of the loop of `poll` over the events, for an event of a connection.
unfoldable pub on_socket : Event → Socket → TcpServer → TcpServer
on_socket e s t = record t {
  receive_sockets = add_if e.failed s (add_if e.readable s t.receive_sockets);
  send_sockets = add_if e.writable s t.send_sockets;
}

-- The body of that loop; the `Bool` is `have_new_connection`. An event of the listener that is not
-- readable adds the listener's own socket, which `listener` names.
unfoldable pub on_event : Socket → Event → Bool × TcpServer → Bool × TcpServer
unfolding on_socket
on_event listener e (new, t) = elim e.socket [
  | none ↦ if e.readable then (true, t) else (new, on_socket e listener t)
  | some s ↦ (new, on_socket e s t)
]

unfoldable pub on_events : Socket → List Event → Bool × TcpServer → Bool × TcpServer
unfolding on_event
on_events listener [] state = state
on_events listener (e ∷ es) state = on_events listener es (on_event listener e state)

abbrev pub new_socket : TcpSocket
new_socket = record { outbound_data = []; inbound_data = []; wire = [] }

-- The body of the loop of `poll` that accepts connections.
unfoldable pub accept_one : Accepted → TcpServer → Result TcpServer
accept_one c t =
    assert c.configured
    >> (assert c.watched
        >> ok (record t {
          sockets = update t.sockets c.fd new_socket;
          receive_sockets = add_socket c.fd t.receive_sockets;
        }))

-- That loop. `accept` returns the connections of the list, then -1.
unfoldable pub accept_each : List Accepted → TcpServer → Result TcpServer
accept_each [] t = ok t
accept_each (c ∷ cs) t = accept_one c t >>= accept_each cs

abbrev pub events_size : ℕ
events_size = 1024

-- `poll`. `epoll_wait` fills the array with the events, and the kernel has these connections to accept.
unfoldable pub poll : Socket → List Event → List Accepted → TcpServer → Result TcpServer
poll listener events accepted t =
    let r = on_events listener events (false, t) in
    let next = accept_each accepted r.1 in
    if leb (length events) events_size then (if r.0 then next else ok r.1) else abort undefined

module _ {A : Type 0} (callback : Socket → Callback A) where
  -- `sendAndRecv` of a socket, in the server.
  unfoldable pub serve_one : Round → Socket → TcpServer × A → Result (Bool × TcpServer × A)
  serve_one round s (t, a) = send_and_recv (callback s) round (t.sockets s, a) >>= λ r.
      ok (r.0, record t { sockets = update t.sockets s r.1 }, r.2)

  -- One of the two loops of `sendAndRecv` over the sockets; the `Bool` is `recv`.
  unfoldable pub serve_each :
      (Socket → Round) → List Socket → Bool × TcpServer × A → Result (Bool × TcpServer × A)
  serve_each rounds [] state = ok state
  serve_each rounds (s ∷ ss) (recv, t, a) =
      serve_one (rounds s) s (t, a) >>= λ r. serve_each rounds ss (recv || r.0, r.1, r.2)

  -- `sendAndRecv` of the server, `finished` its `recev_finished_callback_`. The kernel answers the
  -- sockets of the first loop with `receiving`, those of the second with `sending`.
  unfoldable pub server_send_and_recv :
      (A → A) → (Socket → Round) → (Socket → Round) → TcpServer × A → Result (TcpServer × A)
  server_send_and_recv finished receiving sending (t, a) = do
    r ← serve_each receiving t.receive_sockets (false, t, a)
    let b = if r.0 then finished r.2 else r.2
    u ← serve_each sending r.1.send_sockets (false, r.1, b)
    ok (u.1, u.2)
