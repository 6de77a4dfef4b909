-- ===== src/Sockets/Open.antt =====
-- How the sockets of ch06/common are opened: `TCPSocket::connect`, `McastSocket::init` and
-- `TCPServer::listen`. What the system calls answer is a parameter.
use building_low_latency_app.Prelude.{ℕ, Bool, true, false, Option, is_some, List, []}
use building_low_latency_app.Prelude.Result.{Result, ok, ◌>>=◌, ◌>>◌, assert}
use building_low_latency_app.Framing.{Bytes}
use building_low_latency_app.Sockets.Create.{Answers, Call, create_socket}

-- `TCPSocket::connect`
unfoldable pub connect :
    Bytes → Bytes → ℕ → Bool → Option (List Answers) → Result (Option ℕ × List Call)
connect ip iface port is_listening addresses =
    create_socket
      (record {
        ip = ip;
        iface = iface;
        port = port;
        is_udp = false;
        is_listening = is_listening;
        needs_so_timestamp = true;
      })
      addresses

-- `McastSocket::init`
unfoldable pub init :
    Bytes → Bytes → ℕ → Bool → Option (List Answers) → Result (Option ℕ × List Call)
init ip iface port is_listening addresses =
    create_socket
      (record {
        ip = ip;
        iface = iface;
        port = port;
        is_udp = true;
        is_listening = is_listening;
        needs_so_timestamp = false;
      })
      addresses

-- `TCPServer::listen`: `epoll_fd` is what `epoll_create` returns, none for a failure, and `watched`
-- whether the listener's socket can be added to it.
unfoldable pub listen :
    Option ℕ → Bytes → ℕ → Option (List Answers) → Bool → Result (Option ℕ × List Call)
unfolding connect
listen epoll_fd iface port addresses watched =
    assert (is_some epoll_fd)
    >> (connect [] iface port true addresses >>= λ r.
        assert (is_some r.0) >> (assert watched >> ok r))
