-- ===== src/Sockets/Tcp/Tests.antt =====
-- Runs of a connection (ch06/common/tcp_socket.cpp).
use mathlib.Core.List.{flatten, map}
use building_low_latency_app.Prelude.{◌≡◌, none, some, true, List, [], ◌∷◌, ◌++◌, arith, refl}
use building_low_latency_app.Prelude.Lists.{take, tabulate}
use building_low_latency_app.Prelude.Result.{ok}
use building_low_latency_app.Framing.{Bytes, messages}
use building_low_latency_app.Messages.{OmClientResponse}
use building_low_latency_app.OrderGateway.{receive_responses, sizeof_om_client_response}
use building_low_latency_app.OrderGateway.Tests
use building_low_latency_app.OrderGateway.Tests.{response}
use building_low_latency_app.Sockets.Tcp.{TcpSocket, Round, Callback, send_and_recv}
use building_low_latency_app.Sockets.Tcp.Send.{send_each, Arrived, send-wire}
use building_low_latency_app.Sockets.Tcp.Stream.{rounds, stream, quiet}
use building_low_latency_app.Sockets.Tcp.Gateway
use building_low_latency_app.Sockets.Tcp.Gateway.{gateway-stream}

abbrev keep : Callback (Unit {0})
keep time bytes a = ok (bytes, a)

abbrev texts : List Bytes
texts = (1 ∷ 2 ∷ []) ∷ (3 ∷ 4 ∷ []) ∷ []

-- Two bytes arrive while four wait, of which the kernel takes three.
abbrev one_round : Round
one_round = record { arrival = some (8 ∷ 9 ∷ [], none); accepted = 3 }

send-wire_example :
    (t u : TcpSocket) × (b : Unit {0}) × (send_each texts (quiet [] []) ≡ ok t)
    × (send_and_recv keep one_round (t, tt) ≡ ok (true, u, b))
    × (u.wire ≡ [] ++ take 3 ([] ++ flatten texts))
    × (u.outbound_data ≡ [])
    × Arrived keep one_round.arrival [] tt u.inbound_data b
unfolding flatten
send-wire_example =
    send-wire keep texts one_round (quiet [] []) tt (omega arith) (λ t bytes. ((bytes, tt), refl))

-- The first byte is the sequence number.
abbrev decode : Bytes → OmClientResponse
decode [] = record { seq_num = 0; me_client_response = response 3 }
decode (n ∷ bytes) = record { seq_num = n; me_client_response = response 3 }

-- Two responses of 50 bytes, read as 30, none, and 75 bytes.
abbrev reads : List Round
reads =
    record { arrival = some (1 ∷ tabulate 29 (λ _. 0), some (5, 20)); accepted = 0 }
    ∷ record { arrival = none; accepted = 0 }
    ∷ record {
      arrival = some (tabulate 20 (λ _. 0) ++ (2 ∷ tabulate 54 (λ _. 0)), none);
      accepted = 0;
    }
    ∷ []

gateway-stream_example : rounds (Gateway.callback decode) reads (quiet [] [], Tests.gateway) ≡ (
    let cut = messages sizeof_om_client_response ([] ++ stream reads) in
    ok (quiet cut.1 [], receive_responses (map decode cut.0) Tests.gateway))
gateway-stream_example = gateway-stream decode reads [] [] Tests.gateway (omega arith)
