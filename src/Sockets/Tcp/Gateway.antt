-- ===== src/Sockets/Tcp/Gateway.antt =====
-- The responses that ch06/trading/order_gw takes from its connection.
use mathlib.Core.Path.{fun_ext}
use mathlib.Core.List.{map}
use building_low_latency_app.Prelude.{List, ◌<◌, ◌≡◌, [], ◌∷◌, ◌++◌, arith, refl, ap, ◌∙◌}
use building_low_latency_app.Prelude.Lists.{length}
use building_low_latency_app.Prelude.Result.{Result, ok}
use building_low_latency_app.Framing.{Bytes, messages}
use building_low_latency_app.Messages.{OmClientResponse}
use building_low_latency_app.OrderGateway.{
  OrderGateway, receive_response, receive_responses, recv_callback, sizeof_om_client_response,
}
use building_low_latency_app.Sockets.Tcp.{Round, Callback}
use building_low_latency_app.Sockets.Tcp.Stream.{
  rounds, stream, handle_each, framed, quiet, handled, rounds-stream,
}

module _ (decode : Bytes → OmClientResponse) where
  -- The lambda that the constructor of `OrderGateway` gives to its socket.
  unfoldable pub callback : Callback OrderGateway
  callback time bytes g = ok (recv_callback decode bytes g)

  unfoldable handle : Bytes → OrderGateway → Result OrderGateway
  handle m g = ok (receive_response (decode m) g)

  handle_each-responses :
      (ms : List Bytes) (g : OrderGateway)
      → handle_each sizeof_om_client_response handle ms g ≡ ok (receive_responses (map decode ms) g)
  unfolding handle_each receive_responses handle
  handle_each-responses [] g = refl
  handle_each-responses (m ∷ ms) g = handle_each-responses ms (receive_response (decode m) g)

  callback-framed : callback ≡ framed sizeof_om_client_response handle
  unfolding callback framed recv_callback
  callback-framed = fun_ext λ t. fun_ext λ bytes.
      fun_ext λ g. rw (handle_each-responses (messages sizeof_om_client_response bytes).0 g)

  -- However the exchange's bytes are cut into reads, the gateway takes the responses of the bytes as a
  -- whole, in order, and keeps what follows the last one; here it has nothing to send meanwhile, and
  -- less than a response waits at the start.
  pub gateway-stream :
      (rs : List Round) (inbound wire : Bytes) (g : OrderGateway)
      → length inbound < sizeof_om_client_response
      → rounds callback rs (quiet inbound wire, g) ≡ (
          let cut = messages sizeof_om_client_response (inbound ++ stream rs) in
          ok (quiet cut.1 wire, receive_responses (map decode cut.0) g))
  unfolding handled
  gateway-stream rs inbound wire g less =
      ap (λ f. rounds f rs (quiet inbound wire, g)) callback-framed
      ∙ rounds-stream sizeof_om_client_response handle rs inbound wire g (omega arith) less
      ∙ rw (handle_each-responses (messages sizeof_om_client_response (inbound ++ stream rs)).0 g)
