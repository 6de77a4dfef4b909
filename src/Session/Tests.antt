-- ===== src/Session/Tests.antt =====
-- One turn of the gateway of the client 3 and of the server.
use building_low_latency_app.Prelude.{
  ◌+◌, ◌≤◌, ◌≡◌, List, [], ◌++◌, arith, refl, some, if◌then◌else◌, ◌==◌,
}
use building_low_latency_app.Prelude.Lists.{length}
use building_low_latency_app.Prelude.Result.{ok}
use building_low_latency_app.LfQueue.{size}
use building_low_latency_app.LfQueue.Refine.{contents}
use building_low_latency_app.Numbering.{om_request, numbered}
use building_low_latency_app.OrderGateway.{OrderGateway, send_requests, receive_responses}
use building_low_latency_app.OrderGateway.Tests.{request, response, queue, queue-IsValid, gateway}
use building_low_latency_app.OrderServer.{OrderServer, Socket, receive_requests, send_responses}
use building_low_latency_app.OrderServer.Fifo.{pending}
use building_low_latency_app.OrderServer.Requests.{received}
use building_low_latency_app.OrderServer.Responses.{sent_on, responses_of}
use building_low_latency_app.Messages.{OmClientResponse}
use building_low_latency_app.Session.{requests-arrive, responses-arrive}

-- A server with a response for the client 3 and one for the client 4; all clients are connected.
abbrev server : OrderServer
server = record {
  outgoing_responses = queue (λ i. if i == 0 then response 4 else response 3) 2;
  cid_next_outgoing_seq_num = λ _. 1;
  cid_next_exp_seq_num = λ _. 1;
  cid_tcp_socket = λ c. some c;
  fifo_sequencer = record {
    incoming_requests = queue (λ _. request) 0;
    pending_client_requests = λ _. record { recv_time = 0; request = request };
    pending_size = 0;
  };
  sent = [];
}

requests-room : 0 + size gateway.outgoing_requests ≤ 1024
unfolding size
requests-room = omega arith

requests-arrive_example :
    (h : OrderGateway) × (u : OrderServer) × (send_requests (size gateway.outgoing_requests) gateway
      ≡ ok h)
    × (h.sent ≡ [] ++ numbered om_request 1 (contents gateway.outgoing_requests))
    × (receive_requests 3 5 (numbered om_request 1 (contents gateway.outgoing_requests)) server
        ≡ ok u)
    × (pending u.fifo_sequencer
        ≡ pending server.fifo_sequencer ++ received 5 (contents gateway.outgoing_requests))
    × (u.cid_next_exp_seq_num 3 ≡ h.next_outgoing_seq_num)
requests-arrive_example =
    requests-arrive gateway server 3 5 (queue-IsValid (λ _. request) 2 (omega arith)) (omega arith)
      (refl, (refl, tt)) refl refl requests-room

responses-room :
    size gateway.incoming_responses + length (responses_of 3 (contents server.outgoing_responses))
    ≤ 8
unfolding size responses_of
responses-room = omega arith

responses-arrive_example :
    (u : OrderServer) × (new : List (Socket × OmClientResponse)) × (send_responses
        (size server.outgoing_responses)
        server
      ≡ ok u)
    × (u.sent ≡ [] ++ new)
    × (contents (receive_responses (sent_on 3 new) gateway).incoming_responses
        ≡ contents gateway.incoming_responses
          ++ responses_of 3 (contents server.outgoing_responses))
responses-arrive_example =
    responses-arrive server (λ c. c) gateway
      (queue-IsValid (λ i. if i == 0 then response 4 else response 3) 2 (omega arith))
      ((omega arith, refl), ((omega arith, refl), tt)) ((λ e. e), ((λ e. e), tt)) refl
      (queue-IsValid (λ _. response 3) 1 (omega arith)) responses-room
