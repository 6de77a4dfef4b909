-- ===== src/OrderServer/Tests.antt =====
-- An order server (ch06/exchange/order_server) with one client.
mod Sorting
use mathlib.Core.List.{Perm, Pairwise}
use building_low_latency_app.Prelude.{
  ℕ, suc, ◌^◌, ◌+◌, ◌≤◌, ◌<◌, ◌≡◌, ◌≢◌, none, some, List, [], ◌∷◌, ◌++◌, arith, refl, inc64, inl,
  inr,
}
use building_low_latency_app.Prelude.Lists.{length, All}
use building_low_latency_app.Prelude.Result.{ok, abort, fatal}
use building_low_latency_app.Types.{Side, ClientId, buy}
use building_low_latency_app.Messages.{
  MeClientRequest, OmClientRequest, MeClientResponse, ClientRequestType, ClientResponseType,
}
use building_low_latency_app.LfQueue.{LfQueue, size}
use building_low_latency_app.LfQueue.Refine
use building_low_latency_app.LfQueue.Refine.{contents}
use building_low_latency_app.Numbering.{om_request, om_response, numbered, number_after}
use building_low_latency_app.OrderServer.{
  OrderServer, Socket, receive_request, receive_requests, send_responses,
}
use building_low_latency_app.OrderServer.Fifo.{
  RecvTimeClientRequest, FifoSequencer, Sort, add_client_request, pending, sequence_and_publish,
}
use building_low_latency_app.OrderServer.Fifo.Laws.{Sorts, requests, publish_lem, publish-again}
use building_low_latency_app.OrderServer.Fifo.Lifetime.{
  Op, take_request, hand_over, run, requests_in, add_client_request_lem, run-exhausted,
}
use building_low_latency_app.OrderServer.Tests.Sorting.{sort, sort-Sorts}
use building_low_latency_app.OrderServer.Requests.{
  receive_request-passed, receive_request-replay, receive_requests-numbered, received,
}
use building_low_latency_app.OrderServer.Responses.{
  Sent, sent_on, stamped, responses_of, sent_on-stamped, send_responses_lem,
}

abbrev request : ℕ → MeClientRequest
request id = record {
  type = ClientRequestType.new;
  client_id = 3;
  ticker_id = 0;
  order_id = id;
  side = buy;
  price = 100;
  qty = 5;
}

abbrev response : ClientId → MeClientResponse
response client_id = record {
  type = ClientResponseType.accepted;
  client_id = client_id;
  ticker_id = 0;
  client_order_id = 1;
  market_order_id = 1;
  side = buy;
  price = 100;
  exec_qty = 0;
  leaves_qty = 5;
}

abbrev at_time : ℕ → RecvTimeClientRequest
at_time t = record { recv_time = t; request = request t }

abbrev queue : {A : Type 0} → A → ℕ → LfQueue A
queue a n = record {
  store = λ _. a;
  num_elems = 8;
  next_write_index = n;
  next_read_index = 0;
  num_elements = n;
}

queue-IsValid : {A : Type 0} (a : A) (n : ℕ) → n < 8 → Refine.IsValid (queue a n)
queue-IsValid a n h = record {
  small = omega arith;
  read_in = omega arith;
  within = omega arith;
  write_at = ground arith;
}

-- A sequencer with `n` requests that wait.
abbrev fifo : ℕ → FifoSequencer
fifo n = record {
  incoming_requests = queue (request 0) 0;
  pending_client_requests = λ i. at_time i;
  pending_size = n;
}

abbrev server : ℕ → OrderServer
server n = record {
  outgoing_responses = queue (response 3) n;
  cid_next_outgoing_seq_num = λ _. 1;
  cid_next_exp_seq_num = λ _. 1;
  cid_tcp_socket = λ _. some 7;
  fifo_sequencer = fifo 0;
  sent = [];
}

fifo-room : (n : ℕ) → n < 3 → size (fifo n).incoming_requests + n + n ≤ 8
unfolding size
fifo-room n h = omega arith

fifo-room-once : size (fifo 2).incoming_requests + 2 ≤ 8
unfolding size
fifo-room-once = omega arith

publish_lem_example :
    Refine.IsValid (sequence_and_publish sort (fifo 2)).incoming_requests
    × (contents (sequence_and_publish sort (fifo 2)).incoming_requests
        ≡ contents (fifo 2).incoming_requests
          ++ requests (pending (sequence_and_publish sort (fifo 2))))
    × Perm (pending (sequence_and_publish sort (fifo 2))) (pending (fifo 2))
    × Pairwise (λ a b. a.recv_time ≤ b.recv_time) (pending (sequence_and_publish sort (fifo 2)))
    × ((sequence_and_publish sort (fifo 2)).pending_size ≡ 2)
publish_lem_example =
    publish_lem sort sort-Sorts (fifo 2) (omega arith) (queue-IsValid (request 0) 0 (omega arith))
      fifo-room-once

publish-again_example :
    (contents (sequence_and_publish sort (sequence_and_publish sort (fifo 2))).incoming_requests
      ≡ (contents (fifo 2).incoming_requests
          ++ requests (pending (sequence_and_publish sort (fifo 2))))
        ++ requests (pending (sequence_and_publish sort (sequence_and_publish sort (fifo 2)))))
    × Perm
        (pending (sequence_and_publish sort (sequence_and_publish sort (fifo 2))))
        (pending (sequence_and_publish sort (fifo 2)))
    × Perm (pending (sequence_and_publish sort (fifo 2))) (pending (fifo 2))
publish-again_example =
    publish-again sort sort-Sorts (fifo 2) (omega arith) (queue-IsValid (request 0) 0 (omega arith))
      (fifo-room 2 (omega arith))

abbrev two_more : List Op
two_more = take_request 9 (request 9) ∷ hand_over ∷ take_request 9 (request 9) ∷ []

two_more-count : 1024 < 1023 + requests_in two_more
unfolding requests_in
two_more-count = omega arith

run-exhausted_example :
    (1023 + requests_in two_more ≤ 1024
      → (g : FifoSequencer) × (run sort two_more (fifo 1023) ≡ ok g)
        × (g.pending_size ≡ 1023 + requests_in two_more))
    × (1024 < 1023 + requests_in two_more → run sort two_more (fifo 1023) ≡ abort fatal)
run-exhausted_example = run-exhausted sort two_more (fifo 1023) (omega arith)

two_more-exhausts : run sort two_more (fifo 1023) ≡ abort fatal
two_more-exhausts = run-exhausted_example.1 two_more-count

receive_request-replay_example :
    (u : OrderServer) × (receive_request 7 5 (om_request 1 (request 9)) (server 0) ≡ ok u)
    × (pending u.fifo_sequencer
        ≡ pending (server 0).fifo_sequencer ++ (record { recv_time = 5; request = request 9 } ∷ []))
    × (u.cid_tcp_socket 3 ≡ some 7)
    × (u.cid_next_exp_seq_num 3 ≡ inc64 1)
    × (receive_request 7 6 (om_request 1 (request 9)) u ≡ ok u)
receive_request-replay_example =
    receive_request-replay 7 5 6 (om_request 1 (request 9)) (server 0) (omega arith) refl refl
      (omega arith) (omega arith)

abbrev two_requests : List MeClientRequest
two_requests = request 1 ∷ request 2 ∷ []

abbrev two_responses : List MeClientResponse
two_responses = response 4 ∷ response 3 ∷ []

sent_to_three :
    sent_on 3 (stamped (λ c. c) (λ _. 1) two_responses)
    ≡ numbered om_response 1 (responses_of 3 two_responses)
sent_to_three = sent_on-stamped 3 (λ c. c) (λ _. 1) two_responses ((λ e. e), ((λ e. e), tt))
