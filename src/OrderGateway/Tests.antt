-- ===== src/OrderGateway/Tests.antt =====
-- A gateway (ch06/trading/order_gw) of the client 3.
use building_low_latency_app.Prelude.{ℕ, ◌+◌, ◌≤◌, ◌<◌, List, [], ◌∷◌, arith}
use building_low_latency_app.Prelude.Lists.{length}
use building_low_latency_app.Types.{buy}
use building_low_latency_app.Messages.{
  MeClientRequest, MeClientResponse, ClientRequestType, ClientResponseType,
}
use building_low_latency_app.LfQueue.{LfQueue, size}
use building_low_latency_app.LfQueue.Refine.{IsValid}
use building_low_latency_app.OrderGateway.{OrderGateway}

abbrev pub request : MeClientRequest
request = record {
  type = ClientRequestType.new;
  client_id = 3;
  ticker_id = 0;
  order_id = 1;
  side = buy;
  price = 100;
  qty = 5;
}

abbrev pub response : ℕ → MeClientResponse
response client_id = record {
  type = ClientResponseType.accepted;
  client_id = client_id;
  ticker_id = 0;
  client_order_id = 1;
  market_order_id = 1;
  side = buy;
  price = 100;
  exec_qty = 0;
  leaves_qty = 5;
}

-- A queue of eight places, the first `n` of them taken.
abbrev pub queue : {A : Type 0} → (ℕ → A) → ℕ → LfQueue A
queue f n = record {
  store = f;
  num_elems = 8;
  next_write_index = n;
  next_read_index = 0;
  num_elements = n;
}

pub queue-IsValid : {A : Type 0} (f : ℕ → A) (n : ℕ) → n < 8 → IsValid (queue f n)
queue-IsValid f n h = record {
  small = omega arith;
  read_in = omega arith;
  within = omega arith;
  write_at = ground arith;
}

-- Two requests are to be sent.
abbrev pub gateway : OrderGateway
gateway = record {
  client_id = 3;
  outgoing_requests = queue (λ _. request) 2;
  incoming_responses = queue (λ _. response 3) 1;
  next_outgoing_seq_num = 1;
  next_exp_seq_num = 1;
  sent = [];
}

abbrev two_responses : List MeClientResponse
two_responses = response 3 ∷ response 3 ∷ []

room : size gateway.incoming_responses + length two_responses ≤ 8
unfolding size
room = omega arith
