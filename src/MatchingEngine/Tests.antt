-- ===== src/MatchingEngine/Tests.antt =====
-- A matching engine (ch06/exchange/matcher/matching_engine.h) with empty books.
use building_low_latency_app.Prelude.{
  ℕ, ◌+◌, ◌≤◌, ◌<◌, ◌≡◌, none, inr, List, [], ◌∷◌, ◌++◌, true, arith, refl,
}
use building_low_latency_app.Prelude.Lists.{length}
use building_low_latency_app.Prelude.Result.{ok}
use building_low_latency_app.Types.{invalid, buy}
use building_low_latency_app.Messages.{
  MeClientRequest, ClientRequestType, MeMarketUpdate, MarketUpdateType,
}
use building_low_latency_app.LfQueue.{LfQueue, size}
use building_low_latency_app.LfQueue.Refine.{IsValid, contents}
use building_low_latency_app.Matcher.State.{MeOrderBook, Sent, response, update_sent}
use building_low_latency_app.MatchingEngine.{MatchingEngine, process_client_request, run_once}
use building_low_latency_app.MatchingEngine.Deliver.{responses_in, updates_in}
use building_low_latency_app.MatchingEngine.Requests.{
  rejection, kept, cancel-rejected, run_once_lem,
}

abbrev queue : {A : Type 0} → A → ℕ → LfQueue A
queue a n = record {
  store = λ _. a;
  num_elems = 8;
  next_write_index = n;
  next_read_index = 0;
  num_elements = n;
}

queue-IsValid : {A : Type 0} (a : A) (n : ℕ) → n < 8 → IsValid (queue a n)
queue-IsValid a n h = record {
  small = omega arith;
  read_in = omega arith;
  within = omega arith;
  write_at = ground arith;
}

abbrev request : MeClientRequest
request = record {
  type = ClientRequestType.cancel;
  client_id = 3;
  ticker_id = 1;
  order_id = 9;
  side = buy;
  price = 100;
  qty = 5;
}

abbrev update_of : MeMarketUpdate
update_of = record {
  type = MarketUpdateType.add;
  order_id = 9;
  ticker_id = 1;
  side = buy;
  price = 100;
  qty = 5;
  priority = 1;
}

abbrev book : ℕ → MeOrderBook
book t = record {
  ticker_id = t;
  cid_oid_to_order = λ _ _. none;
  orders_at_price_pool = record {
    store = λ _. record {
      object = record {
        side = invalid;
        price = 0;
        first_me_order = none;
        prev_entry = none;
        next_entry = none;
      };
      is_free = true;
    };
    size = 8;
    next_free_index = 0;
  };
  bids_by_price = none;
  asks_by_price = none;
  price_orders_at_price = λ _. none;
  order_pool = record {
    store = λ _. record {
      object = record {
        ticker_id = 0;
        client_id = 0;
        client_order_id = 0;
        market_order_id = 0;
        side = invalid;
        price = 0;
        qty = 0;
        priority = 0;
        prev_order = none;
        next_order = none;
      };
      is_free = true;
    };
    size = 8;
    next_free_index = 0;
  };
  next_market_order_id = 1;
  sent = [];
}

-- Two requests wait.
abbrev engine : MatchingEngine
engine = record {
  ticker_order_book = book;
  incoming_requests = queue request 2;
  outgoing_ogw_responses = queue (rejection request) 1;
  outgoing_md_updates = queue update_of 0;
}

abbrev two_sent : List Sent
two_sent = response (rejection request) ∷ update_sent update_of ∷ []

room_for_responses : size engine.outgoing_ogw_responses + length (responses_in two_sent) ≤ 8
unfolding size responses_in
room_for_responses = omega arith

room_for_updates : size engine.outgoing_md_updates + length (updates_in two_sent) ≤ 8
unfolding size updates_in
room_for_updates = omega arith

response-room : size engine.outgoing_ogw_responses < 8
unfolding size
response-room = omega arith

cancel-rejected_example :
    (f : MatchingEngine) × (process_client_request request engine ≡ ok f)
    × (contents f.outgoing_ogw_responses
        ≡ contents engine.outgoing_ogw_responses ++ (rejection request ∷ []))
    × IsValid f.outgoing_ogw_responses
    × (f.outgoing_md_updates ≡ engine.outgoing_md_updates)
    × ((t : ℕ) → kept (f.ticker_order_book t) ≡ kept (engine.ticker_order_book t))
cancel-rejected_example =
    cancel-rejected request engine refl (omega arith) (inr (omega arith, omega arith, refl))
      (queue-IsValid (rejection request) 1 (omega arith)) response-room

-- The engine after the first request.
processed : (f : MatchingEngine) × (process_client_request request engine ≡ ok f)
processed =
    let (f, e, _, _, _, _) =
      cancel-rejected request engine refl (omega arith) (inr (omega arith, omega arith, refl))
        (queue-IsValid (rejection request) 1 (omega arith)) response-room in
    (f, e)

run_once_lem_example :
    (g : MatchingEngine) × (run_once engine ≡ ok g)
    × (contents g.incoming_requests ≡ request ∷ [])
    × IsValid g.incoming_requests
    × (g.outgoing_ogw_responses ≡ processed.0.outgoing_ogw_responses)
    × (g.outgoing_md_updates ≡ processed.0.outgoing_md_updates)
    × (g.ticker_order_book ≡ processed.0.ticker_order_book)
run_once_lem_example =
    run_once_lem engine processed.0 request (request ∷ []) (queue-IsValid request 2 (omega arith))
      refl processed.1
