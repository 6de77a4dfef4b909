-- ===== src/MarketData/Publisher/Tests.antt =====
-- A publisher (ch06/exchange/market_data/market_data_publisher.cpp) with two updates.
use building_low_latency_app.Prelude.{ℕ, ◌+◌, ◌≤◌, ◌<◌, ◌≡◌, [], arith}
use building_low_latency_app.Prelude.Result.{ok}
use building_low_latency_app.Types.{buy}
use building_low_latency_app.Messages.{MarketUpdateType, MeMarketUpdate}
use building_low_latency_app.LfQueue.{LfQueue, size}
use building_low_latency_app.LfQueue.Refine.{IsValid, contents}
use building_low_latency_app.Numbering.{mdp_update}
use building_low_latency_app.MarketData.Publisher.{MarketDataPublisher, publish_updates}
use building_low_latency_app.MarketData.Publisher.Updates.{Published, publish_updates_lem}

abbrev an_update : ℕ → MeMarketUpdate
an_update id = record {
  type = MarketUpdateType.add;
  order_id = id;
  ticker_id = 1;
  side = buy;
  price = 100;
  qty = 5;
  priority = 1;
}

abbrev queue : {A : Type 0} → (ℕ → A) → ℕ → LfQueue A
queue f n = record {
  store = f;
  num_elems = 8;
  next_write_index = n;
  next_read_index = 0;
  num_elements = n;
}

queue-IsValid : {A : Type 0} (f : ℕ → A) (n : ℕ) → n < 8 → IsValid (queue f n)
queue-IsValid f n h = record {
  small = omega arith;
  read_in = omega arith;
  within = omega arith;
  write_at = ground arith;
}

abbrev publisher : MarketDataPublisher
publisher = record {
  next_inc_seq_num = 1;
  outgoing_md_updates = queue an_update 2;
  snapshot_md_updates = queue (λ i. mdp_update i (an_update i)) 1;
  sent = [];
}

room : size publisher.snapshot_md_updates + size publisher.outgoing_md_updates ≤ 8
unfolding size
room = omega arith

publish_updates_lem_example :
    (r : MarketDataPublisher) × (publish_updates (size publisher.outgoing_md_updates) publisher
      ≡ ok r)
    × Published publisher (contents publisher.outgoing_md_updates) r
publish_updates_lem_example =
    publish_updates_lem publisher (queue-IsValid an_update 2 (omega arith))
      (queue-IsValid (λ i. mdp_update i (an_update i)) 1 (omega arith)) room
