-- ===== src/MarketData/Consumer/Tests.antt =====
-- A consumer (ch06/trading/market_data/market_data_consumer.cpp) with a queue of many places.
use building_low_latency_app.Prelude.{
  ℕ, ◌+◌, ◌≤◌, ◌≡◌, Bool, true, false, List, [], ◌∷◌, ◌++◌, arith, refl, inc64,
}
use building_low_latency_app.Prelude.Lists.{length}
use building_low_latency_app.Prelude.Result.{ok}
use building_low_latency_app.Types.{buy}
use building_low_latency_app.Messages.{MarketUpdateType, MeMarketUpdate}
use building_low_latency_app.LfQueue.{LfQueue, size}
use building_low_latency_app.LfQueue.Refine.{IsValid, contents}
use building_low_latency_app.Numbering.{mdp_update, numbered, number_after}
use building_low_latency_app.MarketData.Consumer.{
  MarketDataConsumer, QueuedMarketUpdates, Subscription, receive_update, receive_updates,
}
use building_low_latency_app.MarketData.Consumer.Stream.{
  entry, receive_updates-numbered, receive_updates-lost, receive_update-gap,
}
use building_low_latency_app.MarketData.Consumer.Recovery.{recovery_lem}

abbrev pub an_update : MarketUpdateType → ℕ → MeMarketUpdate
an_update type id = record {
  type = type;
  order_id = id;
  ticker_id = 1;
  side = buy;
  price = 100;
  qty = 5;
  priority = 1;
}

-- It has as many places as the program gives it.
abbrev queue : LfQueue MeMarketUpdate
queue = record {
  store = λ i. an_update MarketUpdateType.add i;
  num_elems = 262144;
  next_write_index = 1;
  next_read_index = 0;
  num_elements = 1;
}

pub queue-IsValid : IsValid queue
queue-IsValid = record {
  small = omega arith;
  read_in = omega arith;
  within = omega arith;
  write_at = refl;
}

abbrev pub consumer : Bool → QueuedMarketUpdates → MarketDataConsumer
consumer in_recovery ms = record {
  next_exp_inc_seq_num = 4;
  incoming_md_updates = queue;
  in_recovery = in_recovery;
  snapshot_queued_msgs = ms;
  incremental_queued_msgs = [];
}

abbrev pub joins : Subscription
joins = record { init_ok = true; join_ok = true }

abbrev two_updates : List MeMarketUpdate
two_updates = an_update MarketUpdateType.add 8 ∷ an_update MarketUpdateType.trade 9 ∷ []

room : size queue + length two_updates ≤ 262144
unfolding size
room = omega arith

receive_updates-numbered_example :
    (d : MarketDataConsumer) × (receive_updates joins false
        (numbered mdp_update 4 two_updates)
        (consumer false [])
      ≡ ok d)
    × (contents d.incoming_md_updates ≡ contents queue ++ two_updates)
    × IsValid d.incoming_md_updates
    × (d.next_exp_inc_seq_num ≡ number_after 4 two_updates)
    × (d.in_recovery ≡ false)
receive_updates-numbered_example =
    receive_updates-numbered joins 4 two_updates (consumer false []) refl refl queue-IsValid room

receive_update-gap_example :
    receive_update joins false (mdp_update 6 (an_update MarketUpdateType.add 8)) (consumer false [])
    ≡ ok (consumer true [])
receive_update-gap_example =
    receive_update-gap joins (mdp_update 6 (an_update MarketUpdateType.add 8)) (consumer false [])
      refl (omega arith) refl refl

receive_updates-lost_example :
    receive_updates joins false (numbered mdp_update 4 two_updates) (consumer true [])
    ≡ ok (consumer true [])
receive_updates-lost_example =
    receive_updates-lost joins (numbered mdp_update 4 two_updates) (consumer true []) refl refl

abbrev first : MeMarketUpdate
first = an_update MarketUpdateType.snapshot_start 20

abbrev last : MeMarketUpdate
last = an_update MarketUpdateType.snapshot_end 20

recovery_lem_example :
    (d : MarketDataConsumer) × (receive_update joins false
        (mdp_update 21 (an_update MarketUpdateType.add 8))
        (consumer true (numbered entry 0 (first ∷ (two_updates ++ (last ∷ [])))))
      ≡ ok d)
    × (contents d.incoming_md_updates ≡ contents queue ++ two_updates)
    × IsValid d.incoming_md_updates
    × (d.next_exp_inc_seq_num ≡ inc64 20)
    × (d.in_recovery ≡ false)
    × (d.snapshot_queued_msgs ≡ [])
recovery_lem_example =
    recovery_lem joins (mdp_update 21 (an_update MarketUpdateType.add 8)) first last two_updates
      (consumer true (numbered entry 0 (first ∷ (two_updates ++ (last ∷ []))))) refl refl refl refl
      refl (refl, (refl, tt)) queue-IsValid room
