-- ===== src/MarketData/Synthesizer/Tests.antt =====
-- A synthesizer (ch06/exchange/market_data/snapshot_synthesizer.cpp) with one live order.
use building_low_latency_app.Prelude.{
  ℕ, ◌≡◌, ◌++◌, true, false, Option, none, some, [], if◌then◌else◌, ◌==◌, arith, refl,
}
use building_low_latency_app.Prelude.Result.{ok}
use building_low_latency_app.Types.{TickerId, OrderId, buy}
use building_low_latency_app.Messages.{MarketUpdateType, MeMarketUpdate}
use building_low_latency_app.Numbering.{mdp_update, numbered}
use building_low_latency_app.MarketData.Synthesizer.{
  SnapshotSynthesizer, add_to_snapshot, publish_snapshot,
}
use building_low_latency_app.MarketData.Synthesizer.Orders.{lookup, Held, IsValid, Changed}
use building_low_latency_app.MarketData.Synthesizer.Add.{add_order_lem}
use building_low_latency_app.MarketData.Synthesizer.Change.{cancel_order_lem}
use building_low_latency_app.MarketData.Synthesizer.Publish.{snapshot, publish_snapshot_lem}

-- An update of the order `id` of the ticker 1.
abbrev pub about : MarketUpdateType → ℕ → ℕ → MeMarketUpdate
about type id qty = record {
  type = type;
  order_id = id;
  ticker_id = 1;
  side = buy;
  price = 100;
  qty = qty;
  priority = 1;
}

-- The order 5 stands in the block 0.
abbrev pub orders : TickerId → OrderId → Option ℕ
orders t o = if t == 1 then (if o == 5 then some 0 else none) else none

abbrev pub one_live : SnapshotSynthesizer
one_live = record {
  ticker_orders = orders;
  last_inc_seq_num = 3;
  order_pool = record {
    store = λ i. record {
      object = about MarketUpdateType.add 5 10;
      is_free = if i == 0 then false else true;
    };
    size = 4;
    next_free_index = 1;
  };
  sent = [];
}

one_live-IsValid : IsValid one_live
one_live-IsValid = record {
  pool = record { in_store = omega arith; small = omega arith; next_free = refl };
  held = held;
}
  where
    held : (t o i : ℕ) → orders t o ≡ some i → Held one_live.order_pool t o i
    held t o i e = ground arith

add_order_lem_example :
    (r : SnapshotSynthesizer) × (add_to_snapshot
        (mdp_update 4 (about MarketUpdateType.add 6 7))
        one_live
      ≡ ok r)
    × IsValid r
    × Changed one_live r 1 6 (some (about MarketUpdateType.add 6 7))
    × (r.last_inc_seq_num ≡ 4)
add_order_lem_example =
    add_order_lem (mdp_update 4 (about MarketUpdateType.add 6 7)) one_live 2 one_live-IsValid refl
      (omega arith) (omega arith) refl refl (omega arith) (omega arith) refl

cancel_order_lem_example :
    (r : SnapshotSynthesizer) × (add_to_snapshot
        (mdp_update 4 (about MarketUpdateType.cancel 5 7))
        one_live
      ≡ ok r)
    × IsValid r
    × Changed one_live r 1 5 none
    × (r.last_inc_seq_num ≡ 4)
cancel_order_lem_example =
    cancel_order_lem (mdp_update 4 (about MarketUpdateType.cancel 5 7)) one_live
      (about MarketUpdateType.add 5 10) one_live-IsValid refl (omega arith) (omega arith) refl refl
      refl

publish_snapshot_lem_example :
    (publish_snapshot one_live).sent ≡ [] ++ numbered mdp_update 0 (snapshot 3 (lookup one_live))
publish_snapshot_lem_example = publish_snapshot_lem one_live
