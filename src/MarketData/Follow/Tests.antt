-- ===== src/MarketData/Follow/Tests.antt =====
-- A consumer and a synthesizer with one live order.
use building_low_latency_app.Prelude.{
  ℕ, ◌+◌, ◌≤◌, ◌≡◌, true, false, none, List, [], ◌++◌, arith, refl, inc64, subst,
}
use building_low_latency_app.Prelude.Lists.{length}
use building_low_latency_app.LfQueue.{size}
use building_low_latency_app.Prelude.Result.{ok}
use building_low_latency_app.Types.{me_max_tickers}
use building_low_latency_app.Messages.{MarketUpdateType, MdpMarketUpdate}
use building_low_latency_app.LfQueue.Refine.{contents}
use building_low_latency_app.Numbering.{mdp_update}
use building_low_latency_app.MarketData.Synthesizer.{publish_snapshot}
use building_low_latency_app.MarketData.Synthesizer.Orders.{lookup, pointer_of}
use building_low_latency_app.MarketData.Synthesizer.Publish.{tickers_from}
use building_low_latency_app.MarketData.Synthesizer.Tests.{orders, one_live}
use building_low_latency_app.MarketData.Consumer.{
  MarketDataConsumer, receive_update, receive_updates,
}
use building_low_latency_app.MarketData.Consumer.Recovery.{IsPlain}
use building_low_latency_app.MarketData.Consumer.Tests.{an_update, consumer, joins, queue-IsValid}
use building_low_latency_app.MarketData.Follow.{AllPlain, snapshot-recovers, length-tickers_below}

one_live-plain : AllPlain (lookup one_live)
one_live-plain t o u e =
    let (i, at_i, same) = pointer_of one_live.order_pool (orders t o) u e in subst IsPlain same refl

ids-below : (t o : ℕ) → 6 ≤ o → lookup one_live t o ≡ none
ids-below t o le = let absent : orders t o ≡ none = ground arith in rw absent refl

snapshot-room :
    size (consumer true []).incoming_md_updates
      + length (tickers_from me_max_tickers 0 (lookup one_live))
    ≤ 262144
unfolding size
snapshot-room = omega (arith, length-tickers_below me_max_tickers 0 6 (lookup one_live) ids-below)

snapshot-recovers_example :
    (new : List MdpMarketUpdate) × (d e : MarketDataConsumer) × ((publish_snapshot one_live).sent
      ≡ [] ++ new)
    × (receive_updates joins true new (consumer true []) ≡ ok d)
    × (receive_update joins false (mdp_update 4 (an_update MarketUpdateType.add 8)) d ≡ ok e)
    × (contents e.incoming_md_updates
        ≡ contents (consumer true []).incoming_md_updates
          ++ tickers_from me_max_tickers 0 (lookup one_live))
    × (e.next_exp_inc_seq_num ≡ inc64 3)
    × (e.in_recovery ≡ false)
snapshot-recovers_example =
    snapshot-recovers one_live joins (mdp_update 4 (an_update MarketUpdateType.add 8))
      (consumer true []) one_live-plain refl refl refl queue-IsValid snapshot-room
