-- ===== src/MarketData/Consumer.antt =====
-- ch06/trading/market_data/market_data_consumer.cpp: a client follows the incremental updates, and
-- recovers from a snapshot when it misses one.
pub mod Stream
pub mod Recovery
pub mod Tests
use building_low_latency_app.Prelude.{
  ℕ, Bool, true, false, Option, none, some, List, [], ◌∷◌, not, if◌then◌else◌, ltb, ◌==◌, ◌||◌,
  inc64,
}
use mathlib.Core.List as List
use building_low_latency_app.Prelude.Result.{Result, ok, abort, ◌>>=◌, ◌>>◌, assert}
use building_low_latency_app.Messages.{MarketUpdateType, MeMarketUpdate, MdpMarketUpdate}
use building_low_latency_app.LfQueue.{LfQueue, push}
use building_low_latency_app.LfQueue.Refine.{push_all}
use building_low_latency_app.Framing.{Bytes, messages}

-- A `std::map` from sequence numbers, as its entries by ascending keys.
abbrev pub QueuedMarketUpdates : Type 0
QueuedMarketUpdates = List (ℕ × MeMarketUpdate)

pub record MarketDataConsumer : Type 0 where
  pub next_exp_inc_seq_num : ℕ
  pub incoming_md_updates : LfQueue MeMarketUpdate
  pub in_recovery : Bool
  pub snapshot_queued_msgs : QueuedMarketUpdates
  pub incremental_queued_msgs : QueuedMarketUpdates

-- Whether `init` of the snapshot socket and `join` of its group succeed.
pub record Subscription : Type 0 where
  pub init_ok : Bool
  pub join_ok : Bool

-- `map.find(key) != map.end()`
unfoldable pub has_key : ℕ → QueuedMarketUpdates → Bool
has_key k [] = false
has_key k ((j, u) ∷ ms) = (k == j) || has_key k ms

-- `map[key] = update`
unfoldable pub set_key : ℕ → MeMarketUpdate → QueuedMarketUpdates → QueuedMarketUpdates
set_key k v [] = (k, v) ∷ []
set_key k v ((j, u) ∷ ms) =
    let rest = set_key k v ms in
    if ltb k j then (k, v) ∷ (j, u) ∷ ms else if k == j then (k, v) ∷ ms else (j, u) ∷ rest

abbrev pub is_start : MarketUpdateType → Bool
is_start MarketUpdateType.snapshot_start = true
is_start _ = false

abbrev pub is_end : MarketUpdateType → Bool
is_end MarketUpdateType.snapshot_end = true
is_end _ = false

-- `startSnapshotSync`
unfoldable pub start_snapshot_sync : Subscription → MarketDataConsumer → Result MarketDataConsumer
start_snapshot_sync net c =
    assert net.init_ok
    >> (assert net.join_ok
        >> ok (record c { snapshot_queued_msgs = []; incremental_queued_msgs = [] }))

-- `final_events.push_back`, unless the update is a start or an end.
abbrev pub keep : MeMarketUpdate → List MeMarketUpdate → List MeMarketUpdate
keep u us = if is_start u.type || is_end u.type then us else u ∷ us

-- The loop over the queued snapshot messages of `checkSnapshotSync`: none if there is a gap.
unfoldable pub scan_snapshot : ℕ → QueuedMarketUpdates → Option (List MeMarketUpdate)
scan_snapshot n [] = some []
scan_snapshot n ((k, u) ∷ ms) =
    let rest = scan_snapshot (inc64 n) ms in
    if k == n then elim rest [ none ↦ none | some us ↦ some (keep u us) ] else none

-- The loop over the queued incremental messages: the next expected number, and the updates to apply
-- if there is no gap.
unfoldable pub scan_incremental : ℕ → QueuedMarketUpdates → ℕ × Option (List MeMarketUpdate)
scan_incremental n [] = (n, some [])
scan_incremental n ((k, u) ∷ ms) =
    let skipped = scan_incremental n ms in
    let rest = scan_incremental (inc64 n) ms in
    if ltb k n
    then skipped
    else if k == n
    then (rest.0, elim rest.1 [ none ↦ none | some us ↦ some (keep u us) ])
    else (n, none)

-- `rbegin()->second`
abbrev pub last_of : MeMarketUpdate → QueuedMarketUpdates → MeMarketUpdate
last_of u [] = u
last_of u ((k, v) ∷ ms) = last_of v ms

-- The last part of `checkSnapshotSync`: the snapshot is complete, with the updates `events`.
unfoldable pub finish_sync :
    MeMarketUpdate → List MeMarketUpdate → MarketDataConsumer → MarketDataConsumer
finish_sync last events c =
    let scan = scan_incremental (inc64 last.order_id) c.incremental_queued_msgs in
    let d : MarketDataConsumer = record c { next_exp_inc_seq_num = scan.0 } in
    elim scan.1 [
      | none ↦ record d { snapshot_queued_msgs = [] }
      | some us ↦ record d {
        incoming_md_updates = push_all us (push_all events c.incoming_md_updates);
        snapshot_queued_msgs = [];
        incremental_queued_msgs = [];
        in_recovery = false;
      }
    ]

-- `checkSnapshotSync`, given the queued snapshot messages.
unfoldable pub check_queued : QueuedMarketUpdates → MarketDataConsumer → MarketDataConsumer
check_queued [] c = c
check_queued (m ∷ ms) c =
    if not (is_start m.1.type)
    then record c { snapshot_queued_msgs = [] }
    else elim (scan_snapshot 0 (m ∷ ms)) [
      | none ↦ record c { snapshot_queued_msgs = [] }
      | some events ↦
          if not (is_end (last_of m.1 ms).type) then c else finish_sync (last_of m.1 ms) events c
    ]

-- `checkSnapshotSync`
abbrev pub check_snapshot_sync : MarketDataConsumer → MarketDataConsumer
check_snapshot_sync c = check_queued c.snapshot_queued_msgs c

-- `queueMessage`. An incremental message is not queued.
unfoldable pub queue_message : Bool → MdpMarketUpdate → MarketDataConsumer → MarketDataConsumer
queue_message is_snapshot m c =
    let ms = c.snapshot_queued_msgs in
    if is_snapshot
    then record c {
      snapshot_queued_msgs =
          set_key m.seq_num m.me_market_update (if has_key m.seq_num ms then [] else ms);
    }
    else check_snapshot_sync c

-- The body of the loop of `recvCallback`.
unfoldable pub receive_update :
    Subscription → Bool → MdpMarketUpdate → MarketDataConsumer → Result MarketDataConsumer
receive_update net is_snapshot m c =
    let recovers : MarketDataConsumer = record c { in_recovery = true } in
    if c.in_recovery
    then ok (queue_message is_snapshot m c)
    else if not (m.seq_num == c.next_exp_inc_seq_num)
    then (start_snapshot_sync net recovers >>= λ d. ok (queue_message is_snapshot m d))
    else if is_snapshot
    then ok c
    else ok (record c {
      next_exp_inc_seq_num = inc64 c.next_exp_inc_seq_num;
      incoming_md_updates = push m.me_market_update c.incoming_md_updates;
    })

unfoldable pub receive_updates :
    Subscription → Bool → List MdpMarketUpdate → MarketDataConsumer → Result MarketDataConsumer
receive_updates net is_snapshot [] c = ok c
receive_updates net is_snapshot (m ∷ ms) c =
    receive_update net is_snapshot m c >>= receive_updates net is_snapshot ms

abbrev pub sizeof_mdp_market_update : ℕ
sizeof_mdp_market_update = 42

-- `recvCallback`. `decode` reads the packed struct; the result holds the bytes that stay in the
-- buffer.
unfoldable pub recv_callback :
    (Bytes → MdpMarketUpdate)
    → Subscription
    → Bool
    → Bytes
    → MarketDataConsumer
    → Result (Bytes × MarketDataConsumer)
recv_callback decode net is_snapshot bytes c =
    let cut = messages sizeof_mdp_market_update bytes in
    if is_snapshot
    then (if c.in_recovery
        then (receive_updates net is_snapshot (List.map decode cut.0) c >>= λ d. ok (cut.1, d))
        else ok ([], c))
    else (receive_updates net is_snapshot (List.map decode cut.0) c >>= λ d. ok (cut.1, d))
