-- ===== src/MarketData/Synthesizer.antt =====
-- ch06/exchange/market_data/snapshot_synthesizer.cpp: the live orders of every ticker, kept from the
-- incremental updates and published as a snapshot.
pub mod Orders
pub mod Add
pub mod Change
pub mod Publish
pub mod Tests
use building_low_latency_app.Prelude.{
  ℕ, zero, suc, Bool, true, false, Option, none, some, List, [], ◌∷◌, ◌++◌, not, if◌then◌else◌,
  ◌==◌, inc64, update,
}
use building_low_latency_app.Prelude.Result.{Result, ok, abort, ◌>>=◌, ◌>>◌, assert, at, deref}
use building_low_latency_app.Types.{
  me_max_tickers, me_max_order_ids, TickerId, OrderId, Side, order_id_invalid, ticker_id_invalid,
  price_invalid, qty_invalid, priority_invalid,
}
use building_low_latency_app.Types
use building_low_latency_app.Messages.{MarketUpdateType, MeMarketUpdate, MdpMarketUpdate}
use building_low_latency_app.MemPool
use building_low_latency_app.MemPool.{MemPool}

-- `ticker_orders` holds pointers into `order_pool`. `sent` is what was put into the snapshot socket.
pub record SnapshotSynthesizer : Type 0 where
  pub ticker_orders : TickerId → OrderId → Option ℕ
  pub last_inc_seq_num : ℕ
  pub order_pool : MemPool MeMarketUpdate
  pub sent : List MdpMarketUpdate

-- The constructor, given the value `MEMarketUpdate()`.
unfoldable pub make : MeMarketUpdate → Result SnapshotSynthesizer
make blank = MemPool.make blank me_max_order_ids >>= λ pool.
    ok (record { ticker_orders = λ _ _. none; last_inc_seq_num = 0; order_pool = pool; sent = [] })

-- `==` on sides.
abbrev pub same_side : Side → Side → Bool
same_side Types.invalid Types.invalid = true
same_side Types.buy Types.buy = true
same_side Types.sell Types.sell = true
same_side (Types.unnamed m) (Types.unnamed n) = m == n
same_side _ _ = false

abbrev pub is_null : Option ℕ → Bool
is_null none = true
is_null (some i) = false

-- `orders->at(order_id) = p`
unfoldable pub set_order : TickerId → OrderId → Option ℕ → SnapshotSynthesizer → SnapshotSynthesizer
set_order t o p s = record s {
  ticker_orders = update s.ticker_orders t (update (s.ticker_orders t) o p);
}

-- The case `ADD` of `addToSnapshot`.
unfoldable pub add_order : MeMarketUpdate → SnapshotSynthesizer → Result SnapshotSynthesizer
unfolding set_order
add_order u s = do
  order ← at me_max_order_ids (s.ticker_orders u.ticker_id) u.order_id
  assert (is_null order)
  (i, pool) ← MemPool.allocate s.order_pool u
  ok (set_order u.ticker_id u.order_id (some i) (record s { order_pool = pool }))

-- The order that a `MODIFY` or `CANCEL` is about, with the assertions of both cases.
unfoldable pub find_order : MeMarketUpdate → SnapshotSynthesizer → Result ℕ
find_order u s = do
  order ← at me_max_order_ids (s.ticker_orders u.ticker_id) u.order_id
  assert (not (is_null order))
  i ← deref order
  assert ((s.order_pool.store i).object.order_id == u.order_id)
  assert (same_side (s.order_pool.store i).object.side u.side)
  ok i

-- The case `MODIFY`.
unfoldable pub modify_order : MeMarketUpdate → SnapshotSynthesizer → Result SnapshotSynthesizer
modify_order u s = do
  i ← find_order u s
  let b = s.order_pool.store i
  let changed : MeMarketUpdate = record b.object { qty = u.qty; price = u.price }
  ok (record s {
    order_pool = record s.order_pool {
      store = update s.order_pool.store i (record b { object = changed });
    };
  })

-- The case `CANCEL`.
unfoldable pub cancel_order : MeMarketUpdate → SnapshotSynthesizer → Result SnapshotSynthesizer
unfolding set_order
cancel_order u s = do
  i ← find_order u s
  pool ← MemPool.deallocate s.order_pool i
  ok (set_order u.ticker_id u.order_id none (record s { order_pool = pool }))

-- The `switch` of `addToSnapshot`, by the update's type.
unfoldable pub apply_as :
    MarketUpdateType → MeMarketUpdate → SnapshotSynthesizer → Result SnapshotSynthesizer
apply_as MarketUpdateType.add u s = add_order u s
apply_as MarketUpdateType.modify u s = modify_order u s
apply_as MarketUpdateType.cancel u s = cancel_order u s
apply_as _ u s = ok s

-- `addToSnapshot`
unfoldable pub add_to_snapshot : MdpMarketUpdate → SnapshotSynthesizer → Result SnapshotSynthesizer
add_to_snapshot m s = do
  orders ← at me_max_tickers s.ticker_orders m.me_market_update.ticker_id
  t ← apply_as m.me_market_update.type m.me_market_update s
  assert (m.seq_num == inc64 t.last_inc_seq_num)
  ok (record t { last_inc_seq_num = m.seq_num })

-- A `MEMarketUpdate` with the values of its declaration but for the type, the order and the ticker.
abbrev pub control : MarketUpdateType → OrderId → TickerId → MeMarketUpdate
control type order_id ticker_id = record {
  type = type;
  order_id = order_id;
  ticker_id = ticker_id;
  side = Types.invalid;
  price = price_invalid;
  qty = qty_invalid;
  priority = priority_invalid;
}

-- `snapshot_size` and what was sent.
abbrev pub Output : Type 0
Output = ℕ × List MdpMarketUpdate

-- `send` of an update under the next number.
abbrev pub emit : MeMarketUpdate → Output → Output
emit u (n, ms) = (inc64 n, ms ++ (record { seq_num = n; me_market_update = u } ∷ []))

abbrev pub emit_order : Option ℕ → MemPool MeMarketUpdate → Output → Output
emit_order none pool out = out
emit_order (some i) pool out = emit (pool.store i).object out

-- The inner loop of `publishSnapshot`: `n` orders from `o` on.
unfoldable pub emit_orders :
    ℕ → OrderId → (OrderId → Option ℕ) → MemPool MeMarketUpdate → Output → Output
emit_orders zero o orders pool out = out
emit_orders (suc n) o orders pool out =
    emit_orders n (suc o) orders pool (emit_order (orders o) pool out)

-- The outer loop: `n` tickers from `t` on.
unfoldable pub emit_tickers : ℕ → TickerId → SnapshotSynthesizer → Output → Output
emit_tickers zero t s out = out
emit_tickers (suc n) t s out = emit_tickers n (suc t) s (
    emit_orders me_max_order_ids 0 (s.ticker_orders t) s.order_pool
      (emit (control MarketUpdateType.clear order_id_invalid t) out))

-- `publishSnapshot`
unfoldable pub publish_snapshot : SnapshotSynthesizer → SnapshotSynthesizer
publish_snapshot s =
    let start = control MarketUpdateType.snapshot_start s.last_inc_seq_num ticker_id_invalid in
    let end = control MarketUpdateType.snapshot_end s.last_inc_seq_num ticker_id_invalid in
    record s { sent = (emit end (emit_tickers me_max_tickers 0 s (emit start (0, s.sent)))).1 }
