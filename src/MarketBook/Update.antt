-- ===== src/MarketBook/Update.antt =====
-- `onMarketUpdate` of ch06/trading/strategy/market_order_book.cpp.
use building_low_latency_app.Prelude.{
  ℕ, zero, suc, Bool, true, false, none, some, if◌then◌else◌, leb,
}
use building_low_latency_app.Prelude.Result.{abort, at, out_of_fuel}
use building_low_latency_app.Types.{Price, is_buy, is_sell, me_max_order_ids}
use building_low_latency_app.Messages.{MarketUpdateType, MeMarketUpdate}
use building_low_latency_app.MemPool
use building_low_latency_app.Matcher.Order.{Pointer, same}
use building_low_latency_app.MarketBook.Order.{MarketOrder}
use building_low_latency_app.MarketBook.State.{
  M, trade_told, book_told, pure, ◌>>=◌, ◌>>◌, gets, modify, lift, tell, change_order, load_level,
  deallocate_level, deallocate_order,
}
use building_low_latency_app.MarketBook.Links.{add_order, remove_order}
use building_low_latency_app.MarketBook.Bbo.{update_bbo}

-- The loops over the levels of a side in the case `CLEAR`: `level` is never set to the next one. The
-- value of `level->next_entry_` is read and dropped.
unfoldable pub clear_levels : ℕ → Pointer → Pointer → M (Unit {0})
clear_levels zero first level = λ _. abort out_of_fuel
clear_levels (suc fuel) first level =
    if same level first
    then pure tt
    else (do deallocate_level level; l ← load_level level; clear_levels fuel first level)

-- A side in the case `CLEAR`. A block can be given back once only: the loop ends before its third
-- test.
unfoldable pub clear_side : Pointer → M (Unit {0})
clear_side none = pure tt
clear_side (some i) = do
  l ← load_level (some i)
  clear_levels 2 (some i) l.next_entry
  deallocate_level (some i)

-- `for (auto& order : oid_to_order_) if (order) order_pool_.deallocate(order)`, the first `n` entries
-- from `i` on.
unfoldable pub clear_orders : ℕ → ℕ → M (Unit {0})
clear_orders zero i = pure tt
clear_orders (suc n) i = do
  order ← gets λ b. b.oid_to_order i
  if same order none then pure tt else deallocate_order order
  clear_orders n (suc i)

-- The case `CLEAR`.
unfoldable pub clear : M (Unit {0})
clear = do
  clear_orders me_max_order_ids 0
  modify λ b. record b { oid_to_order = λ _. none }
  bids ← gets λ b. b.bids_by_price
  clear_side bids
  asks ← gets λ b. b.asks_by_price
  clear_side asks
  modify λ b. record b { bids_by_price = none; asks_by_price = none }

-- The case `ADD`.
unfoldable pub add : MeMarketUpdate → M (Unit {0})
add u = do
  let order : MarketOrder = record {
    order_id = u.order_id;
    side = u.side;
    price = u.price;
    qty = u.qty;
    priority = u.priority;
    prev_order = none;
    next_order = none;
  }
  (i, pool) ← λ b. lift (MemPool.allocate b.order_pool order) b
  modify λ b. record b { order_pool = pool }
  add_order (some i)

-- `oid_to_order_.at(order_id)`
unfoldable pub find_order : ℕ → M Pointer
find_order order_id = do
  orders ← gets λ b. b.oid_to_order
  lift (at me_max_order_ids orders order_id)

-- The switch, but for `TRADE`.
unfoldable pub apply_type : MarketUpdateType → MeMarketUpdate → M (Unit {0})
apply_type MarketUpdateType.add u = add u
apply_type MarketUpdateType.modify u =
    find_order u.order_id >>= λ p. change_order p λ o. record o { qty = u.qty }
apply_type MarketUpdateType.cancel u = find_order u.order_id >>= remove_order
apply_type MarketUpdateType.clear u = clear
apply_type _ u = pure tt

abbrev pub is_trade : MarketUpdateType → Bool
is_trade MarketUpdateType.trade = true
is_trade _ = false

-- `bids_by_price_ && market_update->side_ == … && market_update->price_ >= bids_by_price_->price_`, for
-- a side: both sides test with `>=`.
unfoldable pub is_updated : Bool → Pointer → Price → M Bool
is_updated on_side none price = pure false
is_updated on_side (some i) price =
    if on_side then (do l ← load_level (some i); pure (leb l.price price)) else pure false

-- `onMarketUpdate`
unfoldable pub on_market_update : MeMarketUpdate → M (Unit {0})
on_market_update u = do
  bids ← gets λ b. b.bids_by_price
  bid_updated ← is_updated (is_buy u.side) bids u.price
  asks ← gets λ b. b.asks_by_price
  ask_updated ← is_updated (is_sell u.side) asks u.price
  if is_trade u.type then tell (trade_told u) else (do
    apply_type u.type u
    update_bbo bid_updated ask_updated
    bbo ← gets λ b. b.bbo
    tell (book_told u.ticker_id u.price u.side bbo))
