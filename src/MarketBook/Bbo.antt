-- ===== src/MarketBook/Bbo.antt =====
-- `updateBBO` of ch06/trading/strategy/market_order_book.h.
use building_low_latency_app.Prelude.{ℕ, zero, suc, Bool, none, some, if◌then◌else◌, add32}
use building_low_latency_app.Prelude.Result.{abort, out_of_fuel}
use building_low_latency_app.Types.{Price, Qty, price_invalid, qty_invalid}
use building_low_latency_app.Matcher.Order.{Pointer, same}
use building_low_latency_app.MarketBook.State.{
  M, pure, ◌>>=◌, ◌>>◌, gets, modify, load_order, load_level,
}

-- The loop over the orders of a level, from `order` round to `first`, which adds to `qty`.
unfoldable pub add_quantities : ℕ → Pointer → Pointer → Qty → M Qty
add_quantities zero first order qty = λ _. abort out_of_fuel
add_quantities (suc fuel) first order qty =
    if same order first
    then pure qty
    else (do o ← load_order order; add_quantities fuel first o.next_order (add32 qty o.qty))

-- The price and the quantity of a side, from its best level. The loop has as much fuel as the pool has
-- blocks.
unfoldable pub best_of : Pointer → M (Price × Qty)
best_of none = pure (price_invalid, qty_invalid)
best_of (some i) = do
  l ← load_level (some i)
  first ← load_order l.first_mkt_order
  fuel ← gets λ b. suc b.order_pool.size
  qty ← add_quantities fuel l.first_mkt_order first.next_order first.qty
  pure (l.price, qty)

-- The first part of `updateBBO`.
unfoldable pub update_bid : M (Unit {0})
update_bid = do
  first ← gets λ b. b.bids_by_price
  (price, qty) ← best_of first
  modify λ b. record b { bbo = record (b.bbo) { bid_price = price; bid_qty = qty } }

-- The second part.
unfoldable pub update_ask : M (Unit {0})
update_ask = do
  first ← gets λ b. b.asks_by_price
  (price, qty) ← best_of first
  modify λ b. record b { bbo = record (b.bbo) { ask_price = price; ask_qty = qty } }

-- `updateBBO`
unfoldable pub update_bbo : Bool → Bool → M (Unit {0})
update_bbo bid_updated ask_updated = do
  if bid_updated then update_bid else pure tt
  if ask_updated then update_ask else pure tt
