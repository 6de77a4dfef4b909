-- ===== src/MarketBook/Order.antt =====
-- ch06/trading/strategy/market_order.h: orders, price levels, and the best bid and offer.
use building_low_latency_app.Types.{OrderId, Side, Price, Qty, Priority, price_invalid, qty_invalid}
use building_low_latency_app.Matcher.Order.{Pointer}

pub record MarketOrder : Type 0 where
  pub order_id : OrderId
  pub side : Side
  pub price : Price
  pub qty : Qty
  pub priority : Priority
  pub prev_order : Pointer
  pub next_order : Pointer

pub record MarketOrdersAtPrice : Type 0 where
  pub side : Side
  pub price : Price
  pub first_mkt_order : Pointer
  pub prev_entry : Pointer
  pub next_entry : Pointer

pub record Bbo : Type 0 where
  pub bid_price : Price
  pub ask_price : Price
  pub bid_qty : Qty
  pub ask_qty : Qty

-- The default member initializers.
abbrev pub no_bbo : Bbo
no_bbo = record {
  bid_price = price_invalid;
  ask_price = price_invalid;
  bid_qty = qty_invalid;
  ask_qty = qty_invalid;
}
