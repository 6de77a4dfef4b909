-- ===== src/Matcher/Order.antt =====
-- ch06/exchange/matcher/me_order.h: orders and price levels, the nodes of the book's lists. A pointer
-- is the index of a block in the pool of its kind, or null.
use building_low_latency_app.Prelude.{ℕ, Option, Bool, true, false, none, some, ◌==◌}
use building_low_latency_app.Types.{TickerId, ClientId, OrderId, Side, Price, Qty, Priority}

abbrev pub Pointer : Type 0
Pointer = Option ℕ

-- `==` on pointers.
abbrev pub same : Pointer → Pointer → Bool
same none none = true
same none (some j) = false
same (some i) none = false
same (some i) (some j) = i == j

pub record MeOrder : Type 0 where
  pub ticker_id : TickerId
  pub client_id : ClientId
  pub client_order_id : OrderId
  pub market_order_id : OrderId
  pub side : Side
  pub price : Price
  pub qty : Qty
  pub priority : Priority
  pub prev_order : Pointer
  pub next_order : Pointer

pub record MeOrdersAtPrice : Type 0 where
  pub side : Side
  pub price : Price
  pub first_me_order : Pointer
  pub prev_entry : Pointer
  pub next_entry : Pointer
