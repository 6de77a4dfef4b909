-- ===== src/MarketBook/State.antt =====
-- The state of a book of ch06/trading/strategy/market_order_book.h, and reads and writes through its
-- pointers.
use building_low_latency_app.Prelude.{ℕ, List, [], ◌∷◌, ◌++◌, if◌then◌else◌, update, ◌%◌}
use building_low_latency_app.Prelude.Result.{Result, ok, abort, at, deref}
use building_low_latency_app.Types.{
  TickerId, Side, Price, is_buy, me_max_price_levels, me_max_order_ids,
}
use building_low_latency_app.Messages.{MeMarketUpdate}
use building_low_latency_app.MemPool
use building_low_latency_app.MemPool.{MemPool}
use building_low_latency_app.Matcher.Order.{Pointer}
use building_low_latency_app.Matcher.State.{read, set_object}
use building_low_latency_app.MarketBook.Order.{MarketOrder, MarketOrdersAtPrice, Bbo}

-- A call of `onTradeUpdate` or `onOrderBookUpdate` of the trade engine, which can read the best bid and
-- offer then.
pub data Told : Type 0 where
  trade_told : MeMarketUpdate → Told
  book_told : TickerId → Price → Side → Bbo → Told

-- The fields of `MarketOrderBook`. `told` stands for `trade_engine_`: the calls made on it, in their
-- order.
pub record MarketOrderBook : Type 0 where
  pub ticker_id : TickerId
  pub oid_to_order : ℕ → Pointer
  pub orders_at_price_pool : MemPool MarketOrdersAtPrice
  pub bids_by_price : Pointer
  pub asks_by_price : Pointer
  pub price_orders_at_price : ℕ → Pointer
  pub order_pool : MemPool MarketOrder
  pub bbo : Bbo
  pub told : List Told

abbrev pub M : Type 0 → Type 0
M A = MarketOrderBook → Result (A × MarketOrderBook)

abbrev pub pure : {A : Type 0} → A → M A
pure a = λ b. ok (a, b)

module _ {A B : Type 0} where
  abbrev pub and_then : Result (A × MarketOrderBook) → (A → M B) → Result (B × MarketOrderBook)
  and_then (ok (a, b)) k = k a b
  and_then (abort e) k = abort e

  infixl 5 ◌>>=◌ ◌>>◌
  abbrev pub ◌>>=◌ : M A → (A → M B) → M B
  m >>= k = λ b. and_then (m b) k

  abbrev pub ◌>>◌ : M A → M B → M B
  m >> n = m >>= λ _. n

abbrev pub gets : {A : Type 0} → (MarketOrderBook → A) → M A
gets f = λ b. ok (f b, b)

abbrev pub modify : (MarketOrderBook → MarketOrderBook) → M (Unit {0})
modify f = λ b. ok (tt, f b)

abbrev pub lift : {A : Type 0} → Result A → M A
lift (ok a) = λ b. ok (a, b)
lift (abort e) = λ b. abort e

unfoldable pub load_order : Pointer → M MarketOrder
unfolding read
load_order p = λ b. lift (read b.order_pool p) b

unfoldable pub change_order : Pointer → (MarketOrder → MarketOrder) → M (Unit {0})
unfolding set_object
change_order p f = do
  pool ← λ b. lift (set_object b.order_pool p f) b
  modify λ b. record b { order_pool = pool }

unfoldable pub load_level : Pointer → M MarketOrdersAtPrice
unfolding read
load_level p = λ b. lift (read b.orders_at_price_pool p) b

unfoldable pub change_level : Pointer → (MarketOrdersAtPrice → MarketOrdersAtPrice) → M (Unit {0})
unfolding set_object
change_level p f = do
  pool ← λ b. lift (set_object b.orders_at_price_pool p f) b
  modify λ b. record b { orders_at_price_pool = pool }

-- `trade_engine_->…`
abbrev pub tell : Told → M (Unit {0})
tell m = modify λ b. record b { told = b.told ++ (m ∷ []) }

-- `side == Side::BUY ? bids_by_price_ : asks_by_price_`
abbrev pub best : Side → MarketOrderBook → Pointer
best side b = if is_buy side then b.bids_by_price else b.asks_by_price

abbrev pub set_best : Side → Pointer → MarketOrderBook → MarketOrderBook
set_best side p b =
    if is_buy side then record b { bids_by_price = p } else record b { asks_by_price = p }

-- `priceToIndex`
abbrev pub price_to_index : Price → ℕ
price_to_index price = price % me_max_price_levels

-- `getOrdersAtPrice`. The index is within the array.
abbrev pub get_orders_at_price : Price → MarketOrderBook → Pointer
get_orders_at_price price b = b.price_orders_at_price (price_to_index price)

-- `price_orders_at_price_.at(priceToIndex(price)) = p`
abbrev pub set_orders_at_price : Price → Pointer → MarketOrderBook → MarketOrderBook
set_orders_at_price price p b = record b {
  price_orders_at_price = update b.price_orders_at_price (price_to_index price) p;
}

-- `oid_to_order_.at(order_id) = p`
unfoldable pub set_order : ℕ → Pointer → M (Unit {0})
set_order order_id p = do
  orders ← gets λ b. b.oid_to_order
  _ ← lift (at me_max_order_ids orders order_id)
  modify λ b. record b { oid_to_order = update orders order_id p }

-- `orders_at_price_pool_.deallocate(p)`
unfoldable pub deallocate_level : Pointer → M (Unit {0})
deallocate_level p = do
  i ← lift (deref p)
  pool ← λ b. lift (MemPool.deallocate b.orders_at_price_pool i) b
  modify λ b. record b { orders_at_price_pool = pool }

-- `order_pool_.deallocate(p)`
unfoldable pub deallocate_order : Pointer → M (Unit {0})
deallocate_order p = do
  i ← lift (deref p)
  pool ← λ b. lift (MemPool.deallocate b.order_pool i) b
  modify λ b. record b { order_pool = pool }
