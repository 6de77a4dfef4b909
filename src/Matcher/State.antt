-- ===== src/Matcher/State.antt =====
-- The state of a book of ch06/exchange/matcher/me_order_book.h, and reads and writes through its
-- pointers.
use building_low_latency_app.Prelude.{
  ℕ, ◌%◌, none, some, List, [], ◌∷◌, ◌++◌, if◌then◌else◌, ltb, inc64, update,
}
use building_low_latency_app.Prelude.Result.{Result, ok, abort, undefined}
use building_low_latency_app.Types.{TickerId, OrderId, Side, Price, me_max_price_levels, is_buy}
use building_low_latency_app.Messages.{MeClientResponse, MeMarketUpdate}
use building_low_latency_app.MemPool.{MemPool}
use building_low_latency_app.Matcher.Order.{Pointer, MeOrder, MeOrdersAtPrice}

-- A call of `sendClientResponse` or `sendMarketUpdate` of the matching engine.
pub data Sent : Type 0 where
  response : MeClientResponse → Sent
  update_sent : MeMarketUpdate → Sent

-- The fields of `MEOrderBook` that its code reads before it writes them. `sent` stands for
-- `matching_engine_`: the calls made on it, in their order.
pub record MeOrderBook : Type 0 where
  pub ticker_id : TickerId
  pub cid_oid_to_order : ℕ → ℕ → Pointer
  pub orders_at_price_pool : MemPool MeOrdersAtPrice
  pub bids_by_price : Pointer
  pub asks_by_price : Pointer
  pub price_orders_at_price : ℕ → Pointer
  pub order_pool : MemPool MeOrder
  pub next_market_order_id : OrderId
  pub sent : List Sent

abbrev pub M : Type 0 → Type 0
M A = MeOrderBook → Result (A × MeOrderBook)

abbrev pub pure : {A : Type 0} → A → M A
pure a = λ b. ok (a, b)

module _ {A B : Type 0} where
  abbrev pub and_then : Result (A × MeOrderBook) → (A → M B) → Result (B × MeOrderBook)
  and_then (ok (a, b)) k = k a b
  and_then (abort e) k = abort e

  infixl 5 ◌>>=◌ ◌>>◌
  abbrev pub ◌>>=◌ : M A → (A → M B) → M B
  m >>= k = λ b. and_then (m b) k

  abbrev pub ◌>>◌ : M A → M B → M B
  m >> n = m >>= λ _. n

abbrev pub gets : {A : Type 0} → (MeOrderBook → A) → M A
gets f = λ b. ok (f b, b)

abbrev pub modify : (MeOrderBook → MeOrderBook) → M (Unit {0})
modify f = λ b. ok (tt, f b)

abbrev pub lift : {A : Type 0} → Result A → M A
lift (ok a) = λ b. ok (a, b)
lift (abort e) = λ b. abort e

-- The object that a pointer into a pool points to, also if its block was given back.
unfoldable pub read : {T : Type 0} → MemPool T → Pointer → Result T
read p none = abort undefined
read p (some i) = if ltb i p.size then ok (p.store i).object else abort undefined

-- A write to that object.
unfoldable pub write : {T : Type 0} → MemPool T → ℕ → T → MemPool T
write p i v = record p { store = update p.store i (record (p.store i) { object = v }) }

unfoldable pub set_object : {T : Type 0} → MemPool T → Pointer → (T → T) → Result (MemPool T)
unfolding write
set_object p none f = abort undefined
set_object p (some i) f =
    if ltb i p.size then ok (write p i (f (p.store i).object)) else abort undefined

unfoldable pub load_order : Pointer → M MeOrder
unfolding read
load_order p = λ b. lift (read b.order_pool p) b

unfoldable pub change_order : Pointer → (MeOrder → MeOrder) → M (Unit {0})
unfolding set_object
change_order p f = do
  pool ← λ b. lift (set_object b.order_pool p f) b
  modify λ b. record b { order_pool = pool }

unfoldable pub load_level : Pointer → M MeOrdersAtPrice
unfolding read
load_level p = λ b. lift (read b.orders_at_price_pool p) b

unfoldable pub change_level : Pointer → (MeOrdersAtPrice → MeOrdersAtPrice) → M (Unit {0})
unfolding set_object
change_level p f = do
  pool ← λ b. lift (set_object b.orders_at_price_pool p f) b
  modify λ b. record b { orders_at_price_pool = pool }

abbrev pub send : Sent → M (Unit {0})
send m = modify λ b. record b { sent = b.sent ++ (m ∷ []) }

-- `side == Side::BUY ? bids_by_price_ : asks_by_price_`
abbrev pub best : Side → MeOrderBook → Pointer
best side b = if is_buy side then b.bids_by_price else b.asks_by_price

abbrev pub set_best : Side → Pointer → MeOrderBook → MeOrderBook
set_best side p b =
    if is_buy side then record b { bids_by_price = p } else record b { asks_by_price = p }

-- `generateNewMarketOrderId`
unfoldable pub generate_new_market_order_id : M OrderId
generate_new_market_order_id = λ b.
    ok (b.next_market_order_id, record b { next_market_order_id = inc64 b.next_market_order_id })

-- `priceToIndex`
abbrev pub price_to_index : Price → ℕ
price_to_index price = price % me_max_price_levels

-- `getOrdersAtPrice`. The index is within the array.
abbrev pub get_orders_at_price : Price → MeOrderBook → Pointer
get_orders_at_price price b = b.price_orders_at_price (price_to_index price)

-- `price_orders_at_price_.at(priceToIndex(price)) = p`
abbrev pub set_orders_at_price : Price → Pointer → MeOrderBook → MeOrderBook
set_orders_at_price price p b = record b {
  price_orders_at_price = update b.price_orders_at_price (price_to_index price) p;
}
