-- ===== src/Matcher/Trade.antt =====
-- ch06/exchange/matcher/me_order_book.cpp: matching a new order, adding it, cancelling one.
use building_low_latency_app.Prelude.{
  ℕ, zero, suc, min, Bool, none, some, ◌||◌, if◌then◌else◌, ltb, ◌==◌, inc64, sub32, to_u32,
}
use building_low_latency_app.Prelude.Result.{abort, at, out_of_fuel}
use building_low_latency_app.Types.{
  ClientId, OrderId, TickerId, Side, invalid, Price, Qty, Priority, is_buy, is_sell,
  order_id_invalid, price_invalid, qty_invalid, priority_invalid, me_max_num_clients,
  me_max_order_ids,
}
use building_low_latency_app.Messages.{ClientResponseType, MarketUpdateType}
use building_low_latency_app.MemPool
use building_low_latency_app.Matcher.Order.{Pointer, same, MeOrder}
use building_low_latency_app.Matcher.State.{
  Sent, response, update_sent, MeOrderBook, M, pure, ◌>>=◌, ◌>>◌, gets, modify, lift, load_order,
  change_order, load_level, send, generate_new_market_order_id, get_orders_at_price,
}
use building_low_latency_app.Matcher.Links.{add_order, remove_order}

-- The two `FILLED` responses, and the market updates of a fill.
abbrev pub filled_response :
    ClientId → TickerId → OrderId → OrderId → Side → Price → Qty → Qty → Sent
filled_response client_id ticker_id client_order_id market_order_id side price exec_qty leaves_qty =
    response (record {
      type = ClientResponseType.filled;
      client_id = client_id;
      ticker_id = ticker_id;
      client_order_id = client_order_id;
      market_order_id = market_order_id;
      side = side;
      price = price;
      exec_qty = exec_qty;
      leaves_qty = leaves_qty;
    })

abbrev pub market_update :
    MarketUpdateType → OrderId → TickerId → Side → Price → Qty → Priority → Sent
market_update type order_id ticker_id side price qty priority = update_sent (record {
  type = type;
  order_id = order_id;
  ticker_id = ticker_id;
  side = side;
  price = price;
  qty = qty;
  priority = priority;
})

-- The aggressive order: the parameters that `match` and `checkForMatch` share.
pub record Aggressor : Type 0 where
  pub ticker_id : TickerId
  pub client_id : ClientId
  pub side : Side
  pub client_order_id : OrderId
  pub new_market_order_id : OrderId

-- The first part of `match`, up to the trade's market update. `o` is the passive order before it, and
-- the result is the passive order after it.
unfoldable pub fill : Aggressor → Pointer → MeOrder → Qty → Qty → M MeOrder
fill a itr o fill_qty leaves_qty = do
  change_order itr λ x. record x { qty = sub32 x.qty fill_qty }
  p ← load_order itr
  send (
      filled_response a.client_id a.ticker_id a.client_order_id a.new_market_order_id a.side p.price
        fill_qty leaves_qty)
  send (
      filled_response p.client_id a.ticker_id p.client_order_id p.market_order_id p.side p.price
        fill_qty p.qty)
  send (
      market_update MarketUpdateType.trade order_id_invalid a.ticker_id a.side p.price fill_qty
        priority_invalid)
  pure p

-- The end of `match`, for a passive order that is filled whole: `order_qty` is what it had.
unfoldable pub close_filled : Aggressor → Pointer → MeOrder → Qty → M (Unit {0})
close_filled a itr p order_qty = do
  send (
      market_update MarketUpdateType.cancel p.market_order_id a.ticker_id p.side p.price order_qty
        priority_invalid)
  remove_order itr

-- `match`. It returns what is left of the aggressive order.
unfoldable pub match : Aggressor → Pointer → Qty → M Qty
match a itr leaves_qty = do
  o ← load_order itr
  let fill_qty = min leaves_qty o.qty
  p ← fill a itr o fill_qty (sub32 leaves_qty fill_qty)
  if p.qty == 0
      then close_filled a itr p o.qty
      else send (
          market_update MarketUpdateType.modify p.market_order_id a.ticker_id p.side p.price p.qty
            p.priority)
  pure (sub32 leaves_qty fill_qty)

-- `price < ask_itr->price_` for a buyer, `price > bid_itr->price_` for a seller.
abbrev pub is_outside : Side → Price → Price → Bool
is_outside side price passive_price =
    if is_buy side then ltb price passive_price else ltb passive_price price

-- The best level of the other side.
abbrev pub passive_best : Side → MeOrderBook → Pointer
passive_best side b = if is_buy side then b.asks_by_price else b.bids_by_price

-- The loops' test, `leaves_qty && asks_by_price_`, turned round.
unfoldable pub is_done : Qty → Pointer → Bool
is_done leaves_qty top = (leaves_qty == 0) || same top none

-- The `while` loops of `checkForMatch`; they differ in the side alone.
unfoldable pub match_loop : ℕ → Aggressor → Price → Qty → M Qty
match_loop zero a price leaves_qty = λ _. abort out_of_fuel
match_loop (suc fuel) a price leaves_qty = do
  top ← gets (passive_best a.side)
  if is_done leaves_qty top then pure leaves_qty else (do
    l ← load_level top
    o ← load_order l.first_me_order
    if is_outside a.side price o.price
        then pure leaves_qty
        else (do left ← match a l.first_me_order leaves_qty; match_loop fuel a price left))

-- `checkForMatch`. A round that leaves something of the aggressive order gives a passive order back to
-- the pool, so the pool's size, one round for the last match and one for the final test are enough.
unfoldable pub check_for_match : Aggressor → Price → Qty → M Qty
check_for_match a price qty = do
  fuel ← gets λ b. suc (suc b.order_pool.size)
  if is_buy a.side || is_sell a.side then match_loop fuel a price qty else pure qty

-- `getNextPriority`
unfoldable pub get_next_priority : Price → M Priority
get_next_priority price = do
  level ← gets (get_orders_at_price price)
  if same level none then pure 1 else (do
    l ← load_level level
    first ← load_order l.first_me_order
    last ← load_order first.prev_order
    pure (inc64 last.priority))

-- The last part of `add`: what is left of the order rests in the book.
unfoldable pub rest_order : Aggressor → OrderId → Price → Qty → M (Unit {0})
rest_order a new_market_order_id price leaves_qty = do
  priority ← get_next_priority price
  let order : MeOrder = record {
    ticker_id = a.ticker_id;
    client_id = a.client_id;
    client_order_id = a.client_order_id;
    market_order_id = new_market_order_id;
    side = a.side;
    price = price;
    qty = leaves_qty;
    priority = priority;
    prev_order = none;
    next_order = none;
  }
  (i, pool) ← λ s. lift (MemPool.allocate s.order_pool order) s
  modify λ s. record s { order_pool = pool }
  add_order (some i)
  send (
      market_update MarketUpdateType.add new_market_order_id a.ticker_id a.side price leaves_qty
        priority)

-- `add`. Its call of `checkForMatch` hands the quantity over as the market order id and the market
-- order id, cut to 32 bits, as the quantity; the model does the same.
unfoldable pub add : ClientId → OrderId → TickerId → Side → Price → Qty → M (Unit {0})
add client_id client_order_id ticker_id side price qty = do
  new_market_order_id ← generate_new_market_order_id
  send (
      response (record {
        type = ClientResponseType.accepted;
        client_id = client_id;
        ticker_id = ticker_id;
        client_order_id = client_order_id;
        market_order_id = new_market_order_id;
        side = side;
        price = price;
        exec_qty = 0;
        leaves_qty = qty;
      }))
  let a : Aggressor = record {
    ticker_id = ticker_id;
    client_id = client_id;
    side = side;
    client_order_id = client_order_id;
    new_market_order_id = qty;
  }
  leaves_qty ← check_for_match a price (to_u32 new_market_order_id)
  if leaves_qty == 0 then pure tt else rest_order a new_market_order_id price leaves_qty

abbrev pub cancel_response :
    ClientResponseType → ClientId → TickerId → OrderId → OrderId → Side → Price → Qty → Sent
cancel_response type client_id ticker_id order_id market_order_id side price leaves_qty =
    response (record {
      type = type;
      client_id = client_id;
      ticker_id = ticker_id;
      client_order_id = order_id;
      market_order_id = market_order_id;
      side = side;
      price = price;
      exec_qty = qty_invalid;
      leaves_qty = leaves_qty;
    })

-- `cancel` of a request that names no order.
unfoldable pub reject_cancel : ClientId → OrderId → TickerId → M (Unit {0})
reject_cancel client_id order_id ticker_id = send (
    cancel_response ClientResponseType.cancel_rejected client_id ticker_id order_id order_id_invalid
      invalid price_invalid qty_invalid)

-- `cancel` of the order that the request names.
unfoldable pub accept_cancel : ClientId → OrderId → TickerId → Pointer → M (Unit {0})
accept_cancel client_id order_id ticker_id order = do
  o ← load_order order
  remove_order order
  send (
      market_update MarketUpdateType.cancel o.market_order_id ticker_id o.side o.price 0 o.priority)
  send (
      cancel_response ClientResponseType.canceled client_id ticker_id order_id o.market_order_id
        o.side o.price o.qty)

-- `cid_oid_to_order_.at(client_id).at(order_id)`, where the client id is one of the array's.
unfoldable pub find_client_order : ClientId → OrderId → M Pointer
find_client_order client_id order_id =
    if ltb client_id me_max_num_clients
    then (λ b. lift (at me_max_order_ids (b.cid_oid_to_order client_id) order_id) b)
    else pure none

-- `cancel`
unfoldable pub cancel : ClientId → OrderId → TickerId → M (Unit {0})
cancel client_id order_id ticker_id = do
  order ← find_client_order client_id order_id
  if same order none
      then reject_cancel client_id order_id ticker_id
      else accept_cancel client_id order_id ticker_id order
