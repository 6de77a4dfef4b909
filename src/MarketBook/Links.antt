-- ===== src/MarketBook/Links.antt =====
-- The lists of ch06/trading/strategy/market_order_book.h: price levels in a ring for each side, and the
-- orders of a level in a ring.
use building_low_latency_app.Prelude.{ℕ, zero, suc, Bool, none, some, not, ◌&&◌, if◌then◌else◌}
use building_low_latency_app.Prelude.Result.{abort, out_of_fuel}
use building_low_latency_app.Types.{Side, Price}
use building_low_latency_app.MemPool
use building_low_latency_app.Matcher.Order.{Pointer, same}
use building_low_latency_app.Matcher.Links.{goes_after}
use building_low_latency_app.MarketBook.Order.{MarketOrder, MarketOrdersAtPrice}
use building_low_latency_app.MarketBook.State.{
  M, pure, ◌>>=◌, ◌>>◌, gets, modify, lift, load_order, change_order, load_level, change_level,
  best, set_best, get_orders_at_price, set_orders_at_price, set_order, deallocate_level,
  deallocate_order,
}

-- The `while` loop of `addOrdersAtPrice`, from `target` and `add_after` to their last values.
unfoldable pub find_place : ℕ → MarketOrdersAtPrice → Pointer → Pointer → Bool → M (Pointer × Bool)
find_place zero level first target add_after = λ _. abort out_of_fuel
find_place (suc fuel) level first target add_after =
    if add_after && not (same target first)
    then (do
      t ← load_level target
      let after = goes_after level.side level.price t.price
      find_place fuel level first (if after then t.next_entry else target) after)
    else pure (target, add_after)

-- The branch `add new_orders_at_price after target`.
unfoldable pub link_after : Pointer → Pointer → Pointer → M (Unit {0})
link_after new first target = do
  b ← load_level first
  let place = if same target first then b.prev_entry else target
  change_level new λ l. record l { prev_entry = place }
  t ← load_level place
  change_level t.next_entry λ l. record l { prev_entry = new }
  u ← load_level place
  change_level new λ l. record l { next_entry = u.next_entry }
  change_level place λ l. record l { next_entry = new }

-- The last two statements of the branch `add new_orders_at_price before target`.
unfoldable pub replace_best : Pointer → Pointer → Pointer → Side → M (Unit {0})
replace_best new first target side = do
  change_level target
      λ l. record l { next_entry = if same l.next_entry first then new else l.next_entry }
  modify (set_best side new)

-- The branch `add new_orders_at_price before target`.
unfoldable pub link_before : Pointer → Pointer → Pointer → M (Unit {0})
link_before new first target = do
  t ← load_level target
  change_level new λ l. record l { prev_entry = t.prev_entry }
  change_level new λ l. record l { next_entry = target }
  u ← load_level target
  change_level u.prev_entry λ l. record l { next_entry = new }
  change_level target λ l. record l { prev_entry = new }
  n ← load_level new
  b ← load_level first
  if goes_after n.side n.price b.price then replace_best new first target n.side else pure tt

-- `addOrdersAtPrice` for a side that has a best price level, `first`. The loop has as much fuel as the
-- pool has blocks.
unfoldable pub insert_level : Pointer → Pointer → M (Unit {0})
insert_level new first = do
  n ← load_level new
  b ← load_level first
  let after_first = goes_after n.side n.price b.price
  second ← (if after_first then load_level b.next_entry else pure b)
  let start = if after_first then b.next_entry else first
  let start_after = after_first && goes_after n.side n.price second.price
  fuel ← gets λ s. suc s.orders_at_price_pool.size
  (target, add_after) ← find_place fuel n first start start_after
  if add_after then link_after new first target else link_before new first target

-- `addOrdersAtPrice` for a side that has no level: the new one is a ring of its own.
unfoldable pub begin_side : Pointer → Side → M (Unit {0})
begin_side new side = do
  modify (set_best side new)
  change_level new λ l. record l { prev_entry = new; next_entry = new }

-- `addOrdersAtPrice`
unfoldable pub add_orders_at_price : Pointer → M (Unit {0})
add_orders_at_price new = do
  n ← load_level new
  modify (set_orders_at_price n.price new)
  first ← gets (best n.side)
  if same first none then begin_side new n.side else insert_level new first

-- `removeOrdersAtPrice` where the side keeps other levels: `level` leaves the ring.
unfoldable pub unlink_level : Side → Pointer → Pointer → MarketOrdersAtPrice → M (Unit {0})
unlink_level side first level l = do
  change_level l.prev_entry λ k. record k { next_entry = l.next_entry }
  m ← load_level level
  change_level m.next_entry λ k. record k { prev_entry = m.prev_entry }
  n ← load_level level
  if same level first then modify (set_best side n.next_entry) else pure tt
  change_level level λ k. record k { prev_entry = none; next_entry = none }

-- `removeOrdersAtPrice`
unfoldable pub remove_orders_at_price : Side → Price → M (Unit {0})
remove_orders_at_price side price = do
  first ← gets (best side)
  level ← gets (get_orders_at_price price)
  l ← load_level level
  if same l.next_entry level then modify (set_best side none) else unlink_level side first level l
  modify (set_orders_at_price price none)
  deallocate_level level

-- `addOrder` where no level has the price: the order is the first of a new one.
unfoldable pub start_level : Pointer → MarketOrder → M (Unit {0})
start_level order o = do
  change_order order λ x. record x { prev_order = order; next_order = order }
  let level : MarketOrdersAtPrice = record {
    side = o.side;
    price = o.price;
    first_mkt_order = order;
    prev_entry = none;
    next_entry = none;
  }
  (i, pool) ← λ s. lift (MemPool.allocate s.orders_at_price_pool level) s
  modify λ s. record s { orders_at_price_pool = pool }
  add_orders_at_price (some i)

-- `addOrder` at a level that has orders, the first of them `first`.
unfoldable pub append_order : Pointer → Pointer → M (Unit {0})
append_order order first = do
  f ← load_order first
  change_order f.prev_order λ x. record x { next_order = order }
  g ← load_order first
  change_order order λ x. record x { prev_order = g.prev_order }
  change_order order λ x. record x { next_order = first }
  change_order first λ x. record x { prev_order = order }

-- `addOrder`
unfoldable pub add_order : Pointer → M (Unit {0})
add_order order = do
  o ← load_order order
  level ← gets (get_orders_at_price o.price)
  if same level none
      then start_level order o
      else (do l ← load_level level; append_order order l.first_mkt_order)
  set_order o.order_id order

-- `removeOrder` where the level keeps other orders: `order`, which holds `o`, leaves the ring.
unfoldable pub unlink_order : Pointer → Pointer → MarketOrder → M (Unit {0})
unlink_order level order o = do
  change_order o.prev_order λ x. record x { next_order = o.next_order }
  change_order o.next_order λ x. record x { prev_order = o.prev_order }
  l ← load_level level
  if same l.first_mkt_order order
      then change_level level (λ x. record x { first_mkt_order = o.next_order })
      else pure tt
  change_order order λ x. record x { prev_order = none; next_order = none }

-- The end of `removeOrder`.
unfoldable pub forget_order : Pointer → M (Unit {0})
forget_order order = do p ← load_order order; set_order p.order_id none; deallocate_order order

-- `removeOrder`
unfoldable pub remove_order : Pointer → M (Unit {0})
remove_order order = do
  o ← load_order order
  level ← gets (get_orders_at_price o.price)
  if same o.prev_order order
      then remove_orders_at_price o.side o.price
      else unlink_order level order o
  forget_order order
