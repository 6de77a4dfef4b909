-- ===== src/MarketBook/First.antt =====
-- The first order of a side, in ch06/trading/strategy/market_order_book.cpp.
use building_low_latency_app.Prelude.{
  ℕ, ◌<◌, ◌≡◌, ◌≢◌, none, some, true, arith, refl, ap, sym, ◌∙◌, subst, update, [], ==-refl,
  if◌then◌else◌,
}
use building_low_latency_app.Prelude.Result.{ok}
use building_low_latency_app.Types.{Side, is_buy, me_max_order_ids}
use building_low_latency_app.Messages.{MeMarketUpdate}
use building_low_latency_app.MemPool
use building_low_latency_app.MemPool.{MemPool}
use building_low_latency_app.MemPool.Laws.{IsValid, Allocated, allocate_lem}
use building_low_latency_app.Matcher.State.{write}
use building_low_latency_app.MarketBook.Order.{MarketOrder, MarketOrdersAtPrice}
use building_low_latency_app.MarketBook.State.{
  MarketOrderBook, best, set_best, get_orders_at_price, set_orders_at_price,
}
use building_low_latency_app.MarketBook.Links.{
  begin_side, add_orders_at_price, start_level, add_order,
}
use building_low_latency_app.MarketBook.Update.{add}
use building_low_latency_app.MarketBook.Access.{
  load_order-is, load_level-is, change_order-at, change_level-at, set_order-at,
}
use building_low_latency_app.MarketBook.Total.{IsChain, IsLevel}

-- The level that the first order begins.
abbrev pub new_level : Side → ℕ → ℕ → MarketOrdersAtPrice
new_level side price i = record {
  side = side;
  price = price;
  first_mkt_order = some i;
  prev_entry = none;
  next_entry = none;
}

-- A pool in which an object can be allocated: a second block is free.
pub record HasRoom {T : Type 0} (p : MemPool T) : Type 0 where
  pub valid : IsValid p
  pub other : ℕ
  pub inside : other < p.size
  pub differs : other ≢ p.next_free_index
  pub free : (p.store other).is_free ≡ true

pub allocate-HasRoom :
    {T : Type 0} (p : MemPool T) (value : T)
    → HasRoom p
    → (q : MemPool T) × (MemPool.allocate p value ≡ ok (p.next_free_index, q))
      × Allocated p value p.next_free_index q
allocate-HasRoom p value room =
    allocate_lem p value room.other room.valid room.inside room.differs room.free

write-at : {T : Type 0} (p : MemPool T) (i : ℕ) (v : T) → ((write p i v).store i).object ≡ v
unfolding write
write-at p i v = rw (==-refl i) refl

-- The book after `begin_side`.
abbrev begun : ℕ → Side → MarketOrderBook → MarketOrderBook
begun k side b = record b {
  bids_by_price = if is_buy side then some k else b.bids_by_price;
  asks_by_price = if is_buy side then b.asks_by_price else some k;
  orders_at_price_pool =
      write b.orders_at_price_pool k (record ((b.orders_at_price_pool.store k).object) {
        prev_entry = some k;
        next_entry = some k;
      });
}

begin_side-eq :
    (k : ℕ) (side : Side) (b : MarketOrderBook)
    → k < b.orders_at_price_pool.size
    → begin_side (some k) side b ≡ ok (tt, begun k side b)
unfolding begin_side
begin_side-eq k Side.buy b h =
    change_level-at k (set_best Side.buy (some k) b)
      (λ l. record l { prev_entry = some k; next_entry = some k }) h
begin_side-eq k Side.sell b h =
    change_level-at k (set_best Side.sell (some k) b)
      (λ l. record l { prev_entry = some k; next_entry = some k }) h
begin_side-eq k Side.invalid b h =
    change_level-at k (set_best Side.invalid (some k) b)
      (λ l. record l { prev_entry = some k; next_entry = some k }) h
begin_side-eq k (Side.unnamed n) b h =
    change_level-at k (set_best (Side.unnamed n) (some k) b)
      (λ l. record l { prev_entry = some k; next_entry = some k }) h

add_orders_at_price-first :
    (k i price : ℕ) (side : Side) (b : MarketOrderBook)
    → k < b.orders_at_price_pool.size
    → (b.orders_at_price_pool.store k).object ≡ new_level side price i
    → best side b ≡ none
    → add_orders_at_price (some k) b ≡ ok (tt, begun k side (set_orders_at_price price (some k) b))
unfolding add_orders_at_price
add_orders_at_price-first k i price side b h e empty =
    let c = set_orders_at_price price (some k) b in
    let f : best side c ≡ none = empty in
    rw (load_level-is k b (new_level side price i) h e, f) (begin_side-eq k side c h)

-- The book after `start_level`.
abbrev started :
    ℕ → ℕ → MarketOrder → MemPool MarketOrdersAtPrice → MarketOrderBook → MarketOrderBook
started k i o levels b = begun k o.side (
    set_orders_at_price o.price (some k) (record b {
      order_pool =
          write b.order_pool i
            (record ((b.order_pool.store i).object) { prev_order = some i; next_order = some i });
      orders_at_price_pool = levels;
    }))

start_level-eq :
    (i : ℕ) (o : MarketOrder) (levels : MemPool MarketOrdersAtPrice) (b : MarketOrderBook)
    → i < b.order_pool.size
    → (let k = b.orders_at_price_pool.next_free_index in
        (MemPool.allocate b.orders_at_price_pool (new_level o.side o.price i) ≡ ok (k, levels))
        × Allocated b.orders_at_price_pool (new_level o.side o.price i) k levels)
    → best o.side b ≡ none
    → start_level (some i) o b
      ≡ ok (tt, started b.orders_at_price_pool.next_free_index i o levels b)
unfolding start_level
start_level-eq i o levels b h (run, al) empty =
    let k = b.orders_at_price_pool.next_free_index in
    let c : MarketOrderBook = record b {
      order_pool =
          write b.order_pool i
            (record ((b.order_pool.store i).object) { prev_order = some i; next_order = some i });
      orders_at_price_pool = levels;
    } in
    rw (change_order-at i b (λ x. record x { prev_order = some i; next_order = some i }) h, run)
      (add_orders_at_price-first k i o.price o.side c
        (subst (λ n. k < n) (sym al.same_size) al.in_store) al.object empty)

-- The order that an update adds.
abbrev pub added_order : MeMarketUpdate → MarketOrder
added_order u = record {
  order_id = u.order_id;
  side = u.side;
  price = u.price;
  qty = u.qty;
  priority = u.priority;
  prev_order = none;
  next_order = none;
}

-- The order in the block `i`, as the only one of its level.
abbrev pub order_alone : MeMarketUpdate → ℕ → MarketOrder
order_alone u i = record (added_order u) { prev_order = some i; next_order = some i }

-- The level in the block `k`, as the only one of its side.
abbrev pub level_alone : Side → ℕ → ℕ → ℕ → MarketOrdersAtPrice
level_alone side price i k = record (new_level side price i) {
  prev_entry = some k;
  next_entry = some k;
}

-- The book after the first order of a side is added.
abbrev pub with_first :
    MeMarketUpdate
    → MemPool MarketOrder
    → MemPool MarketOrdersAtPrice
    → MarketOrderBook
    → MarketOrderBook
with_first u orders levels b =
    let i = b.order_pool.next_free_index in
    record (started b.orders_at_price_pool.next_free_index i (added_order u) levels
      (record b { order_pool = orders })) {
        oid_to_order = update b.oid_to_order u.order_id (some i);
      }

pub best-begun : (k : ℕ) (side : Side) (b : MarketOrderBook) → best side (begun k side b) ≡ some k
best-begun k Side.buy b = refl
best-begun k Side.sell b = refl
best-begun k Side.invalid b = refl
best-begun k (Side.unnamed n) b = refl

module _ (u : MeMarketUpdate) (b : MarketOrderBook) (orders : MemPool MarketOrder)
    (levels : MemPool MarketOrdersAtPrice)
    (run : MemPool.allocate b.order_pool (added_order u)
      ≡ ok (b.order_pool.next_free_index, orders))
    (al : Allocated b.order_pool (added_order u) b.order_pool.next_free_index orders)
    (run_level : MemPool.allocate b.orders_at_price_pool
        (new_level u.side u.price b.order_pool.next_free_index)
      ≡ ok (b.orders_at_price_pool.next_free_index, levels))
    (al_level : Allocated b.orders_at_price_pool
      (new_level u.side u.price b.order_pool.next_free_index)
      b.orders_at_price_pool.next_free_index
      levels) where
  in_orders : b.order_pool.next_free_index < orders.size
  in_orders = subst (λ n. b.order_pool.next_free_index < n) (sym al.same_size) al.in_store

  pub add-eq :
      best u.side b ≡ none
      → get_orders_at_price u.price b ≡ none
      → u.order_id < me_max_order_ids
      → add u b ≡ ok (tt, with_first u orders levels b)
  unfolding add add_order
  add-eq empty unused small =
      let i = b.order_pool.next_free_index in
      let c : MarketOrderBook = record b { order_pool = orders } in
      let d = started b.orders_at_price_pool.next_free_index i (added_order u) levels c in
      let f : get_orders_at_price u.price c ≡ none = unused in
      rw
        (
          run,
          load_order-is i c (added_order u) in_orders al.object,
          f,
          start_level-eq i (added_order u) levels c in_orders (run_level, al_level) empty,
        )
        (set_order-at u.order_id (some i) d small)

  pub first-IsLevel :
      IsLevel
        (with_first u orders levels b)
        b.orders_at_price_pool.next_free_index
        b.order_pool.next_free_index
        []
  unfolding IsChain write
  first-IsLevel = record {
    level_inside =
        subst (λ n. b.orders_at_price_pool.next_free_index < n) (sym al_level.same_size)
          al_level.in_store;
    first =
        ap (λ (l : MarketOrdersAtPrice). l.first_mkt_order)
          (write-at levels b.orders_at_price_pool.next_free_index _)
        ∙ ap (λ (l : MarketOrdersAtPrice). l.first_mkt_order) al_level.object;
    first_inside = in_orders;
    ring = ap (λ (o : MarketOrder). o.next_order) (write-at orders b.order_pool.next_free_index _);
    few = omega arith;
  }

  pub first-level :
      ((with_first u orders levels b).orders_at_price_pool.store
        b.orders_at_price_pool.next_free_index).object
      ≡ level_alone u.side u.price b.order_pool.next_free_index
          b.orders_at_price_pool.next_free_index
  first-level =
      let k = b.orders_at_price_pool.next_free_index in
      write-at levels k _
      ∙ ap (λ (l : MarketOrdersAtPrice). record l { prev_entry = some k; next_entry = some k })
          al_level.object

  pub first-order :
      ((with_first u orders levels b).order_pool.store b.order_pool.next_free_index).object
      ≡ order_alone u b.order_pool.next_free_index
  first-order =
      let i = b.order_pool.next_free_index in
      write-at orders i _
      ∙ ap (λ (o : MarketOrder). record o { prev_order = some i; next_order = some i }) al.object

  pub first-found :
      (get_orders_at_price u.price (with_first u orders levels b)
        ≡ some b.orders_at_price_pool.next_free_index)
      × ((with_first u orders levels b).oid_to_order u.order_id ≡ some b.order_pool.next_free_index)
  first-found = (rw ==-refl refl, rw ==-refl refl)
