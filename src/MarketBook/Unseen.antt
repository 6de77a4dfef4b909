-- ===== src/MarketBook/Unseen.antt =====
-- What the trade engine is told of the first order of a side, in
-- ch06/trading/strategy/market_order_book.cpp.
use building_low_latency_app.Prelude.{
  ℕ, ◌<◌, ◌≡◌, none, some, false, arith, refl, ap, List, [], ◌∷◌, ◌++◌,
}
use building_low_latency_app.Prelude.Result.{ok}
use building_low_latency_app.Types.{is_buy, is_sell, me_max_order_ids}
use building_low_latency_app.Messages.{MeMarketUpdate, MarketUpdateType}
use building_low_latency_app.MarketBook.State.{
  MarketOrderBook, best, get_orders_at_price, Told, book_told,
}
use building_low_latency_app.MarketBook.Update.{is_trade, apply_type, is_updated, on_market_update}
use building_low_latency_app.MarketBook.Bbo.{update_bbo}
use building_low_latency_app.MarketBook.Access.{is_updated-not}
use building_low_latency_app.MarketBook.First.{
  new_level, HasRoom, allocate-HasRoom, added_order, with_first, best-begun, add-eq, first-IsLevel,
  first-level, first-order, first-found, level_alone, order_alone,
}
use building_low_latency_app.MarketBook.Total.{IsLevel}

best-not_updated :
    (u : MeMarketUpdate) (b : MarketOrderBook)
    → best u.side b ≡ none
    → (is_updated (is_buy u.side) b.bids_by_price u.price b ≡ ok (false, b))
      × (is_updated (is_sell u.side) b.asks_by_price u.price b ≡ ok (false, b))
best-not_updated u b empty = (
  is_updated-not (is_buy u.side) b.bids_by_price u.price b (ground arith),
  is_updated-not (is_sell u.side) b.asks_by_price u.price b (ground arith),
)

IsLevel-told :
    {b : MarketOrderBook} {k i : ℕ} {js : List ℕ} {told : List Told}
    → IsLevel b k i js
    → IsLevel (record b { told = told }) k i js
IsLevel-told level = record {
  level_inside = level.level_inside;
  first = level.first;
  first_inside = level.first_inside;
  ring = level.ring;
  few = level.few;
}

-- An `ADD` for a side without levels, at a price whose place in the table is free, with an order id of
-- the array and room in both pools, returns. A block then holds the order with the update's data,
-- linked to itself as the only order of its level, and another the level, linked to itself as the
-- side's only one: it is the side's best, and it is found by the price and the order by its id. But the
-- best bid and offer are what they were: the trade engine is told of the update with the old ones.
pub on_market_update-first :
    (u : MeMarketUpdate) (b : MarketOrderBook)
    → u.type ≡ MarketUpdateType.add
    → best u.side b ≡ none
    → get_orders_at_price u.price b ≡ none
    → u.order_id < me_max_order_ids
    → HasRoom b.order_pool
    → HasRoom b.orders_at_price_pool
    → (k i : ℕ) × (c : MarketOrderBook) × (on_market_update u b ≡ ok (tt, c))
      × (best u.side c ≡ some k)
      × IsLevel c k i []
      × ((c.orders_at_price_pool.store k).object ≡ level_alone u.side u.price i k)
      × ((c.order_pool.store i).object ≡ order_alone u i)
      × (get_orders_at_price u.price c ≡ some k)
      × (c.oid_to_order u.order_id ≡ some i)
      × (c.bbo ≡ b.bbo)
      × (c.told ≡ b.told ++ (book_told u.ticker_id u.price u.side b.bbo ∷ []))
unfolding on_market_update apply_type update_bbo
on_market_update-first u b type empty unused small room room_level =
    let (orders, run, al) = allocate-HasRoom b.order_pool (added_order u) room in
    let (levels, run_level, al_level) =
      allocate-HasRoom b.orders_at_price_pool
        (new_level u.side u.price b.order_pool.next_free_index) room_level in
    let c = with_first u orders levels b in
    (
      b.orders_at_price_pool.next_free_index,
      b.order_pool.next_free_index,
      record c { told = b.told ++ (book_told u.ticker_id u.price u.side b.bbo ∷ []) },
      rw
          (
            (best-not_updated u b empty).0,
            (best-not_updated u b empty).1,
            ap is_trade type,
            ap (λ t. apply_type t u b) type,
            add-eq u b orders levels run al run_level al_level empty unused small,
          )
          refl,
      best-begun b.orders_at_price_pool.next_free_index u.side b,
      IsLevel-told (first-IsLevel u b orders levels run al run_level al_level),
      first-level u b orders levels run al run_level al_level,
      first-order u b orders levels run al run_level al_level,
      (first-found u b orders levels run al run_level al_level).0,
      (first-found u b orders levels run al run_level al_level).1,
      refl,
      refl,
    )
