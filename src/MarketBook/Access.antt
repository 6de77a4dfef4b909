-- ===== src/MarketBook/Access.antt =====
-- Reads and writes through the pointers of a book of ch06/trading/strategy/market_order_book.h.
use building_low_latency_app.Prelude.{
  ℕ, ◌<◌, ◌≡◌, none, some, true, false, arith, refl, update, Bool, ◌⊎◌, inl, inr, ltb,
}
use building_low_latency_app.Prelude.Result.{ok}
use building_low_latency_app.Types.{Price, me_max_order_ids}
use building_low_latency_app.MemPool.{MemPool}
use building_low_latency_app.Matcher.Order.{Pointer}
use building_low_latency_app.Matcher.State.{read, write, set_object}
use building_low_latency_app.MarketBook.Order.{MarketOrder, MarketOrdersAtPrice}
use building_low_latency_app.MarketBook.State.{
  MarketOrderBook, load_order, load_level, change_order, change_level, set_order,
}
use building_low_latency_app.MarketBook.Update.{is_updated}

pub set_object-at :
    {T : Type 0} (p : MemPool T) (i : ℕ) (f : T → T)
    → i < p.size
    → set_object p (some i) f ≡ ok (write p i (f (p.store i).object))
unfolding set_object
set_object-at p i f h = ground arith

module _ (i : ℕ) (b : MarketOrderBook) where
  pub load_order-is :
      (o : MarketOrder)
      → i < b.order_pool.size
      → (b.order_pool.store i).object ≡ o
      → load_order (some i) b ≡ ok (o, b)
  unfolding load_order read
  load_order-is o h e = ground arith

  pub load_level-is :
      (l : MarketOrdersAtPrice)
      → i < b.orders_at_price_pool.size
      → (b.orders_at_price_pool.store i).object ≡ l
      → load_level (some i) b ≡ ok (l, b)
  unfolding load_level read
  load_level-is l h e = ground arith

  pub change_order-at :
      (f : MarketOrder → MarketOrder)
      → i < b.order_pool.size
      → change_order (some i) f b
        ≡ ok (tt, record b { order_pool = write b.order_pool i (f (b.order_pool.store i).object) })
  unfolding change_order
  change_order-at f h = rw (set_object-at b.order_pool i f h) refl

  pub change_level-at :
      (f : MarketOrdersAtPrice → MarketOrdersAtPrice)
      → i < b.orders_at_price_pool.size
      → change_level (some i) f b
        ≡ ok (
          tt,
          record b {
            orders_at_price_pool =
                write b.orders_at_price_pool i (f (b.orders_at_price_pool.store i).object);
          },
        )
  unfolding change_level
  change_level-at f h = rw (set_object-at b.orders_at_price_pool i f h) refl

pub set_order-at :
    (order_id : ℕ) (p : Pointer) (b : MarketOrderBook)
    → order_id < me_max_order_ids
    → set_order order_id p b ≡ ok (tt, record b { oid_to_order = update b.oid_to_order order_id p })
unfolding set_order
set_order-at order_id p b h =
    let e : ltb order_id me_max_order_ids ≡ true = ground arith in rw e refl

pub is_updated-not :
    (on_side : Bool) (p : Pointer) (price : Price) (b : MarketOrderBook)
    → (on_side ≡ false) ⊎ (p ≡ none)
    → is_updated on_side p price b ≡ ok (false, b)
unfolding is_updated
is_updated-not on_side none price b h = refl
is_updated-not on_side (some i) price b (inl e) = rw e refl
is_updated-not on_side (some i) price b (inr e) = ground arith
