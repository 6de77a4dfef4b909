-- ===== src/MarketBook/Tests.antt =====
-- Runs of a client's book (ch06/trading/strategy/market_order_book.cpp).
use building_low_latency_app.Prelude.{
  ltb, ◌==◌, Bool, ℕ, ◌≡◌, ◌≢◌, none, some, true, false, [], ◌∷◌, ◌++◌, arith, refl, inl, inr,
  if◌then◌else◌,
}
use building_low_latency_app.Prelude.Result.{ok, abort, assertion}
use building_low_latency_app.Types.{buy, price_invalid, qty_invalid}
use building_low_latency_app.Messages.{MarketUpdateType, MeMarketUpdate}
use building_low_latency_app.MemPool.{MemPool}
use building_low_latency_app.MarketBook.Order.{MarketOrder, MarketOrdersAtPrice, no_bbo}
use building_low_latency_app.MarketBook.State.{
  MarketOrderBook, book_told, best, get_orders_at_price,
}
use building_low_latency_app.MarketBook.Bbo.{update_bbo}
use building_low_latency_app.MarketBook.Update.{add, clear_side, on_market_update}
use building_low_latency_app.MarketBook.Clear.{with_levels, freed, clear_side_lem}
use building_low_latency_app.MarketBook.Total.{IsChain, IsLevel, total, update_bbo_lem}
use building_low_latency_app.MarketBook.First.{HasRoom, level_alone, order_alone, added_order}
use building_low_latency_app.MarketBook.Append.{IsRing}
use building_low_latency_app.MarketBook.Arrival.{IsQueue, add-IsRing}
use building_low_latency_app.MarketBook.Unseen.{on_market_update-first}

abbrev order : ℕ → ℕ → MarketOrder
order qty next = record {
  order_id = 1;
  side = buy;
  price = 100;
  qty = qty;
  priority = 1;
  prev_order = some next;
  next_order = some next;
}

abbrev level : ℕ → ℕ → MarketOrdersAtPrice
level price next = record {
  side = buy;
  price = price;
  first_mkt_order = some 0;
  prev_entry = some next;
  next_entry = some next;
}

-- The order in a block, of two in a ring.
abbrev order_at : ℕ → MarketOrder
order_at ℕ.zero = order 5 1
order_at (ℕ.suc i) = order 7 0

abbrev level_at : ℕ → MarketOrdersAtPrice
level_at ℕ.zero = level 100 1
level_at (ℕ.suc i) = level 99 0

abbrev empty_book : MarketOrderBook
empty_book = record {
  ticker_id = 1;
  oid_to_order = λ _. none;
  orders_at_price_pool = record {
    store = λ i. record { object = level_at i; is_free = true };
    size = 8;
    next_free_index = 2;
  };
  bids_by_price = none;
  asks_by_price = none;
  price_orders_at_price = λ _. none;
  order_pool = record {
    store = λ i. record { object = order_at i; is_free = true };
    size = 8;
    next_free_index = 2;
  };
  bbo = no_bbo;
  told = [];
}

-- Two levels of bids, of the orders 0 and 1.
abbrev book : MarketOrderBook
book = record empty_book {
  orders_at_price_pool = record {
    store = λ i. record { object = level_at i; is_free = false };
    size = 8;
    next_free_index = 2;
  };
  bids_by_price = some 0;
}

book-IsLevel : IsLevel book 0 0 (1 ∷ [])
unfolding IsChain
book-IsLevel = record {
  level_inside = omega arith;
  first = refl;
  first_inside = omega arith;
  ring = (refl, omega arith, omega arith, refl);
  few = omega arith;
}

update_bbo_lem_example :
    update_bbo true false book
    ≡ ok (
      tt,
      record book {
        bbo = record {
          bid_price = if true then 100 else price_invalid;
          ask_price = if false then price_invalid else price_invalid;
          bid_qty = if true then 12 else qty_invalid;
          ask_qty = if false then qty_invalid else qty_invalid;
        };
      },
    )
unfolding total
update_bbo_lem_example =
    update_bbo_lem true false book 100 price_invalid 12 qty_invalid
      (inr (0, 0, 1 ∷ [], refl, book-IsLevel, refl, refl)) (inl (refl, refl, refl))

clear_side_lem_example :
    (◌≡◌ {A = ℕ} 1 0
      → clear_side (some 0) book ≡ ok (tt, with_levels book (freed book.orders_at_price_pool 0)))
    × (◌≢◌ {A = ℕ} 1 0 → clear_side (some 0) book ≡ abort assertion)
clear_side_lem_example = clear_side_lem 0 1 book (omega arith) (omega arith) refl refl

abbrev first_bid : MeMarketUpdate
first_bid = record {
  type = MarketUpdateType.add;
  order_id = 4;
  ticker_id = 1;
  side = buy;
  price = 100;
  qty = 5;
  priority = 1;
}

module _ {T : Type 0} (object : ℕ → T) where
  abbrev free_pool : MemPool T
  free_pool = record {
    store = λ i. record { object = object i; is_free = true };
    size = 8;
    next_free_index = 2;
  }

  free_pool-HasRoom : HasRoom free_pool
  free_pool-HasRoom = record {
    valid = record { in_store = omega arith; small = omega arith; next_free = refl };
    other = 3;
    inside = omega arith;
    differs = omega arith;
    free = refl;
  }

on_market_update-first_example :
    (k i : ℕ) × (c : MarketOrderBook) × (on_market_update first_bid empty_book ≡ ok (tt, c))
    × (best buy c ≡ some k)
    × IsLevel c k i []
    × ((c.orders_at_price_pool.store k).object ≡ level_alone buy 100 i k)
    × ((c.order_pool.store i).object ≡ order_alone first_bid i)
    × (get_orders_at_price 100 c ≡ some k)
    × (c.oid_to_order 4 ≡ some i)
    × (c.bbo ≡ no_bbo)
    × (c.told ≡ [] ++ (book_told 1 100 buy no_bbo ∷ []))
on_market_update-first_example =
    on_market_update-first first_bid empty_book refl refl refl (omega arith)
      (free_pool-HasRoom order_at) (free_pool-HasRoom level_at)

-- The blocks 0 and 1 hold the orders of the level at 100, the others are free.
abbrev used_at : ℕ → Bool
used_at i = ltb 1 i

abbrev queue_book : MarketOrderBook
queue_book = record book {
  price_orders_at_price = λ i. if i == 100 then some 0 else none;
  order_pool = record {
    store = λ i. record { object = order_at i; is_free = used_at i };
    size = 8;
    next_free_index = 2;
  };
}

queue_book-IsQueue : IsQueue queue_book 100 0 0 (1 ∷ [])
unfolding IsChain
queue_book-IsQueue = record {
  found = refl;
  inside = omega arith;
  first = refl;
  ring = record {
    inside = omega arith;
    forth = (refl, omega arith, omega arith, refl);
    back = refl;
  };
  used = (refl, (refl, tt));
}

add-IsRing_example :
    (c : MarketOrderBook) × (add first_bid queue_book ≡ ok (tt, c))
    × IsRing c.order_pool 0 ((1 ∷ []) ++ (2 ∷ []))
    × ((c.order_pool.store 2).object
        ≡ record (added_order first_bid) { prev_order = some 1; next_order = some 0 })
    × (c.orders_at_price_pool ≡ queue_book.orders_at_price_pool)
    × (c.oid_to_order 4 ≡ some 2)
add-IsRing_example =
    add-IsRing first_bid queue_book 0 0 (1 ∷ []) queue_book-IsQueue (omega arith) (record {
      valid = record { in_store = omega arith; small = omega arith; next_free = refl };
      other = 3;
      inside = omega arith;
      differs = omega arith;
      free = refl;
    })
