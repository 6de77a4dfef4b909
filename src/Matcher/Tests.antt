-- ===== src/Matcher/Tests.antt =====
-- Runs of a small book, as `MEOrderBook` of ch06/exchange/matcher/me_order_book.h.
use building_low_latency_app.Prelude.{refl, false, ◌≡◌, ◌≢◌, ◌++◌, arith, some}
use building_low_latency_app.Prelude.Result.{out_of_fuel}
use building_low_latency_app.Types.{buy, priority_invalid}
use building_low_latency_app.Messages.{MarketUpdateType}
use building_low_latency_app.Matcher.Trade.{Aggressor, market_update, is_done}
use building_low_latency_app.Matcher.Fill.{Holds, fill_messages, match-partial}
use building_low_latency_app.Matcher.Unlink.{IsShared}
use building_low_latency_app.Matcher.Removal.{Removed, match-whole}
use building_low_latency_app.Matcher.Ends.Matching.{check_for_match-ends}
use building_low_latency_app.Prelude.{ℕ, none, true, List, [], ◌∷◌, ◌==◌, if◌then◌else◌}
use building_low_latency_app.Prelude.Result.{Result, ok, abort, assert}
use building_low_latency_app.Types.{invalid, sell}
use building_low_latency_app.MemPool
use building_low_latency_app.MemPool.{MemPool, ObjectBlock}
use building_low_latency_app.Matcher.Order.{Pointer, MeOrder, MeOrdersAtPrice}
use building_low_latency_app.Matcher.State.{
  MeOrderBook, M, pure, ◌>>=◌, ◌>>◌, gets, read, set_object, load_order, change_order, load_level,
  change_level, best, generate_new_market_order_id,
}
use building_low_latency_app.Matcher.Links.{
  find_place, link_after, link_before, replace_best, insert_level, begin_side, add_orders_at_price,
  unlink_level, remove_orders_at_price, set_client_order, start_level, append_order, add_order,
  unlink_order, forget_order, remove_order,
}
use building_low_latency_app.Matcher.Trade.{
  fill, close_filled, match, match_loop, check_for_match, get_next_priority, rest_order, add,
  reject_cancel, accept_cancel, find_client_order, cancel,
}

abbrev blank_order : MeOrder
blank_order = record {
  ticker_id = 0;
  client_id = 0;
  client_order_id = 0;
  market_order_id = 0;
  side = invalid;
  price = 0;
  qty = 0;
  priority = 0;
  prev_order = none;
  next_order = none;
}

abbrev blank_level : MeOrdersAtPrice
blank_level = record {
  side = invalid;
  price = 0;
  first_me_order = none;
  prev_entry = none;
  next_entry = none;
}

abbrev empty_book : MeOrderBook
empty_book = record {
  ticker_id = 1;
  cid_oid_to_order = λ _ _. none;
  orders_at_price_pool = record {
    store = λ _. record { object = blank_level; is_free = true };
    size = 8;
    next_free_index = 0;
  };
  bids_by_price = none;
  asks_by_price = none;
  price_orders_at_price = λ _. none;
  order_pool = record {
    store = λ _. record { object = blank_order; is_free = true };
    size = 8;
    next_free_index = 0;
  };
  next_market_order_id = 10;
  sent = [];
}

prices_from : ℕ → Pointer → M (List ℕ)
prices_from ℕ.zero p = pure []
prices_from (ℕ.suc k) p = do
  l ← load_level p
  rest ← prices_from k l.next_entry
  pure (l.price ∷ rest)

run : {A : Type 0} → M A → Result A
run m = elim (m empty_book) [ ok (a, b) ↦ ok a | abort e ↦ abort e ]

-- everything that a run of the book calls
example : M (List ℕ)
unfolding MemPool.allocate MemPool.deallocate assert read set_object load_order change_order
    load_level change_level generate_new_market_order_id find_place link_after link_before
    replace_best insert_level begin_side add_orders_at_price unlink_level remove_orders_at_price
    set_client_order start_level append_order add_order unlink_order forget_order remove_order fill
    close_filled match match_loop check_for_match get_next_priority rest_order add reject_cancel
    accept_cancel find_client_order cancel prices_from run
example = do
  add 1 1 1 sell 10 5
  add 1 2 1 sell 20 5
  add 1 3 1 sell 15 5
  p ← gets (best sell)
  prices_from 5 p

-- Sell orders at 10, 20 and 15, walked from the best level: the level of 15 has become the best one,
-- and the level of 10 is lost.
after_three_sells : run example ≡ ok (15 ∷ 20 ∷ 15 ∷ 20 ∷ 15 ∷ [])
unfolding run example prices_from is_done
after_three_sells = refl

-- A sell order of 5 stands first in the pool.
abbrev resting : MeOrder
resting = record blank_order { side = sell; qty = 5; price = 10 }

abbrev with_resting : MeOrderBook
with_resting = record empty_book {
  order_pool = record {
    store = λ _. record { object = resting; is_free = false };
    size = 8;
    next_free_index = 1;
  };
}

resting-Holds : Holds with_resting.order_pool 0 resting
resting-Holds = record { inside = omega arith; object = refl }

abbrev buyer : Aggressor
buyer = record {
  ticker_id = 1;
  client_id = 2;
  side = buy;
  client_order_id = 7;
  new_market_order_id = 11;
}

match-partial_example :
    (c : MeOrderBook) × (match buyer (some 0) 3 with_resting ≡ ok (0, c))
    × Holds c.order_pool 0 (record resting { qty = 2 })
    × ((c.order_pool.store 0).is_free ≡ false)
    × ((j : ℕ) → j ≢ 0 → c.order_pool.store j ≡ with_resting.order_pool.store j)
    × (record (c.order_pool) { store = with_resting.order_pool.store } ≡ with_resting.order_pool)
    × (record c { order_pool = with_resting.order_pool; sent = [] } ≡ with_resting)
    × (c.sent
        ≡ []
          ++ (fill_messages buyer resting 3 0
              ++ market_update MarketUpdateType.modify 0 1 sell 10 2 0 ∷ []))
match-partial_example =
    match-partial buyer with_resting 0 resting 3 resting-Holds (omega arith) (omega arith)

-- Two sell orders of 5 at 10, in the blocks 0 and 1; the level in the block 0 begins with the first.
abbrev sell_at : ℕ → MeOrder
sell_at ℕ.zero = record resting { prev_order = some 1; next_order = some 1 }
sell_at (ℕ.suc i) = record resting { client_order_id = 3; prev_order = some 0; next_order = some 0 }

abbrev with_two : MeOrderBook
with_two = record empty_book {
  cid_oid_to_order = λ c o. if o == 0 then some 0 else (if o == 3 then some 1 else none);
  orders_at_price_pool = record {
    store = λ _. record {
      object = record {
        side = sell;
        price = 10;
        first_me_order = some 0;
        prev_entry = some 0;
        next_entry = some 0;
      };
      is_free = false;
    };
    size = 8;
    next_free_index = 1;
  };
  asks_by_price = some 0;
  price_orders_at_price = λ _. some 0;
  order_pool = record {
    store = λ i. record { object = sell_at i; is_free = false };
    size = 8;
    next_free_index = 2;
  };
}

with_two-IsShared : IsShared with_two 0 (sell_at 0) 1 1 0
with_two-IsShared = record {
  held = record { inside = omega arith; object = refl };
  used = refl;
  prev = refl;
  next = refl;
  not_prev = omega arith;
  not_next = omega arith;
  prev_inside = omega arith;
  next_inside = omega arith;
  level = refl;
  level_inside = omega arith;
  client_inside = omega arith;
  id_inside = omega arith;
}

match-whole_example :
    (c : MeOrderBook) × (match buyer (some 0) 8 with_two ≡ ok (3, c))
    × Removed with_two 0 (sell_at 0) 1 1 0 c
    × (c.sent
        ≡ []
          ++ (fill_messages buyer (sell_at 0) 5 3
              ++ (market_update MarketUpdateType.cancel 0 1 sell 10 5 priority_invalid ∷ [])))
match-whole_example =
    match-whole buyer with_two 0 1 1 0 (sell_at 0) 8 with_two-IsShared (omega arith) (omega arith)

-- The level then begins with the other order, which is alone in its ring.
first_after : Result (Pointer × Pointer)
unfolding MemPool.deallocate assert read set_object load_order change_order load_level change_level
    set_client_order unlink_order forget_order remove_order fill close_filled match
first_after = elim (match buyer (some 0) 8 with_two) [
  | ok (q, c) ↦ ok (
    (c.orders_at_price_pool.store 0).object.first_me_order,
    (c.order_pool.store 1).object.next_order,
  )
  | abort e ↦ abort e
]

other_stays : first_after ≡ ok (some 1, some 1)
unfolding first_after
other_stays = refl

check_for_match-ends_example : check_for_match buyer 10 8 with_resting ≢ abort out_of_fuel
check_for_match-ends_example = check_for_match-ends buyer 10 8 with_resting
