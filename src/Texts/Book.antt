-- ===== src/Texts/Book.antt =====
-- `toString` of the two books, which share their text: ch06/exchange/matcher/me_order_book.cpp and
-- ch06/trading/strategy/market_order_book.cpp.
pub mod Checked
mod Tests
use building_low_latency_app.Prelude.{
  ℕ, zero, suc, ◌+◌, ◌-◌, Bool, true, false, none, some, [], ◌∷◌, ◌++◌, ◌&&◌, ◌||◌, if◌then◌else◌,
  leb, add32, inc64,
}
use building_low_latency_app.Prelude.Lists.{length, tabulate}
use building_low_latency_app.Prelude.Result.{
  Result, ok, abort, ◌>>=◌, ◌>>◌, fatal, undefined, out_of_fuel,
}
use building_low_latency_app.Framing.{Bytes}
use building_low_latency_app.Types.{
  TickerId, OrderId, Side, Price, Qty, sell, buy, is_sell, is_buy, order_id_invalid, price_invalid,
}
use building_low_latency_app.Matcher.Order.{Pointer, same, MeOrder, MeOrdersAtPrice}
use building_low_latency_app.Matcher.State.{MeOrderBook, read}
use building_low_latency_app.MarketBook.Order.{MarketOrder, MarketOrdersAtPrice}
use building_low_latency_app.MarketBook.State.{MarketOrderBook}
use building_low_latency_app.Texts.Decimal.{codes, to_string}
use building_low_latency_app.Texts.Values.{
  order_id_to_string, ticker_id_to_string, price_to_string, qty_to_string,
}

-- What the text reads of a level and of an order.
pub record Level : Type 0 where
  pub price : Price
  pub first_order : Pointer
  pub prev_entry : Pointer
  pub next_entry : Pointer

pub record Order : Type 0 where
  pub id : OrderId
  pub qty : Qty
  pub prev_order : Pointer
  pub next_order : Pointer

-- A book as the text sees it; a loop over its orders or levels has as much fuel as there are blocks.
pub record View : Type 0 where
  pub ticker_id : TickerId
  pub asks_by_price : Pointer
  pub bids_by_price : Pointer
  pub level : Pointer → Result Level
  pub order : Pointer → Result Order
  pub num_levels : ℕ
  pub num_orders : ℕ

-- The book of the matching engine.
unfoldable pub me_view : MeOrderBook → View
me_view b = record {
  ticker_id = b.ticker_id;
  asks_by_price = b.asks_by_price;
  bids_by_price = b.bids_by_price;
  level = λ p. read b.orders_at_price_pool p >>= λ l. ok (record {
    price = l.price;
    first_order = l.first_me_order;
    prev_entry = l.prev_entry;
    next_entry = l.next_entry;
  });
  order = λ p. read b.order_pool p >>= λ o. ok (record {
    id = o.market_order_id;
    qty = o.qty;
    prev_order = o.prev_order;
    next_order = o.next_order;
  });
  num_levels = b.orders_at_price_pool.size;
  num_orders = b.order_pool.size;
}

-- The client's book.
unfoldable pub market_view : MarketOrderBook → View
market_view b = record {
  ticker_id = b.ticker_id;
  asks_by_price = b.asks_by_price;
  bids_by_price = b.bids_by_price;
  level = λ p. read b.orders_at_price_pool p >>= λ l. ok (record {
    price = l.price;
    first_order = l.first_mkt_order;
    prev_entry = l.prev_entry;
    next_entry = l.next_entry;
  });
  order = λ p. read b.order_pool p >>= λ o. ok (record {
    id = o.order_id;
    qty = o.qty;
    prev_order = o.prev_order;
    next_order = o.next_order;
  });
  num_levels = b.orders_at_price_pool.size;
  num_orders = b.order_pool.size;
}

-- `%3s` and `%-3s`, with the width
abbrev pub pad_left : ℕ → Bytes → Bytes
pad_left width s = tabulate (width - length s) (λ _. b' ') ++ s

abbrev pub pad_right : ℕ → Bytes → Bytes
pad_right width s = s ++ tabulate (width - length s) (λ _. b' ')

-- `ss << std::endl`
abbrev pub line_end : Bytes
line_end = b'\n' ∷ []

-- The test that ends in `FATAL`.
abbrev pub is_unsorted : Side → Price → Price → Bool
is_unsorted side price last_price =
    (is_sell side && leb last_price price) || (is_buy side && leb price last_price)

module _ (v : View) where
  -- The first loop of `printer`: the quantity and the number of a level's orders.
  unfoldable pub count_orders : ℕ → Pointer → Pointer → Qty → ℕ → Result (Qty × ℕ)
  count_orders zero first itr qty num = abort out_of_fuel
  count_orders (suc fuel) first itr qty num = do
    o ← v.order itr
    let counted : Qty × ℕ = (add32 qty o.qty, inc64 num)
    if same o.next_order first
        then ok counted
        else count_orders fuel first o.next_order counted.0 counted.1

  -- `p ? p->order_id_ : OrderId_INVALID`
  unfoldable pub id_or_invalid : Pointer → Result OrderId
  id_or_invalid none = ok order_id_invalid
  id_or_invalid (some i) = v.order (some i) >>= λ o. ok o.id

  unfoldable pub order_text : Order → Result Bytes
  unfolding id_or_invalid
  order_text o = do
    prev ← id_or_invalid o.prev_order
    next ← id_or_invalid o.next_order
    ok (
        codes "[oid:"
        ++ (order_id_to_string o.id
            ++ (codes " q:"
                ++ (qty_to_string o.qty
                    ++ (codes " p:"
                        ++ (order_id_to_string prev
                            ++ (codes " n:" ++ (order_id_to_string next ++ codes "]"))))))))

  -- The second loop of `printer`.
  unfoldable pub order_texts : ℕ → Bool → Pointer → Pointer → Result Bytes
  unfolding order_text
  order_texts zero detailed first itr = abort out_of_fuel
  order_texts (suc fuel) detailed first itr = do
    o ← v.order itr
    text ← (if detailed then order_text o else ok [])
    rest ← (if same o.next_order first then ok [] else order_texts fuel detailed first o.next_order)
    ok (text ++ rest)

  -- `printer`, but for the check of the prices.
  unfoldable pub level_text : Bool → Level → Result Bytes
  unfolding count_orders order_texts
  level_text detailed l = do
    counted ← count_orders (suc v.num_orders) l.first_order l.first_order 0 0
    prev ← v.level l.prev_entry
    next ← v.level l.next_entry
    orders ← order_texts (suc v.num_orders) detailed l.first_order l.first_order
    ok (
        codes " <px:"
        ++ (pad_left 3 (price_to_string l.price)
            ++ (codes " p:"
                ++ (pad_left 3 (price_to_string prev.price)
                    ++ (codes " n:"
                        ++ (pad_left 3 (price_to_string next.price)
                            ++ (codes "> "
                                ++ (pad_right 3 (price_to_string l.price)
                                    ++ (codes " @ "
                                        ++ (pad_right 5 (qty_to_string counted.0)
                                            ++ (codes "("
                                                ++ (pad_right 4 (to_string counted.1)
                                                    ++ (codes ")"
                                                        ++ (orders ++ line_end))))))))))))))

  -- `printer`; with the check it leaves the level's price as the last one.
  unfoldable pub print_level : Bool → Bool → Side → Level → Price → Result (Bytes × Price)
  unfolding level_text
  print_level detailed sanity_check side l last_price = level_text detailed l >>= λ text.
      if sanity_check
      then (if is_unsorted side l.price last_price then abort fatal else ok (text, l.price))
      else ok (text, last_price)

  -- The loop over the levels of a side, `first` the best one.
  unfoldable pub print_side :
      ℕ → Bool → Bool → Side → Bytes → Pointer → Pointer → ℕ → Price → Result Bytes
  unfolding print_level
  print_side fuel detailed check side label first none count last_price = ok []
  print_side zero detailed check side label first (some i) count last_price = abort out_of_fuel
  print_side (suc fuel) detailed check side label first (some i) count last_price = do
    l ← v.level (some i)
    let next = if same l.next_entry first then none else l.next_entry
    (text, last) ← print_level detailed check side l last_price
    rest ← print_side fuel detailed check side label first next (inc64 count) last
    ok (label ++ (to_string count ++ (codes " => " ++ (text ++ rest))))

  -- `toString`
  unfoldable pub book_to_string : Bool → Bool → Result Bytes
  unfolding print_side
  book_to_string detailed validity_check = do
    asks ←
        print_side (suc v.num_levels) detailed validity_check sell (codes "ASKS L:") v.asks_by_price
          v.asks_by_price 0 0
    bids ←
        print_side (suc v.num_levels) detailed validity_check buy (codes "BIDS L:") v.bids_by_price
          v.bids_by_price 0 price_invalid
    ok (
        codes "Ticker:"
        ++ (ticker_id_to_string v.ticker_id
            ++ (line_end
                ++ (asks ++ (line_end ++ (codes "    X" ++ (line_end ++ (line_end ++ bids))))))))

-- `MEOrderBook::toString`
unfoldable pub me_order_book_to_string : Bool → Bool → MeOrderBook → Result Bytes
unfolding book_to_string me_view
me_order_book_to_string detailed validity_check b =
    book_to_string (me_view b) detailed validity_check

-- `MarketOrderBook::toString`
unfoldable pub market_order_book_to_string : Bool → Bool → MarketOrderBook → Result Bytes
unfolding book_to_string market_view
market_order_book_to_string detailed validity_check b =
    book_to_string (market_view b) detailed validity_check

-- `~MEOrderBook`, with the text that it logs.
unfoldable pub destroy_me_book : MeOrderBook → Result (Bytes × MeOrderBook)
unfolding me_order_book_to_string
destroy_me_book b = me_order_book_to_string false true b >>= λ text.
    ok (
      text,
      record b { bids_by_price = none; asks_by_price = none; cid_oid_to_order = λ _ _. none },
    )

-- `~MarketOrderBook`, with the text that it logs.
unfoldable pub destroy_market_book : MarketOrderBook → Result (Bytes × MarketOrderBook)
unfolding market_order_book_to_string
destroy_market_book b = market_order_book_to_string false true b >>= λ text.
    ok (text, record b { bids_by_price = none; asks_by_price = none; oid_to_order = λ _. none })
