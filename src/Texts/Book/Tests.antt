-- ===== src/Texts/Book/Tests.antt =====
-- The text of a client's book with one bid (ch06/trading/strategy/market_order_book.cpp).
use building_low_latency_app.Prelude.{
  ℕ, ◌≡◌, ◌≢◌, none, some, true, false, [], ◌++◌, arith, refl, ap,
}
use building_low_latency_app.Prelude.Result.{Result, ok, abort, is_ok, fatal}
use building_low_latency_app.Types.{buy}
use building_low_latency_app.Matcher.State.{MeOrderBook, read}
use building_low_latency_app.MarketBook.Order.{no_bbo}
use building_low_latency_app.MarketBook.State.{MarketOrderBook}
use building_low_latency_app.Texts.Decimal.{codes, digits, to_string}
use building_low_latency_app.Texts.Values.{number_or_invalid}
use building_low_latency_app.Texts.Book.{
  Level, me_view, destroy_me_book, destroy_market_book, market_view, count_orders, order_texts,
  order_text, id_or_invalid, level_text, print_level, print_side, book_to_string,
  market_order_book_to_string, line_end,
}
use building_low_latency_app.Texts.Book.Checked.{Fits, destructors-checked}

abbrev book : MarketOrderBook
book = record {
  ticker_id = 1;
  oid_to_order = λ _. none;
  orders_at_price_pool = record {
    store = λ _. record {
      object = record {
        side = buy;
        price = 100;
        first_mkt_order = some 0;
        prev_entry = some 0;
        next_entry = some 0;
      };
      is_free = false;
    };
    size = 2;
    next_free_index = 1;
  };
  bids_by_price = some 0;
  asks_by_price = none;
  price_orders_at_price = λ _. none;
  order_pool = record {
    store = λ _. record {
      object = record {
        order_id = 7;
        side = buy;
        price = 100;
        qty = 5;
        priority = 1;
        prev_order = some 0;
        next_order = some 0;
      };
      is_free = false;
    };
    size = 2;
    next_free_index = 1;
  };
  bbo = no_bbo;
  told = [];
}

abbrev price_of : Result Level → ℕ
price_of (ok l) = l.price
price_of (abort e) = 0

view-Fits : Fits (market_view book)
unfolding market_view read
view-Fits none l e = ground arith
view-Fits (some i) l e = ground (arith, ap price_of e)

-- An exchange's book with no level.
abbrev me_book : MeOrderBook
me_book = record {
  ticker_id = 1;
  cid_oid_to_order = λ _ _. none;
  orders_at_price_pool = record {
    store = λ _. record {
      object = record {
        side = buy;
        price = 100;
        first_me_order = none;
        prev_entry = none;
        next_entry = none;
      };
      is_free = true;
    };
    size = 2;
    next_free_index = 0;
  };
  bids_by_price = none;
  asks_by_price = none;
  price_orders_at_price = λ _. none;
  order_pool = record {
    store = λ _. record {
      object = record {
        ticker_id = 1;
        client_id = 1;
        client_order_id = 1;
        market_order_id = 1;
        side = buy;
        price = 100;
        qty = 5;
        priority = 1;
        prev_order = none;
        next_order = none;
      };
      is_free = true;
    };
    size = 2;
    next_free_index = 0;
  };
  next_market_order_id = 1;
  sent = [];
}

me_book-Fits : Fits (me_view me_book)
unfolding me_view read
me_book-Fits none l e = ground arith
me_book-Fits (some i) l e = ground (arith, ap price_of e)

destructors-checked_example :
    ((me_book.asks_by_price ≡ none
        → me_book.bids_by_price ≡ none
        → is_ok (destroy_me_book me_book) ≡ true)
      × (me_book.asks_by_price ≢ none → is_ok (destroy_me_book me_book) ≡ false)
      × (me_book.bids_by_price ≢ none → is_ok (destroy_me_book me_book) ≡ false))
    × ((book.asks_by_price ≡ none
          → book.bids_by_price ≡ none
          → is_ok (destroy_market_book book) ≡ true)
        × (book.asks_by_price ≢ none → is_ok (destroy_market_book book) ≡ false)
        × (book.bids_by_price ≢ none → is_ok (destroy_market_book book) ≡ false))
destructors-checked_example = destructors-checked me_book book me_book-Fits view-Fits

me_book_destroyed : is_ok (destroy_me_book me_book) ≡ true
me_book_destroyed = destructors-checked_example.0.0 refl refl

book_not_destroyed : is_ok (destroy_market_book book) ≡ false
book_not_destroyed = destructors-checked_example.1.2 (λ e. ground arith)

unchecked_text :
    market_order_book_to_string true false book
    ≡ ok (
        codes "Ticker:1"
        ++ (line_end
            ++ (line_end
                ++ (codes "    X"
                    ++ (line_end
                        ++ (line_end
                            ++ (codes
                                  "BIDS L:0 =>  <px:100 p:100 n:100> 100 @ 5    (1   )[oid:7 q:5 p:7 n:7]"
                                ++ line_end)))))))
unfolding market_order_book_to_string book_to_string print_side print_level level_text count_orders
    order_texts order_text id_or_invalid market_view read number_or_invalid to_string digits
unchecked_text = refl

checked_text : market_order_book_to_string false true book ≡ abort fatal
unfolding market_order_book_to_string book_to_string print_side print_level level_text count_orders
    order_texts market_view read number_or_invalid to_string digits
checked_text = refl
