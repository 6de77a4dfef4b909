-- ===== src/Texts/Book/Checked.antt =====
-- The check of the prices in `toString` of the two books: me_order_book.cpp and market_order_book.cpp of
-- ch06.
use building_low_latency_app.Prelude.{
  ℕ, suc, ◌<◌, ◌≡◌, ◌≢◌, ◌^◌, Bool, true, false, none, some, arith, refl,
}
use building_low_latency_app.Prelude.Result.{Result, ok, abort, is_ok, ◌>>=◌}
use building_low_latency_app.Framing.{Bytes}
use building_low_latency_app.Types.{Side, Price, buy, sell, price_invalid}
use building_low_latency_app.Matcher.Order.{Pointer}
use building_low_latency_app.Matcher.State.{MeOrderBook}
use building_low_latency_app.MarketBook.State.{MarketOrderBook}
use building_low_latency_app.Texts.Decimal.{codes}
use building_low_latency_app.Texts.Book.{
  View, Level, level_text, is_unsorted, print_level, print_side, book_to_string, me_view,
  market_view, me_order_book_to_string, market_order_book_to_string, destroy_me_book,
  destroy_market_book,
}

is_ok-bind :
    {A B : Type 0} (r : Result A) (f : A → Result B)
    → ((a : A) → r ≡ ok a → is_ok (f a) ≡ false)
    → is_ok (r >>= f) ≡ false
is_ok-bind (ok a) f h = h a refl
is_ok-bind (abort e) f h = refl

is_ok-stop :
    {A B : Type 0} (r : Result A) (f : A → Result B) → is_ok r ≡ false → is_ok (r >>= f) ≡ false
is_ok-stop (ok a) f h = absurd (ground arith)
is_ok-stop (abort e) f h = refl

-- The prices are numbers of 64 bits.
abbrev pub Fits : View → Type 0
Fits v = (p : Pointer) (l : Level) → v.level p ≡ ok l → l.price < 2 ^ 64

module _ (v : View) (detailed : Bool) where
  print_level-unsorted :
      (side : Side) (l : Level) (last_price : Price)
      → is_unsorted side l.price last_price ≡ true
      → is_ok (print_level v detailed true side l last_price) ≡ false
  unfolding print_level
  print_level-unsorted side l last_price h =
      is_ok-bind (level_text v detailed l) _ (λ text e. rw h refl)

  print_side-checked :
      (fuel i count : ℕ) (side : Side) (label : Bytes) (first : Pointer) (last_price : Price)
      → ((l : Level) → v.level (some i) ≡ ok l → is_unsorted side l.price last_price ≡ true)
      → is_ok (print_side v fuel detailed true side label first (some i) count last_price) ≡ false
  unfolding print_side
  print_side-checked ℕ.zero i count side label first last_price h = refl
  print_side-checked (ℕ.suc fuel) i count side label first last_price h =
      is_ok-bind (v.level (some i)) _ (λ l e.
        is_ok-stop (print_level v detailed true side l last_price) _
          (print_level-unsorted side l last_price (h l e)))

  side-fails :
      (fuel count : ℕ) (side : Side) (label : Bytes) (first p : Pointer) (last_price : Price)
      → p ≢ none
      → ((i : ℕ) (l : Level) → v.level (some i) ≡ ok l → is_unsorted side l.price last_price ≡ true)
      → is_ok (print_side v fuel detailed true side label first p count last_price) ≡ false
  side-fails fuel count side label first none last_price ne h = absurd (ne refl)
  side-fails fuel count side label first (some i) last_price ne h =
      print_side-checked fuel i count side label first last_price (h i)

  asks-fail : v.asks_by_price ≢ none → is_ok (book_to_string v detailed true) ≡ false
  unfolding book_to_string
  asks-fail ne =
      is_ok-stop
        (print_side v (suc v.num_levels) detailed true sell (codes "ASKS L:") v.asks_by_price
          v.asks_by_price 0 0)
        _
        (side-fails (suc v.num_levels) 0 sell (codes "ASKS L:") v.asks_by_price v.asks_by_price 0 ne
          (λ i l e. ground arith))

  bids-fail : Fits v → v.bids_by_price ≢ none → is_ok (book_to_string v detailed true) ≡ false
  unfolding book_to_string
  bids-fail fits ne =
      is_ok-bind
        (print_side v (suc v.num_levels) detailed true sell (codes "ASKS L:") v.asks_by_price
          v.asks_by_price 0 0)
        _
        (λ asks e.
          is_ok-stop
            (print_side v (suc v.num_levels) detailed true buy (codes "BIDS L:") v.bids_by_price
              v.bids_by_price 0 price_invalid)
            _
            (side-fails (suc v.num_levels) 0 buy (codes "BIDS L:") v.bids_by_price v.bids_by_price
              price_invalid ne (λ i l f. ground (arith, fits (some i) l f))))

  -- With the check, `toString` of a book returns if the book has no level, and never does if it has
  -- an ask or, when the prices are 64-bit numbers, a bid: the first level of a side fails the test.
  pub book_to_string-checked :
      Fits v
      → (v.asks_by_price ≡ none
          → v.bids_by_price ≡ none
          → is_ok (book_to_string v detailed true) ≡ true)
        × (v.asks_by_price ≢ none → is_ok (book_to_string v detailed true) ≡ false)
        × (v.bids_by_price ≢ none → is_ok (book_to_string v detailed true) ≡ false)
  unfolding book_to_string print_side
  book_to_string-checked fits = (λ a b. rw (a, b) refl, asks-fail, bids-fail fits)

is_ok-then : {A B : Type 0} (r : Result A) (f : A → B) → is_ok (r >>= (λ a. ok (f a))) ≡ is_ok r
is_ok-then (ok a) f = refl
is_ok-then (abort e) f = refl

destroy_me_book-eq :
    (b : MeOrderBook) → is_ok (destroy_me_book b) ≡ is_ok (book_to_string (me_view b) false true)
unfolding destroy_me_book me_order_book_to_string
destroy_me_book-eq b = is_ok-then (book_to_string (me_view b) false true) _

destroy_market_book-eq :
    (b : MarketOrderBook)
    → is_ok (destroy_market_book b) ≡ is_ok (book_to_string (market_view b) false true)
unfolding destroy_market_book market_order_book_to_string
destroy_market_book-eq b = is_ok-then (book_to_string (market_view b) false true) _

-- Where the prices are 64-bit numbers, the destructor of each of the two books returns if the book has no
-- level, and never does if it has an ask or a bid.
pub destructors-checked :
    (b : MeOrderBook) (c : MarketOrderBook)
    → Fits (me_view b)
    → Fits (market_view c)
    → ((b.asks_by_price ≡ none → b.bids_by_price ≡ none → is_ok (destroy_me_book b) ≡ true)
        × (b.asks_by_price ≢ none → is_ok (destroy_me_book b) ≡ false)
        × (b.bids_by_price ≢ none → is_ok (destroy_me_book b) ≡ false))
      × ((c.asks_by_price ≡ none → c.bids_by_price ≡ none → is_ok (destroy_market_book c) ≡ true)
          × (c.asks_by_price ≢ none → is_ok (destroy_market_book c) ≡ false)
          × (c.bids_by_price ≢ none → is_ok (destroy_market_book c) ≡ false))
unfolding me_view market_view
destructors-checked b c fits_b fits_c =
    rw (destroy_me_book-eq b, destroy_market_book-eq c)
      (
        book_to_string-checked (me_view b) false fits_b,
        book_to_string-checked (market_view c) false fits_c,
      )
