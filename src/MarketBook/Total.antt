-- ===== src/MarketBook/Total.antt =====
-- The best bid and offer of ch06/trading/strategy/market_order_book.h: the best level's price, and the
-- quantity of its orders together.
use building_low_latency_app.Prelude.{
  ℕ, zero, suc, ◌≤◌, ◌<◌, ◌≡◌, ◌≢◌, List, [], ◌∷◌, none, some, true, false, arith, refl, add32,
  ==-of_ne, ==-refl, if◌then◌else◌, Bool, ◌∙◌, ◌⊎◌, inl, inr, ap, ap₂, sym,
}
use building_low_latency_app.Prelude.Lists.{length}
use building_low_latency_app.Prelude.Result.{ok}
use building_low_latency_app.Types.{Price, Qty, price_invalid, qty_invalid}
use building_low_latency_app.MemPool.{MemPool}
use building_low_latency_app.Matcher.Order.{Pointer}
use building_low_latency_app.Matcher.State.{read}
use building_low_latency_app.MarketBook.Order.{MarketOrder, Bbo}
use building_low_latency_app.MarketBook.State.{MarketOrderBook, load_order, load_level}
use building_low_latency_app.MarketBook.Bbo.{
  add_quantities, best_of, update_bid, update_ask, update_bbo,
}

-- From `p` on, the orders are the blocks `js`, and the last of them leads to the block `i`.
unfoldable pub IsChain : MemPool MarketOrder → ℕ → Pointer → List ℕ → Type 0
IsChain pool i p [] = p ≡ some i
IsChain pool i p (j ∷ js) =
    (p ≡ some j) × (j ≢ i) × (j < pool.size) × IsChain pool i (pool.store j).object.next_order js

-- The quantities of the blocks, added to `qty` as 32-bit numbers.
unfoldable pub total : MemPool MarketOrder → List ℕ → Qty → Qty
total pool [] qty = qty
total pool (j ∷ js) qty = total pool js (add32 qty (pool.store j).object.qty)

-- A level in the book: its orders are the blocks `i` and `js`, in a ring.
pub record IsLevel (b : MarketOrderBook) (k i : ℕ) (js : List ℕ) : Type 0 where
  pub level_inside : k < b.orders_at_price_pool.size
  pub first : (b.orders_at_price_pool.store k).object.first_mkt_order ≡ some i
  pub first_inside : i < b.order_pool.size
  pub ring : IsChain b.order_pool i (b.order_pool.store i).object.next_order js
  pub few : length js ≤ b.order_pool.size

load_level-at :
    (k : ℕ) (b : MarketOrderBook)
    → k < b.orders_at_price_pool.size
    → load_level (some k) b ≡ ok ((b.orders_at_price_pool.store k).object, b)
unfolding load_level read
load_level-at k b h = ground arith

load_order-at :
    (i : ℕ) (b : MarketOrderBook)
    → i < b.order_pool.size
    → load_order (some i) b ≡ ok ((b.order_pool.store i).object, b)
unfolding load_order read
load_order-at i b h = ground arith

add_quantities-total :
    (js : List ℕ) (fuel i : ℕ) (p : Pointer) (qty : Qty) (b : MarketOrderBook)
    → length js < fuel
    → IsChain b.order_pool i p js
    → add_quantities fuel (some i) p qty b ≡ ok (total b.order_pool js qty, b)
unfolding add_quantities IsChain total
add_quantities-total js zero i p qty b h chain = elim h [ ]
add_quantities-total [] (suc fuel) i p qty b h chain = rw (chain, ==-refl i) refl
add_quantities-total (j ∷ js) (suc fuel) i p qty b h (e, ne, inside, chain) =
    let o = (b.order_pool.store j).object in
    rw
      (
        e,
        ==-of_ne j i ne,
        load_order-at j b inside,
        add_quantities-total js fuel i o.next_order (add32 qty o.qty) b (omega arith) chain,
      )
      refl

best_of-level :
    (k i : ℕ) (js : List ℕ) (b : MarketOrderBook)
    → IsLevel b k i js
    → best_of (some k) b
      ≡ ok (
        (
          (b.orders_at_price_pool.store k).object.price,
          total b.order_pool js (b.order_pool.store i).object.qty,
        ),
        b,
      )
unfolding best_of
best_of-level k i js b level =
    let o = (b.order_pool.store i).object in
    rw
      (
        load_level-at k b level.level_inside,
        level.first,
        load_order-at i b level.first_inside,
        add_quantities-total js (suc b.order_pool.size) i o.next_order o.qty b
            (omega (arith, level.few)) level.ring,
      )
      refl

-- The best price and quantity of a side whose best level is `p`: those of a level in the book, or the
-- invalid ones of a side without levels.
abbrev pub IsBest : MarketOrderBook → Pointer → Price → Qty → Type 0
IsBest b p price qty =
    ((p ≡ none) × (price ≡ price_invalid) × (qty ≡ qty_invalid))
    ⊎ ((k i : ℕ) × (js : List ℕ) × (p ≡ some k)
        × IsLevel b k i js
        × (price ≡ (b.orders_at_price_pool.store k).object.price)
        × (qty ≡ total b.order_pool js (b.order_pool.store i).object.qty))

best_of-IsBest :
    (p : Pointer) (price : Price) (qty : Qty) (b : MarketOrderBook)
    → IsBest b p price qty
    → best_of p b ≡ ok ((price, qty), b)
unfolding best_of
best_of-IsBest p price qty b (inl (e, f, g)) = rw (e, f, g) refl
best_of-IsBest p price qty b (inr (k, i, js, e, level, f, g)) =
    ap (λ q. best_of q b) e
    ∙ best_of-level k i js b level
    ∙ ap₂ (λ x y. ok ((x, y), b)) (sym f) (sym g)

module _ (b : MarketOrderBook) (price : Price) (qty : Qty) where
  update_bid-eq :
      IsBest b b.bids_by_price price qty
      → update_bid b
        ≡ ok (tt, record b { bbo = record (b.bbo) { bid_price = price; bid_qty = qty } })
  unfolding update_bid
  update_bid-eq best = rw (best_of-IsBest b.bids_by_price price qty b best) refl

  update_ask-eq :
      IsBest b b.asks_by_price price qty
      → update_ask b
        ≡ ok (tt, record b { bbo = record (b.bbo) { ask_price = price; ask_qty = qty } })
  unfolding update_ask
  update_ask-eq best = rw (best_of-IsBest b.asks_by_price price qty b best) refl

IsBest-bbo :
    (b : MarketOrderBook) (x : Bbo) (p : Pointer) (price : Price) (qty : Qty)
    → IsBest b p price qty
    → IsBest (record b { bbo = x }) p price qty
IsBest-bbo b x p price qty (inl h) = inl h
IsBest-bbo b x p price qty (inr (k, i, js, e, level, f, g)) = inr (
  k,
  i,
  js,
  e,
  record {
    level_inside = level.level_inside;
    first = level.first;
    first_inside = level.first_inside;
    ring = level.ring;
    few = level.few;
  },
  f,
  g,
)

-- `updateBBO` returns, and sets the price and the quantity of the sides it is told to: to the price of
-- the side's best level and the sum, modulo 2^32, of the quantities in the level's ring, or to the
-- invalid values if the side is empty. It changes nothing else.
pub update_bbo_lem :
    (bid ask : Bool) (b : MarketOrderBook) (bp ap : Price) (bq aq : Qty)
    → IsBest b b.bids_by_price bp bq
    → IsBest b b.asks_by_price ap aq
    → update_bbo bid ask b
      ≡ ok (
        tt,
        record b {
          bbo = record {
            bid_price = if bid then bp else b.bbo.bid_price;
            ask_price = if ask then ap else b.bbo.ask_price;
            bid_qty = if bid then bq else b.bbo.bid_qty;
            ask_qty = if ask then aq else b.bbo.ask_qty;
          };
        },
      )
unfolding update_bbo
update_bbo_lem true true b bp ap bq aq hb ha =
    let x : Bbo = record (b.bbo) { bid_price = bp; bid_qty = bq } in
    rw
      (
        update_bid-eq b bp bq hb,
        update_ask-eq (record b { bbo = x }) ap aq (IsBest-bbo b x b.asks_by_price ap aq ha),
      )
      refl
update_bbo_lem true false b bp ap bq aq hb ha = rw (update_bid-eq b bp bq hb) refl
update_bbo_lem false true b bp ap bq aq hb ha = rw (update_ask-eq b ap aq ha) refl
update_bbo_lem false false b bp ap bq aq hb ha = refl
