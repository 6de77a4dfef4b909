-- ===== src/Matcher/Fill.antt =====
-- One match of ch06/exchange/matcher/me_order_book.cpp: quantities and messages.
use building_low_latency_app.Prelude.{
  ℕ, min, ◌-◌, ◌^◌, ◌≤◌, ◌<◌, ◌≡◌, ◌≢◌, some, List, [], ◌∷◌, ◌++◌, sub32, arith, subst, refl,
  ==-refl, ==-of_ne,
}
use mathlib.Core.List.{append_assoc}
use building_low_latency_app.Prelude.Result.{ok}
use building_low_latency_app.Types.{Qty, order_id_invalid, priority_invalid}
use building_low_latency_app.Messages.{MarketUpdateType}
use building_low_latency_app.MemPool.{MemPool}
use building_low_latency_app.Matcher.Order.{MeOrder}
use building_low_latency_app.Matcher.State.{
  Sent, MeOrderBook, read, write, set_object, load_order, change_order, and_then,
}
use building_low_latency_app.Matcher.Links.{remove_order}
use building_low_latency_app.Matcher.Trade.{
  Aggressor, filled_response, market_update, fill, close_filled, match,
}

-- The place `i` of the pool holds the object `o`.
pub record Holds {T : Type 0} (p : MemPool T) (i : ℕ) (o : T) : Type 0 where
  pub inside : i < p.size
  pub object : (p.store i).object ≡ o

abbrev pub reduced : MeOrder → Qty → MeOrder
reduced o fill_qty = record o { qty = sub32 o.qty fill_qty }

-- The three messages of every fill: to the aggressive client, to the passive client, to the market.
abbrev pub fill_messages : Aggressor → MeOrder → Qty → Qty → List Sent
fill_messages a o fill_qty leaves_qty =
    filled_response a.client_id a.ticker_id a.client_order_id a.new_market_order_id a.side o.price
      fill_qty leaves_qty
    ∷ filled_response o.client_id a.ticker_id o.client_order_id o.market_order_id o.side o.price
        fill_qty (sub32 o.qty fill_qty)
    ∷ market_update MarketUpdateType.trade order_id_invalid a.ticker_id a.side o.price fill_qty
        priority_invalid
    ∷ []

-- The book after a fill: the passive order's quantity is reduced, the messages are sent.
abbrev pub after_fill : Aggressor → ℕ → MeOrder → Qty → Qty → MeOrderBook → MeOrderBook
after_fill a i o fill_qty leaves_qty b = record b {
  order_pool = write b.order_pool i (reduced o fill_qty);
  sent = b.sent ++ fill_messages a o fill_qty leaves_qty;
}

module _ (b : MeOrderBook) (i : ℕ) {o : MeOrder} (h : Holds b.order_pool i o) where
  pub load_order-Holds : load_order (some i) b ≡ ok (o, b)
  unfolding load_order read
  load_order-Holds = ground arith

  pub change_order-Holds :
      (f : MeOrder → MeOrder)
      → change_order (some i) f b ≡ ok (tt, record b { order_pool = write b.order_pool i (f o) })
  unfolding change_order set_object
  change_order-Holds f = ground arith

module _ {T : Type 0} (p : MemPool T) (i : ℕ) (o : T) where
  pub write-Holds : i < p.size → Holds (write p i o) i o
  unfolding write
  write-Holds h = record { inside = h; object = ground arith }

  pub write-free : ((write p i o).store i).is_free ≡ (p.store i).is_free
  unfolding write
  write-free = rw (==-refl i) refl

  pub write-rest : record (write p i o) { store = p.store } ≡ p
  unfolding write
  write-rest = refl

  pub write-others : (j : ℕ) → j ≢ i → (write p i o).store j ≡ p.store j
  unfolding write
  write-others j ne = ground (arith, ==-of_ne i j)

append_three :
    {A : Type 0} (xs : List A) (a b c : A)
    → ((xs ++ (a ∷ [])) ++ (b ∷ [])) ++ (c ∷ []) ≡ xs ++ (a ∷ b ∷ c ∷ [])
append_three xs a b c = simp append_assoc

pub fill_lem :
    (a : Aggressor) (b : MeOrderBook) (i : ℕ) (o : MeOrder) (fill_qty leaves_qty : Qty)
    → Holds b.order_pool i o
    → fill a (some i) o fill_qty leaves_qty b
      ≡ ok (reduced o fill_qty, after_fill a i o fill_qty leaves_qty b)
unfolding fill
fill_lem a b i o fill_qty leaves_qty h = rw (
  change_order-Holds b i h (λ x. reduced x fill_qty),
  load_order-Holds (record b { order_pool = write b.order_pool i (reduced o fill_qty) }) i
      (write-Holds b.order_pool i (reduced o fill_qty) h.inside),
  append_three,
)

-- A passive order, of a quantity below 2^32, that is larger than what is left of the aggressive one
-- takes all of it: its quantity falls by exactly that, and four messages are sent, the last a `MODIFY`
-- with the quantity that remains. Nothing else of the book changes: the block's mark, the order's
-- other data and links and the other blocks are as they were, and so are all fields but the pool and
-- the messages.
pub match-partial :
    (a : Aggressor) (b : MeOrderBook) (i : ℕ) (o : MeOrder) (leaves_qty : Qty)
    → Holds b.order_pool i o
    → o.qty < 2 ^ 32
    → leaves_qty < o.qty
    → (c : MeOrderBook) × (match a (some i) leaves_qty b ≡ ok (0, c))
      × Holds c.order_pool i (record o { qty = o.qty - leaves_qty })
      × ((c.order_pool.store i).is_free ≡ (b.order_pool.store i).is_free)
      × ((j : ℕ) → j ≢ i → c.order_pool.store j ≡ b.order_pool.store j)
      × (record (c.order_pool) { store = b.order_pool.store } ≡ b.order_pool)
      × (record c { order_pool = b.order_pool; sent = b.sent } ≡ b)
      × (c.sent
          ≡ b.sent
            ++ (fill_messages a o leaves_qty 0
                ++ market_update MarketUpdateType.modify o.market_order_id a.ticker_id o.side
                    o.price
                    (o.qty - leaves_qty)
                    o.priority
                  ∷ []))
unfolding match
match-partial a b i o leaves_qty h small more = (
  record filled { sent = filled.sent ++ (modified ∷ []) },
  rw (
    load_order-Holds b i h,
    all,
    none_left,
    fill_lem a b i o leaves_qty 0 h,
    ==-of_ne (sub32 o.qty leaves_qty) 0 (omega arith),
    rest,
  ),
  subst (λ q. Holds filled.order_pool i (record o { qty = q })) rest
      (write-Holds b.order_pool i (reduced o leaves_qty) h.inside),
  write-free b.order_pool i (reduced o leaves_qty),
  write-others b.order_pool i (reduced o leaves_qty),
  write-rest b.order_pool i (reduced o leaves_qty),
  refl,
  append_assoc b.sent (fill_messages a o leaves_qty 0) (modified ∷ []),
)
  where
    filled : MeOrderBook
    filled = after_fill a i o leaves_qty 0 b

    modified : Sent
    modified =
        market_update MarketUpdateType.modify o.market_order_id a.ticker_id o.side o.price
          (o.qty - leaves_qty) o.priority

    all : min leaves_qty o.qty ≡ leaves_qty
    all = omega arith

    none_left : sub32 leaves_qty leaves_qty ≡ 0
    none_left = omega arith

    rest : sub32 o.qty leaves_qty ≡ o.qty - leaves_qty
    rest = omega arith

-- The steps of a match that fills the passive order whole.
pub match-filled :
    (a : Aggressor) (b : MeOrderBook) (i : ℕ) (o : MeOrder) (leaves_qty : Qty)
    → Holds b.order_pool i o
    → leaves_qty < 2 ^ 32
    → o.qty ≤ leaves_qty
    → match a (some i) leaves_qty b
      ≡ and_then
          (remove_order (some i) (record (after_fill a i o o.qty (leaves_qty - o.qty) b) {
            sent =
                (b.sent ++ fill_messages a o o.qty (leaves_qty - o.qty))
                ++ (market_update MarketUpdateType.cancel o.market_order_id a.ticker_id o.side
                      o.price o.qty priority_invalid
                    ∷ []);
          }))
          (λ _ c. ok (leaves_qty - o.qty, c))
unfolding match close_filled
match-filled a b i o leaves_qty h small fits =
    rw (load_order-Holds b i h, all, rest, fill_lem a b i o o.qty (leaves_qty - o.qty) h, used_up)
  where
    all : min leaves_qty o.qty ≡ o.qty
    all = omega arith

    rest : sub32 leaves_qty o.qty ≡ leaves_qty - o.qty
    rest = omega arith

    used_up : sub32 o.qty o.qty ≡ 0
    used_up = omega arith
