-- ===== src/Matcher/Removal.antt =====
-- What the removal of an order that is not alone at its price does to a book of
-- ch06/exchange/matcher/me_order_book.h, and a match that fills such an order whole.
use mathlib.Core.List.{append_assoc}
use building_low_latency_app.Prelude.{
  ℕ, ◌-◌, ◌^◌, ◌≤◌, ◌<◌, ◌≡◌, ◌≢◌, ◌⊎◌, none, some, true, [], ◌∷◌, ◌++◌, arith, refl, ap, ◌∙◌,
  update, ==-refl, ==-of_ne,
}
use building_low_latency_app.Prelude.Result.{ok}
use building_low_latency_app.Types.{Qty, priority_invalid}
use building_low_latency_app.Messages.{MarketUpdateType}
use building_low_latency_app.MemPool.{MemPool, ObjectBlock}
use building_low_latency_app.Matcher.Order.{Pointer, MeOrder}
use building_low_latency_app.Matcher.State.{MeOrderBook, write}
use building_low_latency_app.Matcher.Trade.{Aggressor, market_update, match}
use building_low_latency_app.Matcher.Fill.{
  reduced, fill_messages, after_fill, write-Holds, write-free, write-others, match-filled,
}
use building_low_latency_app.Matcher.Unlink.{
  IsShared, released, begins_with, removed, remove_order-eq,
}

-- An order without its links.
abbrev pub bare : MeOrder → MeOrder
bare o = record o { prev_order = none; next_order = none }

abbrev pub object_at : MemPool MeOrder → ℕ → MeOrder
object_at p m = (p.store m).object

-- `q` is `p` without the order in the block `i`, which stood between those in `j` and `k`.
pub record Unlinked (p : MemPool MeOrder) (i j k : ℕ) (q : MemPool MeOrder) : Type 0 where
  pub free : (q.store i).is_free ≡ true
  pub next : (object_at q j).next_order ≡ some k
  pub prev : (object_at q k).prev_order ≡ some j
  pub other_next : (m : ℕ) → m ≢ i → m ≢ j → (object_at q m).next_order ≡ (object_at p m).next_order
  pub other_prev : (m : ℕ) → m ≢ i → m ≢ k → (object_at q m).prev_order ≡ (object_at p m).prev_order
  pub others : (m : ℕ) → m ≢ i → bare (object_at q m) ≡ bare (object_at p m)
  pub other_use : (m : ℕ) → m ≢ i → (q.store m).is_free ≡ (p.store m).is_free
  pub same_size : q.size ≡ p.size
  pub same_cursor : q.next_free_index ≡ p.next_free_index

-- `c` is `b` without the order `o` in the block `i`, which stood between those in `j` and `k` at the
-- price of the level `l`.
pub record Removed (b : MeOrderBook) (i : ℕ) (o : MeOrder) (j k l : ℕ) (c : MeOrderBook)
    : Type 0 where
  pub orders : Unlinked b.order_pool i j k c.order_pool
  pub levels : c.orders_at_price_pool ≡ begins_with i k l b.orders_at_price_pool
  pub forgotten : c.cid_oid_to_order o.client_id o.client_order_id ≡ none
  pub other_ids :
      (x y : ℕ)
      → (x ≢ o.client_id) ⊎ (y ≢ o.client_order_id)
      → c.cid_oid_to_order x y ≡ b.cid_oid_to_order x y
  pub same_bids : c.bids_by_price ≡ b.bids_by_price
  pub same_asks : c.asks_by_price ≡ b.asks_by_price
  pub same_prices : c.price_orders_at_price ≡ b.price_orders_at_price
  pub same_next_id : c.next_market_order_id ≡ b.next_market_order_id

released-Unlinked :
    (p : MemPool MeOrder) (i j k : ℕ) → j ≢ i → k ≢ i → Unlinked p i j k (released i j k p)
unfolding write
released-Unlinked p i j k nj nk = record {
  free = rw (==-refl i) refl;
  next = ground (arith, ==-of_ne i j, ==-refl j);
  prev = ground (arith, ==-of_ne i k, ==-refl k);
  other_next = λ m ni nj. ground arith;
  other_prev = λ m ni nk. ground arith;
  others = λ m ni. ground arith;
  other_use = λ m ni. ground arith;
  same_size = refl;
  same_cursor = refl;
}

-- What was written into the block before does not matter.
Unlinked-write :
    (p q : MemPool MeOrder) (i j k : ℕ) (o : MeOrder)
    → Unlinked (write p i o) i j k q
    → Unlinked p i j k q
unfolding write
Unlinked-write p q i j k o u = record {
  free = u.free;
  next = u.next;
  prev = u.prev;
  other_next = λ m ni nj.
      u.other_next m ni nj
      ∙ ap (λ (x : ObjectBlock MeOrder). x.object.next_order) (write-others p i o m ni);
  other_prev = λ m ni nk.
      u.other_prev m ni nk
      ∙ ap (λ (x : ObjectBlock MeOrder). x.object.prev_order) (write-others p i o m ni);
  others = λ m ni.
      u.others m ni ∙ ap (λ (x : ObjectBlock MeOrder). bare x.object) (write-others p i o m ni);
  other_use = λ m ni.
      u.other_use m ni ∙ ap (λ (x : ObjectBlock MeOrder). x.is_free) (write-others p i o m ni);
  same_size = u.same_size;
  same_cursor = u.same_cursor;
}

update-forgets :
    (rows : ℕ → ℕ → Pointer) (c o : ℕ) → update rows c (update (rows c) o none) c o ≡ none
update-forgets rows c o = rw (==-refl c, ==-refl o) refl

update-others :
    (rows : ℕ → ℕ → Pointer) (c o x y : ℕ)
    → (x ≢ c) ⊎ (y ≢ o)
    → update rows c (update (rows c) o none) x y ≡ rows x y
update-others rows c o x y ne = ground arith

-- The book before the removal: the order is filled, all four messages are sent.
abbrev filled : Aggressor → ℕ → MeOrder → Qty → MeOrderBook → MeOrderBook
filled a i o leaves_qty b = record (after_fill a i o o.qty (leaves_qty - o.qty) b) {
  sent =
      (b.sent ++ fill_messages a o o.qty (leaves_qty - o.qty))
      ++ (market_update MarketUpdateType.cancel o.market_order_id a.ticker_id o.side o.price o.qty
            priority_invalid
          ∷ []);
}

module _ (a : Aggressor) (b : MeOrderBook) (i j k l : ℕ) (o : MeOrder) (leaves_qty : Qty)
    (s : IsShared b i o j k l) where
  filled-IsShared : IsShared (filled a i o leaves_qty b) i (reduced o o.qty) j k l
  unfolding write
  filled-IsShared = record {
    held = write-Holds b.order_pool i (reduced o o.qty) s.held.inside;
    used = write-free b.order_pool i (reduced o o.qty) ∙ s.used;
    prev = s.prev;
    next = s.next;
    not_prev = s.not_prev;
    not_next = s.not_next;
    prev_inside = s.prev_inside;
    next_inside = s.next_inside;
    level = s.level;
    level_inside = s.level_inside;
    client_inside = s.client_inside;
    id_inside = s.id_inside;
  }

  filled-Removed :
      Removed b i o j k l (removed i (reduced o o.qty) j k l (filled a i o leaves_qty b))
  filled-Removed = record {
    orders =
        Unlinked-write b.order_pool _ i j k (reduced o o.qty)
          (released-Unlinked (write b.order_pool i (reduced o o.qty)) i j k s.not_prev s.not_next);
    levels = refl;
    forgotten = update-forgets b.cid_oid_to_order o.client_id o.client_order_id;
    other_ids = λ x y ne. update-others b.cid_oid_to_order o.client_id o.client_order_id x y ne;
    same_bids = refl;
    same_asks = refl;
    same_prices = refl;
    same_next_id = refl;
  }

  -- A passive order that is no larger than what is left of the aggressive one, which is below 2^32, and
  -- that shares its price with others, is filled whole, if its block is in use, its links lead to other
  -- blocks of the pool, its price has a level and its ids are within the arrays: the aggressive order
  -- keeps the rest, the three messages of a fill are sent and a `CANCEL` of the order with the quantity
  -- it had. The order leaves
  -- the book: its block is free, its neighbours are linked to each other, its level begins with the
  -- next one where it began with it, and its client's id is forgotten. All other orders keep their data
  -- and links, all other ids, levels and both sides stay.
  pub match-whole :
      leaves_qty < 2 ^ 32
      → o.qty ≤ leaves_qty
      → (c : MeOrderBook) × (match a (some i) leaves_qty b ≡ ok (leaves_qty - o.qty, c))
        × Removed b i o j k l c
        × (c.sent
            ≡ b.sent
              ++ (fill_messages a o o.qty (leaves_qty - o.qty)
                  ++ (market_update MarketUpdateType.cancel o.market_order_id a.ticker_id o.side
                        o.price o.qty priority_invalid
                      ∷ [])))
  match-whole small fits = (
    removed i (reduced o o.qty) j k l (filled a i o leaves_qty b),
    rw
        (
          match-filled a b i o leaves_qty s.held small fits,
          remove_order-eq i (reduced o o.qty) j k l (filled a i o leaves_qty b) filled-IsShared,
        )
        refl,
    filled-Removed,
    append_assoc b.sent (fill_messages a o o.qty (leaves_qty - o.qty)) _,
  )
