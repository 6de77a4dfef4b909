-- ===== src/MarketBook/Arrival.antt =====
-- `ADD` of ch06/trading/strategy/market_order_book.cpp at a price that has a level.
use building_low_latency_app.Prelude.{
  ℕ, ◌<◌, ◌≡◌, ◌≢◌, List, [], ◌∷◌, ◌++◌, some, true, false, arith, refl, ap, sym, ◌∙◌, subst,
  ==-refl, update,
}
use building_low_latency_app.Prelude.Lists.{All}
use building_low_latency_app.Prelude.Result.{ok}
use building_low_latency_app.Types.{me_max_order_ids}
use building_low_latency_app.Messages.{MeMarketUpdate}
use building_low_latency_app.MemPool
use building_low_latency_app.MemPool.{MemPool}
use building_low_latency_app.Matcher.Order.{Pointer}
use building_low_latency_app.MarketBook.Order.{MarketOrder}
use building_low_latency_app.MarketBook.State.{MarketOrderBook, get_orders_at_price}
use building_low_latency_app.MarketBook.Links.{add_order}
use building_low_latency_app.MarketBook.Update.{add}
use building_low_latency_app.MarketBook.Access.{load_order-is, load_level-is, set_order-at}
use building_low_latency_app.MarketBook.First.{HasRoom, allocate-HasRoom, added_order}
use building_low_latency_app.MarketBook.Total.{IsChain}
use building_low_latency_app.MarketBook.Ring.{last, next}
use building_low_latency_app.MarketBook.Append.{
  with_orders, appended, IsRing, append_order-IsRing, order-appended, last-differs,
}

-- The level at a price: the block `k`, whose orders are `i` and then `js`, all in use.
pub record IsQueue (b : MarketOrderBook) (price k i : ℕ) (js : List ℕ) : Type 0 where
  pub found : get_orders_at_price price b ≡ some k
  pub inside : k < b.orders_at_price_pool.size
  pub first : (b.orders_at_price_pool.store k).object.first_mkt_order ≡ some i
  pub ring : IsRing b.order_pool i js
  pub used : All (λ j. (b.order_pool.store j).is_free ≡ false) (i ∷ js)

module _ (p q : MemPool MarketOrder) (n : ℕ)
    (others : (j : ℕ) → j ≢ n → q.store j ≡ p.store j) where
  IsChain-others :
      (i : ℕ) (x : Pointer) (js : List ℕ)
      → q.size ≡ p.size
      → All (λ k. k ≢ n) js
      → IsChain p i x js
      → IsChain q i x js
  unfolding IsChain
  IsChain-others i x [] size nes chain = chain
  IsChain-others i x (j ∷ js) size (ne, nes) (e, nj, inside, chain) = (
    e,
    nj,
    subst (λ s. j < s) (sym size) inside,
    subst (λ y. IsChain q i y js)
        (sym (ap (λ (o : MemPool.ObjectBlock MarketOrder). o.object.next_order) (others j ne)))
        (IsChain-others i (next p j) js size nes chain),
  )

  IsRing-others :
      (i : ℕ) (js : List ℕ)
      → q.size ≡ p.size
      → i ≢ n
      → All (λ k. k ≢ n) js
      → IsRing p i js
      → IsRing q i js
  IsRing-others i js size ne nes ring = record {
    inside = subst (λ s. i < s) (sym size) ring.inside;
    forth =
        subst (λ y. IsChain q i y js)
          (sym (ap (λ (o : MemPool.ObjectBlock MarketOrder). o.object.next_order) (others i ne)))
          (IsChain-others i (next p i) js size nes ring.forth);
    back =
        ap (λ (o : MemPool.ObjectBlock MarketOrder). o.object.prev_order) (others i ne) ∙ ring.back;
  }

used-differs :
    (p : MemPool MarketOrder) (n : ℕ) (js : List ℕ)
    → (p.store n).is_free ≡ true
    → All (λ j. (p.store j).is_free ≡ false) js
    → All (λ j. j ≢ n) js
used-differs p n [] free used = tt
used-differs p n (j ∷ js) free (u, used) = (
  λ e. ground (arith, subst (λ x. (p.store x).is_free ≡ false) e u),
  used-differs p n js free used,
)

add_order-queue :
    (u : MeMarketUpdate) (n k i : ℕ) (js : List ℕ) (b : MarketOrderBook)
    → n < b.order_pool.size
    → (b.order_pool.store n).object ≡ added_order u
    → u.order_id < me_max_order_ids
    → get_orders_at_price u.price b ≡ some k
    → k < b.orders_at_price_pool.size
    → (b.orders_at_price_pool.store k).object.first_mkt_order ≡ some i
    → IsRing b.order_pool i js
    → n ≢ i
    → All (λ j. j ≢ n) js
    → let q = appended n i (last i js) b.order_pool in
      add_order (some n) b
      ≡ ok (
        tt,
        record (with_orders b q) { oid_to_order = update b.oid_to_order u.order_id (some n) },
      )
unfolding add_order
add_order-queue u n k i js b h object small found inside first ring ne nes =
    let q = appended n i (last i js) b.order_pool in
    rw
      (
        load_order-is n b (added_order u) h object,
        found,
        load_level-is k b (b.orders_at_price_pool.store k).object inside refl,
        first,
        (append_order-IsRing n i js b ring h ne nes).0,
      )
      (set_order-at u.order_id (some n) (with_orders b q) small)

-- An `ADD` at a price that has a level, with an order id of the array and room in the pool, returns. The
-- new order, with the update's data, stands behind the level's orders: it leads to the first of them and
-- back to the one that was the last. The level's first order stays the first; the order is found by its id.
pub add-IsRing :
    (u : MeMarketUpdate) (b : MarketOrderBook) (k i : ℕ) (js : List ℕ)
    → IsQueue b u.price k i js
    → u.order_id < me_max_order_ids
    → HasRoom b.order_pool
    → (c : MarketOrderBook) × (add u b ≡ ok (tt, c))
      × IsRing c.order_pool i (js ++ (b.order_pool.next_free_index ∷ []))
      × ((c.order_pool.store b.order_pool.next_free_index).object
          ≡ record (added_order u) { prev_order = some (last i js); next_order = some i })
      × (c.orders_at_price_pool ≡ b.orders_at_price_pool)
      × (c.oid_to_order u.order_id ≡ some b.order_pool.next_free_index)
unfolding add
add-IsRing u b k i js queue small room =
    let n = b.order_pool.next_free_index in
    let (orders, run, al) = allocate-HasRoom b.order_pool (added_order u) room in
    let (ne, nes) = used-differs b.order_pool n (i ∷ js) al.was_free queue.used in
    let c = with_orders b orders in
    let ring = IsRing-others b.order_pool orders n al.others i js al.same_size ne nes queue.ring in
    let h = subst (λ s. n < s) (sym al.same_size) al.in_store in
    (
      record (with_orders b (appended n i (last i js) orders)) {
        oid_to_order = update b.oid_to_order u.order_id (some n);
      },
      rw run (
          add_order-queue u n k i js c h al.object small queue.found queue.inside queue.first ring
            (λ e. ne (sym e)) nes),
      (append_order-IsRing n i js c ring h (λ e. ne (sym e)) nes).1,
      order-appended n i (last i js) orders (λ e. ne (sym e))
            (last-differs n i js (λ e. ne (sym e)) nes) ring.back
          ∙ ap
              (λ (o : MarketOrder). record o { prev_order = some (last i js); next_order = some i })
              al.object,
      refl,
      rw (==-refl u.order_id) refl,
    )
