-- ===== src/Matcher/Unlink.antt =====
-- `removeOrder` of ch06/exchange/matcher/me_order_book.h for an order that is not alone at its price.
use building_low_latency_app.Prelude.{
  ℕ, ◌<◌, ◌≡◌, ◌≢◌, inl, inr, none, some, true, false, Bool-cases, ltb, arith, refl, ap, ◌∙◌,
  update, if◌then◌else◌, ==-refl, ==-of_ne,
}
use building_low_latency_app.Prelude.Result.{ok, assert}
use building_low_latency_app.Types.{me_max_num_clients, me_max_order_ids}
use building_low_latency_app.MemPool
use building_low_latency_app.MemPool.{MemPool}
use building_low_latency_app.Matcher.Order.{Pointer, same, MeOrder, MeOrdersAtPrice}
use building_low_latency_app.Matcher.State.{
  MeOrderBook, read, write, set_object, change_order, load_level, change_level, get_orders_at_price,
}
use building_low_latency_app.Matcher.Links.{
  set_client_order, unlink_order, forget_order, remove_order,
}
use building_low_latency_app.Matcher.Fill.{Holds, load_order-Holds, change_order-Holds}

-- The order `o` in the block `i` stands between those in `j` and `k`, at the price of the level `l`.
pub record IsShared (b : MeOrderBook) (i : ℕ) (o : MeOrder) (j k l : ℕ) : Type 0 where
  pub held : Holds b.order_pool i o
  pub used : (b.order_pool.store i).is_free ≡ false
  pub prev : o.prev_order ≡ some j
  pub next : o.next_order ≡ some k
  pub not_prev : j ≢ i
  pub not_next : k ≢ i
  pub prev_inside : j < b.order_pool.size
  pub next_inside : k < b.order_pool.size
  pub level : get_orders_at_price o.price b ≡ some l
  pub level_inside : l < b.orders_at_price_pool.size
  pub client_inside : o.client_id < me_max_num_clients
  pub id_inside : o.client_order_id < me_max_order_ids

-- The pool after the three writes of `unlink_order`.
module _ (i j k : ℕ) (p : MemPool MeOrder) where
  abbrev passed_next : MemPool MeOrder
  passed_next = write p j (record ((p.store j).object) { next_order = some k })

  abbrev passed : MemPool MeOrder
  passed = write passed_next k (record ((passed_next.store k).object) { prev_order = some j })

  abbrev pub unlinked : MemPool MeOrder
  unlinked =
      write passed i (record ((passed.store i).object) { prev_order = none; next_order = none })

  abbrev pub released : MemPool MeOrder
  released = record unlinked {
    store = update unlinked.store i (record (unlinked.store i) { is_free = true });
  }

-- The pool of the levels: the level `l` begins with `k` where it began with `i`.
abbrev pub begins_with : ℕ → ℕ → ℕ → MemPool MeOrdersAtPrice → MemPool MeOrdersAtPrice
begins_with i k l p =
    if same (p.store l).object.first_me_order (some i)
    then write p l (record ((p.store l).object) { first_me_order = some k })
    else p

abbrev with_orders : MemPool MeOrder → MeOrderBook → MeOrderBook
with_orders p b = record b { order_pool = p }

module _ (l : ℕ) (b : MeOrderBook) (h : l < b.orders_at_price_pool.size) where
  load_level-at : load_level (some l) b ≡ ok ((b.orders_at_price_pool.store l).object, b)
  unfolding load_level read
  load_level-at = ground arith

  change_level-at :
      (f : MeOrdersAtPrice → MeOrdersAtPrice)
      → change_level (some l) f b
        ≡ ok (
          tt,
          record b {
            orders_at_price_pool =
                write b.orders_at_price_pool l (f (b.orders_at_price_pool.store l).object);
          },
        )
  unfolding change_level set_object
  change_level-at f = ground arith

change_order-at :
    (i : ℕ) (b : MeOrderBook) (f : MeOrder → MeOrder)
    → i < b.order_pool.size
    → change_order (some i) f b
      ≡ ok (tt, with_orders (write b.order_pool i (f (b.order_pool.store i).object)) b)
change_order-at i b f h = change_order-Holds b i (record { inside = h; object = refl }) f

set_client_order-at :
    (c o : ℕ) (p : Pointer) (b : MeOrderBook)
    → c < me_max_num_clients
    → o < me_max_order_ids
    → set_client_order c o p b
      ≡ ok (
        tt,
        record b {
          cid_oid_to_order = update b.cid_oid_to_order c (update (b.cid_oid_to_order c) o p);
        },
      )
unfolding set_client_order
set_client_order-at c o p b hc ho =
    let e : ltb c me_max_num_clients ≡ true = ground arith in
    let f : ltb o me_max_order_ids ≡ true = ground arith in rw (e, f) refl

module _ (i : ℕ) (o : MeOrder) (j k l : ℕ) where
  unlink_order-eq :
      (b : MeOrderBook)
      → IsShared b i o j k l
      → unlink_order (some l) (some i) o b
        ≡ ok (
          tt,
          record b {
            order_pool = unlinked i j k b.order_pool;
            orders_at_price_pool = begins_with i k l b.orders_at_price_pool;
          },
        )
  unfolding unlink_order write
  unlink_order-eq b s =
      let p = b.order_pool in
      let b1 = with_orders (passed_next i j k p) b in
      let b2 = with_orders (passed i j k p) b in
      let first = (b.orders_at_price_pool.store l).object.first_me_order in
      rw
        (
          s.prev,
          s.next,
          change_order-at j b (λ x. record x { next_order = some k }) s.prev_inside,
          change_order-at k b1 (λ x. record x { prev_order = some j }) s.next_inside,
          load_level-at l b2 s.level_inside,
        )
        (elim (Bool-cases (same first (some i))) [
          | inl e ↦
              let b3 : MeOrderBook = record b2 {
                orders_at_price_pool =
                    write b.orders_at_price_pool l
                      (record ((b.orders_at_price_pool.store l).object) {
                        first_me_order = some k;
                      });
              } in
              rw
                (e, change_level-at l b2 s.level_inside (λ x. record x { first_me_order = some k }))
                (change_order-at i b3 (λ x. record x { prev_order = none; next_order = none })
                  s.held.inside)
          | inr e ↦ rw e (
              change_order-at i b2 (λ x. record x { prev_order = none; next_order = none })
                s.held.inside)
        ])

  passed-here : (p : MemPool MeOrder) → j ≢ i → k ≢ i → (passed i j k p).store i ≡ p.store i
  unfolding write
  passed-here p nj nk = rw (==-of_ne k i nk, ==-of_ne j i nj) refl

  unlinked-here :
      (p : MemPool MeOrder)
      → j ≢ i
      → k ≢ i
      → (unlinked i j k p).store i ≡ record (p.store i) {
        object = record ((p.store i).object) { prev_order = none; next_order = none };
      }
  unfolding write
  unlinked-here p nj nk = rw (==-refl i, ==-of_ne k i nk, ==-of_ne j i nj) refl

  -- The book after `remove_order`.
  abbrev pub removed : MeOrderBook → MeOrderBook
  removed b = record b {
    order_pool = released i j k b.order_pool;
    orders_at_price_pool = begins_with i k l b.orders_at_price_pool;
    cid_oid_to_order =
        update b.cid_oid_to_order o.client_id
          (update (b.cid_oid_to_order o.client_id) o.client_order_id none);
  }

  deallocate-at :
      (p : MemPool MeOrder)
      → i < p.size
      → (p.store i).is_free ≡ false
      → MemPool.deallocate p i
        ≡ ok (record p { store = update p.store i (record (p.store i) { is_free = true }) })
  unfolding MemPool.deallocate assert
  deallocate-at p h e = ground arith

  forget_order-eq :
      (b : MeOrderBook)
      → Holds b.order_pool i (record o { prev_order = none; next_order = none })
      → (b.order_pool.store i).is_free ≡ false
      → o.client_id < me_max_num_clients
      → o.client_order_id < me_max_order_ids
      → forget_order (some i) b
        ≡ ok (
          tt,
          record b {
            order_pool = record (b.order_pool) {
              store =
                  update b.order_pool.store i (record (b.order_pool.store i) { is_free = true });
            };
            cid_oid_to_order =
                update b.cid_oid_to_order o.client_id
                  (update (b.cid_oid_to_order o.client_id) o.client_order_id none);
          },
        )
  unfolding forget_order
  forget_order-eq b h used hc ho =
      rw
        (
          load_order-Holds b i h,
          set_client_order-at o.client_id o.client_order_id none b hc ho,
          deallocate-at b.order_pool h.inside used,
        )
        refl

  pub remove_order-eq :
      (b : MeOrderBook) → IsShared b i o j k l → remove_order (some i) b ≡ ok (tt, removed b)
  unfolding remove_order write
  remove_order-eq b s =
      let b1 : MeOrderBook = record b {
        order_pool = unlinked i j k b.order_pool;
        orders_at_price_pool = begins_with i k l b.orders_at_price_pool;
      } in
      let here = unlinked-here b.order_pool s.not_prev s.not_next in
      let alone : same o.prev_order (some i) ≡ false =
        ap (λ q. same q (some i)) s.prev ∙ ==-of_ne j i s.not_prev in
      rw (load_order-Holds b i s.held, s.level, alone, unlink_order-eq b s)
        (forget_order-eq b1
          (record {
            inside = s.held.inside;
            object =
                ap (λ (x : MemPool.ObjectBlock MeOrder). x.object) here
                ∙ ap (λ (x : MeOrder). record x { prev_order = none; next_order = none })
                    s.held.object;
          })
          (ap (λ (x : MemPool.ObjectBlock MeOrder). x.is_free) here ∙ s.used) s.client_inside
          s.id_inside)
