-- ===== src/MarketBook/Clear.antt =====
-- How `CLEAR` of ch06/trading/strategy/market_order_book.cpp ends.
use building_low_latency_app.Prelude.{
  ℕ, suc, ◌<◌, ◌≡◌, ◌≢◌, some, true, false, arith, refl, inl, inr, Bool-cases, ==-of_ne, ==-refl,
  update, ◌∙◌, ap,
}
use building_low_latency_app.Prelude.Result.{ok, abort, assertion, assert}
use building_low_latency_app.MemPool
use building_low_latency_app.MemPool.{MemPool}
use building_low_latency_app.MemPool.Laws.{deallocate-abort}
use building_low_latency_app.Matcher.Order.{Pointer}
use building_low_latency_app.Matcher.State.{read}
use building_low_latency_app.MarketBook.Order.{MarketOrdersAtPrice}
use building_low_latency_app.MarketBook.State.{MarketOrderBook, load_level, deallocate_level}
use building_low_latency_app.MarketBook.Update.{clear_levels, clear_side}

-- The level pool with the block `j` given back.
abbrev pub freed : MemPool MarketOrdersAtPrice → ℕ → MemPool MarketOrdersAtPrice
freed p j = record p { store = update p.store j (record (p.store j) { is_free = true }) }

deallocate-used :
    (p : MemPool MarketOrdersAtPrice) (j : ℕ)
    → j < p.size
    → (p.store j).is_free ≡ false
    → MemPool.deallocate p j ≡ ok (freed p j)
unfolding MemPool.deallocate assert
deallocate-used p j h e = ground arith

abbrev pub with_levels : MarketOrderBook → MemPool MarketOrdersAtPrice → MarketOrderBook
with_levels b pool = record b { orders_at_price_pool = pool }

module _ (j : ℕ) (b : MarketOrderBook) where
  deallocate_level-used :
      j < b.orders_at_price_pool.size
      → (b.orders_at_price_pool.store j).is_free ≡ false
      → deallocate_level (some j) b ≡ ok (tt, with_levels b (freed b.orders_at_price_pool j))
  unfolding deallocate_level
  deallocate_level-used h e = rw (deallocate-used b.orders_at_price_pool j h e) refl

  deallocate_level-free :
      (b.orders_at_price_pool.store j).is_free ≡ true
      → deallocate_level (some j) b ≡ abort assertion
  unfolding deallocate_level
  deallocate_level-free e = rw (deallocate-abort b.orders_at_price_pool j (inr e)) refl

  load_level-eq :
      j < b.orders_at_price_pool.size
      → load_level (some j) b ≡ ok ((b.orders_at_price_pool.store j).object, b)
  unfolding load_level read
  load_level-eq h = ground arith

module _ (fuel i j : ℕ) (ne : j ≢ i) where
  clear_levels-free :
      (b : MarketOrderBook)
      → (b.orders_at_price_pool.store j).is_free ≡ true
      → clear_levels (suc fuel) (some i) (some j) b ≡ abort assertion
  unfolding clear_levels
  clear_levels-free b e = rw (==-of_ne j i ne, deallocate_level-free j b e) refl

-- A level that is not the first one is given back twice, at the latest, and the second time ends the
-- process.
clear_levels-abort :
    (fuel i j : ℕ) (b : MarketOrderBook)
    → j ≢ i
    → j < b.orders_at_price_pool.size
    → clear_levels (suc (suc fuel)) (some i) (some j) b ≡ abort assertion
unfolding clear_levels
clear_levels-abort fuel i j b ne h = elim (Bool-cases (b.orders_at_price_pool.store j).is_free) [
  | inl e ↦ clear_levels-free (suc fuel) i j ne b e
  | inr e ↦
      let c = with_levels b (freed b.orders_at_price_pool j) in
      rw
        (
          ==-of_ne j i ne,
          deallocate_level-used j b h e,
          load_level-eq j c h,
          deallocate_level-free j c (ground arith),
        )
        refl
]

clear_levels-done :
    (fuel i : ℕ) (p : Pointer) (b : MarketOrderBook)
    → p ≡ some i
    → clear_levels (suc fuel) (some i) p b ≡ ok (tt, b)
unfolding clear_levels
clear_levels-done fuel i p b e = rw (e, ==-refl i) refl

-- `CLEAR` gives back a side that has one level, a level in use. On a side that has more, whose second
-- level is a block of the pool, it ends the process by an assertion.
pub clear_side_lem :
    (i j : ℕ) (b : MarketOrderBook)
    → i < b.orders_at_price_pool.size
    → j < b.orders_at_price_pool.size
    → (b.orders_at_price_pool.store i).is_free ≡ false
    → (b.orders_at_price_pool.store i).object.next_entry ≡ some j
    → (j ≡ i → clear_side (some i) b ≡ ok (tt, with_levels b (freed b.orders_at_price_pool i)))
      × (j ≢ i → clear_side (some i) b ≡ abort assertion)
unfolding clear_side
clear_side_lem i j b hi hj used next = (
  λ e.
      rw
        (
          load_level-eq i b hi,
          clear_levels-done 1 i (b.orders_at_price_pool.store i).object.next_entry b
              (next ∙ ap some e),
          deallocate_level-used i b hi used,
        )
        refl,
  λ ne. rw (load_level-eq i b hi, next, clear_levels-abort 0 i j b ne hj) refl,
)
