-- ===== src/MarketBook/Append.antt =====
-- `addOrder` of ch06/trading/strategy/market_order_book.h at a price that has a level.
use building_low_latency_app.Prelude.{
  ℕ, ◌<◌, ◌≡◌, ◌≢◌, ◌⊎◌, inl, inr, List, [], ◌∷◌, ◌++◌, some, arith, refl, ap, sym, ◌∙◌, subst,
  if◌then◌else◌, ==-refl, ==-of_ne, ◌==◌,
}
use building_low_latency_app.Prelude.Lists.{All}
use building_low_latency_app.Prelude.Result.{ok}
use building_low_latency_app.MemPool.{MemPool}
use building_low_latency_app.Matcher.Order.{Pointer}
use building_low_latency_app.Matcher.State.{write}
use building_low_latency_app.MarketBook.Order.{MarketOrder}
use building_low_latency_app.MarketBook.State.{MarketOrderBook, change_order}
use building_low_latency_app.MarketBook.Links.{append_order}
use building_low_latency_app.MarketBook.Access.{load_order-is, change_order-at}
use building_low_latency_app.MarketBook.Total.{IsChain}
use building_low_latency_app.MarketBook.Ring.{
  last, next, redirect, redirect-here, redirect-there, chain-ends, IsChain-append,
}

abbrev pub with_orders : MarketOrderBook → MemPool MarketOrder → MarketOrderBook
with_orders b pool = record b { order_pool = pool }

-- The pools after the four writes of `append_order`: `n` comes between `l`, the last, and `i`.
module _ (n i l : ℕ) (p : MemPool MarketOrder) where
  abbrev first_write : MemPool MarketOrder
  first_write = write p l (record ((p.store l).object) { next_order = some n })

  abbrev second_write : MemPool MarketOrder
  second_write = write first_write n (record ((first_write.store n).object) {
    prev_order = (first_write.store i).object.prev_order;
  })

  abbrev third_write : MemPool MarketOrder
  third_write =
      write second_write n (record ((second_write.store n).object) { next_order = some i })

  abbrev pub appended : MemPool MarketOrder
  appended = write third_write i (record ((third_write.store i).object) { prev_order = some n })

prev-first :
    (n i l : ℕ) (p : MemPool MarketOrder)
    → ((first_write n i l p).store i).object.prev_order ≡ (p.store i).object.prev_order
unfolding write
prev-first n i l p = ground arith

next-write :
    (p : MemPool MarketOrder) (i j : ℕ) (o : MarketOrder)
    → next (write p i o) j ≡ (if i == j then o.next_order else next p j)
unfolding write
next-write p i j o = ground arith

pub next-appended :
    (n i l j : ℕ) (p : MemPool MarketOrder)
    → next (appended n i l p) j ≡ (if n == j then some i else if l == j then some n else next p j)
next-appended n i l j p =
    let p1 = first_write n i l p in
    let p2 = second_write n i l p in
    let p3 = third_write n i l p in
    ground (
      arith,
      next-write p l j (record ((p.store l).object) { next_order = some n }),
      next-write p1 n j
          (record ((p1.store n).object) { prev_order = (p1.store i).object.prev_order }),
      next-write p2 n j (record ((p2.store n).object) { next_order = some i }),
      next-write p3 i j (record ((p3.store i).object) { prev_order = some n }),
    )

change_order-to :
    (q : Pointer) (i : ℕ) (b : MarketOrderBook) (f : MarketOrder → MarketOrder)
    → q ≡ some i
    → i < b.order_pool.size
    → change_order q f b
      ≡ ok (tt, with_orders b (write b.order_pool i (f (b.order_pool.store i).object)))
change_order-to q i b f e h = ap (λ r. change_order r f b) e ∙ change_order-at i b f h

append_order-eq :
    (n i l : ℕ) (b : MarketOrderBook)
    → n < b.order_pool.size
    → i < b.order_pool.size
    → l < b.order_pool.size
    → (b.order_pool.store i).object.prev_order ≡ some l
    → append_order (some n) (some i) b ≡ ok (tt, with_orders b (appended n i l b.order_pool))
unfolding append_order write
append_order-eq n i l b hn hi hl e =
    let p = b.order_pool in
    let b1 = with_orders b (first_write n i l p) in
    let b2 = with_orders b (second_write n i l p) in
    let b3 = with_orders b (third_write n i l p) in
    rw
      (
        load_order-is i b (p.store i).object hi refl,
        change_order-to (p.store i).object.prev_order l b (λ x. record x { next_order = some n }) e
            hl,
        load_order-is i b1 ((first_write n i l p).store i).object hi refl,
        change_order-at n b1
            (λ x. record x { prev_order = ((first_write n i l p).store i).object.prev_order }) hn,
        change_order-at n b2 (λ x. record x { next_order = some i }) hn,
      )
      (change_order-at i b3 (λ x. record x { prev_order = some n }) hi)

module _ (n i l : ℕ) (p : MemPool MarketOrder) (leads : next p l ≡ some i) where
  redirected :
      (k : ℕ)
      → k ≢ n
      → (k ≡ l) ⊎ (next p k ≢ some i)
      → next (appended n i l p) k ≡ redirect i n (next p k)
  redirected k ne (inl e) =
      next-appended n i l k p
      ∙ rw (==-of_ne n k (λ f. ne (sym f)), e, ==-refl l) (sym (redirect-here i n (next p l) leads))
  redirected k ne (inr other) =
      next-appended n i l k p
      ∙ rw
          (
            ==-of_ne n k (λ f. ne (sym f)),
            ==-of_ne l k (λ f. other (subst (λ x. next p x ≡ some i) f leads)),
          )
          (sym (redirect-there i n (next p k) other))

  All-redirected :
      (ks : List ℕ)
      → All (λ k. k ≢ n) ks
      → All (λ k. (k ≡ l) ⊎ (next p k ≢ some i)) ks
      → All (λ k. next (appended n i l p) k ≡ redirect i n (next p k)) ks
  All-redirected [] nes ends = tt
  All-redirected (k ∷ ks) (ne, nes) (end, ends) = (redirected k ne end, All-redirected ks nes ends)

-- The new block holds its order, between `l` and `i`.
pub order-appended :
    (n i l : ℕ) (p : MemPool MarketOrder)
    → n ≢ i
    → n ≢ l
    → (p.store i).object.prev_order ≡ some l
    → ((appended n i l p).store n).object
      ≡ record ((p.store n).object) { prev_order = some l; next_order = some i }
unfolding write
order-appended n i l p ni nl back =
    rw (==-of_ne i n (λ e. ni (sym e)), ==-refl n, ==-of_ne l n (λ e. nl (sym e)))
      (ap (λ x. record ((p.store n).object) { prev_order = x; next_order = some i })
        (prev-first n i l p ∙ back))

pub last-differs : (n i : ℕ) (js : List ℕ) → n ≢ i → All (λ k. k ≢ n) js → n ≢ last i js
last-differs n i [] ne nes = ne
last-differs n i (j ∷ js) ne (nj, nes) = last-differs n j js (λ e. nj (sym e)) nes

last-inside :
    (p : MemPool MarketOrder) (i j : ℕ) (q : Pointer) (js : List ℕ)
    → j < p.size
    → IsChain p i q js
    → last j js < p.size
unfolding IsChain
last-inside p i j q [] h chain = h
last-inside p i j q (k ∷ js) h (e, ne, inside, chain) = last-inside p i k (next p k) js inside chain

-- The orders of a level: `i`, then `js`, in a ring that is linked in both directions at its end.
pub record IsRing (p : MemPool MarketOrder) (i : ℕ) (js : List ℕ) : Type 0 where
  pub inside : i < p.size
  pub forth : IsChain p i (next p i) js
  pub back : (p.store i).object.prev_order ≡ some (last i js)

last-snoc : (i n : ℕ) (js : List ℕ) → last i (js ++ (n ∷ [])) ≡ n
last-snoc i n [] = refl
last-snoc i n (j ∷ js) = last-snoc j n js

prev-appended :
    (n i l : ℕ) (p : MemPool MarketOrder) → ((appended n i l p).store i).object.prev_order ≡ some n
unfolding write
prev-appended n i l p = rw (==-refl i) refl

pub append_order-IsRing :
    (n i : ℕ) (js : List ℕ) (b : MarketOrderBook)
    → IsRing b.order_pool i js
    → n < b.order_pool.size
    → n ≢ i
    → All (λ k. k ≢ n) js
    → let q = appended n i (last i js) b.order_pool in
      (append_order (some n) (some i) b ≡ ok (tt, with_orders b q)) × IsRing q i (js ++ (n ∷ []))
unfolding write
append_order-IsRing n i js b ring h ne nes =
    let p = b.order_pool in
    let l = last i js in
    let q = appended n i l p in
    let (leads, ends) = chain-ends p i i js ring.forth in
    let (first, rest) = All-redirected n i l p leads (i ∷ js) ((λ e. ne (sym e)), nes) ends in
    (
      append_order-eq n i l b h ring.inside (last-inside p i i (next p i) js ring.inside ring.forth)
          ring.back,
      record {
        inside = ring.inside;
        forth =
            subst (λ x. IsChain q i x (js ++ (n ∷ []))) (sym first)
              (IsChain-append p q i n (next p i) js ring.forth refl ne h
                (next-appended n i l n p ∙ rw (==-refl n) refl) rest);
        back = prev-appended n i l p ∙ ap some (sym (last-snoc i n js));
      },
    )
