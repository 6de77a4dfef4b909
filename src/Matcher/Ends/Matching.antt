-- ===== src/Matcher/Ends/Matching.antt =====
-- Matching ends: each round of `checkForMatch` (ch06/exchange/matcher/me_order_book.cpp) either uses
-- the aggressive order up or gives a passive order back to the pool.
use building_low_latency_app.Prelude.{
  ℕ, zero, suc, min, ◌≤◌, ◌<◌, ◌≡◌, ◌≢◌, ◌⊎◌, inl, inr, Bool, true, false, none, some,
  if◌then◌else◌, ltb, ◌==◌, sub32, arith, refl, ◌∙◌, ap, Bool-cases, ◌||◌,
}
use building_low_latency_app.Prelude.Result
use building_low_latency_app.Prelude.Result.{Result, ok, abort, out_of_fuel}
use building_low_latency_app.Types.{Price, Qty, is_buy, is_sell}
use building_low_latency_app.MemPool
use building_low_latency_app.MemPool.{MemPool}
use building_low_latency_app.Matcher.Order.{Pointer, same, MeOrder}
use building_low_latency_app.Matcher.State
use building_low_latency_app.Matcher.State.{
  MeOrderBook, M, and_then, pure, ◌>>=◌, ◌>>◌, lift, get_orders_at_price, load_order, change_order,
  load_level, read,
}
use building_low_latency_app.Matcher.Links.{forget_order, remove_order}
use building_low_latency_app.Matcher.Trade.{
  Aggressor, fill, close_filled, match, match_loop, check_for_match, is_done, passive_best,
  is_outside,
}
use building_low_latency_app.Matcher.Ends.{
  Ends, ends, stops, Ends-bind, Ends-mono, Ends-total, SameUse, Keeps, Keeps-bind, load_order-Keeps,
  load_level-Keeps, change_order-Keeps, if-Keeps, remove_orders_at_price-Keeps, unlink_order-Keeps,
  set_client_order-Keeps, lift-Keeps, deref-total, write-use, size-write,
}
use building_low_latency_app.Matcher.Fill.{Holds, load_order-Holds, fill_lem, after_fill, reduced}
use building_low_latency_app.Matcher.Ends.Use.{in_use, in_use-le, in_use-ext, in_use-deallocate}

abbrev book_use : MeOrderBook → ℕ
book_use b = in_use b.order_pool.store b.order_pool.size

-- Fewer blocks of the order pool are in use.
record Freed (b c : MeOrderBook) : Type 0 where
  size : c.order_pool.size ≡ b.order_pool.size
  fewer : suc (book_use c) ≡ book_use b

SameUse-book_use : (b c : MeOrderBook) → SameUse b c → book_use c ≡ book_use b
SameUse-book_use b c s =
    rw s.size (in_use-ext c.order_pool.store b.order_pool.store b.order_pool.size s.use_of)

SameUse-Freed : (b c d : MeOrderBook) → SameUse b c → Freed c d → Freed b d
SameUse-Freed b c d s f = record {
  size = f.size ∙ s.size;
  fewer = f.fewer ∙ SameUse-book_use b c s;
}

Freed-SameUse : (b c d : MeOrderBook) → Freed b c → SameUse c d → Freed b d
Freed-SameUse b c d f s = record {
  size = s.size ∙ f.size;
  fewer = ap suc (SameUse-book_use c d s) ∙ f.fewer;
}

-- A step that gives one block back.
abbrev Frees : {A : Type 0} → M A → Type 0
Frees m = (b : MeOrderBook) → Ends (λ _ c. Freed b c) (m b)

Keeps-Frees :
    {A B : Type 0} {m : M A} {k : A → M B} → Keeps m → ((a : A) → Frees (k a)) → Frees (m >>= k)
Keeps-Frees hm hk b = Ends-bind (hm b) λ a c s. Ends-mono (hk a c) λ _ d t. SameUse-Freed b c d s t

deallocate-Frees :
    (i : ℕ)
    → Frees (
        (λ s. lift (MemPool.deallocate s.order_pool i) s) >>= λ (pool : MemPool MeOrder).
        State.modify λ s. record s { order_pool = pool })
deallocate-Frees i b = elim (in_use-deallocate b.order_pool i) [
  | inl stopped ↦ rw stopped (stops (λ e. cc))
  | inr (q, e, size, fewer) ↦ rw e (ends (record { size = size; fewer = fewer }))
]

forget_order-Frees : (p : Pointer) → Frees (forget_order p)
unfolding forget_order
forget_order-Frees p = Keeps-Frees (load_order-Keeps p) λ o.
    Keeps-Frees (set_client_order-Keeps o.client_id o.client_order_id none)
      λ _. Keeps-Frees (lift-Keeps (Result.deref p) (deref-total p)) λ i. deallocate-Frees i

remove_order-Frees : (p : Pointer) → Frees (remove_order p)
unfolding remove_order
remove_order-Frees p = Keeps-Frees (load_order-Keeps p) λ o b.
    Keeps-Frees
      (if-Keeps (same o.prev_order p) _ _ (remove_orders_at_price-Keeps o.side o.price)
        (unlink_order-Keeps (get_orders_at_price o.price b) p o))
      (λ _. forget_order-Frees p) b

close_filled-Frees :
    (a : Aggressor) (itr : Pointer) (p : MeOrder) (q : Qty) → Frees (close_filled a itr p q)
unfolding close_filled
close_filled-Frees a itr p q b =
    Ends-mono (remove_order-Frees itr _) λ _ d f. record { size = f.size; fewer = f.fewer }

-- `fill` keeps the use of the pool and returns the reduced passive order.
fill-Keeps : (a : Aggressor) (itr : Pointer) (o : MeOrder) (f l : Qty) → Keeps (fill a itr o f l)
unfolding fill
fill-Keeps a itr o f l =
    Keeps-bind (change_order-Keeps itr _) λ _.
      Keeps-bind (load_order-Keeps itr) λ p b. ends (record { size = refl; use_of = λ i. refl })

-- What a round leaves: nothing of the aggressive order, or one passive order less.
abbrev Progress : MeOrderBook → Qty → MeOrderBook → Type 0
Progress b left c = (left ≡ 0) ⊎ Freed b c

after_fill-SameUse :
    (a : Aggressor) (b : MeOrderBook) (i : ℕ) (o : MeOrder) (f l : Qty)
    → SameUse b (after_fill a i o f l b)
after_fill-SameUse a b i o f l = record {
  size = size-write b.order_pool i (reduced o f);
  use_of = λ j. write-use b.order_pool i j (reduced o f);
}

used_up_of_rest : (l q : Qty) → (sub32 q (min l q) == 0) ≡ false → sub32 l (min l q) ≡ 0
used_up_of_rest l q h = ground arith

match-Progress-Holds :
    (a : Aggressor) (b : MeOrderBook) (i : ℕ) (o : MeOrder) (leaves_qty : Qty)
    → Holds b.order_pool i o
    → Ends (Progress b) (match a (some i) leaves_qty b)
unfolding match
match-Progress-Holds a b i o l h =
    let f = min l o.qty in
    let c = after_fill a i o f (sub32 l f) b in
    rw (load_order-Holds b i h, fill_lem a b i o f (sub32 l f) h)
      (elim (Bool-cases (sub32 o.qty f == 0)) [
        | inl whole ↦ rw whole (
            Ends-bind (close_filled-Frees a (some i) (reduced o f) o.qty c) λ _ d freed.
              ends (inr (SameUse-Freed b c d (after_fill-SameUse a b i o f (sub32 l f)) freed)))
        | inr more ↦ rw more (ends (inl (used_up_of_rest l o.qty more)))
      ])

-- A match at a pointer that holds nothing ends the process.
match-Progress :
    (a : Aggressor) (b : MeOrderBook) (p : Pointer) (leaves_qty : Qty)
    → Ends (Progress b) (match a p leaves_qty b)
unfolding match load_order read
match-Progress a b none l = stops (λ e. cc)
match-Progress a b (some i) l = elim (Bool-cases (ltb i b.order_pool.size)) [
  | inl inside ↦
      match-Progress-Holds a b i (b.order_pool.store i).object l
        (record { inside = ground arith; object = refl })
  | inr outside ↦ rw outside (stops (λ e. cc))
]

abbrev HasFuel : ℕ → Qty → MeOrderBook → Type 0
HasFuel fuel l b = ((l ≡ 0) × (0 < fuel)) ⊎ (suc (book_use b) < fuel)

not_zero : (l : Qty) (top : Pointer) → is_done l top ≡ false → l ≢ 0
unfolding is_done
not_zero l top h = ground arith

-- With fuel for the orders in use the loop does not run out of it.
match_loop-Ends :
    (fuel : ℕ) (a : Aggressor) (price : Price) (l : Qty) (b : MeOrderBook)
    → HasFuel fuel l b
    → Ends (λ _ _. Unit {0}) (match_loop fuel a price l b)
unfolding match_loop
match_loop-Ends zero a price l b h = absurd (omega arith)
match_loop-Ends (suc fuel) a price l b h = elim (Bool-cases (is_done l (passive_best a.side b))) [
  | inl done ↦ rw done (ends tt)
  | inr go ↦ rw go (
      Ends-bind (load_level-Keeps (passive_best a.side b) b) λ level c s.
        Ends-bind (load_order-Keeps level.first_me_order c) λ o d t.
          elim (Bool-cases (is_outside a.side price o.price)) [
            | inl out ↦ rw out (ends tt)
            | inr within ↦ rw within (
                Ends-bind (match-Progress a d level.first_me_order l) λ left e p.
                  match_loop-Ends fuel a price left e (
                    left_fuel fuel l left d e
                      (fuel_left fuel l b d h go (SameUse-book_use c d t ∙ SameUse-book_use b c s))
                      p))
          ])
]
  where
    fuel_left :
        (fuel : ℕ) (l : Qty) (b d : MeOrderBook)
        → HasFuel (suc fuel) l b
        → (is_done l (passive_best a.side b)) ≡ false
        → book_use d ≡ book_use b
        → suc (book_use d) ≤ fuel
    fuel_left fuel l b d h go e = ground (arith, not_zero l (passive_best a.side b) go)

    left_fuel :
        (fuel : ℕ) (l left : Qty) (d e : MeOrderBook)
        → suc (book_use d) ≤ fuel
        → Progress d left e
        → HasFuel fuel left e
    left_fuel fuel l left d e h (inl none_left) = inl (none_left, omega arith)
    left_fuel fuel l left d e h (inr freed) = inr (omega (arith, freed.fewer))

-- `checkForMatch` ends, whatever the book holds: the loop's fuel never runs out.
pub check_for_match-ends :
    (a : Aggressor) (price : Price) (qty : Qty) (b : MeOrderBook)
    → check_for_match a price qty b ≢ abort out_of_fuel
unfolding check_for_match
check_for_match-ends a price qty b = Ends-total (body (is_buy a.side || is_sell a.side))
  where
    body :
        (t : Bool)
        → Ends
            (λ (_ : Qty) _. Unit {0})
            ((if t then match_loop (suc (suc b.order_pool.size)) a price qty else pure qty) b)
    body true =
        match_loop-Ends (suc (suc b.order_pool.size)) a price qty b
          (inr (omega (arith, in_use-le b.order_pool.store b.order_pool.size)))
    body false = ends tt
