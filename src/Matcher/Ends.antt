-- ===== src/Matcher/Ends.antt =====
-- Matching ends: each round of `checkForMatch` (ch06/exchange/matcher/me_order_book.cpp) either uses
-- the aggressive order up or gives a passive order back to the pool.
pub mod Use
pub mod Matching
use building_low_latency_app.Prelude.{
  ℕ, zero, suc, min, ◌+◌, ◌≤◌, ◌<◌, ◌≡◌, ◌≢◌, ◌⊎◌, inl, inr, Bool, true, false, none, some, Option,
  if◌then◌else◌, ltb, ◌==◌, sub32, arith, refl, sym, ◌∙◌, ap, Bool-cases, update, ◌||◌,
}
use building_low_latency_app.Prelude.Result
use building_low_latency_app.Prelude.Result.{Result, ok, abort, Abort, out_of_fuel, assert, at}
use building_low_latency_app.Types.{
  me_max_num_clients, me_max_order_ids, Side, Price, Qty, is_buy, is_sell,
}
use building_low_latency_app.MemPool
use building_low_latency_app.MemPool.{MemPool, ObjectBlock}
use building_low_latency_app.Matcher.Order.{Pointer, same, MeOrder, MeOrdersAtPrice}
use building_low_latency_app.Matcher.State
use building_low_latency_app.Matcher.State.{
  MeOrderBook, M, Sent, and_then, pure, ◌>>=◌, ◌>>◌, lift, read, write, set_object, load_order,
  change_order, load_level, change_level, send, set_best, best, get_orders_at_price,
  set_orders_at_price,
}
use building_low_latency_app.Matcher.Links.{
  unlink_level, remove_orders_at_price, set_client_order, unlink_order, forget_order, remove_order,
}
use building_low_latency_app.Matcher.Trade.{
  Aggressor, fill, close_filled, match, match_loop, check_for_match,
}

-- A run that does not lack fuel, and whose result, if it has one, satisfies `P`.
pub data Ends {A : Type 0} (P : A → MeOrderBook → Type 0) : Result (A × MeOrderBook) → Type 0 where
  ends : {a : A} {b : MeOrderBook} → P a b → Ends P (ok (a, b))
  stops : {e : Abort} → e ≢ out_of_fuel → Ends P (abort e)

module _ {A B : Type 0} {P : A → MeOrderBook → Type 0} {Q : B → MeOrderBook → Type 0} where
  pub Ends-bind :
      {r : Result (A × MeOrderBook)} {k : A → M B}
      → Ends P r
      → ((a : A) (b : MeOrderBook) → P a b → Ends Q (k a b))
      → Ends Q (and_then r k)
  Ends-bind (ends p) next = next _ _ p
  Ends-bind (stops h) next = stops h

pub Ends-mono :
    {A : Type 0} {P Q : A → MeOrderBook → Type 0} {r : Result (A × MeOrderBook)}
    → Ends P r
    → ((a : A) (d : MeOrderBook) → P a d → Q a d)
    → Ends Q r
Ends-mono (ends p) f = ends (f _ _ p)
Ends-mono (stops h) f = stops h

pub Ends-total :
    {A : Type 0} {P : A → MeOrderBook → Type 0} {r : Result (A × MeOrderBook)}
    → Ends P r
    → r ≢ abort out_of_fuel
Ends-total (ends p) e = cc
Ends-total (stops h) e = h (cc)

-- The blocks of the order pool are in use as before.
pub record SameUse (b c : MeOrderBook) : Type 0 where
  pub size : c.order_pool.size ≡ b.order_pool.size
  pub use_of : (i : ℕ) → (c.order_pool.store i).is_free ≡ (b.order_pool.store i).is_free

SameUse-refl : (b : MeOrderBook) → SameUse b b
SameUse-refl b = record { size = refl; use_of = λ i. refl }

SameUse-trans : (b c d : MeOrderBook) → SameUse b c → SameUse c d → SameUse b d
SameUse-trans b c d s t = record { size = t.size ∙ s.size; use_of = λ i. t.use_of i ∙ s.use_of i }

-- Steps that keep the use of the order pool, one after the other.
abbrev pub Keeps : {A : Type 0} → M A → Type 0
Keeps m = (b : MeOrderBook) → Ends (λ _ c. SameUse b c) (m b)

pub Keeps-bind :
    {A B : Type 0} {m : M A} {k : A → M B} → Keeps m → ((a : A) → Keeps (k a)) → Keeps (m >>= k)
Keeps-bind hm hk b = Ends-bind (hm b) λ a c s. Ends-mono (hk a c) λ _ d t. SameUse-trans b c d s t

pub lift-Keeps : {A : Type 0} (r : Result A) → r ≢ abort out_of_fuel → Keeps (lift r)
lift-Keeps (ok a) h b = ends (SameUse-refl b)
lift-Keeps (abort e) h b = stops (λ p. h (ap abort p))

read-total : {T : Type 0} (p : MemPool T) (q : Pointer) → read p q ≢ abort out_of_fuel
unfolding read
read-total p q = ground arith

set_object-total :
    {T : Type 0} (p : MemPool T) (q : Pointer) (f : T → T) → set_object p q f ≢ abort out_of_fuel
unfolding set_object
set_object-total p q f = ground arith

pub load_order-Keeps : (p : Pointer) → Keeps (load_order p)
unfolding load_order
load_order-Keeps p b = lift-Keeps (read b.order_pool p) (read-total b.order_pool p) b

pub load_level-Keeps : (p : Pointer) → Keeps (load_level p)
unfolding load_level
load_level-Keeps p b =
    lift-Keeps (read b.orders_at_price_pool p) (read-total b.orders_at_price_pool p) b

-- A write to an object leaves the marks of the blocks alone.
pub write-use :
    {T : Type 0} (p : MemPool T) (i j : ℕ) (v : T)
    → ((write p i v).store j).is_free ≡ (p.store j).is_free
unfolding write
write-use p i j v = ground arith

pub size-write : {T : Type 0} (p : MemPool T) (i : ℕ) (v : T) → (write p i v).size ≡ p.size
unfolding write
size-write p i v = refl

pub change_order-Keeps : (p : Pointer) (f : MeOrder → MeOrder) → Keeps (change_order p f)
unfolding change_order set_object
change_order-Keeps none f b = stops (λ e. cc)
change_order-Keeps (some i) f b = elim (Bool-cases (ltb i b.order_pool.size)) [
  | inl inside ↦
      let v : MeOrder = f (b.order_pool.store i).object in
      rw inside (
        ends (record {
          size = size-write b.order_pool i v;
          use_of = λ j. write-use b.order_pool i j v;
        }))
  | inr outside ↦ rw outside (stops (λ e. cc))
]

-- A step that changes neither the order pool nor the fuel.
other-Keeps :
    {A : Type 0} (r : Result A) (b : MeOrderBook) (f : A → MeOrderBook → MeOrderBook)
    → r ≢ abort out_of_fuel
    → ((a : A) (c : MeOrderBook) → (f a c).order_pool ≡ c.order_pool)
    → Ends (λ (u : Unit {0}) c. SameUse b c) (and_then (lift r b) (λ a c. ok (tt, f a c)))
other-Keeps (ok a) b f h same_pool = ends (record {
  size = ap (λ (p : MemPool MeOrder). p.size) (same_pool a b);
  use_of = λ i. ap (λ (p : MemPool MeOrder). (p.store i).is_free) (same_pool a b);
})
other-Keeps (abort e) b f h same_pool = stops (λ p. h (ap abort p))

pub change_level-Keeps :
    (p : Pointer) (f : MeOrdersAtPrice → MeOrdersAtPrice) → Keeps (change_level p f)
unfolding change_level
change_level-Keeps p f b =
    other-Keeps (set_object b.orders_at_price_pool p f) b
      (λ pool c. record c { orders_at_price_pool = pool })
      (set_object-total b.orders_at_price_pool p f) (λ _ _. refl)

pub if-Keeps : {A : Type 0} (t : Bool) (m n : M A) → Keeps m → Keeps n → Keeps (if t then m else n)
if-Keeps true m n hm hn = hm
if-Keeps false m n hm hn = hn

-- A step on the book's other fields.
pub modify-Keeps :
    (f : MeOrderBook → MeOrderBook)
    → ((b : MeOrderBook) → (f b).order_pool ≡ b.order_pool)
    → Keeps (State.modify f)
modify-Keeps f same_pool b = other-Keeps (ok tt) b (λ _. f) (λ e. cc) (λ _. same_pool)

pure-Keeps : {A : Type 0} (a : A) → Keeps (pure a)
pure-Keeps a b = ends (SameUse-refl b)

pub unlink_order-Keeps : (level order : Pointer) (o : MeOrder) → Keeps (unlink_order level order o)
unfolding unlink_order
unlink_order-Keeps level order o = Keeps-bind (change_order-Keeps _ _) λ _.
    Keeps-bind (change_order-Keeps _ _) λ _. Keeps-bind (load_level-Keeps _) λ l.
      Keeps-bind (if-Keeps _ _ _ (change_level-Keeps _ _) (pure-Keeps tt))
        λ _. change_order-Keeps _ _

set_best-pool :
    (side : Side) (p : Pointer) (b : MeOrderBook) → (set_best side p b).order_pool ≡ b.order_pool
set_best-pool side p b = ground arith

pub unlink_level-Keeps :
    (side : Side) (first level : Pointer) (l : MeOrdersAtPrice)
    → Keeps (unlink_level side first level l)
unfolding unlink_level
unlink_level-Keeps side first level l = Keeps-bind (change_level-Keeps _ _) λ _.
    Keeps-bind (load_level-Keeps _) λ m. Keeps-bind (change_level-Keeps _ _) λ _.
      Keeps-bind (load_level-Keeps _) λ n.
        Keeps-bind
          (if-Keeps _ _ _ (modify-Keeps (set_best side n.next_entry) (set_best-pool side _))
            (pure-Keeps tt))
          λ _. change_level-Keeps _ _

pub deref-total : {A : Type 0} (p : Option A) → Result.deref p ≢ abort out_of_fuel
deref-total p = ground arith

deallocate-total : {T : Type 0} (p : MemPool T) (i : ℕ) → MemPool.deallocate p i ≢ abort out_of_fuel
unfolding MemPool.deallocate assert
deallocate-total p i = ground arith

pub remove_orders_at_price-Keeps :
    (side : Side) (price : Price) → Keeps (remove_orders_at_price side price)
unfolding remove_orders_at_price
remove_orders_at_price-Keeps side price b =
    let level = get_orders_at_price price b in
    Keeps-bind {m = load_level level} (load_level-Keeps level)
      (λ l.
        Keeps-bind
          (if-Keeps (same l.next_entry level) _ _
            (modify-Keeps (set_best side none) (set_best-pool side none))
            (unlink_level-Keeps side (best side b) level l))
          λ _.
            Keeps-bind {m = State.modify (set_orders_at_price price none)}
              (modify-Keeps _ λ _. refl)
              λ _.
                Keeps-bind {m = lift (Result.deref level)}
                  (lift-Keeps (Result.deref level) (deref-total level))
                  λ i c.
                    other-Keeps (MemPool.deallocate c.orders_at_price_pool i) c
                      (λ pool d. record d { orders_at_price_pool = pool })
                      (deallocate-total c.orders_at_price_pool i) (λ _ _. refl))
      b

at-total : {A : Type 0} (n : ℕ) (f : ℕ → A) (i : ℕ) → at n f i ≢ abort out_of_fuel
at-total n f i = ground arith

pub set_client_order-Keeps : (i j : ℕ) (p : Pointer) → Keeps (set_client_order i j p)
unfolding set_client_order
set_client_order-Keeps i j p b =
    let rows = b.cid_oid_to_order in
    Keeps-bind {m = lift (at me_max_num_clients rows i)}
      (lift-Keeps (at _ rows i) (at-total _ rows i))
      (λ row.
        Keeps-bind {m = lift (at me_max_order_ids row j)}
          (lift-Keeps (at _ row j) (at-total _ row j))
          λ _.
            modify-Keeps (λ s. record s { cid_oid_to_order = update rows i (update row j p) })
              λ _. refl)
      b
