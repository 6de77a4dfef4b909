-- ===== src/MarketBook/Ring.antt =====
-- The ring of a level's orders, in ch06/trading/strategy/market_order_book.h.
use building_low_latency_app.Prelude.{
  ℕ, ◌<◌, ◌≡◌, ◌≢◌, ◌⊎◌, inl, inr, List, [], ◌∷◌, ◌++◌, none, some, arith, refl, ap, sym, ◌∙◌,
  subst, if◌then◌else◌, ==-refl, ==-of_ne,
}
use building_low_latency_app.Prelude.Lists.{All}
use building_low_latency_app.MemPool.{MemPool}
use building_low_latency_app.Matcher.Order.{Pointer, same}
use building_low_latency_app.MarketBook.Order.{MarketOrder}
use building_low_latency_app.MarketBook.Total.{IsChain}

-- The last of `j` and `js`.
abbrev pub last : ℕ → List ℕ → ℕ
last j [] = j
last j (k ∷ js) = last k js

abbrev pub next : MemPool MarketOrder → ℕ → Pointer
next pool j = (pool.store j).object.next_order

-- What leads to `i` leads to `n` instead.
abbrev pub redirect : ℕ → ℕ → Pointer → Pointer
redirect i n p = if same p (some i) then some n else p

pub redirect-here : (i n : ℕ) (p : Pointer) → p ≡ some i → redirect i n p ≡ some n
redirect-here i n p e = rw (e, ==-refl i) refl

pub redirect-there : (i n : ℕ) (p : Pointer) → p ≢ some i → redirect i n p ≡ p
redirect-there i n none ne = refl
redirect-there i n (some j) ne = rw (==-of_ne j i (λ e. ne (ap some e))) refl

some-ne : (j i : ℕ) → j ≢ i → ◌≢◌ {A = Pointer} (some j) (some i)
some-ne j i ne e = ground arith

-- Of a chain to `i`, the last block leads to `i`, and no other block does.
pub chain-ends :
    (pool : MemPool MarketOrder) (i j : ℕ) (js : List ℕ)
    → IsChain pool i (next pool j) js
    → (next pool (last j js) ≡ some i)
      × All (λ k. (k ≡ last j js) ⊎ (next pool k ≢ some i)) (j ∷ js)
unfolding IsChain
chain-ends pool i j [] e = (e, (inl refl, tt))
chain-ends pool i j (k ∷ js) (e, ne, inside, chain) =
    let (f, all) = chain-ends pool i k js chain in
    (f, (inr (subst (λ p. p ≢ some i) (sym e) (some-ne k i ne)), all))

-- If each block of a chain to `i` leads on as before, but to `n` in place of `i`, and `n` leads to `i`,
-- then `n` is the new end of the chain.
pub IsChain-append :
    (pool qool : MemPool MarketOrder) (i n : ℕ) (p : Pointer) (js : List ℕ)
    → IsChain pool i p js
    → qool.size ≡ pool.size
    → n ≢ i
    → n < qool.size
    → next qool n ≡ some i
    → All (λ k. next qool k ≡ redirect i n (next pool k)) js
    → IsChain qool i (redirect i n p) (js ++ (n ∷ []))
unfolding IsChain
IsChain-append pool qool i n p [] e size ne inside back all =
    (redirect-here i n p e, ne, inside, back)
IsChain-append pool qool i n p (j ∷ js) (e, nj, less, chain) size ne inside back (h, all) = (
  redirect-there i n p (subst (λ x. x ≢ some i) (sym e) (some-ne j i nj)) ∙ e,
  nj,
  subst (λ s. j < s) (sym size) less,
  subst (λ x. IsChain qool i x (js ++ (n ∷ []))) (sym h)
      (IsChain-append pool qool i n (next pool j) js chain size ne inside back all),
)
