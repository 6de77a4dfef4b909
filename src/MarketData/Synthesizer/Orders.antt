-- ===== src/MarketData/Synthesizer/Orders.antt =====
-- The live orders that ch06/exchange/market_data/snapshot_synthesizer.cpp keeps are a map from tickers
-- and order ids to orders, which each update changes at one place.
use native.Mathlib.Decide.{ℕ_discrete}
use building_low_latency_app.Prelude.{
  ℕ, ◌<◌, ◌≡◌, ◌≢◌, ◌⊎◌, inl, inr, Option, none, some, true, false, ltb, arith, refl, ap, sym, ◌∙◌,
  inc64, update, ==-refl, ==-of_ne, ◌==◌, subst,
}
use building_low_latency_app.Prelude.Result.{ok, assert}
use building_low_latency_app.Types.{me_max_tickers, TickerId, OrderId}
use building_low_latency_app.Messages.{MeMarketUpdate, MdpMarketUpdate}
use building_low_latency_app.MemPool.{MemPool, ObjectBlock}
use building_low_latency_app.MemPool.Laws
use building_low_latency_app.MemPool.Laws.{Allocated, allocate_lem, Deallocated, deallocate_lem}
use building_low_latency_app.MarketData.Synthesizer.{SnapshotSynthesizer, apply_as, add_to_snapshot}

abbrev pub object_of : MemPool MeMarketUpdate → Option ℕ → Option MeMarketUpdate
object_of p none = none
object_of p (some i) = some (p.store i).object

-- The live order of a ticker with an id.
abbrev pub lookup : SnapshotSynthesizer → TickerId → OrderId → Option MeMarketUpdate
lookup s t o = object_of s.order_pool (s.ticker_orders t o)

-- The block `i` is in use, by the order `o` of the ticker `t`.
pub record Held (p : MemPool MeMarketUpdate) (t o i : ℕ) : Type 0 where
  pub inside : i < p.size
  pub used : (p.store i).is_free ≡ false
  pub order_id : (p.store i).object.order_id ≡ o
  pub ticker_id : (p.store i).object.ticker_id ≡ t

-- Each entry of the arrays points to an order with the entry's ticker and id.
pub record IsValid (s : SnapshotSynthesizer) : Type 0 where
  pub pool : Laws.IsValid s.order_pool
  pub held : (t o i : ℕ) → s.ticker_orders t o ≡ some i → Held s.order_pool t o i

-- `r` differs from `s` at the order `o` of the ticker `t` alone, which is `v` in it.
pub record Changed (s r : SnapshotSynthesizer) (t o : ℕ) (v : Option MeMarketUpdate) : Type 0 where
  pub here : lookup r t o ≡ v
  pub others : (u k : ℕ) → u ≢ t ⊎ (k ≢ o) → lookup r u k ≡ lookup s u k

pub null_of : (p : MemPool MeMarketUpdate) (x : Option ℕ) → object_of p x ≡ none → x ≡ none
null_of p none e = refl
null_of p (some i) e = absurd (cc)

pub pointer_of :
    (p : MemPool MeMarketUpdate) (x : Option ℕ) (v : MeMarketUpdate)
    → object_of p x ≡ some v
    → (i : ℕ) × (x ≡ some i) × ((p.store i).object ≡ v)
pointer_of p none v e = absurd (cc)
pointer_of p (some i) v e = (i, refl, cc)

-- A pointer whose block keeps its object keeps its order.
object_of-kept :
    (p q : MemPool MeMarketUpdate) (x : Option ℕ)
    → ((i : ℕ) → x ≡ some i → (q.store i).object ≡ (p.store i).object)
    → object_of q x ≡ object_of p x
object_of-kept p q none h = refl
object_of-kept p q (some i) h = ap some (h i refl)

abbrev pub with_pool :
    (ℕ → ℕ → Option ℕ) → ℕ → MemPool MeMarketUpdate → SnapshotSynthesizer → SnapshotSynthesizer
with_pool orders n p s = record s { ticker_orders = orders; last_inc_seq_num = n; order_pool = p }

-- The entries of `orders` but for one.
unfoldable pub set_entry : (ℕ → ℕ → Option ℕ) → ℕ → ℕ → Option ℕ → ℕ → ℕ → Option ℕ
set_entry orders t o x = update orders t (update (orders t) o x)

pub set_entry-here :
    (orders : ℕ → ℕ → Option ℕ) (t o : ℕ) (x : Option ℕ) → set_entry orders t o x t o ≡ x
unfolding set_entry
set_entry-here orders t o x = rw (==-refl t, ==-refl o)

pub set_entry-others :
    (orders : ℕ → ℕ → Option ℕ) (t o : ℕ) (x : Option ℕ) (u k : ℕ)
    → u ≢ t ⊎ (k ≢ o)
    → set_entry orders t o x u k ≡ orders u k
unfolding set_entry
set_entry-others orders t o x u k (inl ne) = rw (==-of_ne t u (λ e. ne (sym e)))
set_entry-others orders t o x u k (inr ne) = elim (ℕ_discrete t u) [
  | yes e ↦ rw (e, ==-refl, ==-of_ne o k (λ f. ne (sym f)))
  | no n ↦ rw (==-of_ne t u n)
]

module _ (s : SnapshotSynthesizer) (orders : ℕ → ℕ → Option ℕ) (n : ℕ) (p : MemPool MeMarketUpdate)
    (t o : ℕ) (x : Option ℕ) (v : IsValid s) (vp : Laws.IsValid p)
    (same_size : p.size ≡ s.order_pool.size) (here : orders t o ≡ x)
    (others : (u k : ℕ) → u ≢ t ⊎ (k ≢ o) → orders u k ≡ s.ticker_orders u k)
    (entry : (i : ℕ) → x ≡ some i → Held p t o i)
    (rest : (u k i : ℕ)
      → u ≢ t ⊎ (k ≢ o)
      → s.ticker_orders u k ≡ some i
      → p.store i ≡ s.order_pool.store i) where
  Held-there : (i : ℕ) → orders t o ≡ some i → Held p t o i
  Held-there i e = entry i (sym here ∙ e)

  Held-elsewhere : (u k i : ℕ) → u ≢ t ⊎ (k ≢ o) → orders u k ≡ some i → Held p u k i
  Held-elsewhere u k i ne e =
      let f = sym (others u k ne) ∙ e in
      let h = v.held u k i f in
      let same = rest u k i ne f in
      record {
        inside = rw same_size h.inside;
        used = rw same h.used;
        order_id = rw same h.order_id;
        ticker_id = rw same h.ticker_id;
      }

  pub with_pool-IsValid : IsValid (with_pool orders n p s)
  with_pool-IsValid = record { pool = vp; held = held }
    where
      held : (u k i : ℕ) → orders u k ≡ some i → Held p u k i
      held u k i e = elim (ℕ_discrete u t) [
        | no ne ↦ Held-elsewhere u k i (inl ne) e
        | yes same_t ↦ elim (ℕ_discrete k o) [
          | no ne ↦ Held-elsewhere u k i (inr ne) e
          | yes same_o ↦
              subst (λ w. Held p w k i) (sym same_t)
                (subst (λ w. Held p t w i) (sym same_o)
                  (Held-there i
                    (ap (orders t) (sym same_o) ∙ ap (λ w. orders w k) (sym same_t) ∙ e)))
        ]
      ]

  pub with_pool-Changed : Changed s (with_pool orders n p s) t o (object_of p x)
  with_pool-Changed = record {
    here = ap (object_of p) here;
    others = λ u k ne.
        ap (object_of p) (others u k ne)
        ∙ object_of-kept s.order_pool p (s.ticker_orders u k)
            λ i e. ap (λ (b : ObjectBlock MeMarketUpdate). b.object) (rest u k i ne e);
  }

pub add_to_snapshot-eq :
    (m : MdpMarketUpdate) (s t : SnapshotSynthesizer)
    → m.me_market_update.ticker_id < me_max_tickers
    → apply_as m.me_market_update.type m.me_market_update s ≡ ok t
    → m.seq_num ≡ inc64 t.last_inc_seq_num
    → add_to_snapshot m s ≡ ok (record t { last_inc_seq_num = m.seq_num })
unfolding add_to_snapshot assert
add_to_snapshot-eq m s t ht e seq =
    let in_tickers : ltb m.me_market_update.ticker_id me_max_tickers ≡ true = ground arith in
    let counted : (m.seq_num == inc64 t.last_inc_seq_num) ≡ true = ground arith in
    rw (in_tickers, e, counted)
