-- ===== src/MarketData/Synthesizer/Add.antt =====
-- `ADD` in ch06/exchange/market_data/snapshot_synthesizer.cpp.
use building_low_latency_app.Prelude.{
  [], ℕ, ◌<◌, ◌≡◌, ◌≢◌, ◌⊎◌, none, some, true, ltb, arith, refl, ap, ◌∙◌, inc64, subst,
}
use building_low_latency_app.Prelude.Result.{ok, assert}
use building_low_latency_app.Types.{me_max_tickers, me_max_order_ids}
use building_low_latency_app.Messages.{MarketUpdateType, MeMarketUpdate, MdpMarketUpdate}
use building_low_latency_app.MemPool
use building_low_latency_app.MemPool.{MemPool, ObjectBlock}
use building_low_latency_app.MemPool.Laws
use building_low_latency_app.MemPool.Laws.{Allocated, allocate_lem, Deallocated, deallocate_lem}
use building_low_latency_app.MarketData.Synthesizer.{
  SnapshotSynthesizer, make, set_order, add_order, apply_as, add_to_snapshot,
}
use building_low_latency_app.MarketData.Synthesizer.Orders.{
  lookup, Held, IsValid, Changed, null_of, with_pool, set_entry, set_entry-here, set_entry-others,
  with_pool-IsValid, with_pool-Changed, add_to_snapshot-eq,
}

apply-add :
    (u : MeMarketUpdate) (s : SnapshotSynthesizer)
    → apply_as MarketUpdateType.add u s ≡ add_order u s
unfolding apply_as
apply-add u s = refl

add_order-eq :
    (u : MeMarketUpdate) (s : SnapshotSynthesizer) (i : ℕ) (q : MemPool MeMarketUpdate)
    → u.order_id < me_max_order_ids
    → s.ticker_orders u.ticker_id u.order_id ≡ none
    → MemPool.allocate s.order_pool u ≡ ok (i, q)
    → add_order u s
      ≡ ok (
          with_pool
            (set_entry s.ticker_orders u.ticker_id u.order_id (some i))
            s.last_inc_seq_num
            q
            s)
unfolding add_order set_order set_entry assert
add_order-eq u s i q ho absent e =
    let in_ids : ltb u.order_id me_max_order_ids ≡ true = ground arith in rw (in_ids, absent, e)

-- An `ADD` under the next number, of an order that is not there, while the pool has a second free
-- block: exactly that order is added to the live ones.
pub add_order_lem :
    (m : MdpMarketUpdate) (s : SnapshotSynthesizer) (j : ℕ)
    → IsValid s
    → m.me_market_update.type ≡ MarketUpdateType.add
    → m.me_market_update.ticker_id < me_max_tickers
    → m.me_market_update.order_id < me_max_order_ids
    → lookup s m.me_market_update.ticker_id m.me_market_update.order_id ≡ none
    → m.seq_num ≡ inc64 s.last_inc_seq_num
    → j < s.order_pool.size
    → j ≢ s.order_pool.next_free_index
    → (s.order_pool.store j).is_free ≡ true
    → (r : SnapshotSynthesizer) × (add_to_snapshot m s ≡ ok r)
      × IsValid r
      × Changed s r m.me_market_update.ticker_id m.me_market_update.order_id
          (some m.me_market_update)
      × (r.last_inc_seq_num ≡ m.seq_num)
add_order_lem m s j v type ht ho absent seq hj ne free =
    let u = m.me_market_update in
    let p = s.order_pool in
    let (q, e, a) = allocate_lem p u j v.pool hj ne free in
    let i = p.next_free_index in
    let empty = null_of p (s.ticker_orders u.ticker_id u.order_id) absent in
    let orders = set_entry s.ticker_orders u.ticker_id u.order_id (some i) in
    let entry : (k : ℕ) → some i ≡ some k → Held q u.ticker_id u.order_id k =
      λ k f. ground (arith, a) in
    let rest : (t o k : ℕ)
        → t ≢ u.ticker_id ⊎ (o ≢ u.order_id)
        → s.ticker_orders t o ≡ some k
        → q.store k ≡ p.store k =
      λ t o k _ f. a.others k (free_ne (v.held t o k f) a.was_free) in
    let here = set_entry-here s.ticker_orders u.ticker_id u.order_id (some i) in
    let others = set_entry-others s.ticker_orders u.ticker_id u.order_id (some i) in
    (
      with_pool orders m.seq_num q s,
      add_to_snapshot-eq m s (with_pool orders s.last_inc_seq_num q s) ht
          (ap (λ k. apply_as k u s) type ∙ apply-add u s ∙ add_order-eq u s i q ho empty e) seq,
      with_pool-IsValid s orders m.seq_num q u.ticker_id u.order_id (some i) v a.valid a.same_size
          here others entry rest,
      subst (λ w. Changed s (with_pool orders m.seq_num q s) u.ticker_id u.order_id w)
          (ap some a.object)
          (with_pool-Changed s orders m.seq_num q u.ticker_id u.order_id (some i) v a.valid
            a.same_size here others entry rest),
      refl,
    )
  where
    free_ne :
        {t o k : ℕ}
        → Held s.order_pool t o k
        → (s.order_pool.store s.order_pool.next_free_index).is_free ≡ true
        → k ≢ s.order_pool.next_free_index
    free_ne h free e = ground (arith, h)

-- A new synthesizer is valid and has no live order.
pub make-lookup :
    (blank : MeMarketUpdate)
    → (s : SnapshotSynthesizer) × (make blank ≡ ok s)
      × IsValid s
      × ((t o : ℕ) → lookup s t o ≡ none)
unfolding make
make-lookup blank =
    let (p, e, v, _) = Laws.make-IsValid blank me_max_order_ids (omega arith) (omega arith) in
    let s : SnapshotSynthesizer = record {
      ticker_orders = λ _ _. none;
      last_inc_seq_num = 0;
      order_pool = p;
      sent = [];
    } in
    (s, rw e, record { pool = v; held = λ t o i f. absurd (cc) }, λ t o. refl)
