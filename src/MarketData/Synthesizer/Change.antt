-- ===== src/MarketData/Synthesizer/Change.antt =====
-- `MODIFY` and `CANCEL` in ch06/exchange/market_data/snapshot_synthesizer.cpp.
use building_low_latency_app.Prelude.{
  ℕ, ◌<◌, ◌≡◌, ◌≢◌, ◌⊎◌, none, some, true, ltb, arith, refl, ap, sym, ◌∙◌, inc64, update, ==-refl,
  ==-of_ne, subst,
}
use building_low_latency_app.Prelude.Result.{ok, assert}
use building_low_latency_app.Types.{me_max_tickers, me_max_order_ids, TickerId, OrderId}
use building_low_latency_app.Types
use building_low_latency_app.Messages.{MarketUpdateType, MeMarketUpdate, MdpMarketUpdate}
use building_low_latency_app.MemPool
use building_low_latency_app.MemPool.{MemPool, ObjectBlock}
use building_low_latency_app.MemPool.Laws
use building_low_latency_app.MemPool.Laws.{Allocated, allocate_lem, Deallocated, deallocate_lem}
use building_low_latency_app.MarketData.Synthesizer.{
  SnapshotSynthesizer, same_side, set_order, find_order, modify_order, cancel_order, apply_as,
  add_to_snapshot,
}
use building_low_latency_app.MarketData.Synthesizer.Orders.{
  lookup, Held, IsValid, Changed, pointer_of, with_pool, set_entry, set_entry-here,
  set_entry-others, with_pool-IsValid, with_pool-Changed, add_to_snapshot-eq,
}

same_side_refl : (a b : Types.Side) → a ≡ b → same_side a b ≡ true
same_side_refl a b e = subst (λ c. same_side a c ≡ true) e (refl_at a)
  where
    refl_at : (a : Types.Side) → same_side a a ≡ true
    refl_at Types.invalid = refl
    refl_at Types.buy = refl
    refl_at Types.sell = refl
    refl_at (Types.unnamed n) = ==-refl n

apply-modify :
    (u : MeMarketUpdate) (s : SnapshotSynthesizer)
    → apply_as MarketUpdateType.modify u s ≡ modify_order u s
unfolding apply_as
apply-modify u s = refl

apply-cancel :
    (u : MeMarketUpdate) (s : SnapshotSynthesizer)
    → apply_as MarketUpdateType.cancel u s ≡ cancel_order u s
unfolding apply_as
apply-cancel u s = refl

abbrev changed : MeMarketUpdate → MeMarketUpdate → MeMarketUpdate
changed old u = record old { qty = u.qty; price = u.price }

abbrev changed_pool : MemPool MeMarketUpdate → ℕ → MeMarketUpdate → MemPool MeMarketUpdate
changed_pool p i u = record p {
  store = update p.store i (record (p.store i) { object = changed (p.store i).object u });
}

changed_pool-object :
    (p : MemPool MeMarketUpdate) (i : ℕ) (u : MeMarketUpdate)
    → ((changed_pool p i u).store i).object ≡ changed (p.store i).object u
changed_pool-object p i u = rw ==-refl

changed_pool-Held :
    (p : MemPool MeMarketUpdate) (t o i : ℕ) (u : MeMarketUpdate)
    → Held p t o i
    → Held (changed_pool p i u) t o i
changed_pool-Held p t o i u h = record {
  inside = h.inside;
  used = rw ==-refl h.used;
  order_id = rw ==-refl h.order_id;
  ticker_id = rw ==-refl h.ticker_id;
}

module _ (s : SnapshotSynthesizer) (v : IsValid s) where
  -- No two entries point to one block.
  apart :
      (t o i u k j : ℕ)
      → s.ticker_orders t o ≡ some i
      → s.ticker_orders u k ≡ some j
      → u ≢ t ⊎ (k ≢ o)
      → j ≢ i
  apart t o i u k j e f ne same = ground (arith, v.held t o i e, v.held u k j f)

  find_order-eq :
      (u : MeMarketUpdate) (i : ℕ)
      → u.order_id < me_max_order_ids
      → s.ticker_orders u.ticker_id u.order_id ≡ some i
      → (s.order_pool.store i).object.side ≡ u.side
      → find_order u s ≡ ok i
  unfolding find_order assert
  find_order-eq u i ho e side =
      let in_ids : ltb u.order_id me_max_order_ids ≡ true = ground arith in
      let h = v.held u.ticker_id u.order_id i e in
      rw (in_ids, e, h.order_id, ==-refl u.order_id, same_side_refl _ _ side)

  modify_order-eq :
      (u : MeMarketUpdate) (i : ℕ)
      → find_order u s ≡ ok i
      → modify_order u s
        ≡ ok (with_pool s.ticker_orders s.last_inc_seq_num (changed_pool s.order_pool i u) s)
  unfolding modify_order
  modify_order-eq u i e = rw e

  cancel_order-eq :
      (u : MeMarketUpdate) (i : ℕ) (q : MemPool MeMarketUpdate)
      → find_order u s ≡ ok i
      → MemPool.deallocate s.order_pool i ≡ ok q
      → cancel_order u s
        ≡ ok (
            with_pool
              (set_entry s.ticker_orders u.ticker_id u.order_id none)
              s.last_inc_seq_num
              q
              s)
  unfolding cancel_order set_order set_entry
  cancel_order-eq u i q e f = rw (e, f)

  changed_pool-IsValid : (u : MeMarketUpdate) (i : ℕ) → Laws.IsValid (changed_pool s.order_pool i u)
  changed_pool-IsValid u i = record {
    in_store = v.pool.in_store;
    small = v.pool.small;
    next_free = ground (arith, v.pool);
  }

-- A `MODIFY` under the next number, of a live order on the order's side: exactly that order
-- changes, in its quantity and price.
modify_order_lem :
    (m : MdpMarketUpdate) (s : SnapshotSynthesizer) (old : MeMarketUpdate)
    → IsValid s
    → m.me_market_update.type ≡ MarketUpdateType.modify
    → m.me_market_update.ticker_id < me_max_tickers
    → m.me_market_update.order_id < me_max_order_ids
    → lookup s m.me_market_update.ticker_id m.me_market_update.order_id ≡ some old
    → old.side ≡ m.me_market_update.side
    → m.seq_num ≡ inc64 s.last_inc_seq_num
    → (r : SnapshotSynthesizer) × (add_to_snapshot m s ≡ ok r)
      × IsValid r
      × Changed s r m.me_market_update.ticker_id m.me_market_update.order_id
          (some (record old { qty = m.me_market_update.qty; price = m.me_market_update.price }))
      × (r.last_inc_seq_num ≡ m.seq_num)
modify_order_lem m s old v type ht ho live side seq =
    let u = m.me_market_update in
    let (i, e, is_old) =
      pointer_of s.order_pool (s.ticker_orders u.ticker_id u.order_id) old live in
    let q = changed_pool s.order_pool i u in
    let h = v.held u.ticker_id u.order_id i e in
    let found = find_order-eq s v u i ho e (ap (λ (x : MeMarketUpdate). x.side) is_old ∙ side) in
    let vq = changed_pool-IsValid s v u i in
    let entry : (k : ℕ) → some i ≡ some k → Held q u.ticker_id u.order_id k = λ k f.
      let same : i ≡ k = cc in
      subst (λ w. Held q u.ticker_id u.order_id w) same
        (changed_pool-Held s.order_pool u.ticker_id u.order_id i u h) in
    let rest : (t o k : ℕ)
        → t ≢ u.ticker_id ⊎ (o ≢ u.order_id)
        → s.ticker_orders t o ≡ some k
        → q.store k ≡ s.order_pool.store k =
      λ t o k ne f.
        rw (==-of_ne i k (λ g. apart s v u.ticker_id u.order_id i t o k e f ne (sym g))) in
    (
      with_pool s.ticker_orders m.seq_num q s,
      add_to_snapshot-eq m s (with_pool s.ticker_orders s.last_inc_seq_num q s) ht
          (ap (λ k. apply_as k u s) type ∙ apply-modify u s ∙ modify_order-eq s v u i found) seq,
      with_pool-IsValid s s.ticker_orders m.seq_num q u.ticker_id u.order_id (some i) v vq refl e
          (λ t o ne. refl) entry rest,
      subst (λ w. Changed s (with_pool s.ticker_orders m.seq_num q s) u.ticker_id u.order_id w)
          (ap some (changed_pool-object s.order_pool i u ∙ ap (λ x. changed x u) is_old))
          (with_pool-Changed s s.ticker_orders m.seq_num q u.ticker_id u.order_id (some i) v vq refl
            e (λ t o ne. refl) entry rest),
      refl,
    )

-- A `CANCEL` under the next number, of a live order on the order's side: exactly that order is no
-- longer live.
pub cancel_order_lem :
    (m : MdpMarketUpdate) (s : SnapshotSynthesizer) (old : MeMarketUpdate)
    → IsValid s
    → m.me_market_update.type ≡ MarketUpdateType.cancel
    → m.me_market_update.ticker_id < me_max_tickers
    → m.me_market_update.order_id < me_max_order_ids
    → lookup s m.me_market_update.ticker_id m.me_market_update.order_id ≡ some old
    → old.side ≡ m.me_market_update.side
    → m.seq_num ≡ inc64 s.last_inc_seq_num
    → (r : SnapshotSynthesizer) × (add_to_snapshot m s ≡ ok r)
      × IsValid r
      × Changed s r m.me_market_update.ticker_id m.me_market_update.order_id none
      × (r.last_inc_seq_num ≡ m.seq_num)
cancel_order_lem m s old v type ht ho live side seq =
    let u = m.me_market_update in
    let (i, e, is_old) =
      pointer_of s.order_pool (s.ticker_orders u.ticker_id u.order_id) old live in
    let h = v.held u.ticker_id u.order_id i e in
    let found = find_order-eq s v u i ho e (ap (λ (x : MeMarketUpdate). x.side) is_old ∙ side) in
    let (q, f, d) = deallocate_lem s.order_pool i v.pool h.inside h.used in
    let orders = set_entry s.ticker_orders u.ticker_id u.order_id none in
    let entry : (k : ℕ) → none ≡ some k → Held q u.ticker_id u.order_id k = λ k g. absurd (cc) in
    let rest : (t o k : ℕ)
        → t ≢ u.ticker_id ⊎ (o ≢ u.order_id)
        → s.ticker_orders t o ≡ some k
        → q.store k ≡ s.order_pool.store k =
      λ t o k ne g. d.others k (apart s v u.ticker_id u.order_id i t o k e g ne) in
    let here = set_entry-here s.ticker_orders u.ticker_id u.order_id none in
    let others = set_entry-others s.ticker_orders u.ticker_id u.order_id none in
    (
      with_pool orders m.seq_num q s,
      add_to_snapshot-eq m s (with_pool orders s.last_inc_seq_num q s) ht
          (ap (λ k. apply_as k u s) type ∙ apply-cancel u s ∙ cancel_order-eq s v u i q found f)
          seq,
      with_pool-IsValid s orders m.seq_num q u.ticker_id u.order_id none v d.valid d.same_size here
          others entry rest,
      with_pool-Changed s orders m.seq_num q u.ticker_id u.order_id none v d.valid d.same_size here
          others entry rest,
      refl,
    )
