-- ===== src/MarketData/Follow.antt =====
-- A client that lost updates (ch06/trading/market_data) and the snapshot that the exchange publishes
-- (ch06/exchange/market_data/snapshot_synthesizer.cpp).
mod Tests
use native.Mathlib.Decide.{dec_lt}
use building_low_latency_app.Prelude.{
  ℕ, zero, suc, ◌+◌, ◌*◌, ◌^◌, ◌≤◌, ◌<◌, ◌≡◌, true, false, Option, none, some, List, [], ◌∷◌, ◌++◌,
  arith, refl, ap, sym, ◌∙◌, inc64,
}
use building_low_latency_app.Prelude.Lists.{length, length-append, All}
use building_low_latency_app.Prelude.Result.{ok}
use building_low_latency_app.Types.{me_max_tickers, me_max_order_ids, ticker_id_invalid}
use building_low_latency_app.Messages.{MarketUpdateType, MeMarketUpdate, MdpMarketUpdate}
use building_low_latency_app.LfQueue.{size}
use building_low_latency_app.LfQueue.Refine.{IsValid, contents}
use building_low_latency_app.Numbering.{mdp_update, numbered}
use building_low_latency_app.MarketData.Synthesizer.{control, SnapshotSynthesizer, publish_snapshot}
use building_low_latency_app.MarketData.Synthesizer.Orders.{lookup}
use building_low_latency_app.MarketData.Synthesizer.Publish.{
  or_nothing, orders_from, tickers_from, snapshot, publish_snapshot_lem,
}
use building_low_latency_app.MarketData.Consumer.{
  MarketDataConsumer, Subscription, receive_update, receive_updates,
}
use building_low_latency_app.MarketData.Consumer.Stream.{entry, receive_snapshot}
use building_low_latency_app.MarketData.Consumer.Recovery.{IsPlain, recovery_lem}

All-append : {A : Type 0} (P : A → Type 0) (xs ys : List A) → All P xs → All P ys → All P (xs ++ ys)
All-append P [] ys h k = k
All-append P (x ∷ xs) ys h k = (h.0, All-append P xs ys h.1 k)

-- No live order is a start or an end.
abbrev pub AllPlain : (ℕ → ℕ → Option MeMarketUpdate) → Type 0
AllPlain live = (t o : ℕ) (u : MeMarketUpdate) → live t o ≡ some u → IsPlain u

IsPlain-or :
    (x : Option MeMarketUpdate) (us : List MeMarketUpdate)
    → ((u : MeMarketUpdate) → x ≡ some u → IsPlain u)
    → All IsPlain us
    → All IsPlain (or_nothing x us)
IsPlain-or none us h k = k
IsPlain-or (some u) us h k = (h u refl, k)

orders_from-IsPlain :
    (n o : ℕ) (live : ℕ → Option MeMarketUpdate)
    → ((k : ℕ) (u : MeMarketUpdate) → live k ≡ some u → IsPlain u)
    → All IsPlain (orders_from n o live)
unfolding orders_from
orders_from-IsPlain zero o live h = tt
orders_from-IsPlain (suc n) o live h =
    IsPlain-or (live o) (orders_from n (suc o) live) (h o) (orders_from-IsPlain n (suc o) live h)

tickers_from-IsPlain :
    (n t : ℕ) (live : ℕ → ℕ → Option MeMarketUpdate)
    → AllPlain live
    → All IsPlain (tickers_from n t live)
unfolding tickers_from
tickers_from-IsPlain zero t live h = tt
tickers_from-IsPlain (suc n) t live h = (
  refl,
  All-append IsPlain (orders_from me_max_order_ids 0 (live t)) (tickers_from n (suc t) live)
      (orders_from-IsPlain me_max_order_ids 0 (live t) (h t))
      (tickers_from-IsPlain n (suc t) live h),
)

length_or :
    (x : Option MeMarketUpdate) (us : List MeMarketUpdate)
    → length (or_nothing x us) ≤ suc (length us)
length_or none us = omega arith
length_or (some u) us = omega arith

length-orders_from :
    (n o : ℕ) (live : ℕ → Option MeMarketUpdate) → length (orders_from n o live) ≤ n
unfolding orders_from
length-orders_from zero o live = omega arith
length-orders_from (suc n) o live =
    omega
      (arith, length_or (live o) (orders_from n (suc o) live), length-orders_from n (suc o) live)

-- A snapshot's updates are not more than the tickers and all their order ids.
pub length-tickers_from :
    (n t : ℕ) (live : ℕ → ℕ → Option MeMarketUpdate)
    → length (tickers_from n t live) ≤ n * suc me_max_order_ids
unfolding tickers_from
length-tickers_from zero t live = omega arith
length-tickers_from (suc n) t live = omega (
  arith,
  length-append (orders_from me_max_order_ids 0 (live t)) (tickers_from n (suc t) live),
  length-orders_from me_max_order_ids 0 (live t),
  length-tickers_from n (suc t) live,
)

length-or :
    (x : Option MeMarketUpdate)
    → x ≡ none
    → (us : List MeMarketUpdate) → length (or_nothing x us) ≡ length us
length-or none e us = refl
length-or (some u) e us = absurd (ground arith)

length-orders_none :
    (n o m : ℕ) (live : ℕ → Option MeMarketUpdate)
    → ((k : ℕ) → m ≤ k → live k ≡ none)
    → m ≤ o
    → length (orders_from n o live) ≡ 0
unfolding orders_from
length-orders_none zero o m live h le = refl
length-orders_none (suc n) o m live h le =
    length-or (live o) (h o le) (orders_from n (suc o) live)
    ∙ length-orders_none n (suc o) m live h (omega arith)

length-orders_below :
    (n o m : ℕ) (live : ℕ → Option MeMarketUpdate)
    → ((k : ℕ) → m ≤ k → live k ≡ none)
    → o ≤ m
    → length (orders_from n o live) + o ≤ m
unfolding orders_from
length-orders_below zero o m live h le = omega arith
length-orders_below (suc n) o m live h le = elim (dec_lt o m) [
  | yes less ↦ omega (
    arith,
    length_or (live o) (orders_from n (suc o) live),
    length-orders_below n (suc o) m live h (omega arith),
  )
  | no same ↦ omega (arith, length-orders_none (suc n) o m live h (omega arith))
]

-- A snapshot of live orders whose ids are below `m` is not longer than this.
pub length-tickers_below :
    (n t m : ℕ) (live : ℕ → ℕ → Option MeMarketUpdate)
    → ((u k : ℕ) → m ≤ k → live u k ≡ none)
    → length (tickers_from n t live) ≤ n * suc m
unfolding tickers_from
length-tickers_below zero t m live h = omega arith
length-tickers_below (suc n) t m live h = omega (
  arith,
  length-append (orders_from me_max_order_ids 0 (live t)) (tickers_from n (suc t) live),
  length-orders_below me_max_order_ids 0 m (live t) (h t) (omega arith),
  length-tickers_below n (suc t) m live h,
)

-- What the synthesizer publishes brings a client back that has begun its recovery: when all
-- messages of the snapshot and then an incremental message have come, the trade engine's queue
-- holds, behind what it held, a `CLEAR` for each ticker and the live orders, as they are after the
-- last incremental update in the snapshot, whose successor is expected next. The queue must have
-- room for the snapshot's updates, and no live order may be a snapshot's start or end.
pub snapshot-recovers :
    (s : SnapshotSynthesizer) (net : Subscription) (m : MdpMarketUpdate) (c : MarketDataConsumer)
    → AllPlain (lookup s)
    → c.in_recovery ≡ true
    → c.snapshot_queued_msgs ≡ []
    → c.incremental_queued_msgs ≡ []
    → IsValid c.incoming_md_updates
    → size c.incoming_md_updates + length (tickers_from me_max_tickers 0 (lookup s))
      ≤ c.incoming_md_updates.num_elems
    → (new : List MdpMarketUpdate) × (d e : MarketDataConsumer) × ((publish_snapshot s).sent
        ≡ s.sent ++ new)
      × (receive_updates net true new c ≡ ok d)
      × (receive_update net false m d ≡ ok e)
      × (contents e.incoming_md_updates
          ≡ contents c.incoming_md_updates ++ tickers_from me_max_tickers 0 (lookup s))
      × (e.next_exp_inc_seq_num ≡ inc64 s.last_inc_seq_num)
      × (e.in_recovery ≡ false)
snapshot-recovers s net m c plain h empty none_queued v room =
    let us = snapshot s.last_inc_seq_num (lookup s) in
    let body = tickers_from me_max_tickers 0 (lookup s) in
    let few = length-tickers_from me_max_tickers 0 (lookup s) in
    let d : MarketDataConsumer = record c {
      snapshot_queued_msgs = c.snapshot_queued_msgs ++ numbered entry 0 us;
    } in
    let queued : d.snapshot_queued_msgs ≡ numbered entry 0 us =
      ap (λ ms. ms ++ numbered entry 0 us) empty in
    let (e, run, q, _, next, out, _) =
      recovery_lem net m _ _ body d h queued none_queued refl refl
        (tickers_from-IsPlain me_max_tickers 0 (lookup s) plain) v (omega arith) in
    (
      numbered mdp_update 0 us,
      d,
      e,
      publish_snapshot_lem s,
      receive_snapshot net 0 us c h (rw empty tt) (
          omega (
            arith,
            few,
            length-append body
                (control MarketUpdateType.snapshot_end s.last_inc_seq_num ticker_id_invalid ∷ []),
          )),
      run,
      q,
      next,
      out,
    )
