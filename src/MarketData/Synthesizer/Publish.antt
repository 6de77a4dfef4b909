-- ===== src/MarketData/Synthesizer/Publish.antt =====
-- What `publishSnapshot` of ch06/exchange/market_data/snapshot_synthesizer.cpp sends.
use mathlib.Core.List.{append-nil, append_assoc}
use building_low_latency_app.Prelude.{
  ℕ, zero, suc, ◌≡◌, Option, none, some, List, [], ◌∷◌, ◌++◌, refl, sym, ap, ◌∙◌,
}
use building_low_latency_app.Types.{
  me_max_tickers, me_max_order_ids, TickerId, OrderId, order_id_invalid, ticker_id_invalid,
}
use building_low_latency_app.Messages.{MarketUpdateType, MeMarketUpdate, MdpMarketUpdate}
use building_low_latency_app.MemPool.{MemPool}
use building_low_latency_app.Numbering.{mdp_update, numbered}
use building_low_latency_app.MarketData.Synthesizer.{
  SnapshotSynthesizer, control, Output, emit, emit_order, emit_orders, emit_tickers,
  publish_snapshot,
}
use building_low_latency_app.MarketData.Synthesizer.Orders.{object_of, lookup}

abbrev pub or_nothing : Option MeMarketUpdate → List MeMarketUpdate → List MeMarketUpdate
or_nothing none us = us
or_nothing (some u) us = u ∷ us

-- The live orders of a ticker with `n` ids from `o` on.
unfoldable pub orders_from : ℕ → OrderId → (OrderId → Option MeMarketUpdate) → List MeMarketUpdate
orders_from zero o live = []
orders_from (suc n) o live = or_nothing (live o) (orders_from n (suc o) live)

-- For each of `n` tickers from `t` on a `CLEAR` and the ticker's live orders.
unfoldable pub tickers_from :
    ℕ → TickerId → (TickerId → OrderId → Option MeMarketUpdate) → List MeMarketUpdate
tickers_from zero t live = []
tickers_from (suc n) t live =
    control MarketUpdateType.clear order_id_invalid t
    ∷ (orders_from me_max_order_ids 0 (live t) ++ tickers_from n (suc t) live)

-- A snapshot of the live orders up to the incremental update `last`.
abbrev pub snapshot : ℕ → (TickerId → OrderId → Option MeMarketUpdate) → List MeMarketUpdate
snapshot last live =
    control MarketUpdateType.snapshot_start last ticker_id_invalid
    ∷ (tickers_from me_max_tickers 0 live
        ++ (control MarketUpdateType.snapshot_end last ticker_id_invalid ∷ []))

emit_all : List MeMarketUpdate → Output → Output
emit_all [] out = out
emit_all (u ∷ us) out = emit_all us (emit u out)

emit_all-append :
    (us vs : List MeMarketUpdate) (out : Output)
    → emit_all (us ++ vs) out ≡ emit_all vs (emit_all us out)
unfolding emit_all
emit_all-append [] vs out = refl
emit_all-append (u ∷ us) vs out = emit_all-append us vs (emit u out)

emit_all-sent :
    (us : List MeMarketUpdate) (n : ℕ) (ms : List MdpMarketUpdate)
    → (emit_all us (n, ms)).1 ≡ ms ++ numbered mdp_update n us
unfolding emit_all
emit_all-sent [] n ms = sym (append-nil ms)
emit_all-sent (u ∷ us) n ms = emit_all-sent us _ _ ∙ append_assoc ms (mdp_update n u ∷ []) _

emit_order-eq :
    (x : Option ℕ) (pool : MemPool MeMarketUpdate) (us : List MeMarketUpdate) (out : Output)
    → emit_all us (emit_order x pool out) ≡ emit_all (or_nothing (object_of pool x) us) out
unfolding emit_all
emit_order-eq none pool us out = refl
emit_order-eq (some i) pool us out = refl

emit_orders-eq :
    (n o : ℕ) (orders : OrderId → Option ℕ) (pool : MemPool MeMarketUpdate) (out : Output)
    → emit_orders n o orders pool out
      ≡ emit_all (orders_from n o (λ k. object_of pool (orders k))) out
unfolding emit_orders emit_all orders_from
emit_orders-eq zero o orders pool out = refl
emit_orders-eq (suc n) o orders pool out =
    emit_orders-eq n (suc o) orders pool (emit_order (orders o) pool out)
    ∙ emit_order-eq (orders o) pool (orders_from n (suc o) (λ k. object_of pool (orders k))) out

emit_tickers-eq :
    (n t : ℕ) (s : SnapshotSynthesizer) (out : Output)
    → emit_tickers n t s out ≡ emit_all (tickers_from n t (lookup s)) out
unfolding emit_tickers emit_all tickers_from
emit_tickers-eq zero t s out = refl
emit_tickers-eq (suc n) t s out =
    emit_tickers-eq n (suc t) s _
    ∙ ap (emit_all (tickers_from n (suc t) (lookup s)))
        (emit_orders-eq me_max_order_ids 0 (s.ticker_orders t) s.order_pool _)
    ∙ sym (emit_all-append (orders_from me_max_order_ids 0 (lookup s t)) _ _)

-- A snapshot is what the live orders say, and nothing else of the state: its start, then for each
-- ticker a `CLEAR` and the live orders by their ids, then its end, under consecutive numbers from
-- 0. The start and the end name the last incremental update that the snapshot contains.
pub publish_snapshot_lem :
    (s : SnapshotSynthesizer)
    → (publish_snapshot s).sent
      ≡ s.sent ++ numbered mdp_update 0 (snapshot s.last_inc_seq_num (lookup s))
unfolding publish_snapshot emit_all
publish_snapshot_lem s =
    ap (λ (out : Output). (emit end out).1)
      (emit_tickers-eq me_max_tickers 0 s (emit start (0, s.sent)))
    ∙ ap (λ (out : Output). out.1)
        (sym (
          emit_all-append (tickers_from me_max_tickers 0 (lookup s)) (end ∷ [])
            (emit start (0, s.sent))))
    ∙ emit_all-sent (snapshot s.last_inc_seq_num (lookup s)) 0 s.sent
  where
    start : MeMarketUpdate
    start = control MarketUpdateType.snapshot_start s.last_inc_seq_num ticker_id_invalid

    end : MeMarketUpdate
    end = control MarketUpdateType.snapshot_end s.last_inc_seq_num ticker_id_invalid
