-- ===== src/MarketData/Consumer/Recovery.antt =====
-- How ch06/trading/market_data/market_data_consumer.cpp recovers from a snapshot.
use building_low_latency_app.Prelude.{
  ℕ, ◌+◌, ◌≤◌, ◌≡◌, true, false, some, List, [], ◌∷◌, ◌++◌, ◌||◌, arith, refl, ap, ◌∙◌, inc64,
  ==-refl,
}
use building_low_latency_app.Prelude.Lists.{length, All}
use building_low_latency_app.Prelude.Result.{ok}
use building_low_latency_app.Messages.{MeMarketUpdate, MdpMarketUpdate}
use building_low_latency_app.LfQueue.{size}
use building_low_latency_app.LfQueue.Refine.{
  IsValid, contents, push_all, push_all-nil, push_all_lem,
}
use building_low_latency_app.Numbering.{numbered}
use building_low_latency_app.MarketData.Consumer.{
  MarketDataConsumer, Subscription, is_start, is_end, keep, scan_snapshot, scan_incremental,
  last_of, finish_sync, check_queued, receive_update,
}
use building_low_latency_app.MarketData.Consumer.Stream.{entry, check-incremental}

-- An update of the book: neither the start nor the end of a snapshot.
abbrev pub IsPlain : MeMarketUpdate → Type 0
IsPlain u = (is_start u.type || is_end u.type) ≡ false

keep_all : List MeMarketUpdate → List MeMarketUpdate
keep_all [] = []
keep_all (u ∷ us) = keep u (keep_all us)

scan_snapshot-numbered :
    (n : ℕ) (us : List MeMarketUpdate) → scan_snapshot n (numbered entry n us) ≡ some (keep_all us)
unfolding scan_snapshot keep_all
scan_snapshot-numbered n [] = refl
scan_snapshot-numbered n (u ∷ us) = rw (==-refl n, scan_snapshot-numbered (inc64 n) us)

keep_all-body :
    (body : List MeMarketUpdate) (last : MeMarketUpdate)
    → All IsPlain body
    → is_end last.type ≡ true
    → keep_all (body ++ (last ∷ [])) ≡ body
unfolding keep_all
keep_all-body [] last h e = ground arith
keep_all-body (u ∷ us) last h e = rw (h.0, keep_all-body us last h.1 e)

last_of-numbered :
    (u : MeMarketUpdate) (n : ℕ) (us : List MeMarketUpdate) (last : MeMarketUpdate)
    → last_of u (numbered entry n (us ++ (last ∷ []))) ≡ last
last_of-numbered u n [] last = refl
last_of-numbered u n (v ∷ us) last = last_of-numbered v (inc64 n) us last

abbrev recovered : MarketDataConsumer → List MeMarketUpdate → MeMarketUpdate → MarketDataConsumer
recovered c body last = record c {
  next_exp_inc_seq_num = inc64 last.order_id;
  incoming_md_updates = push_all body c.incoming_md_updates;
  in_recovery = false;
  snapshot_queued_msgs = [];
  incremental_queued_msgs = [];
}

finish_sync-eq :
    (last : MeMarketUpdate) (body : List MeMarketUpdate) (c : MarketDataConsumer)
    → c.incremental_queued_msgs ≡ []
    → finish_sync last body c ≡ recovered c body last
unfolding finish_sync scan_incremental
finish_sync-eq last body c e = rw (e, push_all-nil)

check_queued_complete :
    (first last : MeMarketUpdate) (body : List MeMarketUpdate) (c : MarketDataConsumer)
    → is_start first.type ≡ true
    → is_end last.type ≡ true
    → All IsPlain body
    → c.incremental_queued_msgs ≡ []
    → check_queued (numbered entry 0 (first ∷ (body ++ (last ∷ [])))) c ≡ recovered c body last
unfolding check_queued keep_all
check_queued_complete first last body c hs he plain none_queued = rw (
  hs,
  scan_snapshot-numbered 0 (first ∷ (body ++ (last ∷ []))),
  last_of-numbered first (inc64 0) body last,
  he,
  finish_sync-eq last _ c none_queued,
  hs,
  keep_all-body body last plain he,
)

-- In recovery, with room in a valid queue, once a whole snapshot is queued and no incremental
-- message, the next incremental message ends the recovery: the snapshot's updates come in order
-- behind those that wait for the trade engine, and the number after the snapshot's is expected. The
-- message itself is not applied.
pub recovery_lem :
    (net : Subscription) (m : MdpMarketUpdate) (first last : MeMarketUpdate)
    (body : List MeMarketUpdate) (c : MarketDataConsumer)
    → c.in_recovery ≡ true
    → c.snapshot_queued_msgs ≡ numbered entry 0 (first ∷ (body ++ (last ∷ [])))
    → c.incremental_queued_msgs ≡ []
    → is_start first.type ≡ true
    → is_end last.type ≡ true
    → All IsPlain body
    → IsValid c.incoming_md_updates
    → size c.incoming_md_updates + length body ≤ c.incoming_md_updates.num_elems
    → (d : MarketDataConsumer) × (receive_update net false m c ≡ ok d)
      × (contents d.incoming_md_updates ≡ contents c.incoming_md_updates ++ body)
      × IsValid d.incoming_md_updates
      × (d.next_exp_inc_seq_num ≡ inc64 last.order_id)
      × (d.in_recovery ≡ false)
      × (d.snapshot_queued_msgs ≡ [])
recovery_lem net m first last body c h queued none_queued hs he plain v room =
    let (v', q, _, _) = push_all_lem body c.incoming_md_updates v room in
    (
      recovered c body last,
      check-incremental net m c h
          ∙ ap (λ ms. ok (check_queued ms c)) queued
          ∙ ap ok (check_queued_complete first last body c hs he plain none_queued),
      q,
      v',
      refl,
      refl,
      refl,
    )
