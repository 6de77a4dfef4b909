-- ===== src/MarketData/Consumer/Stream.antt =====
-- Messages as they come in to ch06/trading/market_data/market_data_consumer.cpp.
use mathlib.Core.List.{append-nil, append_assoc}
use building_low_latency_app.Prelude.{
  ℕ, suc, ◌+◌, ◌^◌, ◌≤◌, ◌<◌, ◌≡◌, ◌≢◌, true, false, List, [], ◌∷◌, ◌++◌, ltb, ◌==◌, arith, refl,
  ap, ap₂, sym, ◌∙◌, inc64, ==-of_ne,
}
use building_low_latency_app.Prelude.Lists.{length, All}
use building_low_latency_app.Prelude.Result.{ok, assert}
use building_low_latency_app.Messages.{MeMarketUpdate, MdpMarketUpdate}
use building_low_latency_app.LfQueue.{LfQueue, push, size}
use building_low_latency_app.LfQueue.Refine.{
  IsValid, contents, push_all, push_all-nil, push_all-cons, push_all_lem,
}
use building_low_latency_app.Numbering.{mdp_update, numbered, number_after}
use building_low_latency_app.MarketData.Consumer.{
  MarketDataConsumer, QueuedMarketUpdates, Subscription, has_key, set_key, queue_message,
  start_snapshot_sync, check_queued, receive_update, receive_updates,
}

-- The entries of a map from consecutive numbers.
abbrev pub entry : ℕ → MeMarketUpdate → ℕ × MeMarketUpdate
entry n u = (n, u)

abbrev with_queue : MarketDataConsumer → ℕ → LfQueue MeMarketUpdate → MarketDataConsumer
with_queue c n q = record c { next_exp_inc_seq_num = n; incoming_md_updates = q }

receive_update-expected :
    (net : Subscription) (m : MdpMarketUpdate) (c : MarketDataConsumer)
    → c.in_recovery ≡ false
    → m.seq_num ≡ c.next_exp_inc_seq_num
    → receive_update net false m c
      ≡ ok (
          with_queue c
            (inc64 c.next_exp_inc_seq_num)
            (push m.me_market_update c.incoming_md_updates))
unfolding receive_update
receive_update-expected net m c h e =
    let same : (m.seq_num == c.next_exp_inc_seq_num) ≡ true = ground arith in rw (h, same)

receive_numbered :
    (net : Subscription) (n : ℕ) (us : List MeMarketUpdate) (c : MarketDataConsumer)
    → c.in_recovery ≡ false
    → c.next_exp_inc_seq_num ≡ n
    → receive_updates net false (numbered mdp_update n us) c
      ≡ ok (with_queue c (number_after n us) (push_all us c.incoming_md_updates))
unfolding receive_updates
receive_numbered net n [] c h e =
    ap₂ (λ k q. ok (with_queue c k q)) e (sym (push_all-nil c.incoming_md_updates))
receive_numbered net n (u ∷ us) c h e =
    let d = with_queue c (inc64 c.next_exp_inc_seq_num) (push u c.incoming_md_updates) in
    rw (receive_update-expected net (mdp_update n u) c h (sym e)) (
      receive_numbered net (inc64 n) us d h (ap inc64 e)
      ∙ ap (λ q. ok (with_queue c (number_after (inc64 n) us) q))
          (sym (push_all-cons u us c.incoming_md_updates)))

-- Outside recovery, incremental updates under consecutive numbers from the expected one all reach
-- the trade engine's queue, in order, while it has room, and the consumer stays outside recovery.
pub receive_updates-numbered :
    (net : Subscription) (n : ℕ) (us : List MeMarketUpdate) (c : MarketDataConsumer)
    → c.in_recovery ≡ false
    → c.next_exp_inc_seq_num ≡ n
    → IsValid c.incoming_md_updates
    → size c.incoming_md_updates + length us ≤ c.incoming_md_updates.num_elems
    → (d : MarketDataConsumer) × (receive_updates net false (numbered mdp_update n us) c ≡ ok d)
      × (contents d.incoming_md_updates ≡ contents c.incoming_md_updates ++ us)
      × IsValid d.incoming_md_updates
      × (d.next_exp_inc_seq_num ≡ number_after n us)
      × (d.in_recovery ≡ false)
receive_updates-numbered net n us c h e v room =
    let (v', q, _, _) = push_all_lem us c.incoming_md_updates v room in
    (
      with_queue c (number_after n us) (push_all us c.incoming_md_updates),
      receive_numbered net n us c h e,
      q,
      v',
      refl,
      h,
    )

-- An incremental update under another number than the expected one starts the recovery, if the
-- snapshot group can be joined: nothing is queued, the update itself included.
pub receive_update-gap :
    (net : Subscription) (m : MdpMarketUpdate) (c : MarketDataConsumer)
    → c.in_recovery ≡ false
    → m.seq_num ≢ c.next_exp_inc_seq_num
    → net.init_ok ≡ true
    → net.join_ok ≡ true
    → receive_update net false m c
      ≡ ok
          (record c { in_recovery = true; snapshot_queued_msgs = []; incremental_queued_msgs = [] })
unfolding receive_update start_snapshot_sync queue_message check_queued assert
receive_update-gap net m c h ne init join =
    let other = ==-of_ne m.seq_num c.next_exp_inc_seq_num ne in rw (h, other, init, join)

pub check-incremental :
    (net : Subscription) (m : MdpMarketUpdate) (c : MarketDataConsumer)
    → c.in_recovery ≡ true
    → receive_update net false m c ≡ ok (check_queued c.snapshot_queued_msgs c)
unfolding receive_update queue_message
check-incremental net m c h = ground arith

receive_update-lost :
    (net : Subscription) (m : MdpMarketUpdate) (c : MarketDataConsumer)
    → c.in_recovery ≡ true
    → c.snapshot_queued_msgs ≡ []
    → receive_update net false m c ≡ ok c
unfolding check_queued
receive_update-lost net m c h e = check-incremental net m c h ∙ ap (λ ms. ok (check_queued ms c)) e

-- Until a snapshot message comes, incremental updates change nothing in recovery: they are lost.
pub receive_updates-lost :
    (net : Subscription) (ms : List MdpMarketUpdate) (c : MarketDataConsumer)
    → c.in_recovery ≡ true
    → c.snapshot_queued_msgs ≡ []
    → receive_updates net false ms c ≡ ok c
unfolding receive_updates
receive_updates-lost net [] c h e = refl
receive_updates-lost net (m ∷ ms) c h e =
    rw (receive_update-lost net m c h e) (receive_updates-lost net ms c h e)

abbrev Below : ℕ → QueuedMarketUpdates → Type 0
Below n ms = All (λ e. e.0 < n) ms

has_key-above : (n : ℕ) (ms : QueuedMarketUpdates) → Below n ms → has_key n ms ≡ false
unfolding has_key
has_key-above n [] h = refl
has_key-above n ((k, u) ∷ ms) h =
    let other : (n == k) ≡ false = ground arith in rw (other, has_key-above n ms h.1)

set_key-above :
    (n : ℕ) (v : MeMarketUpdate) (ms : QueuedMarketUpdates)
    → Below n ms
    → set_key n v ms ≡ ms ++ ((n, v) ∷ [])
unfolding set_key
set_key-above n v [] h = refl
set_key-above n v ((k, u) ∷ ms) h =
    let after : ltb n k ≡ false = ground arith in
    let other : (n == k) ≡ false = ground arith in rw (after, other, set_key-above n v ms h.1)

Below-suc :
    (n : ℕ) (v : MeMarketUpdate) (ms : QueuedMarketUpdates)
    → Below n ms
    → Below (suc n) (ms ++ ((n, v) ∷ []))
Below-suc n v [] h = (omega arith, tt)
Below-suc n v (e ∷ ms) h = (omega arith, Below-suc n v ms h.1)

abbrev queued : MarketDataConsumer → QueuedMarketUpdates → MarketDataConsumer
queued c ms = record c { snapshot_queued_msgs = ms }

queue-above :
    (net : Subscription) (n : ℕ) (u : MeMarketUpdate) (c : MarketDataConsumer)
    → c.in_recovery ≡ true
    → Below n c.snapshot_queued_msgs
    → receive_update net true (mdp_update n u) c
      ≡ ok (queued c (c.snapshot_queued_msgs ++ ((n, u) ∷ [])))
unfolding receive_update queue_message
queue-above net n u c h below = rw (
  h,
  has_key-above n c.snapshot_queued_msgs below,
  set_key-above n u c.snapshot_queued_msgs below,
)

-- In recovery, snapshot messages under consecutive numbers, larger than those queued, are all queued
-- behind them.
pub receive_snapshot :
    (net : Subscription) (n : ℕ) (us : List MeMarketUpdate) (c : MarketDataConsumer)
    → c.in_recovery ≡ true
    → Below n c.snapshot_queued_msgs
    → n + length us < 2 ^ 64
    → receive_updates net true (numbered mdp_update n us) c
      ≡ ok (record c { snapshot_queued_msgs = c.snapshot_queued_msgs ++ numbered entry n us })
unfolding receive_updates
receive_snapshot net n [] c h below small =
    ap (λ ms. ok (queued c ms)) (sym (append-nil c.snapshot_queued_msgs))
receive_snapshot net n (u ∷ us) c h below small =
    let next : inc64 n ≡ suc n = omega arith in
    let d = queued c (c.snapshot_queued_msgs ++ ((n, u) ∷ [])) in
    let below' : Below (suc n) d.snapshot_queued_msgs =
      Below-suc n u c.snapshot_queued_msgs below in
    rw (queue-above net n u c h below, next)
      (receive_snapshot net (suc n) us d h below' (omega arith)
        ∙ ap (λ ms. ok (queued c ms))
            (append_assoc c.snapshot_queued_msgs ((n, u) ∷ []) (numbered entry (suc n) us)))
