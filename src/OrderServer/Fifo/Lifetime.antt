-- ===== src/OrderServer/Fifo/Lifetime.antt =====
-- What requests the sequencer of ch06/exchange/order_server/fifo_sequencer.h takes.
use native.Mathlib.Decide.{dec_lt}
use building_low_latency_app.Prelude.{
  ℕ, suc, ◌+◌, ◌≤◌, ◌<◌, ◌≡◌, List, [], ◌∷◌, ◌++◌, arith, refl, ap₂, ◌∙◌, ==-of_ne, ==-refl, update,
}
use building_low_latency_app.Prelude.Lists.{tabulate-ext, tabulate-snoc}
use building_low_latency_app.Prelude.Result.{Result, ok, abort, fatal, ◌>>=◌}
use building_low_latency_app.Messages.{MeClientRequest}
use building_low_latency_app.OrderServer.Fifo.{
  RecvTimeClientRequest, FifoSequencer, me_max_pending_requests, add_client_request, pending, Sort,
  sequence_and_publish,
}
use building_low_latency_app.OrderServer.Fifo.Laws.{pending_size-publish}

abbrev pub added : ℕ → MeClientRequest → FifoSequencer → FifoSequencer
added t r f = record f {
  pending_client_requests =
      update f.pending_client_requests f.pending_size (record { recv_time = t; request = r });
  pending_size = suc f.pending_size;
}

pub add-eq :
    (t : ℕ) (r : MeClientRequest) (f : FifoSequencer)
    → f.pending_size < me_max_pending_requests
    → add_client_request t r f ≡ ok (added t r f)
unfolding add_client_request
add-eq t r f h = ground arith

add-full :
    (t : ℕ) (r : MeClientRequest) (f : FifoSequencer)
    → me_max_pending_requests ≤ f.pending_size
    → add_client_request t r f ≡ abort fatal
unfolding add_client_request
add-full t r f h = ground arith

-- What the server asks of the sequencer: to take a request, or to hand all over.
pub data Op : Type 0 where
  take_request : ℕ → MeClientRequest → Op
  hand_over : Op

unfoldable pub run : Sort → List Op → FifoSequencer → Result FifoSequencer
run std_sort [] f = ok f
run std_sort (take_request t r ∷ ops) f = add_client_request t r f >>= run std_sort ops
run std_sort (hand_over ∷ ops) f = run std_sort ops (sequence_and_publish std_sort f)

unfoldable pub requests_in : List Op → ℕ
requests_in [] = 0
requests_in (take_request t r ∷ ops) = suc (requests_in ops)
requests_in (hand_over ∷ ops) = requests_in ops

run-taken :
    (std_sort : Sort) (ops : List Op) (f : FifoSequencer)
    → f.pending_size + requests_in ops ≤ me_max_pending_requests
    → (g : FifoSequencer) × (run std_sort ops f ≡ ok g)
      × (g.pending_size ≡ f.pending_size + requests_in ops)
unfolding run requests_in
run-taken std_sort [] f few = (f, refl, omega arith)
run-taken std_sort (take_request t r ∷ ops) f few =
    let (g, rest, size) = run-taken std_sort ops (added t r f) (omega arith) in
    (g, rw (add-eq t r f (omega arith)) rest, omega arith)
run-taken std_sort (hand_over ∷ ops) f few =
    let same = pending_size-publish std_sort f in
    let (g, rest, size) =
      run-taken std_sort ops (sequence_and_publish std_sort f) (omega (arith, same)) in
    (g, rest, omega (arith, same))

run-full :
    (std_sort : Sort) (ops : List Op) (f : FifoSequencer)
    → f.pending_size ≤ me_max_pending_requests
    → me_max_pending_requests < f.pending_size + requests_in ops
    → run std_sort ops f ≡ abort fatal
unfolding run requests_in
run-full std_sort [] f h more = absurd (omega arith)
run-full std_sort (take_request t r ∷ ops) f h more =
    elim (dec_lt f.pending_size me_max_pending_requests) [
      | yes room ↦
          rw (add-eq t r f room) (run-full std_sort ops (added t r f) (omega arith) (omega arith))
      | no full ↦ rw (add-full t r f (omega arith))
    ]
run-full std_sort (hand_over ∷ ops) f h more =
    run-full std_sort ops (sequence_and_publish std_sort f)
      (omega (arith, pending_size-publish std_sort f))
      (omega (arith, pending_size-publish std_sort f))

-- The sequencer takes 1024 requests in its life, however often the requests are handed over in
-- between: as long as those that wait and those that come are no more, all of them are taken and none
-- is let go of, and one more ends the process.
pub run-exhausted :
    (std_sort : Sort) (ops : List Op) (f : FifoSequencer)
    → f.pending_size ≤ me_max_pending_requests
    → (f.pending_size + requests_in ops ≤ me_max_pending_requests
        → (g : FifoSequencer) × (run std_sort ops f ≡ ok g)
          × (g.pending_size ≡ f.pending_size + requests_in ops))
      × (me_max_pending_requests < f.pending_size + requests_in ops
          → run std_sort ops f ≡ abort fatal)
run-exhausted std_sort ops f h = (run-taken std_sort ops f, run-full std_sort ops f h)

pub pending-added :
    (t : ℕ) (r : MeClientRequest) (f : FifoSequencer)
    → pending (added t r f) ≡ pending f ++ (record { recv_time = t; request = r } ∷ [])
pending-added t r f =
    tabulate-snoc f.pending_size array
    ∙ ap₂ (λ xs x. xs ++ (x ∷ []))
        (tabulate-ext f.pending_size _ _ λ k hk. ground (arith, ==-of_ne f.pending_size k))
        (rw ==-refl)
  where
    array : ℕ → RecvTimeClientRequest
    array = update f.pending_client_requests f.pending_size (record { recv_time = t; request = r })

-- With fewer than 1024 requests waiting, `addClientRequest` puts the request behind them and leaves
-- the queue to the matching engine alone.
pub add_client_request_lem :
    (rx_time : ℕ) (request : MeClientRequest) (f : FifoSequencer)
    → f.pending_size < me_max_pending_requests
    → (g : FifoSequencer) × (add_client_request rx_time request f ≡ ok g)
      × (pending g ≡ pending f ++ (record { recv_time = rx_time; request = request } ∷ []))
      × (g.incoming_requests ≡ f.incoming_requests)
add_client_request_lem t r f h = (added t r f, add-eq t r f h, pending-added t r f, refl)
