-- ===== src/OrderServer/Fifo.antt =====
-- ch06/exchange/order_server/fifo_sequencer.h: requests wait until all sockets of a round are read,
-- and go to the matching engine in the order of their arrival.
pub mod Laws
pub mod Lifetime
use building_low_latency_app.Prelude.{
  ℕ, zero, suc, ◌+◌, List, [], ◌∷◌, if◌then◌else◌, leb, ◌==◌, inc64, update, map,
}
use building_low_latency_app.Prelude.Lists.{tabulate}
use building_low_latency_app.Prelude.Result.{Result, ok, abort, fatal}
use building_low_latency_app.Messages.{MeClientRequest}
use building_low_latency_app.LfQueue.{LfQueue, push}

abbrev pub me_max_pending_requests : ℕ
me_max_pending_requests = 1024

-- `Nanos` is signed; times are never before 1970 here.
pub record RecvTimeClientRequest : Type 0 where
  pub recv_time : ℕ
  pub request : MeClientRequest

pub record FifoSequencer : Type 0 where
  pub incoming_requests : LfQueue MeClientRequest
  pub pending_client_requests : ℕ → RecvTimeClientRequest
  pub pending_size : ℕ

-- `addClientRequest`
unfoldable pub add_client_request : ℕ → MeClientRequest → FifoSequencer → Result FifoSequencer
add_client_request rx_time request f =
    if leb me_max_pending_requests f.pending_size
    then abort fatal
    else ok (record f {
      pending_client_requests =
          update f.pending_client_requests f.pending_size
            (record { recv_time = rx_time; request = request });
      pending_size = inc64 f.pending_size;
    })

-- The requests that wait, in the array's order.
abbrev pub pending : FifoSequencer → List RecvTimeClientRequest
pending f = tabulate f.pending_size f.pending_client_requests

-- The array with its first entries replaced.
unfoldable pub overwrite : {A : Type 0} → List A → (ℕ → A) → ℕ → A
overwrite [] f i = f i
overwrite (x ∷ xs) f zero = x
overwrite (x ∷ xs) f (suc i) = overwrite xs (λ k. f (suc k)) i

-- The loop of `sequenceAndPublish` over the entries from `i` on, `n` of them.
-- The range check of `at(i)` is left out: `i` is below the pending size, which `addClientRequest`, the only
-- code that changes it, never lets exceed the array's length.
unfoldable pub publish_from :
    ℕ → ℕ → (ℕ → RecvTimeClientRequest) → LfQueue MeClientRequest → LfQueue MeClientRequest
publish_from zero i array q = q
publish_from (suc n) i array q = publish_from n (suc i) array (push (array i).request q)

-- `std::sort` with the comparison of `RecvTimeClientRequest::operator<`.
abbrev pub Sort : Type 0
Sort = List RecvTimeClientRequest → List RecvTimeClientRequest

-- `sequenceAndPublish`
unfoldable pub sequence_and_publish : Sort → FifoSequencer → FifoSequencer
sequence_and_publish std_sort f =
    if f.pending_size == 0
    then f
    else let sorted = overwrite (std_sort (pending f)) f.pending_client_requests in
      record f {
        pending_client_requests = sorted;
        incoming_requests = publish_from f.pending_size 0 sorted f.incoming_requests;
      }
