-- ===== src/LfQueue/Threads/Tests.antt =====
-- A run of the two threads of a queue of two places (ch06/common/lf_queue.h).
use building_low_latency_app.Prelude.{ℕ, ◌≡◌, List, [], ◌∷◌, arith, refl}
use building_low_latency_app.Prelude.Result.{ok, assert, ◌>>=◌}
use building_low_latency_app.LfQueue.{size, write_next}
use building_low_latency_app.LfQueue.Threads.{
  Threads, Event, writer_idle, reader_idle, put, write_on, read_on, store_value, move_write,
  count_write, look, move_read, count_read, step_at, step, run, KeepsPlaces,
}
use building_low_latency_app.LfQueue.Threads.Order.{IsOrdered, none-some}
use building_low_latency_app.LfQueue.Threads.Runs.{run-IsOrdered}

abbrev start : Threads ℕ
start = record {
  queue = record {
    store = λ _. 0;
    num_elems = 2;
    next_write_index = 0;
    next_read_index = 0;
    num_elements = 0;
  };
  writer = writer_idle;
  reader = reader_idle;
  sent = [];
  received = [];
}

start-IsOrdered : IsOrdered start
start-IsOrdered = record {
  count = 0;
  small = omega arith;
  read_in = omega arith;
  counted = refl;
  room = omega arith;
  write_at = refl;
  order = refl;
  placed = λ v e. none-some v e;
  viewed = λ v e. none-some v e;
}

-- The reader looks before the writer has counted, and finds nothing; then both move on in turn.
abbrev events : List (Event ℕ)
events = put 7 ∷ write_on ∷ read_on ∷ write_on ∷ read_on ∷ write_on ∷ read_on ∷ read_on ∷ []

events-KeepsPlaces : KeepsPlaces events start
unfolding KeepsPlaces size
events-KeepsPlaces = (
  omega arith,
  λ t₁ _. (
    tt,
    λ t₂ _. (tt, λ t₃ _. (tt, λ t₄ _. (tt, λ t₅ _. (tt, λ t₆ _. (tt, λ t₇ _. (tt, λ t₈ _. tt)))))),
  ),
)

run-IsOrdered_example : (t : Threads ℕ) × (run events start ≡ ok t) × IsOrdered t
run-IsOrdered_example = run-IsOrdered events start start-IsOrdered events-KeepsPlaces

received_one : (run events start >>= λ t. ok t.received) ≡ ok (7 ∷ [])
unfolding run step step_at store_value move_write count_write look move_read count_read write_next
    size assert
received_one = refl
