-- ===== src/LfQueue/Threads/Runs.antt =====
-- Any interleaving of the two threads of a queue of ch06/common/lf_queue.h.
use building_low_latency_app.Prelude.{◌≡◌, List, [], ◌∷◌, arith, refl}
use building_low_latency_app.Prelude.Result.{ok}
use building_low_latency_app.LfQueue.{LfQueue}
use building_low_latency_app.LfQueue.Threads.{
  Writer, Reader, Threads, Event, writer_idle, stored, write_moved, reader_idle, looking,
  read_moved, put, write_on, read_on, step_at, step, run, HasPlace, KeepsPlaces,
}
use building_low_latency_app.LfQueue.Threads.Order.{
  IsOrdered, at, store_value-IsOrdered, move_write-IsOrdered, count_write-IsOrdered,
}
use building_low_latency_app.LfQueue.Threads.Reading.{
  look-IsOrdered, moved_read, moved_read-IsOrdered, move_read-eq, count_read-IsOrdered,
}

module _ {T : Type 0} where
  step_at-IsOrdered :
      (e : Event T) (w : Writer T) (r : Reader T) (q : LfQueue T) (sent received : List T)
      → IsOrdered (at q w r sent received)
      → HasPlace e (at q w r sent received)
      → (t : Threads T) × (step_at e w r (at q w r sent received) ≡ ok t) × IsOrdered t
  unfolding step_at
  step_at-IsOrdered (put v) writer_idle r q sent received i place =
      (_, refl, store_value-IsOrdered q r sent received v i place)
  step_at-IsOrdered (put v) (stored x) r q sent received i place = (_, refl, i)
  step_at-IsOrdered (put v) (write_moved x) r q sent received i place = (_, refl, i)
  step_at-IsOrdered write_on writer_idle r q sent received i place = (_, refl, i)
  step_at-IsOrdered write_on (stored v) r q sent received i place =
      (_, refl, move_write-IsOrdered q r sent received v i)
  step_at-IsOrdered write_on (write_moved v) r q sent received i place =
      (_, refl, count_write-IsOrdered q r sent received v i)
  step_at-IsOrdered read_on w reader_idle q sent received i place =
      (_, refl, look-IsOrdered q w sent received i)
  step_at-IsOrdered read_on w (looking v) q sent received i place = (
    moved_read q w sent received v,
    move_read-eq q w sent received v (omega (arith, i.counted, (i.viewed v refl).0)),
    moved_read-IsOrdered q w sent received v i,
  )
  step_at-IsOrdered read_on w read_moved q sent received i place =
      (_, refl, count_read-IsOrdered q w sent received i)

  step-IsOrdered :
      (e : Event T) (s : Threads T)
      → IsOrdered s
      → HasPlace e s
      → (t : Threads T) × (step e s ≡ ok t) × IsOrdered t
  unfolding step
  step-IsOrdered e s i place =
      step_at-IsOrdered e s.writer s.reader s.queue s.sent s.received i place

  -- Where the threads' accesses fit together, and the writer begins only while fewer elements are
  -- counted than the queue has places, every interleaving of the two returns: the assertion of
  -- `updateReadIndex` does not fail. In the state it leaves, what the reader has let go of is, in
  -- order, the first part of what the writer has counted, the rest waits in the queue, and an element
  -- that the reader looks at is still the first of those waiting.
  pub run-IsOrdered :
      (es : List (Event T)) (s : Threads T)
      → IsOrdered s
      → KeepsPlaces es s
      → (t : Threads T) × (run es s ≡ ok t) × IsOrdered t
  unfolding run KeepsPlaces
  run-IsOrdered [] s i keeps = (s, refl, i)
  run-IsOrdered (e ∷ es) s i (place, keeps) =
      let (u, here, j) = step-IsOrdered e s i place in
      let (t, rest, k) = run-IsOrdered es u j (keeps u here) in (t, rw here rest, k)
