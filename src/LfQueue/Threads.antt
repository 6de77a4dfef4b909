-- ===== src/LfQueue/Threads.antt =====
-- The writing and the reading thread of a queue of ch06/common/lf_queue.h, interleaved between their
-- accesses to the atomic indices.
pub mod Order
pub mod Reading
pub mod Runs
mod Tests
use building_low_latency_app.Prelude.{
  ℕ, ◌%◌, ◌<◌, ◌≡◌, List, [], ◌∷◌, ◌++◌, not, ◌==◌, if◌then◌else◌, inc64, dec64,
}
use building_low_latency_app.Prelude.Result.{Result, ok, ◌>>=◌, ◌>>◌, assert}
use building_low_latency_app.LfQueue.{LfQueue, size, write_next}

-- The writer has nothing to do; has stored the value; has moved the index on, too, and has to count.
pub data Writer (T : Type 0) : Type 0 where
  writer_idle : Writer T
  stored : T → Writer T
  write_moved : T → Writer T

-- The reader has nothing to do; looks at the element that `getNextToRead` gave; has moved the index on,
-- and has to count.
pub data Reader (T : Type 0) : Type 0 where
  reader_idle : Reader T
  looking : T → Reader T
  read_moved : Reader T

-- `sent` is what the writer has counted, `received` what the reader has let go of.
pub record Threads (T : Type 0) : Type 0 where
  pub queue : LfQueue T
  pub writer : Writer T
  pub reader : Reader T
  pub sent : List T
  pub received : List T

-- Which thread runs next: the writer begins with a value, or goes on; the reader begins or goes on.
pub data Event (T : Type 0) : Type 0 where
  put : T → Event T
  write_on read_on : Event T

module _ {T : Type 0} where
  -- `*getNextToWriteTo() = value`
  unfoldable pub store_value : T → Threads T → Threads T
  unfolding write_next
  store_value v s = record s { queue = write_next v s.queue; writer = stored v }

  -- The first statement of `updateWriteIndex`.
  unfoldable pub move_write : T → Threads T → Threads T
  move_write v s = record s {
    queue = record (s.queue) {
      next_write_index = inc64 s.queue.next_write_index % s.queue.num_elems;
    };
    writer = write_moved v;
  }

  -- The second one.
  unfoldable pub count_write : T → Threads T → Threads T
  count_write v s = record s {
    queue = record (s.queue) { num_elements = inc64 s.queue.num_elements };
    writer = writer_idle;
    sent = s.sent ++ (v ∷ []);
  }

  -- `getNextToRead`
  unfoldable pub look : Threads T → Threads T
  unfolding size
  look s =
      if size s.queue == 0
      then s
      else record s { reader = looking (s.queue.store s.queue.next_read_index) }

  -- The first two statements of `updateReadIndex`.
  unfoldable pub move_read : T → Threads T → Result (Threads T)
  move_read v s =
      assert (not (s.queue.num_elements == 0))
      >> ok (record s {
        queue = record (s.queue) {
          next_read_index = inc64 s.queue.next_read_index % s.queue.num_elems;
        };
        reader = read_moved;
        received = s.received ++ (v ∷ []);
      })

  -- The third one.
  unfoldable pub count_read : Threads T → Threads T
  count_read s = record s {
    queue = record (s.queue) { num_elements = dec64 s.queue.num_elements };
    reader = reader_idle;
  }

  unfoldable pub step_at : Event T → Writer T → Reader T → Threads T → Result (Threads T)
  step_at (put v) writer_idle r s = ok (store_value v s)
  step_at (put v) (stored x) r s = ok s
  step_at (put v) (write_moved x) r s = ok s
  step_at write_on writer_idle r s = ok s
  step_at write_on (stored v) r s = ok (move_write v s)
  step_at write_on (write_moved v) r s = ok (count_write v s)
  step_at read_on w reader_idle s = ok (look s)
  step_at read_on w (looking v) s = move_read v s
  step_at read_on w read_moved s = ok (count_read s)

  -- A thread runs up to its next access to an index.
  unfoldable pub step : Event T → Threads T → Result (Threads T)
  unfolding step_at
  step e s = step_at e s.writer s.reader s

  -- An interleaving.
  unfoldable pub run : List (Event T) → Threads T → Result (Threads T)
  unfolding step
  run [] s = ok s
  run (e ∷ es) s = step e s >>= run es

  -- The writer begins only while fewer elements are counted than the queue has places. The queue does
  -- not see to that.
  abbrev pub HasPlace : Event T → Threads T → Type 0
  HasPlace (put v) s = size s.queue < s.queue.num_elems
  HasPlace write_on s = Unit
  HasPlace read_on s = Unit

  unfoldable pub KeepsPlaces : List (Event T) → Threads T → Type 0
  KeepsPlaces [] s = Unit
  KeepsPlaces (e ∷ es) s = HasPlace e s × ((t : Threads T) → step e s ≡ ok t → KeepsPlaces es t)
