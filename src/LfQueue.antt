-- ===== src/LfQueue.antt =====
-- ch06/common/lf_queue.h: the queue between one writing and one reading thread. A pointer into
-- `store_` is an index. The queue never checks whether it is full.
pub mod Refine
pub mod Threads
mod Tests
use building_low_latency_app.Prelude.{
  ℕ, ◌%◌, Option, none, some, not, if◌then◌else◌, ◌==◌, inc64, dec64, update,
}
use building_low_latency_app.Prelude.Result.{Result, ok, ◌>>=◌, ◌>>◌, assert}

-- `num_elems` is `store_.size()`.
pub record LfQueue (T : Type 0) : Type 0 where
  pub store : ℕ → T
  pub num_elems : ℕ
  pub next_write_index : ℕ
  pub next_read_index : ℕ
  pub num_elements : ℕ

module _ {T : Type 0} where
  -- The constructor, given `T()`.
  unfoldable pub make : T → ℕ → LfQueue T
  make blank n = record {
    store = λ _. blank;
    num_elems = n;
    next_write_index = 0;
    next_read_index = 0;
    num_elements = 0;
  }

  -- `size`
  unfoldable pub size : LfQueue T → ℕ
  size q = q.num_elements

  -- `*getNextToWriteTo() = value`
  unfoldable pub write_next : T → LfQueue T → LfQueue T
  write_next value q = record q { store = update q.store q.next_write_index value }

  -- `updateWriteIndex`
  unfoldable pub update_write_index : LfQueue T → LfQueue T
  update_write_index q = record q {
    next_write_index = inc64 q.next_write_index % q.num_elems;
    num_elements = inc64 q.num_elements;
  }

  -- `getNextToRead`: where the next element stands, or null.
  unfoldable pub get_next_to_read : LfQueue T → Option ℕ
  unfolding size
  get_next_to_read q = if size q == 0 then none else some q.next_read_index

  -- `updateReadIndex`
  unfoldable pub update_read_index : LfQueue T → Result (LfQueue T)
  update_read_index q = do
    assert (not (q.num_elements == 0))
    ok (record q {
      next_read_index = inc64 q.next_read_index % q.num_elems;
      num_elements = dec64 q.num_elements;
    })

  -- The three lines by which every writer puts an element.
  unfoldable pub push : T → LfQueue T → LfQueue T
  unfolding write_next update_write_index
  push value q = update_write_index (write_next value q)
