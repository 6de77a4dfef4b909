-- ===== src/LfQueue/Tests.antt =====
-- Queues of two numbers, as `LFQueue<T>` of ch06/common/lf_queue.h.
use building_low_latency_app.Prelude.{ℕ, suc, ◌<◌, ◌≡◌, some, [], ◌∷◌, ◌++◌, arith, refl}
use building_low_latency_app.Prelude.Result.{ok}
use building_low_latency_app.LfQueue.{
  LfQueue, make, size, push, get_next_to_read, update_read_index,
}
use building_low_latency_app.LfQueue.Refine.{
  IsValid, contents, make-contents, push_lem, push-overrun, update_read_index_lem,
}

-- Two places; one is taken, and the reader is at the second.
abbrev one_waits : LfQueue ℕ
one_waits = record {
  store = λ i. i;
  num_elems = 2;
  next_write_index = 0;
  next_read_index = 1;
  num_elements = 1;
}

one_waits-IsValid : IsValid one_waits
one_waits-IsValid = record {
  small = omega arith;
  read_in = omega arith;
  within = omega arith;
  write_at = refl;
}

abbrev full : LfQueue ℕ
full = record {
  store = λ i. i;
  num_elems = 2;
  next_write_index = 1;
  next_read_index = 1;
  num_elements = 2;
}

full-IsValid : IsValid full
full-IsValid = record {
  small = omega arith;
  read_in = omega arith;
  within = omega arith;
  write_at = refl;
}

abbrev new : LfQueue ℕ
new = make 0 2

make-contents_example : IsValid new × (contents new ≡ [])
make-contents_example = make-contents 0 2 (omega arith) (omega arith)

push_lem_example :
    IsValid (push 9 one_waits)
    × (contents (push 9 one_waits) ≡ contents one_waits ++ (9 ∷ []))
    × ((push 9 one_waits).num_elems ≡ 2)
    × (size (push 9 one_waits) ≡ suc (size one_waits))
push_lem_example = push_lem one_waits 9 one_waits-IsValid (omega arith)

push-overrun_example :
    ((push 9 full).store 1 ≡ 9)
    × (size (push 9 full) ≡ 3)
    × (get_next_to_read (push 9 full) ≡ some 1)
push-overrun_example = push-overrun full 9 full-IsValid refl

one_waits-size : 0 < size one_waits
unfolding size
one_waits-size = omega arith

update_read_index_lem_example :
    (r : LfQueue ℕ) × (get_next_to_read one_waits ≡ some 1)
    × (update_read_index one_waits ≡ ok r)
    × (contents one_waits ≡ 1 ∷ contents r)
    × IsValid r
    × (r.num_elems ≡ 2)
update_read_index_lem_example = update_read_index_lem one_waits one_waits-IsValid one_waits-size
