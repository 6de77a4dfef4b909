-- ===== src/MemPool/Tests.antt =====
-- Pools of three numbers, as `MemPool<T>` of ch06/common/mem_pool.h.
use building_low_latency_app.Prelude.{
  ℕ, ◌<◌, ◌≡◌, ◌≢◌, Bool, true, false, if◌then◌else◌, ltb, arith, refl,
}
use building_low_latency_app.Prelude.Result.{ok, abort, assertion}
use building_low_latency_app.MemPool.{ObjectBlock, MemPool, allocate, deallocate}
use building_low_latency_app.MemPool.Laws.{
  IsValid, Allocated, allocate_lem, allocate-full, deallocate-allocate,
}

abbrev block : Bool → ObjectBlock ℕ
block free = record { object = 0; is_free = free }

-- All blocks are free.
abbrev fresh : MemPool ℕ
fresh = record { store = λ _. block true; size = 3; next_free_index = 0 }

-- The blocks below 2 are in use.
abbrev nearly_full : MemPool ℕ
nearly_full = record {
  store = λ i. block (if ltb i 2 then false else true);
  size = 3;
  next_free_index = 2;
}

fresh-IsValid : IsValid fresh
fresh-IsValid = record { in_store = omega arith; small = omega arith; next_free = refl }

nearly_full-IsValid : IsValid nearly_full
nearly_full-IsValid = record { in_store = omega arith; small = omega arith; next_free = refl }

allocate_lem_example : (q : MemPool ℕ) × (allocate fresh 7 ≡ ok (0, q)) × Allocated fresh 7 0 q
allocate_lem_example = allocate_lem fresh 7 1 fresh-IsValid (omega arith) (omega arith) refl

others_taken : (j : ℕ) → j < 3 → j ≢ 2 → (nearly_full.store j).is_free ≡ false
others_taken j h ne = ground arith

allocate-full_example : allocate nearly_full 7 ≡ abort assertion
allocate-full_example = allocate-full nearly_full 7 nearly_full-IsValid others_taken

deallocate-allocate_example :
    (i : ℕ) × (q r : MemPool ℕ) × (allocate fresh 7 ≡ ok (i, q))
    × (deallocate q i ≡ ok r)
    × IsValid r
    × (r.size ≡ 3)
    × ((k : ℕ) → (r.store k).is_free ≡ (fresh.store k).is_free)
    × ((k : ℕ) → k ≢ i → r.store k ≡ fresh.store k)
deallocate-allocate_example =
    deallocate-allocate fresh 7 2 fresh-IsValid (omega arith) (omega arith) refl
