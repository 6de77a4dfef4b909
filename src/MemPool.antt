-- ===== src/MemPool.antt =====
-- ch06/common/mem_pool.h: a pool of pre-allocated objects. A pointer into the pool is the index of
-- its block. The class of the objects is a parameter.
pub mod Search
pub mod Laws
mod Tests
use building_low_latency_app.Prelude.{
  ℕ, zero, suc, Bool, true, false, not, if◌then◌else◌, ltb, ◌==◌, inc64, update,
}
use building_low_latency_app.Prelude.Result.{
  Result, ok, abort, ◌>>=◌, ◌>>◌, assert, at, undefined, out_of_fuel,
}

module _ (T : Type 0) where
  pub record ObjectBlock : Type 0 where
    pub object : T
    pub is_free : Bool

  -- `size` is `store_.size()`.
  pub record MemPool : Type 0 where
    pub store : ℕ → ObjectBlock
    pub size : ℕ
    pub next_free_index : ℕ

-- `++next_free_index_`, back to 0 at the end of the store.
abbrev pub next_index : ℕ → ℕ → ℕ
next_index size i = if inc64 i == size then 0 else inc64 i

module _ {T : Type 0} where
  -- The constructor, given the value `T()`. It reads `store_[0]`.
  unfoldable pub make : T → ℕ → Result (MemPool T)
  make blank num_elems =
      if num_elems == 0
      then abort undefined
      else ok (record {
        store = λ _. record { object = blank; is_free = true };
        size = num_elems;
        next_free_index = 0;
      })

  -- The loop of `updateNextFreeIndex`: `initial` is `initial_free_index`, `i` is `next_free_index_`.
  unfoldable pub find_free : ℕ → (ℕ → ObjectBlock T) → ℕ → ℕ → ℕ → Result ℕ
  find_free zero store size initial i = abort out_of_fuel
  find_free (suc fuel) store size initial i =
      let rest = find_free fuel store size initial (next_index size i) in
      do
        b ← at size store i
        if b.is_free then ok i else assert (not (initial == next_index size i)) >> rest

  -- `updateNextFreeIndex`. A walk round the store takes at most `size` rounds.
  unfoldable pub update_next_free_index : MemPool T → Result (MemPool T)
  unfolding find_free
  update_next_free_index p = do
    i ← find_free (suc p.size) p.store p.size p.next_free_index p.next_free_index
    ok (record p { next_free_index = i })

  -- `allocate`: `value` is `T(args...)`. It returns the new object's index.
  unfoldable pub allocate : MemPool T → T → Result (ℕ × MemPool T)
  unfolding update_next_free_index
  allocate p value =
      let i = p.next_free_index in
      let filled = update p.store i (record { object = value; is_free = false }) in
      if not (ltb i p.size) then abort undefined else do
        assert (p.store i).is_free
        q ← update_next_free_index (record p { store = filled })
        ok (i, q)

  -- `deallocate`. The object stays in its block.
  unfoldable pub deallocate : MemPool T → ℕ → Result (MemPool T)
  deallocate p i = do
    assert (ltb i p.size)
    assert (not (p.store i).is_free)
    ok (record p { store = update p.store i (record (p.store i) { is_free = true }) })
