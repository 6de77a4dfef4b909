-- ===== src/MemPool/Laws.antt =====
-- What `allocate` and `deallocate` of ch06/common/mem_pool.h do to a valid pool.
use building_low_latency_app.Prelude.{
  ℕ, suc, ◌^◌, ◌≤◌, ◌<◌, ◌≡◌, ◌≢◌, true, false, arith, refl, ap, sym, ◌∙◌, ◌⊎◌, ==-refl, ==-of_ne,
  update,
}
use building_low_latency_app.Prelude.Result.{ok, abort, assert, assertion}
use building_low_latency_app.MemPool.{
  ObjectBlock, MemPool, make, find_free, update_next_free_index, allocate, deallocate,
}
use native.Mathlib.Decide.{ℕ_discrete}
use building_low_latency_app.MemPool.Search.{
  around, steps, steps-lt, around-steps, find_free-ok, find_free-full,
}

-- The cursor stands in the store, at a free block.
pub record IsValid {T : Type 0} (p : MemPool T) : Type 0 where
  pub in_store : p.next_free_index < p.size
  pub small : p.size < 2 ^ 64
  pub next_free : (p.store p.next_free_index).is_free ≡ true

-- `q` is `p` with `value` in the block `i`, which was free.
pub record Allocated {T : Type 0} (p : MemPool T) (value : T) (i : ℕ) (q : MemPool T) : Type 0 where
  pub valid : IsValid q
  pub same_size : q.size ≡ p.size
  pub in_store : i < p.size
  pub was_free : (p.store i).is_free ≡ true
  pub object : (q.store i).object ≡ value
  pub in_use : (q.store i).is_free ≡ false
  pub others : (j : ℕ) → j ≢ i → q.store j ≡ p.store j

-- `q` is `p` with the block `i`, which was in use, given back. The object is still there.
pub record Deallocated {T : Type 0} (p : MemPool T) (i : ℕ) (q : MemPool T) : Type 0 where
  pub valid : IsValid q
  pub same_size : q.size ≡ p.size
  pub same_cursor : q.next_free_index ≡ p.next_free_index
  pub object : (q.store i).object ≡ (p.store i).object
  pub free : (q.store i).is_free ≡ true
  pub others : (j : ℕ) → j ≢ i → q.store j ≡ p.store j

module _ {T : Type 0} where
  abbrev filled : MemPool T → T → ℕ → ObjectBlock T
  filled p value = update p.store p.next_free_index (record { object = value; is_free = false })

  abbrev moved : MemPool T → T → ℕ → MemPool T
  moved p value r = record p { store = filled p value; next_free_index = r }

  filled-others :
      (p : MemPool T) (value : T) (j : ℕ) → j ≢ p.next_free_index → filled p value j ≡ p.store j
  filled-others p value j ne = ground (arith, ==-of_ne p.next_free_index j)

  around-zero : (p : MemPool T) → IsValid p → around p.size p.next_free_index 0 ≡ p.next_free_index
  around-zero p v = ground arith

  allocate-eq :
      (p : MemPool T) (value : T)
      → IsValid p
      → {r : ℕ}
      → find_free (suc p.size) (filled p value) p.size p.next_free_index p.next_free_index ≡ ok r
      → allocate p value ≡ ok (p.next_free_index, moved p value r)
  unfolding allocate update_next_free_index assert
  allocate-eq p value v e = ground arith

  allocate-abort :
      (p : MemPool T) (value : T)
      → IsValid p
      → find_free (suc p.size) (filled p value) p.size p.next_free_index p.next_free_index
        ≡ abort assertion
      → allocate p value ≡ abort assertion
  unfolding allocate update_next_free_index assert
  allocate-abort p value v e = ground arith

  moved-Allocated :
      (p : MemPool T) (value : T) (r : ℕ)
      → IsValid p
      → r < p.size
      → (filled p value r).is_free ≡ true
      → Allocated p value p.next_free_index (moved p value r)
  moved-Allocated p value r v hr free = record {
    valid = record { in_store = hr; small = v.small; next_free = free };
    same_size = refl;
    in_store = v.in_store;
    was_free = v.next_free;
    object = rw ==-refl;
    in_use = rw ==-refl;
    others = λ j ne. filled-others p value j ne;
  }

  -- In a valid pool with a second free block, `allocate` hands out the block under the cursor,
  -- which was free, writes the object there, changes no other block, and leaves the cursor at a
  -- free block.
  pub allocate_lem :
      (p : MemPool T) (value : T) (j : ℕ)
      → IsValid p
      → j < p.size
      → j ≢ p.next_free_index
      → (p.store j).is_free ≡ true
      → (q : MemPool T) × (allocate p value ≡ ok (p.next_free_index, q))
        × Allocated p value p.next_free_index q
  allocate_lem p value j v hj ne free =
      let start = p.next_free_index in
      let there : (filled p value (around p.size start (steps p.size start j))).is_free ≡ true =
        rw (around-steps p.size start j v.in_store hj, filled-others p value j ne) free in
      let (r, e, hr, found) =
        find_free-ok (filled p value) p.size start v.in_store v.small (suc p.size) 0
          (steps p.size start j) (omega arith) (omega arith) (steps-lt p.size start j v.in_store hj)
          there in
      (
        moved p value r,
        allocate-eq p value v (rw (around-zero p v) at e),
        moved-Allocated p value r v hr found,
      )

  -- In a valid pool with no second free block `allocate` ends the process: a pool of n blocks holds
  -- n - 1 objects.
  pub allocate-full :
      (p : MemPool T) (value : T)
      → IsValid p
      → ((j : ℕ) → j < p.size → j ≢ p.next_free_index → (p.store j).is_free ≡ false)
      → allocate p value ≡ abort assertion
  allocate-full p value v full = allocate-abort p value v (
      rw (around-zero p v) at (
        find_free-full (filled p value) p.size p.next_free_index v.in_store v.small (suc p.size) 0
          (omega arith) (omega arith) taken))
    where
      taken : (i : ℕ) → i < p.size → (filled p value i).is_free ≡ false
      taken i hi = ground (arith, full i)

  -- A fresh pool, of a number of blocks from 1 to 2^64 - 1, is valid, and every block is free.
  pub make-IsValid :
      (blank : T) (n : ℕ)
      → 0 < n
      → n < 2 ^ 64
      → (p : MemPool T) × (make blank n ≡ ok p) × IsValid p × ((i : ℕ) → (p.store i).is_free ≡ true)
  unfolding make
  make-IsValid blank n pos small = (
    record {
      store = λ _. record { object = blank; is_free = true };
      size = n;
      next_free_index = 0;
    },
    ground arith,
    record { in_store = pos; small = small; next_free = refl },
    λ i. refl,
  )

  -- In a valid pool, `deallocate` of a block in use frees that block and nothing else.
  pub deallocate_lem :
      (p : MemPool T) (i : ℕ)
      → IsValid p
      → i < p.size
      → (p.store i).is_free ≡ false
      → (q : MemPool T) × (deallocate p i ≡ ok q) × Deallocated p i q
  unfolding deallocate assert
  deallocate_lem p i v hi used = (
    record p { store = update p.store i (record (p.store i) { is_free = true }) },
    ground arith,
    record {
      valid = record { in_store = v.in_store; small = v.small; next_free = ground arith };
      same_size = refl;
      same_cursor = refl;
      object = rw ==-refl;
      free = rw ==-refl;
      others = λ j ne. ground (arith, ==-of_ne i j);
    },
  )

  -- A second `deallocate` of an object, and one of a pointer from elsewhere, end the process.
  pub deallocate-abort :
      (p : MemPool T) (i : ℕ)
      → p.size ≤ i ⊎ ((p.store i).is_free ≡ true)
      → deallocate p i ≡ abort assertion
  unfolding deallocate assert
  deallocate-abort p i h = ground arith

  Deallocated-back :
      (p q r : MemPool T) (value : T) (i : ℕ)
      → Allocated p value i q
      → Deallocated q i r
      → (j : ℕ) → (r.store j).is_free ≡ (p.store j).is_free
  Deallocated-back p q r value i a d j = elim (ℕ_discrete j i) [
    | yes e ↦ rw e (d.free ∙ sym a.was_free)
    | no ne ↦ ap (λ (b : ObjectBlock T). b.is_free) (d.others j ne ∙ a.others j ne)
  ]

  -- In a valid pool with a second free block, the block that `allocate` hands out can be given back:
  -- the pool is valid then, of the same size, the same blocks are free as before, and every other
  -- block holds what it held.
  pub deallocate-allocate :
      (p : MemPool T) (value : T) (j : ℕ)
      → IsValid p
      → j < p.size
      → j ≢ p.next_free_index
      → (p.store j).is_free ≡ true
      → (i : ℕ) × (q r : MemPool T) × (allocate p value ≡ ok (i, q))
        × (deallocate q i ≡ ok r)
        × IsValid r
        × (r.size ≡ p.size)
        × ((k : ℕ) → (r.store k).is_free ≡ (p.store k).is_free)
        × ((k : ℕ) → k ≢ i → r.store k ≡ p.store k)
  deallocate-allocate p value j v hj ne free =
      let i = p.next_free_index in
      let (q, run, a) = allocate_lem p value j v hj ne free in
      let (r, e, d) = deallocate_lem q i a.valid (rw a.same_size a.in_store) a.in_use in
      (
        i,
        q,
        r,
        run,
        e,
        d.valid,
        d.same_size ∙ a.same_size,
        Deallocated-back p q r value i a d,
        λ k other. d.others k other ∙ a.others k other,
      )
