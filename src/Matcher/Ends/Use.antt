-- ===== src/Matcher/Ends/Use.antt =====
-- How many blocks of a pool (ch06/common/mem_pool.h) are in use.
use building_low_latency_app.Prelude.{
  ℕ, zero, suc, ◌+◌, ◌≤◌, ◌<◌, ◌≡◌, ◌⊎◌, inl, inr, true, false, if◌then◌else◌, ltb, arith, refl,
  update, Bool-cases,
}
use native.Mathlib.Decide.{ℕ_discrete}
use building_low_latency_app.Prelude.Result.{ok, abort, assert, assertion}
use building_low_latency_app.MemPool
use building_low_latency_app.MemPool.{MemPool, ObjectBlock}

module _ {T : Type 0} where
  -- The blocks below `n` that are in use.
  pub in_use : (ℕ → ObjectBlock T) → ℕ → ℕ
  in_use store zero = 0
  in_use store (suc n) = (if (store n).is_free then 0 else 1) + in_use store n

  pub in_use-le : (store : ℕ → ObjectBlock T) (n : ℕ) → in_use store n ≤ n
  unfolding in_use
  in_use-le store zero = omega arith
  in_use-le store (suc n) = ground (arith, in_use-le store n)

  pub in_use-ext :
      (s t : ℕ → ObjectBlock T) (n : ℕ)
      → ((i : ℕ) → (s i).is_free ≡ (t i).is_free)
      → in_use s n ≡ in_use t n
  unfolding in_use
  in_use-ext s t zero h = refl
  in_use-ext s t (suc n) h = rw (h n, in_use-ext s t n h)

  in_use-above :
      (s : ℕ → ObjectBlock T) (i n : ℕ) (b : ObjectBlock T)
      → n ≤ i
      → in_use (update s i b) n ≡ in_use s n
  unfolding in_use
  in_use-above s i zero b h = refl
  in_use-above s i (suc n) b h = ground (arith, in_use-above s i n b)

  -- Giving back a block in use makes the number smaller by one.
  pub in_use-free :
      (s : ℕ → ObjectBlock T) (i n : ℕ) (b : ObjectBlock T)
      → i < n
      → (s i).is_free ≡ false
      → b.is_free ≡ true
      → suc (in_use (update s i b) n) ≡ in_use s n
  unfolding in_use
  in_use-free s i zero b h used free = elim h [ ]
  in_use-free s i (suc n) b h used free = elim (ℕ_discrete i n) [
    | yes e ↦ ground (arith, in_use-above s i n b)
    | no ne ↦ ground (arith, in_use-free s i n b)
  ]

  -- A `deallocate` that does not end the process leaves one block less in use.
  pub in_use-deallocate :
      (p : MemPool T) (i : ℕ)
      → (MemPool.deallocate p i ≡ abort assertion)
        ⊎ ((q : MemPool T) × (MemPool.deallocate p i ≡ ok q)
            × (q.size ≡ p.size)
            × (suc (in_use q.store q.size) ≡ in_use p.store p.size))
  unfolding MemPool.deallocate assert
  in_use-deallocate p i = elim (Bool-cases (ltb i p.size)) [
    | inr outside ↦ inl (rw outside)
    | inl inside ↦ elim (Bool-cases (p.store i).is_free) [
      | inl free ↦ inl (rw (inside, free))
      | inr used ↦
          let b : ObjectBlock T = record (p.store i) { is_free = true } in
          inr (
            record p { store = update p.store i b },
            rw (inside, used),
            refl,
            in_use-free p.store i p.size b (ground arith) used refl,
          )
    ]
  ]
