-- ===== src/MemPool/Search.antt =====
-- The walk of `updateNextFreeIndex` round the store of ch06/common/mem_pool.h.
use building_low_latency_app.Prelude.{
  ℕ, zero, suc, ◌+◌, ◌-◌, ◌^◌, ◌≤◌, ◌<◌, ◌≡◌, ◌≢◌, true, false, if◌then◌else◌, ltb, arith, ap,
  Bool-cases, inl, inr, ◌∙◌,
}
use building_low_latency_app.Prelude.Result.{ok, abort, assert, assertion}
use building_low_latency_app.MemPool.{ObjectBlock, next_index, find_free}
use native.Mathlib.Decide.{dec_lt}

-- The place `d` steps after `start`, going round at `size`.
abbrev pub around : ℕ → ℕ → ℕ → ℕ
around size start d = if ltb (start + d) size then start + d else start + d - size

-- The way from `start` to `j`, going round at `size`.
abbrev pub steps : ℕ → ℕ → ℕ → ℕ
steps size start j = if ltb j start then j + size - start else j - start

pub steps-lt : (size start j : ℕ) → start < size → j < size → steps size start j < size
steps-lt size start j hs hj = ground arith

pub around-steps :
    (size start j : ℕ) → start < size → j < size → around size start (steps size start j) ≡ j
around-steps size start j hs hj = ground arith

around-next :
    (size start d : ℕ)
    → start < size
    → size < 2 ^ 64
    → d < size
    → next_index size (around size start d) ≡ around size start (suc d)
around-next size start d hs hw hd = ground arith

around-lt : (size start d : ℕ) → start < size → d < size → around size start d < size
around-lt size start d hs hd = ground arith

around-ne_start :
    (size start d : ℕ) → start < size → suc d < size → start ≢ around size start (suc d)
around-ne_start size start d hs hd = ground arith

around-eq_start :
    (size start d : ℕ) → start < size → suc d ≡ size → around size start (suc d) ≡ start
around-eq_start size start d hs hd = ground arith

module _ {T : Type 0} (store : ℕ → ObjectBlock T) (size start : ℕ) where
  find_free-here :
      (k i : ℕ) → i < size → (store i).is_free ≡ true → find_free (suc k) store size start i ≡ ok i
  unfolding find_free
  find_free-here k i hi free = ground arith

  find_free-step :
      (k i j : ℕ)
      → i < size
      → (store i).is_free ≡ false
      → next_index size i ≡ j
      → start ≢ j
      → find_free (suc k) store size start i ≡ find_free k store size start j
  unfolding find_free assert
  find_free-step k i j hi taken e ne = ground arith

  find_free-stop :
      (k i : ℕ)
      → i < size
      → (store i).is_free ≡ false
      → next_index size i ≡ start
      → find_free (suc k) store size start i ≡ abort assertion
  unfolding find_free assert
  find_free-stop k i hi taken e = ground arith

module _ {T : Type 0} (store : ℕ → ObjectBlock T) (size start : ℕ) (hs : start < size)
    (hw : size < 2 ^ 64) where
  -- The walk stands `d` steps from its start, and a free block lies `e` steps from it.
  pub find_free-ok :
      (k d e : ℕ)
      → size < k + d
      → d ≤ e
      → e < size
      → (store (around size start e)).is_free ≡ true
      → (r : ℕ) × (find_free k store size start (around size start d) ≡ ok r)
        × (r < size)
        × ((store r).is_free ≡ true)
  find_free-ok zero d e hk hd he free = absurd (omega arith)
  find_free-ok (suc k) d e hk hd he free = elim (Bool-cases (store (around size start d)).is_free) [
    | inl here ↦ (
      around size start d,
      find_free-here store size start k (around size start d)
          (around-lt size start d hs (omega arith)) here,
      around-lt size start d hs (omega arith),
      here,
    )
    | inr taken ↦
        let more : d < e =
          ground (arith, ap (λ t. (store (around size start t)).is_free) {x = d} {y = e}) in
        rw
          (find_free-step store size start k (around size start d) (around size start (suc d))
            (around-lt size start d hs (omega arith)) taken
            (around-next size start d hs hw (omega arith))
            (around-ne_start size start d hs (omega arith)))
          (find_free-ok k (suc d) e (omega arith) more he free)
  ]

  -- With no free block the walk comes back to its start and ends the process.
  pub find_free-full :
      (k d : ℕ)
      → size < k + d
      → d < size
      → ((i : ℕ) → i < size → (store i).is_free ≡ false)
      → find_free k store size start (around size start d) ≡ abort assertion
  find_free-full zero d hk hd full = absurd (omega arith)
  find_free-full (suc k) d hk hd full = elim (dec_lt (suc d) size) [
    | yes more ↦
        rw
          (find_free-step store size start k (around size start d) (around size start (suc d))
            (around-lt size start d hs hd) (full _ (around-lt size start d hs hd))
            (around-next size start d hs hw hd) (around-ne_start size start d hs more))
          (find_free-full k (suc d) (omega arith) more full)
    | no last ↦
        find_free-stop store size start k (around size start d) (around-lt size start d hs hd)
          (full _ (around-lt size start d hs hd))
          (around-next size start d hs hw hd ∙ around-eq_start size start d hs (omega arith))
  ]
