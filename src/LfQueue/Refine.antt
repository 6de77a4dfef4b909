-- ===== src/LfQueue/Refine.antt =====
-- A queue of ch06/common/lf_queue.h that one thread uses at a time is the list of its elements.
use building_low_latency_app.Prelude.{
  ℕ, suc, ◌+◌, ◌-◌, ◌%◌, ◌^◌, ◌≤◌, ◌<◌, ◌≡◌, ◌≢◌, none, some, List, [], ◌∷◌, ◌++◌, if◌then◌else◌,
  ltb, inc64, arith, refl, ap, ap₂, sym, ◌∙◌, update, ==-of_ne, ==-refl,
}
use building_low_latency_app.Prelude.Lists.{
  length, length-tabulate, tabulate, tabulate-cons, tabulate-ext, tabulate-snoc,
}
use building_low_latency_app.Prelude.Result.{ok, abort, assert, assertion}
use mathlib.Core.List.{append-nil, append_assoc}
use native.Mathlib.Decide.{dec_lt}
use native.Mathlib.Nat.{mod-eq_of_lt, mod_self}
use building_low_latency_app.LfQueue.{
  LfQueue, make, size, get_next_to_read, update_read_index, push,
}

-- The place `k` after `i`, going round at `n`.
abbrev pub wrap : ℕ → ℕ → ℕ
wrap n i = if ltb i n then i else i - n

pub inc64_lem : (i : ℕ) → suc i < 2 ^ 64 → inc64 i ≡ suc i
inc64_lem i h = omega arith

pub next-eq-wrap : (n i : ℕ) → i < n → n < 2 ^ 64 → inc64 i % n ≡ wrap n (suc i)
next-eq-wrap n i hi hn = rw (inc64_lem i (omega arith)) (elim (dec_lt (suc i) n) [
  | yes p ↦ ground (arith, mod-eq_of_lt p)
  | no p ↦ let e : suc i ≡ n = omega arith in rw e (ground (arith, mod_self n))
])

-- No index leaves the store, no more elements are counted than it has places, and the writer
-- stands `num_elements` places after the reader.
pub record IsValid {T : Type 0} (q : LfQueue T) : Type 0 where
  pub small : q.num_elems < 2 ^ 63
  pub read_in : q.next_read_index < q.num_elems
  pub within : q.num_elements ≤ q.num_elems
  pub write_at : q.next_write_index ≡ wrap q.num_elems (q.next_read_index + q.num_elements)

-- The elements, oldest first.
abbrev pub contents : {T : Type 0} → LfQueue T → List T
contents q = tabulate q.num_elements (λ k. q.store (wrap q.num_elems (q.next_read_index + k)))

pub wrap-lt : (n i k : ℕ) → i < n → k ≤ n → wrap n (i + k) < n
wrap-lt n i k hi hk = ground arith

pub wrap-ne : (n i j k : ℕ) → i < n → j < k → k < n → wrap n (i + k) ≢ wrap n (i + j)
wrap-ne n i j k hi hj hk = ground arith

pub wrap-suc : (n i k : ℕ) → i < n → k < n → wrap n (suc (wrap n (i + k))) ≡ wrap n (i + suc k)
wrap-suc n i k hi hk = ground arith

pub wrap-shift : (n i k : ℕ) → i < n → k < n → wrap n (wrap n (suc i) + k) ≡ wrap n (i + suc k)
wrap-shift n i k hi hk = ground arith

module _ {T : Type 0} where
  -- A new queue of `n` places is empty.
  pub make-contents :
      (blank : T) (n : ℕ)
      → 0 < n
      → n < 2 ^ 63
      → IsValid (make blank n) × (contents (make blank n) ≡ [])
  unfolding make
  make-contents blank n pos small = (ground arith, refl)

  -- What `push` computes while there is room.
  abbrev pushed : T → LfQueue T → LfQueue T
  pushed v q = record q {
    store = update q.store q.next_write_index v;
    next_write_index = wrap q.num_elems (q.next_read_index + suc q.num_elements);
    num_elements = suc q.num_elements;
  }

  push-eq :
      (q : LfQueue T) (v : T) → IsValid q → q.num_elements < q.num_elems → push v q ≡ pushed v q
  unfolding push
  push-eq q v i room =
      ap₂
        (λ w m. record q {
          store = update q.store q.next_write_index v;
          next_write_index = w;
          num_elements = m;
        })
        (next-eq-wrap q.num_elems q.next_write_index (ground (arith, i)) (omega (arith, i.small))
          ∙ (rw i.write_at (wrap-suc q.num_elems q.next_read_index q.num_elements i.read_in room)))
        (inc64_lem q.num_elements (omega (arith, i.small)))

  -- While a valid queue has room, writing an element and moving the index on puts it behind the
  -- others, and the queue stays valid.
  pub push_lem :
      (q : LfQueue T) (v : T)
      → IsValid q
      → q.num_elements < q.num_elems
      → IsValid (push v q)
        × (contents (push v q) ≡ contents q ++ (v ∷ []))
        × ((push v q).num_elems ≡ q.num_elems)
        × (size (push v q) ≡ suc (size q))
  unfolding size
  push_lem q v i room = rw (push-eq q v i room) (
    record { small = i.small; read_in = i.read_in; within = room; write_at = refl },
    tabulate-snoc q.num_elements _
        ∙ ap₂ (λ xs x. xs ++ (x ∷ [])) (tabulate-ext q.num_elements _ _ λ k hk. old k hk) last,
    refl,
    refl,
  )
    where
      open q use {num_elems, next_read_index, num_elements}

      old :
          (k : ℕ)
          → k < q.num_elements
          → update q.store q.next_write_index v (wrap num_elems (next_read_index + k))
            ≡ q.store (wrap num_elems (next_read_index + k))
      old k hk = rw (
        i.write_at,
        ==-of_ne _ _ (wrap-ne num_elems next_read_index k num_elements i.read_in hk room),
      )

      last :
          update q.store q.next_write_index v (wrap num_elems (next_read_index + num_elements)) ≡ v
      last = rw (i.write_at, ==-refl)

  -- That a valid queue is full is not noticed: the oldest element is overwritten, and one more is
  -- counted than there are places.
  pub push-overrun :
      (q : LfQueue T) (v : T)
      → IsValid q
      → q.num_elements ≡ q.num_elems
      → ((push v q).store q.next_read_index ≡ v)
        × (size (push v q) ≡ suc q.num_elems)
        × (get_next_to_read (push v q) ≡ some q.next_read_index)
  unfolding push size get_next_to_read
  push-overrun q v i full = (ground (arith, i), ground (arith, i), ground (arith, i))

  -- A valid queue that is not empty offers its oldest element, and moving the read index on leaves
  -- the others, in a valid queue.
  pub update_read_index_lem :
      (q : LfQueue T)
      → IsValid q
      → 0 < size q
      → (r : LfQueue T) × (get_next_to_read q ≡ some q.next_read_index)
        × (update_read_index q ≡ ok r)
        × (contents q ≡ q.store q.next_read_index ∷ contents r)
        × IsValid r
        × (r.num_elems ≡ q.num_elems)
  unfolding update_read_index get_next_to_read assert size
  update_read_index_lem q i some_left = (
    record q {
      next_read_index = wrap num_elems (suc next_read_index);
      num_elements = num_elements - 1;
    },
    ground arith,
    ground (arith, next-eq-wrap num_elems next_read_index i.read_in, i),
    tabulate-cons num_elements _ some_left
        ∙ ap₂ ◌∷◌ (ap q.store (ground (arith, i))) (
            tabulate-ext (num_elements - 1) _ _ λ k hk.
              ap q.store
                (sym (wrap-shift num_elems next_read_index k i.read_in (omega (arith, i.within))))),
    record {
      small = i.small;
      read_in = ground (arith, i);
      within = omega (arith, i.within);
      write_at = i.write_at ∙ moved;
    },
    refl,
  )
    where
      open q use {num_elems, next_read_index, num_elements}

      moved :
          wrap num_elems (next_read_index + num_elements)
          ≡ wrap num_elems (wrap num_elems (suc next_read_index) + (num_elements - 1))
      moved = ground (arith, i)

  -- An empty queue offers nothing, and moving the read index on ends the process.
  pub update_read_index-empty :
      (q : LfQueue T)
      → size q ≡ 0
      → (contents q ≡ []) × (get_next_to_read q ≡ none) × (update_read_index q ≡ abort assertion)
  unfolding update_read_index get_next_to_read assert size
  update_read_index-empty q e = rw e (refl, refl, refl)

  -- `push` of each element of a list.
  pub push_all : List T → LfQueue T → LfQueue T
  push_all [] q = q
  push_all (x ∷ xs) q = push_all xs (push x q)

  pub push_all-nil : (q : LfQueue T) → push_all [] q ≡ q
  unfolding push_all
  push_all-nil q = refl

  pub push_all-cons :
      (x : T) (xs : List T) (q : LfQueue T) → push_all (x ∷ xs) q ≡ push_all xs (push x q)
  unfolding push_all
  push_all-cons x xs q = refl

  -- With room for all of them the elements come in order behind the others.
  pub push_all_lem :
      (xs : List T) (q : LfQueue T)
      → IsValid q
      → size q + length xs ≤ q.num_elems
      → IsValid (push_all xs q)
        × (contents (push_all xs q) ≡ contents q ++ xs)
        × ((push_all xs q).num_elems ≡ q.num_elems)
        × (size (push_all xs q) ≡ size q + length xs)
  unfolding push_all
  push_all_lem [] q i room = (i, sym (append-nil (contents q)), refl, omega arith)
  push_all_lem (x ∷ xs) q i room =
      let (i', c, n, s) = push_lem q x i (size_room q (omega arith)) in
      let (j, d, m, t) = push_all_lem xs (push x q) i' (omega arith) in
      (j, rw (d, c, append_assoc), m ∙ n, omega arith)
    where
      size_room : (q : LfQueue T) → size q < q.num_elems → q.num_elements < q.num_elems
      size_room q h = unfold size in h

  pub push_all-append :
      (xs ys : List T) (q : LfQueue T) → push_all (xs ++ ys) q ≡ push_all ys (push_all xs q)
  unfolding push_all
  push_all-append [] ys q = refl
  push_all-append (x ∷ xs) ys q = push_all-append xs ys (push x q)

  pub size-contents : (q : LfQueue T) → length (contents q) ≡ size q
  unfolding size
  size-contents q = length-tabulate q.num_elements _
