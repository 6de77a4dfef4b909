-- ===== src/OrderServer/Fifo/Laws.antt =====
-- What the sequencer of ch06/exchange/order_server/fifo_sequencer.h hands to the matching engine.
use mathlib.Core.Logic.{∥∥₁_elim}
use mathlib.Core.List.{Perm, Permᴰ, Pairwise}
use mathlib.Core.List.Permᴰ.{nil, cons, swap, trans}
use native.Mathlib.Nat.{ℕ_set}
use building_low_latency_app.Prelude.{
  ℕ, zero, suc, ◌+◌, ◌≤◌, ◌≡◌, ◌≢◌, List, [], ◌∷◌, ◌++◌, map, arith, refl, ap, ap₂, ◌∙◌, sym,
  ==-of_ne,
}
use building_low_latency_app.Prelude.Lists.{
  length, tabulate, tabulate-ext, length-map, length-tabulate,
}
use building_low_latency_app.Messages.{MeClientRequest}
use building_low_latency_app.LfQueue.{LfQueue, push, size}
use building_low_latency_app.LfQueue.Refine.{
  contents, push_all, push_all_lem, push_all-nil, push_all-cons, IsValid,
}
use building_low_latency_app.OrderServer.Fifo.{
  RecvTimeClientRequest, FifoSequencer, pending, overwrite, publish_from, Sort,
  sequence_and_publish,
}

abbrev pub requests : List RecvTimeClientRequest → List MeClientRequest
requests xs = map (λ r. r.request) xs

tabulate-overwrite :
    {A : Type 0} (xs : List A) (f : ℕ → A) → tabulate (length xs) (overwrite xs f) ≡ xs
unfolding overwrite
tabulate-overwrite [] f = refl
tabulate-overwrite (x ∷ xs) f = ap (λ ys. x ∷ ys) (tabulate-overwrite xs (λ k. f (suc k)))

tabulate-overwrite_of_length :
    {A : Type 0} (n : ℕ) (xs : List A) (f : ℕ → A)
    → length xs ≡ n
    → tabulate n (overwrite xs f) ≡ xs
tabulate-overwrite_of_length n xs f e = rw (← e) (tabulate-overwrite xs f)

publish_from-eq :
    (n i : ℕ) (array : ℕ → RecvTimeClientRequest) (q : LfQueue MeClientRequest)
    → publish_from n i array q ≡ push_all (requests (tabulate n (λ k. array (i + k)))) q
unfolding publish_from
publish_from-eq zero i array q = sym (push_all-nil q)
publish_from-eq (suc n) i array q =
    publish_from-eq n (suc i) array (push (array i).request q)
    ∙ ap₂ (λ x xs. push_all (requests xs) (push x q)) (ap (λ k. (array k).request) (omega arith))
        (tabulate-ext n _ _ λ k _. ap array (omega arith))
    ∙ sym (push_all-cons _ _ q)

length-Permᴰ : {A : Type 0} {xs ys : List A} → Permᴰ xs ys → length xs ≡ length ys
length-Permᴰ (nil) = refl
length-Permᴰ (cons e p) = ap suc (length-Permᴰ p)
length-Permᴰ (swap e f) = refl
length-Permᴰ (trans p q) = length-Permᴰ p ∙ length-Permᴰ q

pub length-Perm : {A : Type 0} {xs ys : List A} → Perm xs ys → length xs ≡ length ys
length-Perm p = ∥∥₁_elim p (ℕ_set _ _) length-Permᴰ

-- What `std::sort` promises: the same entries, none before one that it should follow.
pub record Sorts (std_sort : Sort) : Type 0 where
  pub perm : (xs : List RecvTimeClientRequest) → Perm (std_sort xs) xs
  pub sorted :
      (xs : List RecvTimeClientRequest) → Pairwise (λ a b. a.recv_time ≤ b.recv_time) (std_sort xs)

pub pending_size-publish :
    (std_sort : Sort) (f : FifoSequencer)
    → (sequence_and_publish std_sort f).pending_size ≡ f.pending_size
unfolding sequence_and_publish
pending_size-publish std_sort f = ground arith

module _ (std_sort : Sort) (sorts : Sorts std_sort) where
  length-sorted : (f : FifoSequencer) → length (std_sort (pending f)) ≡ f.pending_size
  length-sorted f =
      length-Perm (sorts.perm (pending f))
      ∙ length-tabulate f.pending_size f.pending_client_requests

  pending-publish :
      (f : FifoSequencer)
      → f.pending_size ≢ 0
      → pending (sequence_and_publish std_sort f) ≡ std_sort (pending f)
  unfolding sequence_and_publish
  pending-publish f h = rw (==-of_ne f.pending_size 0 h) (
      tabulate-overwrite_of_length f.pending_size (std_sort (pending f)) f.pending_client_requests
        (length-sorted f))

  incoming-publish :
      (f : FifoSequencer)
      → f.pending_size ≢ 0
      → (sequence_and_publish std_sort f).incoming_requests
        ≡ push_all (requests (std_sort (pending f))) f.incoming_requests
  unfolding sequence_and_publish
  incoming-publish f h = rw (==-of_ne f.pending_size 0 h) (
      publish_from-eq f.pending_size 0 _ f.incoming_requests
      ∙ ap (λ xs. push_all (requests xs) f.incoming_requests)
          (tabulate-ext f.pending_size _ _
              (λ k _. ap (overwrite _ f.pending_client_requests) (omega arith))
            ∙ tabulate-overwrite_of_length f.pending_size (std_sort (pending f))
                f.pending_client_requests (length-sorted f)))

  queue-publish :
      (f : FifoSequencer)
      → f.pending_size ≢ 0
      → IsValid f.incoming_requests
      → size f.incoming_requests + f.pending_size ≤ f.incoming_requests.num_elems
      → let q = (sequence_and_publish std_sort f).incoming_requests in
        IsValid q
        × (contents q ≡ contents f.incoming_requests ++ requests (std_sort (pending f)))
        × (q.num_elems ≡ f.incoming_requests.num_elems)
        × (size q ≡ size f.incoming_requests + f.pending_size)
  queue-publish f h v room =
      let xs = requests (std_sort (pending f)) in
      let (v', c, n, t) = push_all_lem xs f.incoming_requests v (omega (arith, count f)) in
      rw (incoming-publish f h) (v', c, n, omega (arith, count f))
    where
      count : (f : FifoSequencer) → length (requests (std_sort (pending f))) ≡ f.pending_size
      count f = length-map (std_sort (pending f)) (λ r. r.request) ∙ length-sorted f

  -- When requests wait and a valid queue has room for them, and if `std::sort` sorts, they come
  -- behind the queue's own, as a rearrangement of themselves in which no request stands before one
  -- that arrived earlier. They still count as waiting afterwards.
  pub publish_lem :
      (f : FifoSequencer)
      → f.pending_size ≢ 0
      → IsValid f.incoming_requests
      → size f.incoming_requests + f.pending_size ≤ f.incoming_requests.num_elems
      → let g = sequence_and_publish std_sort f in
        IsValid g.incoming_requests
        × (contents g.incoming_requests ≡ contents f.incoming_requests ++ requests (pending g))
        × Perm (pending g) (pending f)
        × Pairwise (λ a b. a.recv_time ≤ b.recv_time) (pending g)
        × (g.pending_size ≡ f.pending_size)
  publish_lem f h v room =
      let (v', c, _, _) = queue-publish f h v room in
      rw (pending-publish f h)
        (v', c, sorts.perm (pending f), sorts.sorted (pending f), pending_size-publish std_sort f)

  -- The requests of one round are sent again in the next, though no new request has come, if
  -- `std::sort` sorts and a valid queue has room for both rounds: the pending size is not reset.
  pub publish-again :
      (f : FifoSequencer)
      → f.pending_size ≢ 0
      → IsValid f.incoming_requests
      → size f.incoming_requests + f.pending_size + f.pending_size ≤ f.incoming_requests.num_elems
      → let g = sequence_and_publish std_sort f in
        let h = sequence_and_publish std_sort g in
        (contents h.incoming_requests
          ≡ (contents f.incoming_requests ++ requests (pending g)) ++ requests (pending h))
        × Perm (pending h) (pending g)
        × Perm (pending g) (pending f)
  publish-again f ne v room =
      let g = sequence_and_publish std_sort f in
      let same_size = pending_size-publish std_sort f in
      let (v', c, n, t) = queue-publish f ne v (omega arith) in
      let ne' : g.pending_size ≢ 0 = omega arith in
      let (_, d, _, _) = queue-publish g ne' v' (omega arith) in
      (
        rw (pending-publish g ne') (
            d
            ∙ ap (λ xs. xs ++ requests (std_sort (pending g)))
                (c
                  ∙ ap (λ xs. contents f.incoming_requests ++ requests xs)
                      (sym (pending-publish f ne)))),
        rw (pending-publish g ne') (sorts.perm (pending g)),
        rw (pending-publish f ne) (sorts.perm (pending f)),
      )
