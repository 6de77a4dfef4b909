-- ===== src/OrderServer/Tests/Sorting.antt =====
-- A concrete `std::sort` of the requests, by insertion.
use mathlib.Core.List.{Perm, Pairwise, Mem, not-mem-nil, eq-or-mem_of_mem-cons}
use mathlib.Core.Logic.Or
use mathlib.Core.List.Perm
use native.Mathlib.Bridge.{le_prop}
use building_low_latency_app.Prelude.{
  ◌≤◌, List, [], ◌∷◌, arith, Bool-cases, inl, inr, if◌then◌else◌, leb, subst, sym,
}
use building_low_latency_app.OrderServer.Fifo.{RecvTimeClientRequest}
use building_low_latency_app.OrderServer.Fifo.Laws.{Sorts}

unfoldable insert : RecvTimeClientRequest → List RecvTimeClientRequest → List RecvTimeClientRequest
insert x [] = x ∷ []
insert x (y ∷ ys) = if leb x.recv_time y.recv_time then x ∷ y ∷ ys else y ∷ insert x ys

unfoldable pub sort : List RecvTimeClientRequest → List RecvTimeClientRequest
unfolding insert
sort [] = []
sort (x ∷ xs) = insert x (sort xs)

insert-Perm :
    (x : RecvTimeClientRequest) (xs : List RecvTimeClientRequest) → Perm (insert x xs) (x ∷ xs)
unfolding insert
insert-Perm x [] = Perm.refl (x ∷ [])
insert-Perm x (y ∷ ys) = elim (Bool-cases (leb x.recv_time y.recv_time)) [
  | inl before ↦ rw before (Perm.refl (x ∷ y ∷ ys))
  | inr after ↦ rw after (Perm.trans (Perm.cons y (insert-Perm x ys)) (Perm.swap x y ys))
]

sort-Perm : (xs : List RecvTimeClientRequest) → Perm (sort xs) xs
unfolding sort
sort-Perm [] = Perm.refl []
sort-Perm (x ∷ xs) = Perm.trans (insert-Perm x (sort xs)) (Perm.cons x (sort-Perm xs))

abbrev NoLater : RecvTimeClientRequest → RecvTimeClientRequest → Type 0
NoLater a b = a.recv_time ≤ b.recv_time

-- What comes before `x` and before each of `xs` comes before each of `x ∷ xs`.
before_all :
    (a x : RecvTimeClientRequest) (xs : List RecvTimeClientRequest)
    → NoLater a x
    → ((y : RecvTimeClientRequest) → Mem y xs → NoLater a y)
    → (y : RecvTimeClientRequest) → Mem y (x ∷ xs)
    → NoLater a y
before_all a x xs first rest y m =
    Or.elim le_prop (eq-or-mem_of_mem-cons m) (λ e. subst (λ z. NoLater a z) (sym e) first) (rest y)

insert-sorted :
    (x : RecvTimeClientRequest) (xs : List RecvTimeClientRequest)
    → Pairwise NoLater xs
    → Pairwise NoLater (insert x xs)
unfolding insert
insert-sorted x [] Pairwise.nil = Pairwise.cons (λ y m. absurd (not-mem-nil m)) Pairwise.nil
insert-sorted x (y ∷ ys) (Pairwise.cons h rest) = elim (Bool-cases (leb x.recv_time y.recv_time)) [
  | inl before ↦
      let first : NoLater x y = ground arith in
      rw before (
        Pairwise.cons (before_all x y ys first (λ z m. omega (arith, h z m)))
          (Pairwise.cons h rest))
  | inr after ↦
      let first : NoLater y x = ground arith in
      rw after (
        Pairwise.cons (λ z m. before_all y x ys first h z ((Perm.mem_iff (insert-Perm x ys)).0 m))
          (insert-sorted x ys rest))
]

sort-sorted : (xs : List RecvTimeClientRequest) → Pairwise NoLater (sort xs)
unfolding sort
sort-sorted [] = Pairwise.nil
sort-sorted (x ∷ xs) = insert-sorted x (sort xs) (sort-sorted xs)

pub sort-Sorts : Sorts sort
sort-Sorts = record { perm = sort-Perm; sorted = sort-sorted }
