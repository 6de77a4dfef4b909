-- ===== src/LfQueue/Threads/Reading.antt =====
-- The reading thread's accesses to a queue of ch06/common/lf_queue.h.
use mathlib.Core.List.{append_assoc}
use building_low_latency_app.Prelude.{
  ℕ, suc, ◌+◌, ◌-◌, ◌%◌, ◌^◌, ◌≤◌, ◌<◌, ◌≡◌, List, [], ◌∷◌, ◌++◌, arith, refl, ap, sym, ◌∙◌, subst,
  inc64, ◌==◌, Bool-cases, inl, inr, false,
}
use building_low_latency_app.Prelude.Lists.{tabulate, tabulate-cons, tabulate-ext}
use building_low_latency_app.Prelude.Result.{ok, assert}
use building_low_latency_app.LfQueue.{LfQueue, size}
use building_low_latency_app.LfQueue.Refine.{wrap, wrap-shift, next-eq-wrap}
use building_low_latency_app.LfQueue.Threads.{
  Writer, Threads, writer_idle, stored, write_moved, reader_idle, looking, read_moved, look,
  move_read, count_read,
}
use building_low_latency_app.LfQueue.Threads.Order.{
  IsOrdered, at, some-inj, none-some, write_pending, filling,
}

module _ {T : Type 0} where
  pub look-IsOrdered :
      (q : LfQueue T) (w : Writer T) (sent received : List T)
      → IsOrdered (at q w reader_idle sent received)
      → IsOrdered (look (at q w reader_idle sent received))
  unfolding look size
  look-IsOrdered q w sent received i = elim (Bool-cases (q.num_elements == 0)) [
    | inl e ↦ rw e i
    | inr e ↦ rw e (record {
      count = i.count;
      small = i.small;
      read_in = i.read_in;
      counted = i.counted;
      room = i.room;
      write_at = i.write_at;
      order = i.order;
      placed = i.placed;
      viewed = λ x f. (ground (arith, i.counted), some-inj _ x f);
    })
  ]

  write_pending-le : (w : Writer T) → write_pending w ≤ filling w
  write_pending-le writer_idle = omega arith
  write_pending-le (stored v) = omega arith
  write_pending-le (write_moved v) = omega arith

  -- The place after one more step of the reader.
  shifted :
      (q : LfQueue T) (k : ℕ)
      → q.num_elems < 2 ^ 63
      → q.next_read_index < q.num_elems
      → k < q.num_elems
      → wrap q.num_elems (inc64 q.next_read_index % q.num_elems + k)
        ≡ wrap q.num_elems (q.next_read_index + suc k)
  shifted q k small read_in less =
      ap (λ r. wrap q.num_elems (r + k))
        (next-eq-wrap q.num_elems q.next_read_index read_in (omega arith))
      ∙ wrap-shift q.num_elems q.next_read_index k read_in less

  -- What the reader moves to.
  abbrev pub moved_read : LfQueue T → Writer T → List T → List T → T → Threads T
  moved_read q w sent received v =
      at (record q { next_read_index = inc64 q.next_read_index % q.num_elems }) w read_moved sent
        (received ++ (v ∷ []))

  pub moved_read-IsOrdered :
      (q : LfQueue T) (w : Writer T) (sent received : List T) (v : T)
      → IsOrdered (at q w (looking v) sent received)
      → IsOrdered (moved_read q w sent received v)
  moved_read-IsOrdered q w sent received v i =
      let (pos, here) = i.viewed v refl in
      let n = q.num_elems in
      let rd = q.next_read_index in
      let c = i.count - 1 in
      record {
        count = c;
        small = i.small;
        read_in =
            subst (λ x. x < n) (sym (next-eq-wrap n rd i.read_in (omega (arith, i.small))))
              (ground (arith, i.read_in));
        counted = omega (arith, i.counted);
        room = omega (arith, i.room);
        write_at =
            i.write_at
            ∙ ap (λ k. wrap n (rd + k)) (omega arith)
            ∙ sym (
                shifted q (c + write_pending w) i.small i.read_in
                  (omega (arith, i.room, write_pending-le w)));
        order =
            i.order
            ∙ ap (λ xs. received ++ xs) (tabulate-cons i.count _ pos)
            ∙ ap (λ x. received ++ (x ∷ tabulate c (λ k. q.store (wrap n (rd + suc k)))))
                (ap q.store (ground (arith, i.read_in)) ∙ here)
            ∙ ap (λ xs. received ++ (v ∷ xs))
                (tabulate-ext c _ _ (λ k hk.
                  ap q.store (sym (shifted q k i.small i.read_in (omega (arith, i.room))))))
            ∙ sym (append_assoc received (v ∷ []) _);
        placed = λ x e.
            ap q.store (shifted q c i.small i.read_in (omega (arith, i.room)))
            ∙ ap (λ k. q.store (wrap n (rd + k))) (omega arith)
            ∙ i.placed x e;
        viewed = λ x e. none-some x e;
      }

  pub move_read-eq :
      (q : LfQueue T) (w : Writer T) (sent received : List T) (v : T)
      → 0 < q.num_elements
      → move_read v (at q w (looking v) sent received) ≡ ok (moved_read q w sent received v)
  unfolding move_read assert
  move_read-eq q w sent received v pos =
      let e : (q.num_elements == 0) ≡ false = ground arith in rw e refl

  pub count_read-IsOrdered :
      (q : LfQueue T) (w : Writer T) (sent received : List T)
      → IsOrdered (at q w read_moved sent received)
      → IsOrdered (count_read (at q w read_moved sent received))
  unfolding count_read
  count_read-IsOrdered q w sent received i = record {
    count = i.count;
    small = i.small;
    read_in = i.read_in;
    counted = omega (arith, i.counted, i.room, i.small);
    room = i.room;
    write_at = i.write_at;
    order = i.order;
    placed = i.placed;
    viewed = λ x e. none-some x e;
  }
