-- ===== src/LfQueue/Threads/Order.antt =====
-- In which order values come through a queue of ch06/common/lf_queue.h that two threads share.
use mathlib.Core.List.{append_assoc}
use building_low_latency_app.Prelude.{
  ℕ, suc, ◌+◌, ◌^◌, ◌≤◌, ◌<◌, ◌≡◌, List, [], ◌∷◌, ◌++◌, Option, none, some, arith, refl, ap, sym,
  ◌∙◌, ==-refl, ==-of_ne,
}
use building_low_latency_app.Prelude.Lists.{tabulate, tabulate-ext, tabulate-snoc}
use building_low_latency_app.LfQueue.{LfQueue, size, write_next}
use building_low_latency_app.LfQueue.Refine.{wrap, wrap-ne, wrap-suc, inc64_lem, next-eq-wrap}
use building_low_latency_app.LfQueue.Threads.{
  Writer, Reader, Threads, writer_idle, stored, write_moved, reader_idle, looking, read_moved,
  store_value, move_write, count_write,
}

module _ {T : Type 0} where
  -- 1 while a thread has moved its index and has not counted.
  abbrev pub write_pending : Writer T → ℕ
  write_pending (write_moved v) = 1
  write_pending _ = 0

  abbrev pub read_pending : Reader T → ℕ
  read_pending read_moved = 1
  read_pending _ = 0

  -- The place that the writer has filled beyond those counted.
  abbrev pub filling : Writer T → ℕ
  filling writer_idle = 0
  filling _ = 1

  abbrev pub in_hand : Writer T → Option T
  in_hand writer_idle = none
  in_hand (stored v) = some v
  in_hand (write_moved v) = some v

  abbrev pub in_view : Reader T → Option T
  in_view (looking v) = some v
  in_view _ = none

  -- The `count` elements that are sent and not let go of.
  abbrev pub waiting : LfQueue T → ℕ → List T
  waiting q count = tabulate count (λ k. q.store (wrap q.num_elems (q.next_read_index + k)))

  -- The two threads' accesses fit together: what is sent is what is received and what waits.
  pub record IsOrdered (s : Threads T) : Type 0 where
    pub count : ℕ
    pub small : s.queue.num_elems < 2 ^ 63
    pub read_in : s.queue.next_read_index < s.queue.num_elems
    pub counted : s.queue.num_elements ≡ count + read_pending s.reader
    pub room : count + filling s.writer ≤ s.queue.num_elems
    pub write_at :
        s.queue.next_write_index
        ≡ wrap s.queue.num_elems (s.queue.next_read_index + (count + write_pending s.writer))
    pub order : s.sent ≡ s.received ++ waiting s.queue count
    pub placed :
        (v : T)
        → in_hand s.writer ≡ some v
        → s.queue.store (wrap s.queue.num_elems (s.queue.next_read_index + count)) ≡ v
    pub viewed :
        (v : T)
        → in_view s.reader ≡ some v
        → (0 < count) × (s.queue.store s.queue.next_read_index ≡ v)

  abbrev pub at : LfQueue T → Writer T → Reader T → List T → List T → Threads T
  at q w r sent received = record {
    queue = q;
    writer = w;
    reader = r;
    sent = sent;
    received = received;
  }

  pub some-inj : (v w : T) → some v ≡ some w → v ≡ w
  some-inj v w e = ground arith

  pub none-some : {A : Type 0} (w : T) → none ≡ some w → A
  none-some w e = absurd (ground arith)

  pub store_value-IsOrdered :
      (q : LfQueue T) (r : Reader T) (sent received : List T) (v : T)
      → IsOrdered (at q writer_idle r sent received)
      → size q < q.num_elems
      → IsOrdered (store_value v (at q writer_idle r sent received))
  unfolding store_value write_next size
  store_value-IsOrdered q r sent received v i less =
      let place : q.next_write_index ≡ wrap q.num_elems (q.next_read_index + i.count) =
        i.write_at ∙ ap (λ k. wrap q.num_elems (q.next_read_index + k)) (omega arith) in
      record {
        count = i.count;
        small = i.small;
        read_in = i.read_in;
        counted = i.counted;
        room = omega (arith, i.counted);
        write_at = i.write_at;
        order =
            i.order
            ∙ ap (λ xs. received ++ xs)
                (tabulate-ext i.count _ _ (λ k hk.
                  rw
                    (
                      place,
                      ==-of_ne _ _ (
                          wrap-ne q.num_elems q.next_read_index k i.count i.read_in hk
                            (omega (arith, i.counted))),
                    )
                    refl));
        placed = λ w e. rw (place, ==-refl) (some-inj v w e);
        viewed = λ w e.
            let (pos, f) = i.viewed w e in
            (
              pos,
              rw
                  (==-of_ne q.next_write_index q.next_read_index
                    (ground (arith, place, i.counted, i.read_in)))
                  f,
            );
      }

  pub move_write-IsOrdered :
      (q : LfQueue T) (r : Reader T) (sent received : List T) (v : T)
      → IsOrdered (at q (stored v) r sent received)
      → IsOrdered (move_write v (at q (stored v) r sent received))
  unfolding move_write
  move_write-IsOrdered q r sent received v i =
      let place : q.next_write_index ≡ wrap q.num_elems (q.next_read_index + i.count) =
        i.write_at ∙ ap (λ k. wrap q.num_elems (q.next_read_index + k)) (omega arith) in
      record {
        count = i.count;
        small = i.small;
        read_in = i.read_in;
        counted = i.counted;
        room = i.room;
        write_at =
            next-eq-wrap q.num_elems q.next_write_index (ground (arith, place, i.room, i.read_in))
              (omega (arith, i.small))
            ∙ ap (λ k. wrap q.num_elems (suc k)) place
            ∙ wrap-suc q.num_elems q.next_read_index i.count i.read_in (omega (arith, i.room))
            ∙ ap (λ k. wrap q.num_elems (q.next_read_index + k)) (omega arith);
        order = i.order;
        placed = i.placed;
        viewed = i.viewed;
      }

  read_pending-le : (r : Reader T) → read_pending r ≤ 1
  read_pending-le reader_idle = omega arith
  read_pending-le (looking v) = omega arith
  read_pending-le read_moved = omega arith

  pub count_write-IsOrdered :
      (q : LfQueue T) (r : Reader T) (sent received : List T) (v : T)
      → IsOrdered (at q (write_moved v) r sent received)
      → IsOrdered (count_write v (at q (write_moved v) r sent received))
  unfolding count_write
  count_write-IsOrdered q r sent received v i = record {
    count = suc i.count;
    small = i.small;
    read_in = i.read_in;
    counted =
        inc64_lem q.num_elements (omega (arith, i.small, i.counted, i.room, read_pending-le r))
        ∙ omega (arith, i.counted);
    room = omega (arith, i.room);
    write_at = i.write_at ∙ ap (λ k. wrap q.num_elems (q.next_read_index + k)) (omega arith);
    order =
        ap (λ xs. xs ++ (v ∷ [])) i.order
        ∙ append_assoc received (waiting q i.count) (v ∷ [])
        ∙ ap (λ x. received ++ (waiting q i.count ++ (x ∷ []))) (sym (i.placed v refl))
        ∙ ap (λ xs. received ++ xs) (sym (tabulate-snoc i.count _));
    placed = λ w e. none-some w e;
    viewed = λ w e. (omega arith, (i.viewed w e).1);
  }
