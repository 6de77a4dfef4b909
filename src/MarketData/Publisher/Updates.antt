-- ===== src/MarketData/Publisher/Updates.antt =====
-- What ch06/exchange/market_data/market_data_publisher.cpp hands to the synthesizer.
use building_low_latency_app.Prelude.{
  ℕ, zero, suc, ◌+◌, ◌≤◌, ◌≡◌, List, [], ◌∷◌, ◌++◌, some, arith, refl, ap, ◌∙◌, sym, inc64, dec64,
  ◌%◌, ◌<◌, ◌==◌, inl, inr, Bool-cases,
}
use mathlib.Core.List.{append-nil, append_assoc}
use building_low_latency_app.Prelude.Lists.{length}
use building_low_latency_app.Prelude.Result.{ok, assert}
use building_low_latency_app.Messages.{MeMarketUpdate, MdpMarketUpdate}
use building_low_latency_app.LfQueue.{LfQueue, push, size, get_next_to_read, update_read_index}
use building_low_latency_app.LfQueue.Refine.{
  IsValid, contents, size-contents, push_lem, update_read_index_lem, update_read_index-empty,
}
use building_low_latency_app.Numbering.{mdp_update, numbered, number_after}
use building_low_latency_app.MarketData.Publisher.{
  number, pointer_bytes, MarketDataPublisher, publish_update, publish_updates,
}

-- A round reads the update after it has moved the read index on.
update_read_index-store :
    (q r : LfQueue MeMarketUpdate) → update_read_index q ≡ ok r → r.store ≡ q.store
unfolding update_read_index assert
update_read_index-store q r e = elim (Bool-cases (q.num_elements == 0)) [
  | inl none_left ↦ absurd (let f = rw none_left at e in cc)
  | inr some_left ↦
      let f = rw some_left at e in
      let same : record q {
        next_read_index = inc64 q.next_read_index % q.num_elems;
        num_elements = dec64 q.num_elements;
      }
          ≡ r =
        cc in
      ap (λ (x : LfQueue MeMarketUpdate). x.store) (sym same)
]

has_room : (q : LfQueue MdpMarketUpdate) → size q < q.num_elems → q.num_elements < q.num_elems
unfolding size
has_room q h = h

-- What a turn of the loop has done: `us` is handed over, and the queue is empty.
pub record Published (p : MarketDataPublisher) (us : List MeMarketUpdate) (r : MarketDataPublisher)
    : Type 0 where
  pub handed_over :
      contents r.snapshot_md_updates
      ≡ contents p.snapshot_md_updates ++ numbered mdp_update p.next_inc_seq_num us
  pub next : r.next_inc_seq_num ≡ number_after p.next_inc_seq_num us
  pub empty : contents r.outgoing_md_updates ≡ []
  pub valid : IsValid r.snapshot_md_updates

publish_updates-nil :
    (fuel : ℕ) (p : MarketDataPublisher)
    → size p.outgoing_md_updates ≡ 0
    → publish_updates fuel p ≡ ok p
unfolding publish_updates
publish_updates-nil zero p e = ground (arith, update_read_index-empty p.outgoing_md_updates e)
publish_updates-nil (suc fuel) p e = ground (arith, update_read_index-empty p.outgoing_md_updates e)

abbrev after :
    LfQueue MeMarketUpdate → MeMarketUpdate → ℕ → MarketDataPublisher → MarketDataPublisher
after q u i p = record p {
  next_inc_seq_num = inc64 p.next_inc_seq_num;
  outgoing_md_updates = q;
  snapshot_md_updates = push (mdp_update p.next_inc_seq_num u) p.snapshot_md_updates;
  sent = p.sent ++ (number p.next_inc_seq_num ∷ pointer_bytes i ∷ []);
}

publish_updates-step :
    (fuel : ℕ) (p : MarketDataPublisher) (q : LfQueue MeMarketUpdate) (u : MeMarketUpdate) (i : ℕ)
    → get_next_to_read p.outgoing_md_updates ≡ some i
    → update_read_index p.outgoing_md_updates ≡ ok q
    → q.store i ≡ u
    → publish_updates (suc fuel) p ≡ publish_updates fuel (after q u i p)
unfolding publish_updates publish_update
publish_updates-step fuel p q u i next moved e = ground arith

publish_each :
    (us : List MeMarketUpdate) (p : MarketDataPublisher)
    → IsValid p.outgoing_md_updates
    → IsValid p.snapshot_md_updates
    → contents p.outgoing_md_updates ≡ us
    → size p.snapshot_md_updates + length us ≤ p.snapshot_md_updates.num_elems
    → (r : MarketDataPublisher) × (publish_updates (length us) p ≡ ok r) × Published p us r
publish_each [] p v w e room = (
  p,
  publish_updates-nil zero p (sym (size-contents p.outgoing_md_updates) ∙ ap length e),
  record {
    handed_over = sym (append-nil (contents p.snapshot_md_updates));
    next = refl;
    empty = e;
    valid = w;
  },
)
publish_each (u ∷ us) p v w e room =
    let q = p.outgoing_md_updates in
    let (r, next, moved, c, v', _) =
      update_read_index_lem q v (omega (arith, size-contents q, ap length e)) in
    let first : q.store q.next_read_index ≡ u = cc in
    let rest : contents r ≡ us = cc in
    let same = ap (λ f. f q.next_read_index) (update_read_index-store q r moved) ∙ first in
    let (w', d, n, z) =
      push_lem p.snapshot_md_updates (mdp_update p.next_inc_seq_num u) w
        (has_room p.snapshot_md_updates (omega arith)) in
    let (t, run, s) = publish_each us (after r u q.next_read_index p) v' w' rest (omega arith) in
    (
      t,
      publish_updates-step (length us) p r u q.next_read_index next moved same ∙ run,
      record {
        handed_over =
            s.handed_over
            ∙ ap (λ ms. ms ++ numbered mdp_update (inc64 p.next_inc_seq_num) us) d
            ∙ append_assoc (contents p.snapshot_md_updates) (mdp_update p.next_inc_seq_num u ∷ [])
                _;
        next = s.next;
        empty = s.empty;
        valid = s.valid;
      },
    )

-- A turn of the loop takes every update out of the queue and hands them to the synthesizer, in
-- order, under consecutive numbers from the next one on, while the synthesizer's queue has room.
pub publish_updates_lem :
    (p : MarketDataPublisher)
    → IsValid p.outgoing_md_updates
    → IsValid p.snapshot_md_updates
    → size p.snapshot_md_updates + size p.outgoing_md_updates ≤ p.snapshot_md_updates.num_elems
    → (r : MarketDataPublisher) × (publish_updates (size p.outgoing_md_updates) p ≡ ok r)
      × Published p (contents p.outgoing_md_updates) r
publish_updates_lem p v w room = rw (← size-contents p.outgoing_md_updates) (
    publish_each (contents p.outgoing_md_updates) p v w refl
      (omega (arith, size-contents p.outgoing_md_updates)))
