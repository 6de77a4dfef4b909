-- ===== src/OrderGateway/Requests.antt =====
-- ch06/trading/order_gw/order_gateway.cpp sends the client's requests under consecutive numbers.
use mathlib.Core.List.{append-nil, append_assoc}
use building_low_latency_app.Prelude.{
  ℕ, zero, suc, ◌≡◌, List, [], ◌∷◌, ◌++◌, some, arith, refl, ap, ◌∙◌, sym, inc64,
}
use building_low_latency_app.Prelude.Lists.{length}
use building_low_latency_app.Prelude.Result.{ok}
use building_low_latency_app.Messages.{MeClientRequest}
use building_low_latency_app.LfQueue.{LfQueue, size, get_next_to_read, update_read_index}
use building_low_latency_app.LfQueue.Refine.{
  IsValid, contents, size-contents, update_read_index_lem, update_read_index-empty,
}
use building_low_latency_app.Numbering.{om_request, numbered, number_after}
use building_low_latency_app.OrderGateway.{OrderGateway, send_request, send_requests}

-- What a turn of the loop has done: `xs` is sent, and the queue is empty.
pub record Sent (g : OrderGateway) (xs : List MeClientRequest) (h : OrderGateway) : Type 0 where
  pub sent : h.sent ≡ g.sent ++ numbered om_request g.next_outgoing_seq_num xs
  pub next : h.next_outgoing_seq_num ≡ number_after g.next_outgoing_seq_num xs
  pub empty : contents h.outgoing_requests ≡ []
  pub valid : IsValid h.outgoing_requests
  pub same_client : h.client_id ≡ g.client_id

send_requests-nil :
    (fuel : ℕ) (g : OrderGateway) → size g.outgoing_requests ≡ 0 → send_requests fuel g ≡ ok g
unfolding send_requests
send_requests-nil zero g e = ground (arith, update_read_index-empty g.outgoing_requests e)
send_requests-nil (suc fuel) g e = ground (arith, update_read_index-empty g.outgoing_requests e)

abbrev after_send : LfQueue MeClientRequest → MeClientRequest → OrderGateway → OrderGateway
after_send q x g = record g {
  outgoing_requests = q;
  next_outgoing_seq_num = inc64 g.next_outgoing_seq_num;
  sent = g.sent ++ (om_request g.next_outgoing_seq_num x ∷ []);
}

send_requests-step :
    (fuel : ℕ) (g : OrderGateway) (q : LfQueue MeClientRequest) (x : MeClientRequest) (i : ℕ)
    → get_next_to_read g.outgoing_requests ≡ some i
    → update_read_index g.outgoing_requests ≡ ok q
    → g.outgoing_requests.store i ≡ x
    → send_requests (suc fuel) g ≡ send_requests fuel (after_send q x g)
unfolding send_requests send_request
send_requests-step fuel g q x i next moved e = ground arith

send_each :
    (xs : List MeClientRequest) (g : OrderGateway)
    → IsValid g.outgoing_requests
    → contents g.outgoing_requests ≡ xs
    → (h : OrderGateway) × (send_requests (length xs) g ≡ ok h) × Sent g xs h
send_each [] g v e = (
  g,
  send_requests-nil zero g (sym (size-contents g.outgoing_requests) ∙ ap length e),
  record { sent = sym (append-nil g.sent); next = refl; empty = e; valid = v; same_client = refl },
)
send_each (x ∷ xs) g v e =
    let q = g.outgoing_requests in
    let (r, next, moved, c, v', _) =
      update_read_index_lem q v (omega (arith, size-contents q, ap length e)) in
    let first : q.store q.next_read_index ≡ x = cc in
    let rest : contents r ≡ xs = cc in
    let (h, run, s) = send_each xs (after_send r x g) v' rest in
    (
      h,
      send_requests-step (length xs) g r x q.next_read_index next moved first ∙ run,
      record {
        sent = s.sent ∙ append_assoc g.sent (om_request g.next_outgoing_seq_num x ∷ []) _;
        next = s.next;
        empty = s.empty;
        valid = s.valid;
        same_client = s.same_client;
      },
    )

-- A turn of the loop takes every request out of a valid queue and sends them in order, under
-- consecutive numbers from the next one on.
pub send_requests_lem :
    (g : OrderGateway)
    → IsValid g.outgoing_requests
    → (h : OrderGateway) × (send_requests (size g.outgoing_requests) g ≡ ok h)
      × Sent g (contents g.outgoing_requests) h
send_requests_lem g v =
    rw (← size-contents g.outgoing_requests) (send_each (contents g.outgoing_requests) g v refl)
