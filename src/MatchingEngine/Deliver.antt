-- ===== src/MatchingEngine/Deliver.antt =====
-- How what a book sends reaches the queues of ch06/exchange/matcher/matching_engine.h.
use building_low_latency_app.Prelude.{◌+◌, ◌≤◌, ◌≡◌, List, [], ◌∷◌, ◌++◌, refl, ◌∙◌, sym, ap}
use building_low_latency_app.Prelude.Lists.{length}
use building_low_latency_app.Messages.{MeClientResponse, MeMarketUpdate}
use building_low_latency_app.LfQueue.{LfQueue, size}
use building_low_latency_app.LfQueue.Refine.{
  IsValid, contents, push_all, push_all-nil, push_all-cons, push_all_lem,
}
use building_low_latency_app.Matcher.State.{Sent, response, update_sent}
use building_low_latency_app.MatchingEngine.{
  MatchingEngine, deliver, send_client_response, send_market_update,
}

unfoldable pub responses_in : List Sent → List MeClientResponse
responses_in [] = []
responses_in (response r ∷ ms) = r ∷ responses_in ms
responses_in (update_sent u ∷ ms) = responses_in ms

unfoldable pub updates_in : List Sent → List MeMarketUpdate
updates_in [] = []
updates_in (response r ∷ ms) = updates_in ms
updates_in (update_sent u ∷ ms) = u ∷ updates_in ms

abbrev pub with_queues :
    MatchingEngine → LfQueue MeClientResponse → LfQueue MeMarketUpdate → MatchingEngine
with_queues e q u = record e { outgoing_ogw_responses = q; outgoing_md_updates = u }

pub deliver-eq :
    (ms : List Sent) (e : MatchingEngine)
    → deliver ms e
      ≡ with_queues e
          (push_all (responses_in ms) e.outgoing_ogw_responses)
          (push_all (updates_in ms) e.outgoing_md_updates)
unfolding deliver responses_in updates_in send_client_response send_market_update
deliver-eq [] e = rw (push_all-nil e.outgoing_ogw_responses, push_all-nil e.outgoing_md_updates)
deliver-eq (response r ∷ ms) e =
    deliver-eq ms (send_client_response r e)
    ∙ ap (λ q. with_queues e q (push_all (updates_in ms) e.outgoing_md_updates))
        (sym (push_all-cons r (responses_in ms) e.outgoing_ogw_responses))
deliver-eq (update_sent u ∷ ms) e =
    deliver-eq ms (send_market_update u e)
    ∙ ap (λ q. with_queues e (push_all (responses_in ms) e.outgoing_ogw_responses) q)
        (sym (push_all-cons u (updates_in ms) e.outgoing_md_updates))

-- With room in both queues, the responses come in order behind those that wait for the order
-- server, the updates in order behind those that wait for the publisher, and nothing else changes.
pub deliver_lem :
    (ms : List Sent) (e : MatchingEngine)
    → IsValid e.outgoing_ogw_responses
    → IsValid e.outgoing_md_updates
    → size e.outgoing_ogw_responses + length (responses_in ms) ≤ e.outgoing_ogw_responses.num_elems
    → size e.outgoing_md_updates + length (updates_in ms) ≤ e.outgoing_md_updates.num_elems
    → let f = deliver ms e in
      (contents f.outgoing_ogw_responses ≡ contents e.outgoing_ogw_responses ++ responses_in ms)
      × (contents f.outgoing_md_updates ≡ contents e.outgoing_md_updates ++ updates_in ms)
      × IsValid f.outgoing_ogw_responses
      × IsValid f.outgoing_md_updates
      × (f.ticker_order_book ≡ e.ticker_order_book)
      × (f.incoming_requests ≡ e.incoming_requests)
deliver_lem ms e vr vu room_r room_u =
    let (vr', cr, _, _) = push_all_lem (responses_in ms) e.outgoing_ogw_responses vr room_r in
    let (vu', cu, _, _) = push_all_lem (updates_in ms) e.outgoing_md_updates vu room_u in
    rw (deliver-eq ms e) (cr, cu, vr', vu', refl, refl)
