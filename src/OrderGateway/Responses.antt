-- ===== src/OrderGateway/Responses.antt =====
-- ch06/trading/order_gw/order_gateway.cpp takes the exchange's responses.
use building_low_latency_app.Prelude.{
  ℕ, ◌+◌, ◌≤◌, ◌≡◌, ◌≢◌, ◌⊎◌, List, [], ◌∷◌, ◌++◌, arith, refl, ap, ap₂, ◌∙◌, sym, inc64,
}
use building_low_latency_app.Prelude.Lists.{length, All}
use building_low_latency_app.Messages.{MeClientResponse, OmClientResponse}
use building_low_latency_app.LfQueue.{LfQueue, size, push}
use building_low_latency_app.LfQueue.Refine.{
  IsValid, contents, push_all, push_all-nil, push_all-cons, push_all_lem,
}
use building_low_latency_app.Numbering.{om_response, numbered, number_after}
use building_low_latency_app.OrderGateway.{OrderGateway, receive_response, receive_responses}

-- A response for another client, or under another number than the expected one, changes nothing.
pub receive_response-passed :
    (r : OmClientResponse) (g : OrderGateway)
    → (r.me_client_response.client_id ≢ g.client_id) ⊎ (r.seq_num ≢ g.next_exp_seq_num)
    → receive_response r g ≡ g
unfolding receive_response
receive_response-passed r g h = ground arith

receive_response-taken :
    (r : OmClientResponse) (g : OrderGateway)
    → r.me_client_response.client_id ≡ g.client_id
    → r.seq_num ≡ g.next_exp_seq_num
    → receive_response r g ≡ record g {
      next_exp_seq_num = inc64 g.next_exp_seq_num;
      incoming_responses = push r.me_client_response g.incoming_responses;
    }
unfolding receive_response
receive_response-taken r g hc hn = ground arith

abbrev after : OrderGateway → ℕ → LfQueue MeClientResponse → OrderGateway
after g n q = record g { next_exp_seq_num = n; incoming_responses = q }

receive_numbered :
    (n : ℕ) (xs : List MeClientResponse) (g : OrderGateway)
    → All (λ x. x.client_id ≡ g.client_id) xs
    → g.next_exp_seq_num ≡ n
    → receive_responses (numbered om_response n xs) g
      ≡ after g (number_after n xs) (push_all xs g.incoming_responses)
unfolding receive_responses
receive_numbered n [] g hx hn = ap₂ (after g) hn (sym (push_all-nil g.incoming_responses))
receive_numbered n (x ∷ xs) g hx hn =
    ap (receive_responses (numbered om_response (inc64 n) xs))
      (receive_response-taken (om_response n x) g hx.0 (sym hn))
    ∙ receive_numbered (inc64 n) xs
        (after g (inc64 g.next_exp_seq_num) (push x g.incoming_responses)) hx.1 (ap inc64 hn)
    ∙ ap (after g (number_after (inc64 n) xs)) (sym (push_all-cons x xs g.incoming_responses))

-- Responses for the client under consecutive numbers from the expected one all reach the trade
-- engine's queue, in order, while it has room.
pub receive_responses-numbered :
    (n : ℕ) (xs : List MeClientResponse) (g : OrderGateway)
    → All (λ x. x.client_id ≡ g.client_id) xs
    → g.next_exp_seq_num ≡ n
    → IsValid g.incoming_responses
    → size g.incoming_responses + length xs ≤ g.incoming_responses.num_elems
    → let h = receive_responses (numbered om_response n xs) g in
      (contents h.incoming_responses ≡ contents g.incoming_responses ++ xs)
      × (h.next_exp_seq_num ≡ number_after n xs)
      × IsValid h.incoming_responses
receive_responses-numbered n xs g hx hn v room =
    let (v', c, _, _) = push_all_lem xs g.incoming_responses v room in
    rw (receive_numbered n xs g hx hn) (c, refl, v')
