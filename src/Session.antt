-- ===== src/Session.antt =====
-- A client's gateway (ch06/trading/order_gw) and the order server (ch06/exchange/order_server) at the
-- two ends of a connection that carries what is sent, in order.

mod Tests
use building_low_latency_app.Prelude.{ℕ, ◌+◌, ◌≤◌, ◌<◌, ◌≡◌, List, ◌++◌, arith, ◌∙◌, sym}
use building_low_latency_app.Prelude.Lists.{length, All}
use building_low_latency_app.Prelude.Result.{ok}
use building_low_latency_app.Types.{ClientId, me_max_num_clients}
use building_low_latency_app.Messages.{OmClientResponse}
use building_low_latency_app.LfQueue.{size}
use building_low_latency_app.LfQueue.Refine.{IsValid, contents, size-contents}
use building_low_latency_app.Numbering.{om_request, numbered}
use building_low_latency_app.OrderServer.{OrderServer, Socket, receive_requests, send_responses}
use building_low_latency_app.OrderServer.Fifo.{pending, me_max_pending_requests}
use building_low_latency_app.OrderServer.Requests.{MayUse, received, receive_requests-numbered}
use building_low_latency_app.OrderServer.Responses.{
  stamped, sent_on, OwnSocket, responses_of, sent_on-stamped, responses_of-mine, Connected,
  send_responses_lem,
}
use building_low_latency_app.OrderGateway.{OrderGateway, send_requests, receive_responses}
use building_low_latency_app.OrderGateway.Requests.{send_requests_lem}
use building_low_latency_app.OrderGateway.Responses.{receive_responses-numbered}

-- The client's requests reach the sequencer: whatever stands in the gateway's queue is sent, and
-- the server puts all of it behind the requests that wait, in order, if the two agree on the next
-- number, the client may use the socket, the requests bear the client's id and there is room.
-- Afterwards the two agree on the next number again.
pub requests-arrive :
    (g : OrderGateway) (s : OrderServer) (socket t : ℕ)
    → IsValid g.outgoing_requests
    → g.client_id < me_max_num_clients
    → All (λ x. x.client_id ≡ g.client_id) (contents g.outgoing_requests)
    → MayUse socket (s.cid_tcp_socket g.client_id)
    → s.cid_next_exp_seq_num g.client_id ≡ g.next_outgoing_seq_num
    → s.fifo_sequencer.pending_size + size g.outgoing_requests ≤ me_max_pending_requests
    → (h : OrderGateway) × (u : OrderServer) × (send_requests (size g.outgoing_requests) g ≡ ok h)
      × (h.sent
          ≡ g.sent ++ numbered om_request g.next_outgoing_seq_num (contents g.outgoing_requests))
      × (receive_requests socket t
            (numbered om_request g.next_outgoing_seq_num (contents g.outgoing_requests))
            s
          ≡ ok u)
      × (pending u.fifo_sequencer
          ≡ pending s.fifo_sequencer ++ received t (contents g.outgoing_requests))
      × (u.cid_next_exp_seq_num g.client_id ≡ h.next_outgoing_seq_num)
requests-arrive g s socket t v hc hx hs hn room =
    let (h, sending, sent) = send_requests_lem g v in
    let (u, receiving, waits, agree) =
      receive_requests-numbered socket t g.client_id g.next_outgoing_seq_num
        (contents g.outgoing_requests) s hc hx hs hn
        (omega (arith, size-contents g.outgoing_requests)) in
    (h, u, sending, sent.sent, receiving, waits, agree ∙ sym sent.next)

-- The exchange's responses reach the client: after a turn of the server's loop, what it sent on the
-- client's connection puts exactly the client's responses behind those in the trade engine's queue,
-- in order, if all clients concerned are connected, none of the others on the same connection, the two
-- agree on the next number and there is room.
pub responses-arrive :
    (s : OrderServer) (socket : ClientId → Socket) (g : OrderGateway)
    → IsValid s.outgoing_responses
    → All (Connected s socket) (contents s.outgoing_responses)
    → All (OwnSocket socket g.client_id) (contents s.outgoing_responses)
    → g.next_exp_seq_num ≡ s.cid_next_outgoing_seq_num g.client_id
    → IsValid g.incoming_responses
    → size g.incoming_responses + length (responses_of g.client_id (contents s.outgoing_responses))
      ≤ g.incoming_responses.num_elems
    → (u : OrderServer) × (new : List (Socket × OmClientResponse)) × (send_responses
          (size s.outgoing_responses)
          s
        ≡ ok u)
      × (u.sent ≡ s.sent ++ new)
      × (contents (receive_responses (sent_on (socket g.client_id) new) g).incoming_responses
          ≡ contents g.incoming_responses
            ++ responses_of g.client_id (contents s.outgoing_responses))
responses-arrive s socket g v hs own hn vg room =
    let xs = contents s.outgoing_responses in
    let c = g.client_id in
    let (u, run, sent) = send_responses_lem socket s v hs in
    (
      u,
      stamped socket s.cid_next_outgoing_seq_num xs,
      run,
      sent.sent,
      rw (sent_on-stamped c socket s.cid_next_outgoing_seq_num xs own)
          (receive_responses-numbered (s.cid_next_outgoing_seq_num c) (responses_of c xs) g
            (responses_of-mine c xs) hn vg room).0,
    )
