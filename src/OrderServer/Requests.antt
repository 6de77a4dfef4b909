-- ===== src/OrderServer/Requests.antt =====
-- Which requests the order server of ch06/exchange/order_server/order_server.h takes.
use mathlib.Core.List.{append-nil, append_assoc}
use building_low_latency_app.Prelude.{
  ℕ, ◌+◌, ◌^◌, ◌≤◌, ◌<◌, ◌≡◌, ◌≢◌, ◌⊎◌, inl, inr, Option, List, [], ◌∷◌, ◌++◌, none, some, arith,
  refl, ap, subst, ◌∙◌, sym, inc64, update, ==-refl,
}
use building_low_latency_app.Prelude.Lists.{length, All}
use building_low_latency_app.Prelude.Result.{ok}
use building_low_latency_app.Types.{me_max_num_clients}
use building_low_latency_app.Messages.{MeClientRequest, OmClientRequest}
use building_low_latency_app.Numbering.{om_request, numbered, number_after}
use building_low_latency_app.OrderServer.{
  OrderServer, Socket, bind_socket, receive_request, receive_requests,
}
use building_low_latency_app.OrderServer.Fifo.{
  RecvTimeClientRequest, me_max_pending_requests, pending,
}
use building_low_latency_app.OrderServer.Fifo.Lifetime.{added, add-eq, pending-added}

-- The client has no connection yet, or this one.
abbrev pub MayUse : Socket → Option Socket → Type 0
MayUse socket none = Unit
MayUse socket (some t) = t ≡ socket

-- The state after a request is taken.
abbrev taken : Socket → ℕ → OmClientRequest → OrderServer → OrderServer
taken socket t r s = record s {
  cid_next_exp_seq_num =
      update s.cid_next_exp_seq_num r.me_client_request.client_id
        (inc64 (s.cid_next_exp_seq_num r.me_client_request.client_id));
  cid_tcp_socket = (bind_socket socket r.me_client_request.client_id s).cid_tcp_socket;
  fifo_sequencer = added t r.me_client_request s.fifo_sequencer;
}

module _ (socket t : ℕ) (r : OmClientRequest) (s : OrderServer) where
  -- A request from a client's socket, under the number expected of the client, waits behind the others,
  -- and the next number is expected.
  receive_request-taken :
      r.me_client_request.client_id < me_max_num_clients
      → MayUse socket (s.cid_tcp_socket r.me_client_request.client_id)
      → r.seq_num ≡ s.cid_next_exp_seq_num r.me_client_request.client_id
      → s.fifo_sequencer.pending_size < me_max_pending_requests
      → receive_request socket t r s ≡ ok (taken socket t r s)
  unfolding receive_request bind_socket
  receive_request-taken hc hs hn room =
      ground (arith, add-eq t r.me_client_request s.fifo_sequencer)

  -- A request under another number than the one expected, or from another socket than the client's
  -- first, is passed over: nothing waits that did not, and the same number stays expected.
  pub receive_request-passed :
      r.me_client_request.client_id < me_max_num_clients
      → ((other : Socket) × (s.cid_tcp_socket r.me_client_request.client_id ≡ some other)
          × (other ≢ socket))
        ⊎ (r.seq_num ≢ s.cid_next_exp_seq_num r.me_client_request.client_id)
      → (u : OrderServer) × (receive_request socket t r s ≡ ok u)
        × (u.fifo_sequencer ≡ s.fifo_sequencer)
        × (u.cid_next_exp_seq_num ≡ s.cid_next_exp_seq_num)
  unfolding receive_request bind_socket
  receive_request-passed hc (inl (other, e, ne)) = (s, ground arith, refl, refl)
  receive_request-passed hc (inr ne) =
      (bind_socket socket r.me_client_request.client_id s, ground arith, ground arith, ground arith)

  taken-socket :
      MayUse socket (s.cid_tcp_socket r.me_client_request.client_id)
      → (taken socket t r s).cid_tcp_socket r.me_client_request.client_id ≡ some socket
  unfolding bind_socket
  taken-socket hs = ground arith

  taken-exp :
      (taken socket t r s).cid_next_exp_seq_num r.me_client_request.client_id
      ≡ inc64 (s.cid_next_exp_seq_num r.me_client_request.client_id)
  taken-exp = rw ==-refl

  receive_request-old :
      r.me_client_request.client_id < me_max_num_clients
      → s.cid_tcp_socket r.me_client_request.client_id ≡ some socket
      → r.seq_num ≢ s.cid_next_exp_seq_num r.me_client_request.client_id
      → receive_request socket t r s ≡ ok s
  unfolding receive_request bind_socket
  receive_request-old hc hs ne = ground arith

-- A request under the number expected of its client, on a socket that the client may use, is taken
-- while there is room, for a client id of the array and a 64-bit number: it waits with its time behind
-- the others, the socket is the client's, and the number's successor is expected then. The same
-- request changes nothing when it comes again.
pub receive_request-replay :
    (socket t again : ℕ) (r : OmClientRequest) (s : OrderServer)
    → r.me_client_request.client_id < me_max_num_clients
    → MayUse socket (s.cid_tcp_socket r.me_client_request.client_id)
    → r.seq_num ≡ s.cid_next_exp_seq_num r.me_client_request.client_id
    → r.seq_num < 2 ^ 64
    → s.fifo_sequencer.pending_size < me_max_pending_requests
    → (u : OrderServer) × (receive_request socket t r s ≡ ok u)
      × (pending u.fifo_sequencer
          ≡ pending s.fifo_sequencer
            ++ (record { recv_time = t; request = r.me_client_request } ∷ []))
      × (u.cid_tcp_socket r.me_client_request.client_id ≡ some socket)
      × (u.cid_next_exp_seq_num r.me_client_request.client_id ≡ inc64 r.seq_num)
      × (receive_request socket again r u ≡ ok u)
receive_request-replay socket t again r s hc hs hn small room = (
  taken socket t r s,
  receive_request-taken socket t r s hc hs hn room,
  pending-added t r.me_client_request s.fifo_sequencer,
  taken-socket socket t r s hs,
  taken-exp socket t r s ∙ ap inc64 (sym hn),
  receive_request-old socket again r (taken socket t r s) hc (taken-socket socket t r s hs)
      (ground (arith, taken-exp socket t r s)),
)

-- The requests as they wait, all received at `t`.
abbrev pub received : ℕ → List MeClientRequest → List RecvTimeClientRequest
received t [] = []
received t (x ∷ xs) = record { recv_time = t; request = x } ∷ received t xs

-- Requests of one client, whose id is one of the array's, under consecutive numbers from the
-- expected one, on the client's socket, are all taken, in order, while there is room.
pub receive_requests-numbered :
    (socket t c n : ℕ) (xs : List MeClientRequest) (s : OrderServer)
    → c < me_max_num_clients
    → All (λ x. x.client_id ≡ c) xs
    → MayUse socket (s.cid_tcp_socket c)
    → s.cid_next_exp_seq_num c ≡ n
    → s.fifo_sequencer.pending_size + length xs ≤ me_max_pending_requests
    → (u : OrderServer) × (receive_requests socket t (numbered om_request n xs) s ≡ ok u)
      × (pending u.fifo_sequencer ≡ pending s.fifo_sequencer ++ received t xs)
      × (u.cid_next_exp_seq_num c ≡ number_after n xs)
unfolding receive_requests
receive_requests-numbered socket t c n [] s hc hx hs hn room =
    (s, refl, sym (append-nil (pending s.fifo_sequencer)), hn)
receive_requests-numbered socket t c n (x ∷ xs) s hc hx hs hn room =
    let r = om_request n x in
    let v = taken socket t r s in
    let hs' : MayUse socket (s.cid_tcp_socket x.client_id) = rw hx.0 hs in
    let hn' : n ≡ s.cid_next_exp_seq_num x.client_id = rw hx.0 (sym hn) in
    let first = receive_request-taken socket t r s (rw hx.0 hc) hs' hn' (omega arith) in
    let bound : v.cid_tcp_socket c ≡ some socket =
      subst (λ k. v.cid_tcp_socket k ≡ some socket) hx.0 (taken-socket socket t r s hs') in
    let exp : v.cid_next_exp_seq_num c ≡ inc64 n =
      subst (λ k. v.cid_next_exp_seq_num k ≡ inc64 n) hx.0
        (taken-exp socket t r s ∙ ap inc64 (sym hn')) in
    let (u, run, p, e) =
      receive_requests-numbered socket t c (inc64 n) xs v hc hx.1 (rw bound refl) exp
        (omega arith) in
    (
      u,
      rw first run,
      p
          ∙ ap (λ ys. ys ++ received t xs) (pending-added t x s.fifo_sequencer)
          ∙ (append_assoc (pending s.fifo_sequencer) (record { recv_time = t; request = x } ∷ [])
              (received t xs)),
      e,
    )
