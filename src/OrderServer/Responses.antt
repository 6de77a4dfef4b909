-- ===== src/OrderServer/Responses.antt =====
-- The order server of ch06/exchange/order_server/order_server.h sends each client its responses under
-- consecutive numbers.
use mathlib.Core.List.{append-nil, append_assoc}
use building_low_latency_app.Prelude.{
  ℕ, zero, suc, ◌<◌, ◌≡◌, List, [], ◌∷◌, ◌++◌, none, some, if◌then◌else◌, ◌==◌, arith, refl, ap,
  ap₂, ◌∙◌, sym, inc64, update, Bool-cases, inl, inr, true, false, ==-refl, ==-of_ne,
}
use building_low_latency_app.Prelude.Lists.{length, All}
use building_low_latency_app.Prelude.Result.{ok, abort, assert, assertion}
use building_low_latency_app.Types.{ClientId, me_max_num_clients}
use building_low_latency_app.Messages.{MeClientResponse, OmClientResponse}
use building_low_latency_app.LfQueue.{LfQueue, size, get_next_to_read, update_read_index}
use building_low_latency_app.LfQueue.Refine.{
  IsValid, contents, size-contents, update_read_index_lem, update_read_index-empty,
}
use building_low_latency_app.Numbering.{om_response, numbered}
use building_low_latency_app.OrderServer.{OrderServer, Socket, send_response, send_responses}

-- The responses as they are sent: each to its client's socket, under its client's next number.
pub stamped :
    (ClientId → Socket) → (ClientId → ℕ) → List MeClientResponse → List (Socket × OmClientResponse)
stamped socket next [] = []
stamped socket next (x ∷ xs) =
    (socket x.client_id, om_response (next x.client_id) x)
    ∷ stamped socket (update next x.client_id (inc64 (next x.client_id))) xs

-- What goes to one connection.
pub sent_on : Socket → List (Socket × OmClientResponse) → List OmClientResponse
sent_on socket [] = []
sent_on socket ((s, m) ∷ ms) = if s == socket then m ∷ sent_on socket ms else sent_on socket ms

-- A response to another client than `c` goes to another connection.
abbrev pub OwnSocket : (ClientId → Socket) → ClientId → MeClientResponse → Type 0
OwnSocket socket c x = socket x.client_id ≡ socket c → x.client_id ≡ c

unfoldable pub responses_of : ClientId → List MeClientResponse → List MeClientResponse
responses_of c [] = []
responses_of c (x ∷ xs) = if x.client_id == c then x ∷ responses_of c xs else responses_of c xs

-- A client whose connection is its own sees its responses there, all of them and in order, numbered
-- without a gap, and nothing else.
pub sent_on-stamped :
    (c : ClientId) (socket : ClientId → Socket) (next : ClientId → ℕ) (xs : List MeClientResponse)
    → All (OwnSocket socket c) xs
    → sent_on (socket c) (stamped socket next xs)
      ≡ numbered om_response (next c) (responses_of c xs)
unfolding stamped sent_on responses_of
sent_on-stamped c socket next [] own = refl
sent_on-stamped c socket next (x ∷ xs) (alone, own) = elim (Bool-cases (x.client_id == c)) [
  | inl mine ↦
      let same : x.client_id ≡ c = ground arith in
      let here : (socket x.client_id == socket c) ≡ true =
        ap (λ k. socket k == socket c) same ∙ ==-refl (socket c) in
      rw (mine, here)
        (ap₂ ◌∷◌ (ap (λ k. om_response (next k) x) same) (
          sent_on-stamped c socket (update next x.client_id (inc64 (next x.client_id))) xs own
          ∙ ap (λ n. numbered om_response n (responses_of c xs))
              (rw mine (ap (λ k. inc64 (next k)) same))))
  | inr other ↦
      let there : (socket x.client_id == socket c) ≡ false =
        ==-of_ne (socket x.client_id) (socket c) (λ e. ground (arith, alone e)) in
      rw (other, there)
        (sent_on-stamped c socket (update next x.client_id (inc64 (next x.client_id))) xs own
          ∙ ap (λ n. numbered om_response n (responses_of c xs)) (rw other))
]

abbrev pub Connected : OrderServer → (ClientId → Socket) → MeClientResponse → Type 0
Connected s socket x =
    (x.client_id < me_max_num_clients) × (s.cid_tcp_socket x.client_id ≡ some (socket x.client_id))

abbrev after_send : LfQueue MeClientResponse → Socket → MeClientResponse → OrderServer → OrderServer
after_send q socket x s = record s {
  outgoing_responses = q;
  cid_next_outgoing_seq_num =
      update s.cid_next_outgoing_seq_num x.client_id
        (inc64 (s.cid_next_outgoing_seq_num x.client_id));
  sent = s.sent ++ ((socket, om_response (s.cid_next_outgoing_seq_num x.client_id) x) ∷ []);
}

send_responses-nil :
    (fuel : ℕ) (s : OrderServer) → size s.outgoing_responses ≡ 0 → send_responses fuel s ≡ ok s
unfolding send_responses
send_responses-nil zero s e = ground (arith, update_read_index-empty s.outgoing_responses e)
send_responses-nil (suc fuel) s e = ground (arith, update_read_index-empty s.outgoing_responses e)

send_responses-step :
    (fuel : ℕ) (s : OrderServer) (q : LfQueue MeClientResponse) (x : MeClientResponse) (i : ℕ)
    (socket : Socket)
    → get_next_to_read s.outgoing_responses ≡ some i
    → update_read_index s.outgoing_responses ≡ ok q
    → s.outgoing_responses.store i ≡ x
    → x.client_id < me_max_num_clients
    → s.cid_tcp_socket x.client_id ≡ some socket
    → send_responses (suc fuel) s ≡ send_responses fuel (after_send q socket x s)
unfolding send_responses send_response
send_responses-step fuel s q x i socket next moved e hc hs = ground arith

-- What the loop has done: `xs` is sent, and the queue is empty.
pub record Sent (s : OrderServer) (socket : ClientId → Socket) (xs : List MeClientResponse)
    (u : OrderServer) : Type 0 where
  pub sent : u.sent ≡ s.sent ++ stamped socket s.cid_next_outgoing_seq_num xs
  pub empty : contents u.outgoing_responses ≡ []
  pub valid : IsValid u.outgoing_responses
  pub same_requests : u.fifo_sequencer ≡ s.fifo_sequencer

send_each :
    (socket : ClientId → Socket) (xs : List MeClientResponse) (s : OrderServer)
    → IsValid s.outgoing_responses
    → contents s.outgoing_responses ≡ xs
    → All (Connected s socket) xs
    → (u : OrderServer) × (send_responses (length xs) s ≡ ok u) × Sent s socket xs u
unfolding stamped
send_each socket [] s v e h = (
  s,
  send_responses-nil zero s (sym (size-contents s.outgoing_responses) ∙ ap length e),
  record { sent = sym (append-nil s.sent); empty = e; valid = v; same_requests = refl },
)
send_each socket (x ∷ xs) s v e h =
    let q = s.outgoing_responses in
    let (r, next, moved, c, v', _) =
      update_read_index_lem q v (omega (arith, size-contents q, ap length e)) in
    let first : q.store q.next_read_index ≡ x = cc in
    let rest : contents r ≡ xs = cc in
    let s' = after_send r (socket x.client_id) x s in
    let (u, run, t) = send_each socket xs s' v' rest h.1 in
    (
      u,
      send_responses-step (length xs) s r x q.next_read_index (socket x.client_id) next moved first
            h.0.0 h.0.1
          ∙ run,
      record {
        sent =
            t.sent
            ∙ append_assoc s.sent
                ((socket x.client_id, om_response (s.cid_next_outgoing_seq_num x.client_id) x) ∷ [])
                _;
        empty = t.empty;
        valid = t.valid;
        same_requests = t.same_requests;
      },
    )

-- A turn of the loop empties a valid queue and sends every response to its client's socket, in the
-- queue's order, if all their clients are connected.
pub send_responses_lem :
    (socket : ClientId → Socket) (s : OrderServer)
    → IsValid s.outgoing_responses
    → All (Connected s socket) (contents s.outgoing_responses)
    → (u : OrderServer) × (send_responses (size s.outgoing_responses) s ≡ ok u)
      × Sent s socket (contents s.outgoing_responses) u
send_responses_lem socket s v h =
    rw (← size-contents s.outgoing_responses)
      (send_each socket (contents s.outgoing_responses) s v refl h)

-- A response for a client that is not connected ends the process.
pub send_response-unconnected :
    (x : MeClientResponse) (s : OrderServer)
    → x.client_id < me_max_num_clients
    → s.cid_tcp_socket x.client_id ≡ none
    → send_response x s ≡ abort assertion
unfolding send_response assert
send_response-unconnected x s hc hs = ground arith

pub responses_of-mine :
    (c : ClientId) (xs : List MeClientResponse) → All (λ x. x.client_id ≡ c) (responses_of c xs)
unfolding responses_of
responses_of-mine c [] = tt
responses_of-mine c (x ∷ xs) = elim (Bool-cases (x.client_id == c)) [
  | inl mine ↦ rw mine (ground arith, responses_of-mine c xs)
  | inr other ↦ rw other (responses_of-mine c xs)
]
