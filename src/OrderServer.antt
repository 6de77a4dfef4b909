-- ===== src/OrderServer.antt =====
-- ch06/exchange/order_server/order_server.h: requests in from the clients' sockets, responses out.
pub mod Fifo
pub mod Requests
pub mod Responses
mod Tests
use building_low_latency_app.Prelude.{
  ℕ, zero, suc, Option, none, some, List, [], ◌∷◌, ◌++◌, Bool, true, false, not, if◌then◌else◌, ltb,
  ◌==◌, inc64, update,
}
use building_low_latency_app.Prelude.Result.{
  Result, ok, abort, ◌>>=◌, ◌>>◌, assert, undefined, out_of_fuel,
}
use mathlib.Core.List
use building_low_latency_app.Types.{ClientId, me_max_num_clients}
use building_low_latency_app.Messages.{OmClientRequest, MeClientResponse, OmClientResponse}
use building_low_latency_app.LfQueue.{LfQueue, size, get_next_to_read, update_read_index}
use building_low_latency_app.Framing.{Bytes, messages}
use Fifo.{FifoSequencer, Sort, add_client_request, sequence_and_publish}

-- A client's connection, by its file descriptor.
abbrev pub Socket : Type 0
Socket = ℕ

-- `sent` is what was put into the sockets' send buffers: an `OMClientResponse` is its two parts, the
-- sequence number and the response, one after the other.
pub record OrderServer : Type 0 where
  pub outgoing_responses : LfQueue MeClientResponse
  pub cid_next_outgoing_seq_num : ClientId → ℕ
  pub cid_next_exp_seq_num : ClientId → ℕ
  pub cid_tcp_socket : ClientId → Option Socket
  pub fifo_sequencer : FifoSequencer
  pub sent : List (Socket × OmClientResponse)

-- The constructor: the arrays are filled.
unfoldable pub make : LfQueue MeClientResponse → FifoSequencer → OrderServer
make responses fifo = record {
  outgoing_responses = responses;
  cid_next_outgoing_seq_num = λ _. 1;
  cid_next_exp_seq_num = λ _. 1;
  cid_tcp_socket = λ _. none;
  fifo_sequencer = fifo;
  sent = [];
}

-- `cid_tcp_socket_[client_id] != socket`, turned round.
abbrev pub is_socket : Option Socket → Socket → Bool
is_socket none s = false
is_socket (some t) s = t == s

-- A client's first request ties the client to the socket.
unfoldable pub bind_socket : Socket → ClientId → OrderServer → OrderServer
bind_socket socket client_id s = elim (s.cid_tcp_socket client_id) [
  | none ↦ record s { cid_tcp_socket = update s.cid_tcp_socket client_id (some socket) }
  | some t ↦ s
]

-- The body of the loop of `recvCallback`. The arrays are indexed without a check.
unfoldable pub receive_request : Socket → ℕ → OmClientRequest → OrderServer → Result OrderServer
receive_request socket rx_time request s =
    let c = request.me_client_request.client_id in
    let b = bind_socket socket c s in
    let exp = s.cid_next_exp_seq_num in
    if not (ltb c me_max_num_clients)
    then abort undefined
    else if not (is_socket (b.cid_tcp_socket c) socket)
    then ok b
    else if not (request.seq_num == exp c)
    then ok b
    else do
      fifo ← add_client_request rx_time request.me_client_request b.fifo_sequencer
      ok (record b { cid_next_exp_seq_num = update exp c (inc64 (exp c)); fifo_sequencer = fifo })

unfoldable pub receive_requests :
    Socket → ℕ → List OmClientRequest → OrderServer → Result OrderServer
receive_requests socket rx_time [] s = ok s
receive_requests socket rx_time (r ∷ rs) s =
    receive_request socket rx_time r s >>= receive_requests socket rx_time rs

abbrev pub sizeof_om_client_request : ℕ
sizeof_om_client_request = 38

-- `recvCallback`. `decode` reads the packed struct; the result holds the bytes that stay in the
-- buffer.
unfoldable pub recv_callback :
    (Bytes → OmClientRequest) → Socket → ℕ → Bytes → OrderServer → Result (Bytes × OrderServer)
recv_callback decode socket rx_time bytes s =
    let cut = messages sizeof_om_client_request bytes in
    receive_requests socket rx_time (List.map decode cut.0) s >>= λ t. ok (cut.1, t)

-- `recvFinishedCallback`
unfoldable pub recv_finished_callback : Sort → OrderServer → OrderServer
recv_finished_callback std_sort s = record s {
  fifo_sequencer = sequence_and_publish std_sort s.fifo_sequencer;
}

-- The body of the loop of `run` for one response.
unfoldable pub send_response : MeClientResponse → OrderServer → Result OrderServer
send_response response s =
    let c = response.client_id in
    let next = s.cid_next_outgoing_seq_num in
    if not (ltb c me_max_num_clients) then abort undefined else elim (s.cid_tcp_socket c) [
      | none ↦ assert false >>= λ _. ok s
      | some socket ↦ do
        q ← update_read_index s.outgoing_responses
        ok (record s {
          outgoing_responses = q;
          cid_next_outgoing_seq_num = update next c (inc64 (next c));
          sent =
              s.sent ++ ((socket, record { seq_num = next c; me_client_response = response }) ∷ []);
        })
    ]

-- The loop of `run` over the responses; the fuel is their number, if none is added meanwhile.
unfoldable pub send_responses : ℕ → OrderServer → Result OrderServer
send_responses zero s = elim (get_next_to_read s.outgoing_responses) [
  | none ↦ ok s
  | some i ↦ abort out_of_fuel
]
send_responses (suc fuel) s = elim (get_next_to_read s.outgoing_responses) [
  | none ↦ ok s
  | some i ↦ send_response (s.outgoing_responses.store i) s >>= send_responses fuel
]
