-- ===== src/OrderGateway.antt =====
-- ch06/trading/order_gw: a client's end of the connection to the exchange.
pub mod Responses
pub mod Requests
pub mod Tests
use building_low_latency_app.Prelude.{
  ℕ, zero, suc, none, some, List, [], ◌∷◌, ◌++◌, Bool, true, false, not, if◌then◌else◌, ◌==◌, inc64,
}
use building_low_latency_app.Prelude.Result.{Result, ok, abort, ◌>>=◌, out_of_fuel}
use mathlib.Core.List
use building_low_latency_app.Types.{ClientId}
use building_low_latency_app.Messages.{
  MeClientRequest, OmClientRequest, MeClientResponse, OmClientResponse,
}
use building_low_latency_app.LfQueue.{LfQueue, push, get_next_to_read, update_read_index}
use building_low_latency_app.Framing.{Bytes, messages}

-- `sent` is what was put into the socket's send buffer.
pub record OrderGateway : Type 0 where
  pub client_id : ClientId
  pub outgoing_requests : LfQueue MeClientRequest
  pub incoming_responses : LfQueue MeClientResponse
  pub next_outgoing_seq_num : ℕ
  pub next_exp_seq_num : ℕ
  pub sent : List OmClientRequest

-- The constructor.
unfoldable pub make : ClientId → LfQueue MeClientRequest → LfQueue MeClientResponse → OrderGateway
make client_id requests responses = record {
  client_id = client_id;
  outgoing_requests = requests;
  incoming_responses = responses;
  next_outgoing_seq_num = 1;
  next_exp_seq_num = 1;
  sent = [];
}

-- The body of the loop of `recvCallback`.
unfoldable pub receive_response : OmClientResponse → OrderGateway → OrderGateway
receive_response response g =
    let r = response.me_client_response in
    if not (r.client_id == g.client_id)
    then g
    else if not (response.seq_num == g.next_exp_seq_num)
    then g
    else record g {
      next_exp_seq_num = inc64 g.next_exp_seq_num;
      incoming_responses = push r g.incoming_responses;
    }

unfoldable pub receive_responses : List OmClientResponse → OrderGateway → OrderGateway
receive_responses [] g = g
receive_responses (r ∷ rs) g = receive_responses rs (receive_response r g)

abbrev pub sizeof_om_client_response : ℕ
sizeof_om_client_response = 50

-- `recvCallback`. `decode` reads the packed struct; the result holds the bytes that stay in the
-- buffer.
unfoldable pub recv_callback :
    (Bytes → OmClientResponse) → Bytes → OrderGateway → Bytes × OrderGateway
recv_callback decode bytes g =
    let cut = messages sizeof_om_client_response bytes in
    (cut.1, receive_responses (List.map decode cut.0) g)

-- The body of the loop of `run` for one request.
unfoldable pub send_request : MeClientRequest → OrderGateway → Result OrderGateway
send_request request g = do
  q ← update_read_index g.outgoing_requests
  ok (record g {
    outgoing_requests = q;
    next_outgoing_seq_num = inc64 g.next_outgoing_seq_num;
    sent =
        g.sent ++ (record { seq_num = g.next_outgoing_seq_num; me_client_request = request } ∷ []);
  })

-- The loop of `run` over the requests; the fuel is their number, if none is added meanwhile.
unfoldable pub send_requests : ℕ → OrderGateway → Result OrderGateway
send_requests zero g = elim (get_next_to_read g.outgoing_requests) [
  | none ↦ ok g
  | some i ↦ abort out_of_fuel
]
send_requests (suc fuel) g = elim (get_next_to_read g.outgoing_requests) [
  | none ↦ ok g
  | some i ↦ send_request (g.outgoing_requests.store i) g >>= send_requests fuel
]
