-- ===== src/Messages/ClientResponse.antt =====
-- ch06/exchange/order_server/client_response.h: what a client is told.
use building_low_latency_app.Prelude.{ℕ}
use building_low_latency_app.Types.{ClientId, TickerId, OrderId, Side, Price, Qty}

-- `INVALID`, `ACCEPTED`, `CANCELED`, `FILLED`, `CANCEL_REJECTED`; and a value without a name
pub data ClientResponseType : Type 0 where
  invalid accepted canceled filled cancel_rejected : ClientResponseType
  unnamed : ℕ → ClientResponseType

pub record MeClientResponse : Type 0 where
  pub type : ClientResponseType
  pub client_id : ClientId
  pub ticker_id : TickerId
  pub client_order_id : OrderId
  pub market_order_id : OrderId
  pub side : Side
  pub price : Price
  pub exec_qty : Qty
  pub leaves_qty : Qty

pub record OmClientResponse : Type 0 where
  pub seq_num : ℕ
  pub me_client_response : MeClientResponse
