-- ===== src/Messages/ClientRequest.antt =====
-- ch06/exchange/order_server/client_request.h: what a client asks.
use building_low_latency_app.Prelude.{ℕ}
use building_low_latency_app.Types.{ClientId, TickerId, OrderId, Side, Price, Qty}

-- `INVALID`, `NEW`, `CANCEL`; and a value without a name
pub data ClientRequestType : Type 0 where
  invalid new cancel : ClientRequestType
  unnamed : ℕ → ClientRequestType

pub record MeClientRequest : Type 0 where
  pub type : ClientRequestType
  pub client_id : ClientId
  pub ticker_id : TickerId
  pub order_id : OrderId
  pub side : Side
  pub price : Price
  pub qty : Qty

pub record OmClientRequest : Type 0 where
  pub seq_num : ℕ
  pub me_client_request : MeClientRequest
