-- ===== src/Messages/MarketUpdate.antt =====
-- ch06/exchange/market_data/market_update.h: what the market is told.
use building_low_latency_app.Prelude.{ℕ}
use building_low_latency_app.Types.{TickerId, OrderId, Side, Price, Qty, Priority}

-- `INVALID`, `CLEAR`, `ADD`, `MODIFY`, `CANCEL`, `TRADE`, `SNAPSHOT_START`,
-- `SNAPSHOT_END`; and a value without a name
pub data MarketUpdateType : Type 0 where
  invalid clear add modify cancel trade snapshot_start snapshot_end : MarketUpdateType
  unnamed : ℕ → MarketUpdateType

pub record MeMarketUpdate : Type 0 where
  pub type : MarketUpdateType
  pub order_id : OrderId
  pub ticker_id : TickerId
  pub side : Side
  pub price : Price
  pub qty : Qty
  pub priority : Priority

pub record MdpMarketUpdate : Type 0 where
  pub seq_num : ℕ
  pub me_market_update : MeMarketUpdate
