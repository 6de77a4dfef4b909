-- ===== src/Texts/Values.antt =====
-- The texts of ch06/common/types.h.
use building_low_latency_app.Prelude.{ℕ, ◌==◌, if◌then◌else◌, inc64}
use building_low_latency_app.Framing.{Bytes}
use building_low_latency_app.Types.{
  OrderId, TickerId, ClientId, Price, Qty, Priority, Side, invalid, buy, sell, unnamed,
  order_id_invalid, ticker_id_invalid, client_id_invalid, price_invalid, qty_invalid,
  priority_invalid,
}
use building_low_latency_app.Texts.Decimal.{codes, to_string}

-- The text of a number of which one value means that there is none.
unfoldable pub number_or_invalid : ℕ → ℕ → Bytes
number_or_invalid none_value n = if n == none_value then codes "INVALID" else to_string n

-- `orderIdToString`
abbrev pub order_id_to_string : OrderId → Bytes
order_id_to_string n = number_or_invalid order_id_invalid n

-- `tickerIdToString`
abbrev pub ticker_id_to_string : TickerId → Bytes
ticker_id_to_string n = number_or_invalid ticker_id_invalid n

-- `clientIdToString`
abbrev pub client_id_to_string : ClientId → Bytes
client_id_to_string n = number_or_invalid client_id_invalid n

-- `priceToString`
abbrev pub price_to_string : Price → Bytes
price_to_string n = number_or_invalid price_invalid n

-- `qtyToString`
abbrev pub qty_to_string : Qty → Bytes
qty_to_string n = number_or_invalid qty_invalid n

-- `priorityToString`
abbrev pub priority_to_string : Priority → Bytes
priority_to_string n = number_or_invalid priority_invalid n

-- `sideToString`
unfoldable pub side_to_string : Side → Bytes
side_to_string buy = codes "BUY"
side_to_string sell = codes "SELL"
side_to_string invalid = codes "INVALID"
side_to_string (unnamed n) = codes "UNKNOWN"

-- `sideToIndex`
unfoldable pub side_to_index : Side → ℕ
side_to_index sell = 0
side_to_index invalid = 1
side_to_index buy = 2
side_to_index (unnamed n) = inc64 n
