-- ===== src/Types.antt =====
-- ch06/common/types.h: the numbers by which the exchange and its clients name things. Each is an
-- unsigned integer; the largest value of its type says that there is none.
use building_low_latency_app.Prelude.{ℕ, ◌-◌, ◌*◌, ◌^◌, Bool, true, false}

abbrev pub me_max_tickers : ℕ
me_max_tickers = 8

abbrev pub me_max_num_clients : ℕ
me_max_num_clients = 256

abbrev pub me_max_order_ids : ℕ
me_max_order_ids = 1024 * 1024

abbrev pub me_max_price_levels : ℕ
me_max_price_levels = 256

-- `uint64_t`
abbrev pub OrderId : Type 0
OrderId = ℕ

abbrev pub order_id_invalid : OrderId
order_id_invalid = 2 ^ 64 - 1

-- `uint32_t`
abbrev pub TickerId : Type 0
TickerId = ℕ

abbrev pub ticker_id_invalid : TickerId
ticker_id_invalid = 2 ^ 32 - 1

-- `uint32_t`
abbrev pub ClientId : Type 0
ClientId = ℕ

abbrev pub client_id_invalid : ClientId
client_id_invalid = 2 ^ 32 - 1

-- `uint64_t`
abbrev pub Price : Type 0
Price = ℕ

abbrev pub price_invalid : Price
price_invalid = 2 ^ 64 - 1

-- `uint32_t`
abbrev pub Qty : Type 0
Qty = ℕ

abbrev pub qty_invalid : Qty
qty_invalid = 2 ^ 32 - 1

-- `uint64_t`
abbrev pub Priority : Type 0
Priority = ℕ

abbrev pub priority_invalid : Priority
priority_invalid = 2 ^ 64 - 1

-- `INVALID`, `BUY`, `SELL`, and a value without a name, which a message from the network may hold; it
-- is given as a `size_t`.
pub data Side : Type 0 where
  invalid buy sell : Side
  unnamed : ℕ → Side

-- `side == Side::BUY` and `side == Side::SELL`
abbrev pub is_buy : Side → Bool
is_buy buy = true
is_buy _ = false

abbrev pub is_sell : Side → Bool
is_sell sell = true
is_sell _ = false
