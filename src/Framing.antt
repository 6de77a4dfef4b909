-- ===== src/Framing.antt =====
-- How a receive callback cuts `inbound_data_` into messages: the loop that order_server.h,
-- order_gateway.cpp and market_data_consumer.cpp of ch06 share, and the move of what is left to the
-- buffer's front. A buffer is its bytes up to `next_rcv_valid_index_`.
pub mod Laws
mod Tests
use building_low_latency_app.Prelude.{ℕ, zero, suc, List, [], ◌∷◌, if◌then◌else◌, leb}
use building_low_latency_app.Prelude.Lists.{length, take, drop}

abbrev pub Bytes : Type 0
Bytes = List ℕ

-- `for (; i + size <= next_rcv_valid_index_; i += size)`: the messages, and the bytes that stay.
unfoldable pub split : ℕ → ℕ → Bytes → List Bytes × Bytes
split zero size bytes = ([], bytes)
split (suc fuel) size bytes =
    let rest = split fuel size (drop size bytes) in
    if leb size (length bytes) then (take size bytes ∷ rest.0, rest.1) else ([], bytes)

-- The loop with fuel for a buffer of this length.
unfoldable pub messages : ℕ → Bytes → List Bytes × Bytes
messages size bytes = split (suc (length bytes)) size bytes
