-- ===== src/Texts/Orders.antt =====
-- The texts of orders, price levels and the best bid and offer: ch06/exchange/matcher/me_order.h and
-- me_order.cpp, ch06/trading/strategy/market_order.h and market_order.cpp.
use building_low_latency_app.Prelude.{ℕ, none, some, [], ◌∷◌}
use building_low_latency_app.Prelude.Result.{Result, ok, ◌>>=◌}
use building_low_latency_app.Framing.{Bytes}
use building_low_latency_app.Types.{order_id_invalid, price_invalid}
use building_low_latency_app.MemPool.{MemPool}
use building_low_latency_app.Matcher.Order.{Pointer, MeOrder, MeOrdersAtPrice}
use building_low_latency_app.Matcher.State.{read}
use building_low_latency_app.MarketBook.Order.{MarketOrder, MarketOrdersAtPrice, Bbo}
use building_low_latency_app.Texts.Decimal.{codes, to_string}
use building_low_latency_app.Texts.Fields.{render}
use building_low_latency_app.Texts.Values.{
  order_id_to_string, ticker_id_to_string, client_id_to_string, price_to_string, qty_to_string,
  priority_to_string, side_to_string,
}

-- `p ? p->… : none_value`
unfoldable pub field_or : {T : Type 0} → MemPool T → (T → ℕ) → ℕ → Pointer → Result ℕ
field_or pool field none_value none = ok none_value
field_or pool field none_value (some i) = read pool (some i) >>= λ o. ok (field o)

-- `MEOrder::toString`
unfoldable pub me_order_to_string : MemPool MeOrder → MeOrder → Result Bytes
unfolding field_or render
me_order_to_string pool o = do
  prev ← field_or pool (λ x. x.market_order_id) order_id_invalid o.prev_order
  next ← field_or pool (λ x. x.market_order_id) order_id_invalid o.next_order
  ok (
      render
        (codes "MEOrder[ ticker:"
          ∷ codes "  cid:"
          ∷ codes "  coid:"
          ∷ codes "  moid:"
          ∷ codes "  side:"
          ∷ codes "  price:"
          ∷ codes "  priority:"
          ∷ codes "  qty:"
          ∷ codes "  prev:"
          ∷ codes "  next:"
          ∷ [])
        (ticker_id_to_string o.ticker_id
          ∷ client_id_to_string o.client_id
          ∷ order_id_to_string o.client_order_id
          ∷ order_id_to_string o.market_order_id
          ∷ side_to_string o.side
          ∷ price_to_string o.price
          ∷ priority_to_string o.priority
          ∷ qty_to_string o.qty
          ∷ order_id_to_string prev
          ∷ order_id_to_string next
          ∷ [])
        (codes "]"))

-- `p ? p->toString() : "null"`
unfoldable pub text_or_null : {T : Type 0} → MemPool T → (T → Result Bytes) → Pointer → Result Bytes
text_or_null pool text none = ok (codes "null")
text_or_null pool text (some i) = read pool (some i) >>= text

-- `MEOrdersAtPrice::toString`. The neighbours' prices are written as numbers.
unfoldable pub me_orders_at_price_to_string :
    MemPool MeOrdersAtPrice → MemPool MeOrder → MeOrdersAtPrice → Result Bytes
unfolding text_or_null field_or me_order_to_string render
me_orders_at_price_to_string levels orders l = do
  first ← text_or_null orders (me_order_to_string orders) l.first_me_order
  prev ← field_or levels (λ x. x.price) price_invalid l.prev_entry
  next ← field_or levels (λ x. x.price) price_invalid l.next_entry
  ok (
      render
        (codes "MEOrdersAtPrice[side:"
          ∷ codes " price:"
          ∷ codes " first_me_order:"
          ∷ codes " prev:"
          ∷ codes " next:"
          ∷ [])
        (side_to_string l.side
          ∷ price_to_string l.price
          ∷ first
          ∷ to_string prev
          ∷ to_string next
          ∷ [])
        (codes " ]"))

-- `MarketOrder::toString`
unfoldable pub market_order_to_string : MemPool MarketOrder → MarketOrder → Result Bytes
unfolding field_or render
market_order_to_string pool o = do
  prev ← field_or pool (λ x. x.order_id) order_id_invalid o.prev_order
  next ← field_or pool (λ x. x.order_id) order_id_invalid o.next_order
  ok (
      render
        (codes "MarketOrder[ oid:"
          ∷ codes "  side:"
          ∷ codes "  price:"
          ∷ codes "  priority:"
          ∷ codes "  qty:"
          ∷ codes "  prev:"
          ∷ codes "  next:"
          ∷ [])
        (order_id_to_string o.order_id
          ∷ side_to_string o.side
          ∷ price_to_string o.price
          ∷ priority_to_string o.priority
          ∷ qty_to_string o.qty
          ∷ order_id_to_string prev
          ∷ order_id_to_string next
          ∷ [])
        (codes "]"))

-- `MarketOrdersAtPrice::toString`
unfoldable pub market_orders_at_price_to_string :
    MemPool MarketOrdersAtPrice → MemPool MarketOrder → MarketOrdersAtPrice → Result Bytes
unfolding text_or_null field_or market_order_to_string render
market_orders_at_price_to_string levels orders l = do
  first ← text_or_null orders (market_order_to_string orders) l.first_mkt_order
  prev ← field_or levels (λ x. x.price) price_invalid l.prev_entry
  next ← field_or levels (λ x. x.price) price_invalid l.next_entry
  ok (
      render
        (codes "MarketOrdersAtPrice[side:"
          ∷ codes " price:"
          ∷ codes " first_me_order:"
          ∷ codes " prev:"
          ∷ codes " next:"
          ∷ [])
        (side_to_string l.side
          ∷ price_to_string l.price
          ∷ first
          ∷ to_string prev
          ∷ to_string next
          ∷ [])
        (codes " ]"))

-- `BBO::toString`
unfoldable pub bbo_to_string : Bbo → Bytes
unfolding render
bbo_to_string b =
    render (codes "BBO{" ∷ codes "@" ∷ codes "X" ∷ codes "@" ∷ [])
      (qty_to_string b.bid_qty
        ∷ price_to_string b.bid_price
        ∷ qty_to_string b.ask_qty
        ∷ price_to_string b.ask_price
        ∷ [])
      (codes "}")
