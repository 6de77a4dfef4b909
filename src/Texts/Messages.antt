-- ===== src/Texts/Messages.antt =====
-- The texts of the messages: client_request.h and client_response.h of ch06/exchange/order_server, and
-- market_update.h of ch06/exchange/market_data.
use building_low_latency_app.Prelude.{List, [], ◌∷◌, to_u32}
use building_low_latency_app.Framing.{Bytes}
use building_low_latency_app.Messages.{
  ClientRequestType, MeClientRequest, OmClientRequest, ClientResponseType, MeClientResponse,
  OmClientResponse, MarketUpdateType, MeMarketUpdate, MdpMarketUpdate,
}
use building_low_latency_app.Texts.Decimal.{codes, to_string}
use building_low_latency_app.Texts.Fields.{render}
use building_low_latency_app.Texts.Values.{
  order_id_to_string, ticker_id_to_string, client_id_to_string, price_to_string, qty_to_string,
  side_to_string,
}

-- `clientRequestTypeToString`
unfoldable pub client_request_type_to_string : ClientRequestType → Bytes
client_request_type_to_string ClientRequestType.new = codes "NEW"
client_request_type_to_string ClientRequestType.cancel = codes "CANCEL"
client_request_type_to_string ClientRequestType.invalid = codes "INVALID"
client_request_type_to_string (ClientRequestType.unnamed n) = codes "UNKNOWN"

abbrev pub request_labels : List Bytes
request_labels =
    codes " client:"
    ∷ codes " ticker:"
    ∷ codes " oid:"
    ∷ codes " side:"
    ∷ codes " price:"
    ∷ codes " qty:"
    ∷ []

unfoldable pub request_values : MeClientRequest → List Bytes
request_values r =
    client_request_type_to_string r.type
    ∷ client_id_to_string r.client_id
    ∷ ticker_id_to_string r.ticker_id
    ∷ order_id_to_string r.order_id
    ∷ side_to_string r.side
    ∷ price_to_string r.price
    ∷ qty_to_string r.qty
    ∷ []

-- `MEClientRequest::toString`
unfoldable pub me_client_request_to_string : MeClientRequest → Bytes
unfolding request_values render
me_client_request_to_string r =
    render (codes "MEClientRequest [type:" ∷ request_labels) (request_values r) (codes "]")

-- `OMClientRequest::toString`
unfoldable pub om_client_request_to_string : OmClientRequest → Bytes
unfolding render
om_client_request_to_string r =
    render (codes "OMClientRequest [ seq:" ∷ codes " " ∷ [])
      (to_string r.seq_num ∷ me_client_request_to_string r.me_client_request ∷ []) (codes "]")

-- `clientResponseTypeToString`
unfoldable pub client_response_type_to_string : ClientResponseType → Bytes
client_response_type_to_string ClientResponseType.accepted = codes "ACCEPTED"
client_response_type_to_string ClientResponseType.canceled = codes "CANCELED"
client_response_type_to_string ClientResponseType.filled = codes "FILLED"
client_response_type_to_string ClientResponseType.cancel_rejected = codes "CANCEL_REJECTED"
client_response_type_to_string ClientResponseType.invalid = codes "INVALID"
client_response_type_to_string (ClientResponseType.unnamed n) = codes "UNKNOWN"

abbrev pub response_labels : List Bytes
response_labels =
    codes " client:"
    ∷ codes " ticker:"
    ∷ codes " coid:"
    ∷ codes " moid:"
    ∷ codes " side:"
    ∷ codes " price:"
    ∷ codes " exec_qty:"
    ∷ codes " leaves_qty:"
    ∷ []

unfoldable pub response_values : MeClientResponse → List Bytes
response_values r =
    client_response_type_to_string r.type
    ∷ client_id_to_string r.client_id
    ∷ ticker_id_to_string r.ticker_id
    ∷ order_id_to_string r.client_order_id
    ∷ order_id_to_string r.market_order_id
    ∷ side_to_string r.side
    ∷ price_to_string r.price
    ∷ qty_to_string r.exec_qty
    ∷ qty_to_string r.leaves_qty
    ∷ []

-- `MEClientResponse::toString`
unfoldable pub me_client_response_to_string : MeClientResponse → Bytes
unfolding response_values render
me_client_response_to_string r =
    render (codes "MEClientResponse [type:" ∷ response_labels) (response_values r) (codes "]")

-- `OMClientResponse::toString`
unfoldable pub om_client_response_to_string : OmClientResponse → Bytes
unfolding render
om_client_response_to_string r =
    render (codes "OMClientResponse [ seq:" ∷ codes " " ∷ [])
      (to_string r.seq_num ∷ me_client_response_to_string r.me_client_response ∷ []) (codes "]")

-- `marketUpdateTypeToString`
unfoldable pub market_update_type_to_string : MarketUpdateType → Bytes
market_update_type_to_string MarketUpdateType.clear = codes "CLEAR"
market_update_type_to_string MarketUpdateType.add = codes "ADD"
market_update_type_to_string MarketUpdateType.modify = codes "MODIFY"
market_update_type_to_string MarketUpdateType.cancel = codes "CANCEL"
market_update_type_to_string MarketUpdateType.trade = codes "TRADE"
market_update_type_to_string MarketUpdateType.snapshot_start = codes "SNAPSHOT_START"
market_update_type_to_string MarketUpdateType.snapshot_end = codes "SNAPSHOT_END"
market_update_type_to_string MarketUpdateType.invalid = codes "INVALID"
market_update_type_to_string (MarketUpdateType.unnamed n) = codes "UNKNOWN"

abbrev pub update_labels : List Bytes
update_labels =
    codes " ticker:"
    ∷ codes " oid:"
    ∷ codes " side:"
    ∷ codes " price:"
    ∷ codes " qty:"
    ∷ codes " priority:"
    ∷ []

-- The priority is passed to `qtyToString`, which takes 32 bits of it.
unfoldable pub update_values : MeMarketUpdate → List Bytes
update_values u =
    market_update_type_to_string u.type
    ∷ ticker_id_to_string u.ticker_id
    ∷ order_id_to_string u.order_id
    ∷ side_to_string u.side
    ∷ price_to_string u.price
    ∷ qty_to_string u.qty
    ∷ qty_to_string (to_u32 u.priority)
    ∷ []

-- `MEMarketUpdate::toString`
unfoldable pub me_market_update_to_string : MeMarketUpdate → Bytes
unfolding update_values render
me_market_update_to_string u =
    render (codes "MEMarketUpdate [type:" ∷ update_labels) (update_values u) (codes "]")

-- `MDPMarketUpdate::toString`
unfoldable pub mdp_market_update_to_string : MdpMarketUpdate → Bytes
unfolding render
mdp_market_update_to_string u =
    render (codes "MDPMarketUpdate [ seq:" ∷ codes " " ∷ [])
      (to_string u.seq_num ∷ me_market_update_to_string u.me_market_update ∷ []) (codes "]")
