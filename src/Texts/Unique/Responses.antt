-- ===== src/Texts/Unique/Responses.antt =====
-- The texts of responses, ch06/exchange/order_server/client_response.h.
use building_low_latency_app.Prelude.{◌≡◌, arith, refl, ap}
use building_low_latency_app.Prelude.Lists.{All}
use building_low_latency_app.Types.{
  client_id_invalid, ticker_id_invalid, order_id_invalid, price_invalid, qty_invalid,
}
use building_low_latency_app.Messages.{ClientResponseType, MeClientResponse, OmClientResponse}
use building_low_latency_app.Texts.Decimal.{codes}
use building_low_latency_app.Texts.Fields.{IsValue, is_value-IsValue, render-inj, nth}
use building_low_latency_app.Texts.Unique.{
  number-IsValue, number_or_invalid-inj, side-IsValue, side_to_string-inj, envelope-inj, shown_side,
}
use building_low_latency_app.Texts.Messages.{
  client_response_type_to_string, response_labels, response_values, me_client_response_to_string,
  om_client_response_to_string,
}

response_type-IsValue : (t : ClientResponseType) → IsValue (client_response_type_to_string t)
unfolding client_response_type_to_string
response_type-IsValue ClientResponseType.accepted = is_value-IsValue (codes "ACCEPTED") refl
response_type-IsValue ClientResponseType.canceled = is_value-IsValue (codes "CANCELED") refl
response_type-IsValue ClientResponseType.filled = is_value-IsValue (codes "FILLED") refl
response_type-IsValue ClientResponseType.cancel_rejected =
    is_value-IsValue (codes "CANCEL_REJECTED") refl
response_type-IsValue ClientResponseType.invalid = is_value-IsValue (codes "INVALID") refl
response_type-IsValue (ClientResponseType.unnamed n) = is_value-IsValue (codes "UNKNOWN") refl

abbrev shown_type : ClientResponseType → ClientResponseType
shown_type (ClientResponseType.unnamed n) = ClientResponseType.unnamed 0
shown_type t = t

response_type-inj :
    (s t : ClientResponseType)
    → client_response_type_to_string s ≡ client_response_type_to_string t
    → shown_type s ≡ shown_type t
unfolding client_response_type_to_string
response_type-inj s t e = ground arith

response_values-IsValue : (r : MeClientResponse) → All IsValue (response_values r)
unfolding response_values
response_values-IsValue r = (
  response_type-IsValue r.type,
  (
    number-IsValue client_id_invalid r.client_id,
    (
      number-IsValue ticker_id_invalid r.ticker_id,
      (
        number-IsValue order_id_invalid r.client_order_id,
        (
          number-IsValue order_id_invalid r.market_order_id,
          (
            side-IsValue r.side,
            (
              number-IsValue price_invalid r.price,
              (
                number-IsValue qty_invalid r.exec_qty,
                (number-IsValue qty_invalid r.leaves_qty, tt),
              ),
            ),
          ),
        ),
      ),
    ),
  ),
)

response_values-inj :
    (r s : MeClientResponse)
    → me_client_response_to_string r ≡ me_client_response_to_string s
    → response_values r ≡ response_values s
unfolding me_client_response_to_string
response_values-inj r s e =
    render-inj (codes "MEClientResponse [type:") response_labels (response_values r)
      (response_values s) (codes "]")
      (refl, (refl, (refl, (refl, (refl, (refl, (refl, (refl, tt)))))))) refl refl refl
      (response_values-IsValue r) (response_values-IsValue s) e

-- What the text shows of a response: all but which value without a name the type or the side has.
abbrev pub shown_response : MeClientResponse → MeClientResponse
shown_response r = record r { type = shown_type r.type; side = shown_side r.side }

me_client_response_to_string-inj :
    (r s : MeClientResponse)
    → me_client_response_to_string r ≡ me_client_response_to_string s
    → shown_response r ≡ shown_response s
unfolding response_values
me_client_response_to_string-inj r s e =
    let values = response_values-inj r s e in
    λ i. record {
      type = response_type-inj r.type s.type (ap (nth 0) values) i;
      client_id =
          number_or_invalid-inj client_id_invalid r.client_id s.client_id (ap (nth 1) values) i;
      ticker_id =
          number_or_invalid-inj ticker_id_invalid r.ticker_id s.ticker_id (ap (nth 2) values) i;
      client_order_id =
          number_or_invalid-inj order_id_invalid r.client_order_id s.client_order_id
            (ap (nth 3) values) i;
      market_order_id =
          number_or_invalid-inj order_id_invalid r.market_order_id s.market_order_id
            (ap (nth 4) values) i;
      side = side_to_string-inj r.side s.side (ap (nth 5) values) i;
      price = number_or_invalid-inj price_invalid r.price s.price (ap (nth 6) values) i;
      exec_qty = number_or_invalid-inj qty_invalid r.exec_qty s.exec_qty (ap (nth 7) values) i;
      leaves_qty =
          number_or_invalid-inj qty_invalid r.leaves_qty s.leaves_qty (ap (nth 8) values) i;
    }

-- Two numbered responses with the same text show the same, and have the same sequence number.
pub om_client_response_to_string-inj :
    (r s : OmClientResponse)
    → om_client_response_to_string r ≡ om_client_response_to_string s
    → (r.seq_num ≡ s.seq_num)
      × (shown_response r.me_client_response ≡ shown_response s.me_client_response)
unfolding om_client_response_to_string
om_client_response_to_string-inj r s e =
    let (f, g) =
      envelope-inj (codes "OMClientResponse [ seq:") r.seq_num s.seq_num
        (me_client_response_to_string r.me_client_response)
        (me_client_response_to_string s.me_client_response) e in
    (f, me_client_response_to_string-inj r.me_client_response s.me_client_response g)
