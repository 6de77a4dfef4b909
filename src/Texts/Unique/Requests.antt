-- ===== src/Texts/Unique/Requests.antt =====
-- The texts of requests, ch06/exchange/order_server/client_request.h.
use mathlib.Core.Logic.{◌↔◌}
use building_low_latency_app.Prelude.{◌≡◌, arith, refl, ap, sym, ◌∙◌}
use building_low_latency_app.Prelude.Lists.{All}
use building_low_latency_app.Types.{
  client_id_invalid, ticker_id_invalid, order_id_invalid, price_invalid, qty_invalid,
}
use building_low_latency_app.Messages.{ClientRequestType, MeClientRequest, OmClientRequest}
use building_low_latency_app.Texts.Decimal.{codes}
use building_low_latency_app.Texts.Fields.{IsValue, is_value-IsValue, render-inj, nth}
use building_low_latency_app.Texts.Unique.{
  number-IsValue, number_or_invalid-inj, side-IsValue, side_to_string-inj, envelope-inj, shown_side,
  shown_side-text,
}
use building_low_latency_app.Texts.Messages.{
  client_request_type_to_string, request_labels, request_values, me_client_request_to_string,
  om_client_request_to_string,
}

request_type-IsValue : (t : ClientRequestType) → IsValue (client_request_type_to_string t)
unfolding client_request_type_to_string
request_type-IsValue ClientRequestType.new = is_value-IsValue (codes "NEW") refl
request_type-IsValue ClientRequestType.cancel = is_value-IsValue (codes "CANCEL") refl
request_type-IsValue ClientRequestType.invalid = is_value-IsValue (codes "INVALID") refl
request_type-IsValue (ClientRequestType.unnamed n) = is_value-IsValue (codes "UNKNOWN") refl

abbrev shown_type : ClientRequestType → ClientRequestType
shown_type (ClientRequestType.unnamed n) = ClientRequestType.unnamed 0
shown_type t = t

request_type-inj :
    (s t : ClientRequestType)
    → client_request_type_to_string s ≡ client_request_type_to_string t
    → shown_type s ≡ shown_type t
unfolding client_request_type_to_string
request_type-inj s t e = ground arith

shown_type-text :
    (t : ClientRequestType)
    → client_request_type_to_string (shown_type t) ≡ client_request_type_to_string t
unfolding client_request_type_to_string
shown_type-text t = ground arith

request_values-IsValue : (r : MeClientRequest) → All IsValue (request_values r)
unfolding request_values
request_values-IsValue r = (
  request_type-IsValue r.type,
  (
    number-IsValue client_id_invalid r.client_id,
    (
      number-IsValue ticker_id_invalid r.ticker_id,
      (
        number-IsValue order_id_invalid r.order_id,
        (
          side-IsValue r.side,
          (number-IsValue price_invalid r.price, (number-IsValue qty_invalid r.qty, tt)),
        ),
      ),
    ),
  ),
)

request_values-inj :
    (r s : MeClientRequest)
    → me_client_request_to_string r ≡ me_client_request_to_string s
    → request_values r ≡ request_values s
unfolding me_client_request_to_string
request_values-inj r s e =
    render-inj (codes "MEClientRequest [type:") request_labels (request_values r) (request_values s)
      (codes "]") (refl, (refl, (refl, (refl, (refl, (refl, tt)))))) refl refl refl
      (request_values-IsValue r) (request_values-IsValue s) e

-- What the text shows of a request: all but which value without a name the type or the side has.
abbrev pub shown_request : MeClientRequest → MeClientRequest
shown_request r = record r { type = shown_type r.type; side = shown_side r.side }

shown_request-text :
    (r : MeClientRequest)
    → me_client_request_to_string (shown_request r) ≡ me_client_request_to_string r
unfolding me_client_request_to_string request_values
shown_request-text r = rw (shown_type-text r.type, shown_side-text r.side) refl

me_client_request_to_string-inj :
    (r s : MeClientRequest)
    → me_client_request_to_string r ≡ me_client_request_to_string s
    → shown_request r ≡ shown_request s
unfolding request_values
me_client_request_to_string-inj r s e =
    let values = request_values-inj r s e in
    λ i. record {
      type = request_type-inj r.type s.type (ap (nth 0) values) i;
      client_id =
          number_or_invalid-inj client_id_invalid r.client_id s.client_id (ap (nth 1) values) i;
      ticker_id =
          number_or_invalid-inj ticker_id_invalid r.ticker_id s.ticker_id (ap (nth 2) values) i;
      order_id = number_or_invalid-inj order_id_invalid r.order_id s.order_id (ap (nth 3) values) i;
      side = side_to_string-inj r.side s.side (ap (nth 4) values) i;
      price = number_or_invalid-inj price_invalid r.price s.price (ap (nth 5) values) i;
      qty = number_or_invalid-inj qty_invalid r.qty s.qty (ap (nth 6) values) i;
    }

abbrev pub shown_numbered : OmClientRequest → OmClientRequest
shown_numbered r = record r { me_client_request = shown_request r.me_client_request }

shown_numbered-text :
    (r : OmClientRequest)
    → om_client_request_to_string (shown_numbered r) ≡ om_client_request_to_string r
unfolding om_client_request_to_string
shown_numbered-text r = rw (shown_request-text r.me_client_request) refl

numbered-parts :
    (r s : OmClientRequest)
    → om_client_request_to_string r ≡ om_client_request_to_string s
    → (r.seq_num ≡ s.seq_num)
      × (me_client_request_to_string r.me_client_request
          ≡ me_client_request_to_string s.me_client_request)
unfolding om_client_request_to_string
numbered-parts r s e =
    envelope-inj (codes "OMClientRequest [ seq:") r.seq_num s.seq_num
      (me_client_request_to_string r.me_client_request)
      (me_client_request_to_string s.me_client_request) e

-- Two numbered requests have the same text when, and only when, they are the same, sequence number and
-- all, but for which value without a name a type or a side has: those are all printed alike.
pub om_client_request_to_string-inj :
    (r s : OmClientRequest)
    → (om_client_request_to_string r ≡ om_client_request_to_string s)
      ↔ (shown_numbered r ≡ shown_numbered s)
om_client_request_to_string-inj r s = (
  λ e.
      let (f, g) = numbered-parts r s e in
      λ i. record {
        seq_num = f i;
        me_client_request =
            me_client_request_to_string-inj r.me_client_request s.me_client_request g i;
      },
  λ e. sym (shown_numbered-text r) ∙ ap om_client_request_to_string e ∙ shown_numbered-text s,
)
