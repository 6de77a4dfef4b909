-- ===== src/Texts/Tests.antt =====
-- Texts of messages (the `toString` functions of ch06).
use building_low_latency_app.Prelude.{ℕ, ◌≡◌, ◌+◌, ◌^◌, refl}
use mathlib.Core.Logic.{◌↔◌}
use building_low_latency_app.Types.{Side, buy, sell, unnamed, order_id_invalid}
use building_low_latency_app.Messages.{
  ClientRequestType, OmClientRequest, MarketUpdateType, MeMarketUpdate,
}
use building_low_latency_app.Texts.Decimal.{codes, digits, to_string}
use building_low_latency_app.Texts.Fields.{render}
use building_low_latency_app.Texts.Values.{number_or_invalid, side_to_string}
use building_low_latency_app.Texts.Messages.{
  client_request_type_to_string, request_values, me_client_request_to_string,
  om_client_request_to_string, market_update_type_to_string, update_values,
  me_market_update_to_string,
}
use building_low_latency_app.Texts.Unique.Requests.{shown_numbered, om_client_request_to_string-inj}
use building_low_latency_app.Texts.Unique.Updates.{shown, me_market_update_to_string_lem}

abbrev request : OmClientRequest
request = record {
  seq_num = 17;
  me_client_request = record {
    type = ClientRequestType.new;
    client_id = 2;
    ticker_id = 1;
    order_id = order_id_invalid;
    side = buy;
    price = 100;
    qty = 50;
  };
}

request_text :
    om_client_request_to_string request
    ≡ codes
        "OMClientRequest [ seq:17 MEClientRequest [type:NEW client:2 ticker:1 oid:INVALID side:BUY price:100 qty:50]]"
unfolding om_client_request_to_string me_client_request_to_string request_values render
    number_or_invalid side_to_string client_request_type_to_string to_string digits
request_text = refl

abbrev request_on : Side → OmClientRequest
request_on side = record request {
  me_client_request = record (request.me_client_request) { side = side };
}

om_client_request_to_string-inj_example :
    (om_client_request_to_string (request_on (unnamed 5))
      ≡ om_client_request_to_string (request_on (unnamed 7)))
    ↔ (shown_numbered (request_on (unnamed 5)) ≡ shown_numbered (request_on (unnamed 7)))
om_client_request_to_string-inj_example =
    om_client_request_to_string-inj (request_on (unnamed 5)) (request_on (unnamed 7))

unknown_sides :
    om_client_request_to_string (request_on (unnamed 5))
    ≡ om_client_request_to_string (request_on (unnamed 7))
unknown_sides = om_client_request_to_string-inj_example.1 refl

abbrev update_of : ℕ → MeMarketUpdate
update_of priority = record {
  type = MarketUpdateType.add;
  order_id = 9;
  ticker_id = 1;
  side = sell;
  price = 100;
  qty = 50;
  priority = priority;
}

me_market_update_to_string_lem_example :
    (me_market_update_to_string (update_of 1) ≡ me_market_update_to_string (update_of (2 ^ 32 + 1)))
    ↔ (shown (update_of 1) ≡ shown (update_of (2 ^ 32 + 1)))
me_market_update_to_string_lem_example =
    me_market_update_to_string_lem (update_of 1) (update_of (2 ^ 32 + 1))

update_text :
    me_market_update_to_string (update_of (2 ^ 32 + 1))
    ≡ codes "MEMarketUpdate [type:ADD ticker:1 oid:9 side:SELL price:100 qty:50 priority:1]"
unfolding me_market_update_to_string update_values render number_or_invalid side_to_string
    market_update_type_to_string to_string digits
update_text = refl
