-- ===== src/Texts/Unique/Updates.antt =====
-- The texts of updates, ch06/exchange/market_data/market_update.h.
use mathlib.Core.Logic.{◌↔◌}
use building_low_latency_app.Prelude.{ℕ, ◌≡◌, ◌∷◌, to_u32, arith, refl, ap, sym, ◌∙◌}
use building_low_latency_app.Prelude.Lists.{All}
use building_low_latency_app.Types.{ticker_id_invalid, order_id_invalid, price_invalid, qty_invalid}
use building_low_latency_app.Messages.{MarketUpdateType, MeMarketUpdate}
use building_low_latency_app.Texts.Decimal.{codes}
use building_low_latency_app.Texts.Fields.{IsValue, is_value-IsValue, render, render-inj, nth}
use building_low_latency_app.Texts.Unique.{
  number-IsValue, number_or_invalid-inj, side-IsValue, side_to_string-inj, shown_side,
  shown_side-text,
}
use building_low_latency_app.Texts.Messages.{
  market_update_type_to_string, update_labels, update_values, me_market_update_to_string,
}

update_type-IsValue : (t : MarketUpdateType) → IsValue (market_update_type_to_string t)
unfolding market_update_type_to_string
update_type-IsValue MarketUpdateType.clear = is_value-IsValue (codes "CLEAR") refl
update_type-IsValue MarketUpdateType.add = is_value-IsValue (codes "ADD") refl
update_type-IsValue MarketUpdateType.modify = is_value-IsValue (codes "MODIFY") refl
update_type-IsValue MarketUpdateType.cancel = is_value-IsValue (codes "CANCEL") refl
update_type-IsValue MarketUpdateType.trade = is_value-IsValue (codes "TRADE") refl
update_type-IsValue MarketUpdateType.snapshot_start = is_value-IsValue (codes "SNAPSHOT_START") refl
update_type-IsValue MarketUpdateType.snapshot_end = is_value-IsValue (codes "SNAPSHOT_END") refl
update_type-IsValue MarketUpdateType.invalid = is_value-IsValue (codes "INVALID") refl
update_type-IsValue (MarketUpdateType.unnamed n) = is_value-IsValue (codes "UNKNOWN") refl

abbrev shown_type : MarketUpdateType → MarketUpdateType
shown_type (MarketUpdateType.unnamed n) = MarketUpdateType.unnamed 0
shown_type t = t

update_type-inj :
    (s t : MarketUpdateType)
    → market_update_type_to_string s ≡ market_update_type_to_string t
    → shown_type s ≡ shown_type t
unfolding market_update_type_to_string
update_type-inj s t e = ground arith

shown_type-text :
    (t : MarketUpdateType)
    → market_update_type_to_string (shown_type t) ≡ market_update_type_to_string t
unfolding market_update_type_to_string
shown_type-text t = ground arith

update_values-IsValue : (r : MeMarketUpdate) → All IsValue (update_values r)
unfolding update_values
update_values-IsValue r = (
  update_type-IsValue r.type,
  (
    number-IsValue ticker_id_invalid r.ticker_id,
    (
      number-IsValue order_id_invalid r.order_id,
      (
        side-IsValue r.side,
        (
          number-IsValue price_invalid r.price,
          (number-IsValue qty_invalid r.qty, (number-IsValue qty_invalid (to_u32 r.priority), tt)),
        ),
      ),
    ),
  ),
)

update_values-inj :
    (r s : MeMarketUpdate)
    → me_market_update_to_string r ≡ me_market_update_to_string s
    → update_values r ≡ update_values s
unfolding me_market_update_to_string
update_values-inj r s e =
    render-inj (codes "MEMarketUpdate [type:") update_labels (update_values r) (update_values s)
      (codes "]") (refl, (refl, (refl, (refl, (refl, (refl, tt)))))) refl refl refl
      (update_values-IsValue r) (update_values-IsValue s) e

-- What the text shows of an update: of the priority, the lower 32 bits, and not which value without a
-- name the type or the side has.
abbrev pub shown : MeMarketUpdate → MeMarketUpdate
shown u = record u {
  type = shown_type u.type;
  side = shown_side u.side;
  priority = to_u32 u.priority;
}

u32-twice : (p : ℕ) → to_u32 (to_u32 p) ≡ to_u32 p
u32-twice p = omega arith

shown-values : (r : MeMarketUpdate) → update_values (shown r) ≡ update_values r
unfolding update_values
shown-values r = rw (u32-twice r.priority, shown_type-text r.type, shown_side-text r.side) refl

shown-text :
    (r : MeMarketUpdate) → me_market_update_to_string (shown r) ≡ me_market_update_to_string r
unfolding me_market_update_to_string
shown-text r =
    ap (λ vs. render (codes "MEMarketUpdate [type:" ∷ update_labels) vs (codes "]"))
      (shown-values r)

-- Two updates have the same text when, and only when, they differ at most in the upper 32 bits of the
-- priority and in which values without a name their types and sides have.
pub me_market_update_to_string_lem :
    (r s : MeMarketUpdate)
    → (me_market_update_to_string r ≡ me_market_update_to_string s) ↔ (shown r ≡ shown s)
unfolding update_values
me_market_update_to_string_lem r s = (
  λ e.
      let values = update_values-inj r s e in
      λ i. record {
        type = update_type-inj r.type s.type (ap (nth 0) values) i;
        ticker_id =
            number_or_invalid-inj ticker_id_invalid r.ticker_id s.ticker_id (ap (nth 1) values) i;
        order_id =
            number_or_invalid-inj order_id_invalid r.order_id s.order_id (ap (nth 2) values) i;
        side = side_to_string-inj r.side s.side (ap (nth 3) values) i;
        price = number_or_invalid-inj price_invalid r.price s.price (ap (nth 4) values) i;
        qty = number_or_invalid-inj qty_invalid r.qty s.qty (ap (nth 5) values) i;
        priority =
            number_or_invalid-inj qty_invalid (to_u32 r.priority) (to_u32 s.priority)
              (ap (nth 6) values) i;
      },
  λ e. sym (shown-text r) ∙ ap me_market_update_to_string e ∙ shown-text s,
)
