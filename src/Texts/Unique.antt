-- ===== src/Texts/Unique.antt =====
-- Which values of ch06 can be told from their texts.
pub mod Requests
pub mod Responses
pub mod Updates
use mathlib.Core.List.{append_cancel_left, append_cancel_right}
use building_low_latency_app.Prelude.{
  ℕ, ◌≡◌, ◌==◌, List, [], ◌∷◌, ◌++◌, Bool, Bool-cases, inl, inr, true, false, to_u32, arith, refl,
  ap, ap₂, sym, ◌∙◌, subst,
}
use building_low_latency_app.Prelude.Lists.{All}
use building_low_latency_app.Framing.{Bytes}
use building_low_latency_app.Types.{
  Side, client_id_invalid, ticker_id_invalid, order_id_invalid, price_invalid, qty_invalid,
}
use building_low_latency_app.Messages.{
  ClientRequestType, MeClientRequest, OmClientRequest, ClientResponseType, MeClientResponse,
  OmClientResponse, MarketUpdateType, MeMarketUpdate, MdpMarketUpdate,
}
use building_low_latency_app.Texts.Decimal.{
  codes, to_string, to_string-inj, to_string-AllDigits, is_digit, AllDigits,
}
use building_low_latency_app.Texts.Fields.{render, IsValue, is_value-IsValue, IsLabel, is_end, cut}
use building_low_latency_app.Texts.Values.{number_or_invalid, side_to_string}
use building_low_latency_app.Texts.Messages.{
  client_request_type_to_string, request_labels, request_values, me_client_request_to_string,
}

digits-IsValue : (v : Bytes) → AllDigits v → IsValue v
digits-IsValue [] all = tt
digits-IsValue (c ∷ v) (h, all) = (ground arith, digits-IsValue v all)

pub number-IsValue : (i n : ℕ) → IsValue (number_or_invalid i n)
unfolding number_or_invalid
number-IsValue i n = elim (Bool-cases (n == i)) [
  | inl e ↦ rw e (is_value-IsValue (codes "INVALID") refl)
  | inr e ↦ rw e (digits-IsValue (to_string n) (to_string-AllDigits n))
]

text-not-number : (n : ℕ) → codes "INVALID" ≡ to_string n → ⊥
text-not-number n e =
    let all = subst AllDigits (sym e) (to_string-AllDigits n) in
    let first : is_digit b'I' ≡ true = all.0 in ground arith

-- Two numbers with the same text are the same, the one that stands for none included.
pub number_or_invalid-inj : (i m n : ℕ) → number_or_invalid i m ≡ number_or_invalid i n → m ≡ n
unfolding number_or_invalid
number_or_invalid-inj i m n e =
    ground (arith, text-not-number n, text-not-number m, to_string-inj m n)

pub side-IsValue : (s : Side) → IsValue (side_to_string s)
unfolding side_to_string
side-IsValue Side.buy = is_value-IsValue (codes "BUY") refl
side-IsValue Side.sell = is_value-IsValue (codes "SELL") refl
side-IsValue Side.invalid = is_value-IsValue (codes "INVALID") refl
side-IsValue (Side.unnamed n) = is_value-IsValue (codes "UNKNOWN") refl

-- What the text shows of a side: the values without a name look the same.
abbrev pub shown_side : Side → Side
shown_side (Side.unnamed n) = Side.unnamed 0
shown_side s = s

pub side_to_string-inj :
    (s t : Side) → side_to_string s ≡ side_to_string t → shown_side s ≡ shown_side t
unfolding side_to_string
side_to_string-inj s t e = ground arith

pub shown_side-text : (s : Side) → side_to_string (shown_side s) ≡ side_to_string s
unfolding side_to_string
shown_side-text s = ground arith

-- A number and a text in their envelope are told apart.
pub envelope-inj :
    (h : Bytes) (m n : ℕ) (xs ys : Bytes)
    → h ++ (to_string m ++ (codes " " ++ (xs ++ codes "]")))
      ≡ h ++ (to_string n ++ (codes " " ++ (ys ++ codes "]")))
    → (m ≡ n) × (xs ≡ ys)
envelope-inj h m n xs ys e =
    let r = codes " " ++ (xs ++ codes "]") in
    let s = codes " " ++ (ys ++ codes "]") in
    let (f, g) =
      cut (to_string m) (to_string n) r s (digits-IsValue (to_string m) (to_string-AllDigits m))
        (digits-IsValue (to_string n) (to_string-AllDigits n)) refl refl
        (append_cancel_left h (to_string m ++ r) (to_string n ++ s) e) in
    (
      to_string-inj m n f,
      append_cancel_right xs ys (codes "]")
          (append_cancel_left (codes " ") (xs ++ codes "]") (ys ++ codes "]") g),
    )
