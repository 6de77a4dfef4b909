-- ===== src/Texts/Decimal.antt =====
-- Texts as bytes, and numbers in decimal, as `std::to_string` and `<<` write them.
use Prim.Native.Char.{code}
use Prim.Native.String.{String}
use building_low_latency_app.Prelude.{
  ℕ, zero, suc, ◌+◌, ◌-◌, ◌*◌, ◌/◌, ◌%◌, ◌<◌, ◌≡◌, [], ◌∷◌, ◌++◌, ltb, leb, ◌&&◌, true, Bool,
  Bool-cases, inl, inr, arith, refl, ap, sym, ◌∙◌, if◌then◌else◌,
}
use building_low_latency_app.Prelude.Lists.{All}
use building_low_latency_app.Framing.{Bytes}

-- The bytes of a literal.
abbrev pub codes : String → Bytes
codes String.[] = []
codes (String.◌∷◌ c s) = code c ∷ codes s

-- The digits, the first one first; the fuel bounds their number.
unfoldable pub digits : ℕ → ℕ → Bytes
digits zero n = []
digits (suc fuel) n =
    let before = digits fuel (n / 10) in
    if ltb n 10 then (b'0' + n) ∷ [] else before ++ ((b'0' + n % 10) ∷ [])

-- `std::to_string`. A number has no more digits than its successor counts.
unfoldable pub to_string : ℕ → Bytes
to_string n = digits (suc n) n

-- The number that digits denote.
unfoldable pub value : ℕ → Bytes → ℕ
value n [] = n
value n (c ∷ cs) = value (n * 10 + (c - b'0')) cs

value-snoc : (n : ℕ) (cs : Bytes) (c : ℕ) → value n (cs ++ (c ∷ [])) ≡ value n cs * 10 + (c - b'0')
unfolding value
value-snoc n [] c = refl
value-snoc n (d ∷ cs) c = value-snoc (n * 10 + (d - b'0')) cs c

value-digits : (fuel n : ℕ) → n < fuel → value 0 (digits fuel n) ≡ n
unfolding value digits
value-digits zero n h = elim h [ ]
value-digits (suc fuel) n h = elim (Bool-cases (ltb n 10)) [
  | inl e ↦ rw e (omega arith)
  | inr e ↦
      rw (e, value-snoc 0 (digits fuel (n / 10)) (b'0' + n % 10))
        (ground (arith, value-digits fuel (n / 10) (ground arith)))
]

-- A number is read back from its decimal text.
pub value-to_string : (n : ℕ) → value 0 (to_string n) ≡ n
unfolding to_string
value-to_string n = value-digits (suc n) n (omega arith)

pub to_string-inj : (m n : ℕ) → to_string m ≡ to_string n → m ≡ n
to_string-inj m n e = sym (value-to_string m) ∙ ap (value 0) e ∙ value-to_string n

abbrev pub is_digit : ℕ → Bool
is_digit c = leb b'0' c && leb c b'9'

-- Digits only.
abbrev pub AllDigits : Bytes → Type 0
AllDigits = All (λ c. is_digit c ≡ true)

snoc-AllDigits :
    (xs : Bytes) (x : ℕ) → AllDigits xs → is_digit x ≡ true → AllDigits (xs ++ (x ∷ []))
snoc-AllDigits [] x all p = (p, tt)
snoc-AllDigits (y ∷ xs) x (q, all) p = (q, snoc-AllDigits xs x all p)

digits-AllDigits : (fuel n : ℕ) → AllDigits (digits fuel n)
unfolding digits
digits-AllDigits zero n = tt
digits-AllDigits (suc fuel) n = elim (Bool-cases (ltb n 10)) [
  | inl e ↦ rw e (ground arith, tt)
  | inr e ↦ rw e (
      snoc-AllDigits (digits fuel (n / 10)) (b'0' + n % 10) (digits-AllDigits fuel (n / 10))
        (ground arith))
]

pub to_string-AllDigits : (n : ℕ) → AllDigits (to_string n)
unfolding to_string
to_string-AllDigits n = digits-AllDigits (suc n) n
