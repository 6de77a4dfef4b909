-- ===== src/Prelude/Result.antt =====
-- How a run ends: with a value, or with the end of the process.
use building_low_latency_app.Prelude.Tests.{ltb, if◌then◌else◌}
use Prim.Native.Nat.{ℕ}
use mathlib.Core.Path.{◌≡◌, refl}
use mathlib.Core.Logic.{◌⊎◌, inl, inr}
use mathlib.Core.Bool.{Bool, true, false}
use mathlib.Core.Option.{Option, none, some}

-- `assertion` and `fatal` are the `exit` of `ASSERT` and `FATAL`. `out_of_range` is the exception of
-- `at`, which leaves a `noexcept` function by `std::terminate`. `undefined` is undefined behaviour:
-- a null dereference, an index outside a vector. `out_of_fuel` is a loop of the model cut short.
pub data Abort : Type 0 where
  assertion fatal out_of_range undefined out_of_fuel : Abort

pub data Result (A : Type 0) : Type 0 where
  ok : A → Result A
  abort : Abort → Result A

module _ {A B : Type 0} where
  infixl 5 ◌>>=◌
  abbrev pub ◌>>=◌ : Result A → (A → Result B) → Result B
  ok a >>= f = f a
  abort e >>= f = abort e

infixl 5 ◌>>◌
abbrev pub ◌>>◌ : {B : Type 0} → Result (Unit {0}) → Result B → Result B
m >> k = m >>= λ _. k

-- `ASSERT(cond, …)`
unfoldable pub assert : Bool → Result (Unit {0})
assert true = ok tt
assert false = abort assertion

-- `array.at(i)`, the array of `n` entries
abbrev pub at : {A : Type 0} → ℕ → (ℕ → A) → ℕ → Result A
at n f i = if ltb i n then ok (f i) else abort out_of_range

-- A pointer is a place, or null.
abbrev pub deref : {A : Type 0} → Option A → Result A
deref none = abort undefined
deref (some a) = ok a

pub Result-cases :
    {A : Type 0} (r : Result A) → ((a : A) × (r ≡ ok a)) ⊎ ((e : Abort) × (r ≡ abort e))
Result-cases (ok a) = inl (a, refl)
Result-cases (abort e) = inr (e, refl)

pub bind-ok : {A B : Type 0} (r : Result A) (f : A → Result B) (a : A) → r ≡ ok a → (r >>= f) ≡ f a
bind-ok r f a e = rw e refl

pub bind_assoc :
    {A B C : Type 0} (r : Result A) (f : A → Result C) (g : A → Result B) (h : B → Result C)
    → ((a : A) → f a ≡ (g a >>= h))
    → (r >>= f) ≡ (r >>= g >>= h)
bind_assoc (ok a) f g h e = e a
bind_assoc (abort x) f g h e = refl

abbrev pub is_ok : {A : Type 0} → Result A → Bool
is_ok (ok a) = true
is_ok (abort e) = false
