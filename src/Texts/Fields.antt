-- ===== src/Texts/Fields.antt =====
-- A line of labels and values, as the `toString` functions of ch06 build it.
use mathlib.Core.List.{append_cancel_left, head-eq_of_cons-eq, tail-eq_of_cons-eq}
use building_low_latency_app.Prelude.{
  ℕ, zero, suc, ◌≡◌, List, [], ◌∷◌, ◌++◌, Bool, true, false, ◌||◌, ◌&&◌, not, ◌==◌, arith, refl, ap,
  ap₂,
}
use building_low_latency_app.Prelude.Lists.{All, length}
use building_low_latency_app.Framing.{Bytes}

-- The values, each behind its label, then the end of the line.
unfoldable pub render : List Bytes → List Bytes → Bytes → Bytes
render [] vs end = end
render (l ∷ ls) [] end = end
render (l ∷ ls) (v ∷ vs) end = l ++ (v ++ render ls vs end)

-- What ends a value: a blank, or the bracket that ends a line.
abbrev pub is_end : ℕ → Bool
is_end c = (c == b' ') || (c == b']')

abbrev pub IsValue : Bytes → Type 0
IsValue = All (λ c. is_end c ≡ false)

abbrev pub IsLabel : Bytes → Type 0
IsLabel [] = ⊥
IsLabel (c ∷ cs) = is_end c ≡ true

abbrev pub is_value : Bytes → Bool
is_value [] = true
is_value (c ∷ cs) = not (is_end c) && is_value cs

-- For a text that is known.
pub is_value-IsValue : (v : Bytes) → is_value v ≡ true → IsValue v
is_value-IsValue [] e = tt
is_value-IsValue (c ∷ cs) e = (ground arith, is_value-IsValue cs (ground arith))

-- Two values that are followed by labels and read the same are the same.
pub cut :
    (v w r s : Bytes)
    → IsValue v
    → IsValue w
    → IsLabel r
    → IsLabel s
    → v ++ r ≡ w ++ s
    → (v ≡ w) × (r ≡ s)
cut [] [] r s hv hw hr hs e = (refl, e)
cut [] (d ∷ w) [] s hv hw hr hs e = absurd hr
cut [] (d ∷ w) (c ∷ r) s hv hw hr hs e = ground (arith, head-eq_of_cons-eq e)
cut (c ∷ v) [] r [] hv hw hr hs e = absurd hs
cut (c ∷ v) [] r (d ∷ s) hv hw hr hs e = ground (arith, head-eq_of_cons-eq e)
cut (c ∷ v) (d ∷ w) r s hv hw hr hs e =
    let (f, g) = cut v w r s hv.1 hw.1 hr hs (tail-eq_of_cons-eq e) in
    (ap₂ ◌∷◌ (head-eq_of_cons-eq e) f, g)

append-IsLabel : (xs ys : Bytes) → IsLabel xs → IsLabel (xs ++ ys)
append-IsLabel [] ys h = absurd h
append-IsLabel (x ∷ xs) ys h = h

render-IsLabel :
    (ls vs : List Bytes) (end : Bytes) → All IsLabel ls → IsLabel end → IsLabel (render ls vs end)
unfolding render
render-IsLabel [] vs end h e = e
render-IsLabel (l ∷ ls) [] end h e = e
render-IsLabel (l ∷ ls) (v ∷ vs) end h e = append-IsLabel l (v ++ render ls vs end) h.0

-- Two lines with the same labels have the same values, if they have one for each label, no value has a
-- blank or a bracket, and each label but the first begins with one.
pub render-inj :
    (l : Bytes) (ls vs ws : List Bytes) (end : Bytes)
    → All IsLabel ls
    → IsLabel end
    → length vs ≡ suc (length ls)
    → length ws ≡ suc (length ls)
    → All IsValue vs
    → All IsValue ws
    → render (l ∷ ls) vs end ≡ render (l ∷ ls) ws end
    → vs ≡ ws
unfolding render
render-inj l ls [] ws end hl he hv hw pv pw e = absurd (omega arith)
render-inj l ls (v ∷ vs) [] end hl he hv hw pv pw e = absurd (omega arith)
render-inj l [] (v ∷ []) (w ∷ []) end hl he hv hw pv pw e =
    ap (λ x. x ∷ [])
      (cut v w end end pv.0 pw.0 he he (append_cancel_left l (v ++ end) (w ++ end) e)).0
render-inj l [] (v ∷ v' ∷ vs) (w ∷ ws) end hl he hv hw pv pw e = absurd (omega arith)
render-inj l [] (v ∷ []) (w ∷ w' ∷ ws) end hl he hv hw pv pw e = absurd (omega arith)
render-inj l (k ∷ ls) (v ∷ vs) (w ∷ ws) end hl he hv hw pv pw e =
    let r = render (k ∷ ls) vs end in
    let s = render (k ∷ ls) ws end in
    let (f, g) =
      cut v w r s pv.0 pw.0 (render-IsLabel (k ∷ ls) vs end hl he)
        (render-IsLabel (k ∷ ls) ws end hl he) (append_cancel_left l (v ++ r) (w ++ s) e) in
    ap₂ ◌∷◌ f (render-inj k ls vs ws end hl.1 he (omega arith) (omega arith) pv.1 pw.1 g)

-- The value at a place.
abbrev pub nth : ℕ → List Bytes → Bytes
nth i [] = []
nth zero (v ∷ vs) = v
nth (suc i) (v ∷ vs) = nth i vs
