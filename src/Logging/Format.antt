-- ===== src/Logging/Format.antt =====
-- What `log` of ch06/common/logging.h puts into the queue, in terms of the format's pieces.
use building_low_latency_app.Prelude.{
  ℕ, suc, ◌+◌, ◌≤◌, ◌≡◌, ◌≢◌, inl, inr, Bool-cases, List, [], ◌∷◌, ◌++◌, map, Option, none, some,
  if◌then◌else◌, ◌==◌, refl, ap, sym, ◌∙◌,
}
use building_low_latency_app.Prelude.Lists.{length}
use building_low_latency_app.Prelude.Result.{Result, ok, abort, fatal}
use building_low_latency_app.Framing.{Bytes}
use building_low_latency_app.LfQueue.{LfQueue, push, size}
use building_low_latency_app.LfQueue.Refine.{
  IsValid, contents, push_all, push_all-nil, push_all-cons, push_all-append, push_all_lem,
}
use building_low_latency_app.Logging.{
  LogElement, char_element, LogValue, element, text, push_text, push_value, log_rest, log,
}

-- A format is characters to print, and places for arguments.
pub data Piece : Type 0 where
  literal : ℕ → Piece
  hole : Piece

-- `%%` prints one `%`, another `%` is a place for an argument.
unfoldable pub pieces : Bytes → List Piece
pieces [] = []
pieces (c ∷ []) = if c == b'%' then hole ∷ [] else literal c ∷ []
pieces (c ∷ d ∷ s) =
    let escaped = pieces s in
    let rest = pieces (d ∷ s) in
    if c == b'%' then (if d == b'%' then literal d ∷ escaped else hole ∷ rest) else literal c ∷ rest

-- What stands before the first byte 0.
pub c_string : Bytes → Bytes
c_string [] = []
c_string (c ∷ cs) = let rest = c_string cs in if c == 0 then [] else c ∷ rest

-- The elements that an argument becomes.
abbrev pub elements : LogValue → List LogElement
elements (element e) = e ∷ []
elements (text t) = map char_element (c_string t)

abbrev with_elements : List LogElement → Option (List LogElement) → Option (List LogElement)
with_elements es none = none
with_elements es (some fs) = some (es ++ fs)

-- The pieces with the arguments in their places: none if there are too many or too few.
unfoldable pub fill_in : List Piece → List LogValue → Option (List LogElement)
fill_in [] [] = some []
fill_in [] (v ∷ vs) = none
fill_in (literal c ∷ ps) vs = with_elements (char_element c ∷ []) (fill_in ps vs)
fill_in (hole ∷ ps) [] = none
fill_in (hole ∷ ps) (v ∷ vs) = with_elements (elements v) (fill_in ps vs)

abbrev done : Option (List LogElement) → LfQueue LogElement → Result (LfQueue LogElement)
done none q = abort fatal
done (some es) q = ok (push_all es q)

push_text-eq :
    (t : Bytes) (q : LfQueue LogElement)
    → push_text t q ≡ push_all (map char_element (c_string t)) q
unfolding push_text c_string
push_text-eq [] q = sym (push_all-nil q)
push_text-eq (c ∷ cs) q = elim (Bool-cases (c == 0)) [
  | inl e ↦ rw e (sym (push_all-nil q))
  | inr e ↦ rw e (
      push_text-eq cs (push (char_element c) q)
      ∙ sym (push_all-cons _ (map char_element (c_string cs)) q))
]

push_value-eq : (v : LogValue) (q : LfQueue LogElement) → push_value v q ≡ push_all (elements v) q
unfolding push_value
push_value-eq (element e) q = sym (push_all-cons e [] q ∙ push_all-nil (push e q))
push_value-eq (text t) q = push_text-eq t q

done-with :
    (es : List LogElement) (x : Option (List LogElement)) (q : LfQueue LogElement)
    → done x (push_all es q) ≡ done (with_elements es x) q
done-with es none q = refl
done-with es (some fs) q = ap ok (sym (push_all-append es fs q))

push-eq : (e : LogElement) (q : LfQueue LogElement) → push e q ≡ push_all (e ∷ []) q
push-eq e q = sym (push_all-cons e [] q ∙ push_all-nil (push e q))

log_rest-eq : (s : Bytes) (q : LfQueue LogElement) → log_rest s q ≡ done (fill_in (pieces s) []) q
unfolding log_rest pieces fill_in
log_rest-eq [] q = ap ok (sym (push_all-nil q))
log_rest-eq (c ∷ []) q = elim (Bool-cases (c == b'%')) [
  | inl percent ↦ rw percent
  | inr other ↦ rw other (ap ok (push-eq (char_element c) q))
]
log_rest-eq (c ∷ d ∷ s) q = elim (Bool-cases (c == b'%')) [
  | inr other ↦ rw other (
      log_rest-eq (d ∷ s) (push (char_element c) q)
      ∙ ap (done (fill_in (pieces (d ∷ s)) [])) (push-eq (char_element c) q)
      ∙ done-with (char_element c ∷ []) (fill_in (pieces (d ∷ s)) []) q)
  | inl percent ↦ elim (Bool-cases (d == b'%')) [
    | inl again ↦
        rw (percent, again)
          (log_rest-eq s (push (char_element d) q)
            ∙ ap (done (fill_in (pieces s) [])) (push-eq (char_element d) q)
            ∙ done-with (char_element d ∷ []) (fill_in (pieces s) []) q)
    | inr not_again ↦ rw (percent, not_again)
  ]
]

-- `log` sends the format's characters and the arguments in their places, or ends the process.
log-eq :
    (s : Bytes) (vs : List LogValue) (q : LfQueue LogElement)
    → log s vs q ≡ done (fill_in (pieces s) vs) q
unfolding log pieces fill_in
log-eq s [] q = log_rest-eq s q
log-eq [] (v ∷ vs) q = refl
log-eq (c ∷ []) (v ∷ vs) q = elim (Bool-cases (c == b'%')) [
  | inl percent ↦ rw percent (
      log-eq [] vs (push_value v q)
      ∙ ap (done (fill_in [] vs)) (push_value-eq v q)
      ∙ done-with (elements v) (fill_in [] vs) q)
  | inr other ↦ rw other
]
log-eq (c ∷ d ∷ s) (v ∷ vs) q = elim (Bool-cases (c == b'%')) [
  | inr other ↦ rw other (
      log-eq (d ∷ s) (v ∷ vs) (push (char_element c) q)
      ∙ ap (done (fill_in (pieces (d ∷ s)) (v ∷ vs))) (push-eq (char_element c) q)
      ∙ done-with (char_element c ∷ []) (fill_in (pieces (d ∷ s)) (v ∷ vs)) q)
  | inl percent ↦ elim (Bool-cases (d == b'%')) [
    | inl again ↦
        rw (percent, again)
          (log-eq s (v ∷ vs) (push (char_element d) q)
            ∙ ap (done (fill_in (pieces s) (v ∷ vs))) (push-eq (char_element d) q)
            ∙ done-with (char_element d ∷ []) (fill_in (pieces s) (v ∷ vs)) q)
    | inr not_again ↦
        rw (percent, not_again)
          (log-eq (d ∷ s) vs (push_value v q)
            ∙ ap (done (fill_in (pieces (d ∷ s)) vs)) (push_value-eq v q)
            ∙ done-with (elements v) (fill_in (pieces (d ∷ s)) vs) q)
  ]
]

-- The places for arguments.
unfoldable pub holes : List Piece → ℕ
holes [] = 0
holes (literal c ∷ ps) = holes ps
holes (hole ∷ ps) = suc (holes ps)

with_elements-none :
    (es : List LogElement) (x : Option (List LogElement)) → x ≡ none → with_elements es x ≡ none
with_elements-none es x e = ap (with_elements es) e

fill_in-mismatch :
    (ps : List Piece) (vs : List LogValue) → holes ps ≢ length vs → fill_in ps vs ≡ none
unfolding holes fill_in
fill_in-mismatch [] [] ne = absurd (ne refl)
fill_in-mismatch [] (v ∷ vs) ne = refl
fill_in-mismatch (literal c ∷ ps) vs ne =
    with_elements-none (char_element c ∷ []) (fill_in ps vs) (fill_in-mismatch ps vs ne)
fill_in-mismatch (hole ∷ ps) [] ne = refl
fill_in-mismatch (hole ∷ ps) (v ∷ vs) ne =
    with_elements-none (elements v) (fill_in ps vs) (fill_in-mismatch ps vs λ e. ne (ap suc e))

-- A call whose arguments are not as many as the format's places ends the process.
pub log-mismatch :
    (s : Bytes) (vs : List LogValue) (q : LfQueue LogElement)
    → holes (pieces s) ≢ length vs
    → log s vs q ≡ abort fatal
log-mismatch s vs q ne = log-eq s vs q ∙ ap (λ x. done x q) (fill_in-mismatch (pieces s) vs ne)

-- While the queue has room, `log` puts the format's characters into it, with the arguments in the
-- places of the lone `%`s and one `%` for each `%%`.
pub log_lem :
    (s : Bytes) (vs : List LogValue) (es : List LogElement) (q : LfQueue LogElement)
    → fill_in (pieces s) vs ≡ some es
    → IsValid q
    → size q + length es ≤ q.num_elems
    → (r : LfQueue LogElement) × (log s vs q ≡ ok r) × (contents r ≡ contents q ++ es) × IsValid r
log_lem s vs es q filled v room =
    let (v', c, _, _) = push_all_lem es q v room in
    (push_all es q, log-eq s vs q ∙ ap (λ x. done x q) filled, c, v')
