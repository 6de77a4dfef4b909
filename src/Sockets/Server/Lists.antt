-- ===== src/Sockets/Server/Lists.antt =====
-- The lists of connections of ch06/common/tcp_server.cpp, as they grow.
use building_low_latency_app.Prelude.{
  ◌≡◌, Bool, true, false, Bool-cases, ◌||◌, inl, inr, List, [], ◌∷◌, ◌++◌, arith, refl,
}
use building_low_latency_app.Sockets.Server.{Socket, TcpServer, found, add_socket, add_if}

-- No connection is listed twice.
unfoldable pub IsDistinct : List Socket → Type 0
IsDistinct [] = Unit
IsDistinct (x ∷ xs) = (found x xs ≡ false) × IsDistinct xs

abbrev pub IsValid : TcpServer → Type 0
IsValid t = IsDistinct t.receive_sockets × IsDistinct t.send_sockets

found-append : (s : Socket) (xs ys : List Socket) → found s (xs ++ ys) ≡ (found s xs || found s ys)
found-append s [] ys = refl
found-append s (x ∷ xs) ys = ground (arith, found-append s xs ys)

pub found-add : (s : Socket) (xs : List Socket) → found s (add_socket s xs) ≡ true
unfolding add_socket
found-add s xs = ground (arith, found-append s xs (s ∷ []))

pub add-keeps :
    (r s : Socket) (xs : List Socket) → found r xs ≡ true → found r (add_socket s xs) ≡ true
unfolding add_socket
add-keeps r s xs e = ground (arith, found-append r xs (s ∷ []))

snoc-IsDistinct :
    (s : Socket) (xs : List Socket)
    → IsDistinct xs
    → found s xs ≡ false
    → IsDistinct (xs ++ (s ∷ []))
unfolding IsDistinct
snoc-IsDistinct s [] v e = (refl, tt)
snoc-IsDistinct s (x ∷ xs) (h, v) e =
    (ground (arith, found-append x xs (s ∷ [])), snoc-IsDistinct s xs v (ground arith))

pub add-IsDistinct : (s : Socket) (xs : List Socket) → IsDistinct xs → IsDistinct (add_socket s xs)
unfolding add_socket
add-IsDistinct s xs v = elim (Bool-cases (found s xs)) [
  | inl e ↦ rw e v
  | inr e ↦ rw e (snoc-IsDistinct s xs v e)
]

pub if-keeps :
    (b : Bool) (r s : Socket) (xs : List Socket)
    → found r xs ≡ true
    → found r (add_if b s xs) ≡ true
unfolding add_if
if-keeps true r s xs e = add-keeps r s xs e
if-keeps false r s xs e = e

pub if-IsDistinct :
    (b : Bool) (s : Socket) (xs : List Socket) → IsDistinct xs → IsDistinct (add_if b s xs)
unfolding add_if
if-IsDistinct true s xs v = add-IsDistinct s xs v
if-IsDistinct false s xs v = v

pub found-if :
    (b : Bool) (s : Socket) (xs : List Socket) → b ≡ true → found s (add_if b s xs) ≡ true
unfolding add_if
found-if b s xs e = rw e (found-add s xs)
