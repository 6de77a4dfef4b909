-- ===== src/Sockets/Tcp/Stream.antt =====
-- The messages that a connection of ch06/common/tcp_socket.cpp hands to the program.
use mathlib.Core.List.{append_assoc, append-nil}
use building_low_latency_app.Prelude.{
  ℕ, inl, inr, Option-cases, zero, suc, ◌<◌, ◌≡◌, List, Option, none, some, [], ◌∷◌, ◌++◌, refl, ap,
  sym, ◌∙◌,
}
use building_low_latency_app.Prelude.Lists.{length, take}
use building_low_latency_app.Prelude.Result.{Result, Result-cases, bind_assoc, ok, ◌>>=◌}
use building_low_latency_app.Framing.{Bytes, messages}
use building_low_latency_app.Framing.Laws.{messages-append, messages-short, messages_lem}
use building_low_latency_app.Sockets.Tcp.{
  TcpSocket, Timeval, Round, Callback, receive, send_and_recv,
}

-- `sendAndRecv` in each round.
unfoldable pub rounds :
    {A : Type 0} → Callback A → List Round → TcpSocket × A → Result (TcpSocket × A)
rounds callback [] state = ok state
rounds callback (r ∷ rs) state =
    send_and_recv callback r state >>= λ next. rounds callback rs (next.1, next.2)

-- The bytes that the rounds read.
unfoldable pub stream : List Round → Bytes
stream [] = []
stream (r ∷ rs) = elim r.arrival [ none ↦ stream rs | some a ↦ a.0 ++ stream rs ]

stream-none : (r : Round) (rs : List Round) → r.arrival ≡ none → stream (r ∷ rs) ≡ stream rs
unfolding stream
stream-none r rs e = rw e

stream-some :
    (r : Round) (rs : List Round) (a : Bytes × Option Timeval)
    → r.arrival ≡ some a
    → stream (r ∷ rs) ≡ a.0 ++ stream rs
unfolding stream
stream-some r rs a e = rw e

take-nil : (n : ℕ) → take {A = ℕ} n [] ≡ []
take-nil zero = refl
take-nil (suc n) = refl

-- A connection with nothing to send.
abbrev pub quiet : Bytes → Bytes → TcpSocket
quiet inbound wire = record { outbound_data = []; inbound_data = inbound; wire = wire }

module _ {A : Type 0} (size : ℕ) (handle : Bytes → A → Result A) where
  -- `handle` of each message, in order.
  unfoldable pub handle_each : List Bytes → A → Result A
  handle_each [] a = ok a
  handle_each (m ∷ ms) a = handle m a >>= handle_each ms

  -- A callback that cuts the buffer into messages of `size` bytes, handles them, and leaves the rest.
  unfoldable pub framed : Callback A
  framed time bytes a =
      handle_each (messages size bytes).0 a >>= λ b. ok ((messages size bytes).1, b)

  handle_each-append :
      (ms ns : List Bytes) (a : A) → handle_each (ms ++ ns) a ≡ handle_each ms a >>= handle_each ns
  unfolding handle_each
  handle_each-append [] ns a = refl
  handle_each-append (m ∷ ms) ns a =
      bind_assoc (handle m a) (handle_each (ms ++ ns)) (handle_each ms) (handle_each ns)
        (λ b. handle_each-append ms ns b)

  -- What the messages of the bytes do, and what they leave.
  unfoldable pub handled : Bytes → Bytes → A → Result (TcpSocket × A)
  handled bytes wire a =
      handle_each (messages size bytes).0 a >>= λ b. ok (quiet (messages size bytes).1 wire, b)

  round-none :
      (callback : Callback A) (rs : List Round) (r : Round) (inbound wire : Bytes) (a : A)
      → r.arrival ≡ none
      → rounds callback (r ∷ rs) (quiet inbound wire, a)
        ≡ rounds callback rs (quiet inbound wire, a)
  unfolding rounds send_and_recv receive
  round-none callback rs r inbound wire a e = rw (e, take-nil r.accepted, append-nil wire)

  round-some :
      (rs : List Round) (r : Round) (arrival : Bytes × Option Timeval) (inbound wire : Bytes)
      (a : A)
      → r.arrival ≡ some arrival
      → rounds framed (r ∷ rs) (quiet inbound wire, a)
        ≡ handled (inbound ++ arrival.0) wire a >>= rounds framed rs
  unfolding rounds send_and_recv receive framed handled
  round-some rs r arrival inbound wire a e =
      elim (Result-cases (handle_each (messages size (inbound ++ arrival.0)).0 a)) [
        | inl (b, f) ↦ rw (e, f, take-nil r.accepted, append-nil wire)
        | inr (x, f) ↦ rw (e, f)
      ]

  handled-append :
      (xs ys wire : Bytes) (a : A)
      → 0 < size
      → handled (xs ++ ys) wire a
        ≡ handle_each (messages size xs).0 a >>= handled ((messages size xs).1 ++ ys) wire
  unfolding handled
  handled-append xs ys wire a pos =
      rw
        (
          messages-append size pos xs ys,
          handle_each-append (messages size xs).0 (messages size ((messages size xs).1 ++ ys)).0 a,
        )
        (sym (
          bind_assoc (handle_each (messages size xs).0 a)
            (handled ((messages size xs).1 ++ ys) wire)
            (handle_each (messages size ((messages size xs).1 ++ ys)).0)
            (λ b. ok (quiet (messages size ((messages size xs).1 ++ ys)).1 wire, b)) (λ b. refl)))

  -- However the kernel cuts the bytes of a connection into reads, and whatever the times it gives
  -- them, the messages that are handled, in order, are those of the bytes as a whole, and what is
  -- left in the buffer is what follows the last of them; here nothing waits to be sent.
  pub rounds-stream :
      (rs : List Round) (inbound wire : Bytes) (a : A)
      → 0 < size
      → length inbound < size
      → rounds framed rs (quiet inbound wire, a) ≡ handled (inbound ++ stream rs) wire a
  unfolding rounds stream handled handle_each
  rounds-stream [] inbound wire a pos less =
      rw (append-nil inbound, messages-short size pos inbound less)
  rounds-stream (r ∷ rs) inbound wire a pos less = elim (Option-cases r.arrival) [
    | inl e ↦
        round-none framed rs r inbound wire a e
        ∙ rounds-stream rs inbound wire a pos less
        ∙ ap (λ bytes. handled (inbound ++ bytes) wire a) (sym (stream-none r rs e))
    | inr (arrival, e) ↦
        round-some rs r arrival inbound wire a e
        ∙ sym (
            bind_assoc (handle_each (messages size (inbound ++ arrival.0)).0 a)
              (handled ((messages size (inbound ++ arrival.0)).1 ++ stream rs) wire)
              (λ b. ok (quiet (messages size (inbound ++ arrival.0)).1 wire, b)) (rounds framed rs)
              (λ b. sym (
                rounds-stream rs (messages size (inbound ++ arrival.0)).1 wire b pos
                  ((messages_lem size pos (inbound ++ arrival.0)).2))))
        ∙ sym (handled-append (inbound ++ arrival.0) (stream rs) wire a pos)
        ∙ ap (λ bytes. handled bytes wire a)
            (append_assoc inbound arrival.0 (stream rs)
              ∙ ap (λ bytes. inbound ++ bytes) (sym (stream-some r rs arrival e)))
  ]
