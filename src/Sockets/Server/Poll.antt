-- ===== src/Sockets/Server/Poll.antt =====
-- Which connections `poll` of ch06/common/tcp_server.cpp puts into the server's lists.
use building_low_latency_app.Prelude.{
  ◌≤◌, ◌≡◌, Bool, true, false, Bool-cases, ◌||◌, ◌&&◌, ◌⊎◌, not, is_some, subst, update, inl, inr,
  some, Option-cases, List, [], ◌∷◌, arith, refl, sym,
}
use building_low_latency_app.Prelude.Lists.{length, All}
use building_low_latency_app.Prelude.Result.{ok, assert}
use building_low_latency_app.Sockets.Server.{
  Socket, TcpServer, Event, Accepted, found, add_socket, add_if, on_socket, on_event, on_events,
  accept_one, accept_each, new_socket, poll, events_size,
}
use building_low_latency_app.Sockets.Server.Lists.{
  IsValid, found-add, add-keeps, add-IsDistinct, if-keeps, if-IsDistinct, found-if,
}

-- Every connection that `t` lists, `u` lists.
abbrev pub Kept : TcpServer → TcpServer → Type 0
Kept t u =
    ((s : Socket) → found s t.receive_sockets ≡ true → found s u.receive_sockets ≡ true)
    × ((s : Socket) → found s t.send_sockets ≡ true → found s u.send_sockets ≡ true)

-- What `poll` owes an event: a connection with bytes to read, or one that has failed, is listed for
-- reading, one that takes bytes is listed for sending.
abbrev pub Listed : TcpServer → Event → Type 0
Listed t e =
    (s : Socket)
    → e.socket ≡ some s
    → (e.readable ≡ true → found s t.receive_sockets ≡ true)
      × (e.failed ≡ true → found s t.receive_sockets ≡ true)
      × (e.writable ≡ true → found s t.send_sockets ≡ true)

on_socket-keeps : (e : Event) (s : Socket) (t : TcpServer) → Kept t (on_socket e s t)
unfolding on_socket
on_socket-keeps e s t = (
  λ r f.
      if-keeps e.failed r s (add_if e.readable s t.receive_sockets)
        (if-keeps e.readable r s t.receive_sockets f),
  λ r f. if-keeps e.writable r s t.send_sockets f,
)

on_socket-IsValid : (e : Event) (s : Socket) (t : TcpServer) → IsValid t → IsValid (on_socket e s t)
unfolding on_socket
on_socket-IsValid e s t (v, w) = (
  if-IsDistinct e.failed s (add_if e.readable s t.receive_sockets)
      (if-IsDistinct e.readable s t.receive_sockets v),
  if-IsDistinct e.writable s t.send_sockets w,
)

on_event-cases :
    (listener : Socket) (e : Event) (state : Bool × TcpServer)
    → ((on_event listener e state).1 ≡ state.1)
      ⊎ ((s : Socket) × ((on_event listener e state).1 ≡ on_socket e s state.1))
unfolding on_event
on_event-cases listener e (new, t) = elim (Option-cases e.socket) [
  | inr (s, h) ↦ inr (s, rw h)
  | inl h ↦ elim (Bool-cases e.readable) [
    | inl r ↦ inl (rw (h, r))
    | inr r ↦ inr (listener, rw (h, r))
  ]
]

on_event-keeps :
    (listener : Socket) (e : Event) (state : Bool × TcpServer)
    → Kept state.1 (on_event listener e state).1
on_event-keeps listener e state = elim (on_event-cases listener e state) [
  | inl h ↦ subst (Kept state.1) (sym h) (λ s f. f, λ s f. f)
  | inr (s, h) ↦ subst (Kept state.1) (sym h) (on_socket-keeps e s state.1)
]

on_event-IsValid :
    (listener : Socket) (e : Event) (state : Bool × TcpServer)
    → IsValid state.1
    → IsValid (on_event listener e state).1
on_event-IsValid listener e state v = elim (on_event-cases listener e state) [
  | inl h ↦ subst IsValid (sym h) v
  | inr (s, h) ↦ subst IsValid (sym h) (on_socket-IsValid e s state.1 v)
]

on_event-Listed :
    (listener : Socket) (e : Event) (state : Bool × TcpServer)
    → Listed (on_event listener e state).1 e
unfolding on_event on_socket
on_event-Listed listener e (new, t) s h = rw h (
  λ r.
      if-keeps e.failed s s (add_if e.readable s t.receive_sockets)
        (found-if e.readable s t.receive_sockets r),
  λ f. found-if e.failed s (add_if e.readable s t.receive_sockets) f,
  λ w. found-if e.writable s t.send_sockets w,
)

Kept-trans : (t u v : TcpServer) → Kept t u → Kept u v → Kept t v
Kept-trans t u v f g = (λ s h. g.0 s (f.0 s h), λ s h. g.1 s (f.1 s h))

Listed-Kept : (e : Event) (t u : TcpServer) → Kept t u → Listed t e → Listed u e
Listed-Kept e t u k l s h =
    (λ r. k.0 s ((l s h).0 r), λ f. k.0 s ((l s h).1 f), λ w. k.1 s ((l s h).2 w))

on_events-keeps :
    (listener : Socket) (es : List Event) (state : Bool × TcpServer)
    → Kept state.1 (on_events listener es state).1
unfolding on_events
on_events-keeps listener [] state = (λ s f. f, λ s f. f)
on_events-keeps listener (e ∷ es) state =
    Kept-trans state.1 (on_event listener e state).1 (on_events listener (e ∷ es) state).1
      (on_event-keeps listener e state) (on_events-keeps listener es (on_event listener e state))

on_events-IsValid :
    (listener : Socket) (es : List Event) (state : Bool × TcpServer)
    → IsValid state.1
    → IsValid (on_events listener es state).1
unfolding on_events
on_events-IsValid listener [] state v = v
on_events-IsValid listener (e ∷ es) state v =
    on_events-IsValid listener es (on_event listener e state) (on_event-IsValid listener e state v)

on_events-Listed :
    (listener : Socket) (es : List Event) (state : Bool × TcpServer)
    → All (Listed (on_events listener es state).1) es
unfolding on_events
on_events-Listed listener [] state = tt
on_events-Listed listener (e ∷ es) state = (
  Listed-Kept e (on_event listener e state).1 (on_events listener (e ∷ es) state).1
      (on_events-keeps listener es (on_event listener e state)) (on_event-Listed listener e state),
  on_events-Listed listener es (on_event listener e state),
)

accept_each-lists :
    (cs : List Accepted) (t : TcpServer)
    → All (λ c. (c.configured ≡ true) × (c.watched ≡ true)) cs
    → IsValid t
    → (u : TcpServer) × (accept_each cs t ≡ ok u)
      × IsValid u
      × Kept t u
      × All (λ c. found c.fd u.receive_sockets ≡ true) cs
unfolding accept_each accept_one assert
accept_each-lists [] t all v = (t, refl, v, (λ s f. f, λ s f. f), tt)
accept_each-lists (c ∷ cs) t ((h, w), all) v =
    let r = add_socket c.fd t.receive_sockets in
    let s : TcpServer = record t {
      sockets = update t.sockets c.fd new_socket;
      receive_sockets = r;
    } in
    let (u, run, z, k, l) =
      accept_each-lists cs s all (add-IsDistinct c.fd t.receive_sockets v.0, v.1) in
    (
      u,
      rw (h, w) run,
      z,
      (λ x f. k.0 x (add-keeps x c.fd t.receive_sockets f), λ x f. k.1 x f),
      (k.0 c.fd (found-add c.fd t.receive_sockets), l),
    )

-- Whether the listener is among the events, readable.
unfoldable pub is_called : List Event → Bool
is_called [] = false
is_called (e ∷ es) = (not (is_some e.socket) && e.readable) || is_called es

on_event-called :
    (listener : Socket) (e : Event) (state : Bool × TcpServer)
    → (on_event listener e state).0 ≡ (state.0 || (not (is_some e.socket) && e.readable))
unfolding on_event
on_event-called listener e (new, t) = ground arith

on_events-called :
    (listener : Socket) (es : List Event) (state : Bool × TcpServer)
    → (on_events listener es state).0 ≡ (state.0 || is_called es)
unfolding on_events on_event is_called
on_events-called listener [] (new, t) = ground arith
on_events-called listener (e ∷ es) (new, t) = ground (
  arith,
  on_events-called listener es (on_event listener e (new, t)),
  on_event-called listener e (new, t),
)

All-Kept : (es : List Event) (t u : TcpServer) → Kept t u → All (Listed t) es → All (Listed u) es
All-Kept [] t u k all = tt
All-Kept (e ∷ es) t u k (h, all) = (Listed-Kept e t u k h, All-Kept es t u k all)

-- When the events fit into the array and the system calls on the new connections succeed, `poll`
-- returns. Each event's connection is in the list that its flags ask for; the new connections are
-- listed for reading, if the listener is readable; no connection that was listed is dropped; and when
-- none was listed twice before, none is afterwards.
pub poll_lem :
    (listener : Socket) (events : List Event) (accepted : List Accepted) (t : TcpServer)
    → length events ≤ events_size
    → All (λ c. (c.configured ≡ true) × (c.watched ≡ true)) accepted
    → IsValid t
    → (u : TcpServer) × (poll listener events accepted t ≡ ok u)
      × IsValid u
      × Kept t u
      × All (Listed u) events
      × (is_called events ≡ true → All (λ c. found c.fd u.receive_sockets ≡ true) accepted)
unfolding poll
poll_lem listener events accepted t fits good v =
    let r = on_events listener events (false, t) in
    let kept = on_events-keeps listener events (false, t) in
    let listed = on_events-Listed listener events (false, t) in
    let valid = on_events-IsValid listener events (false, t) v in
    elim (Bool-cases r.0) [
      | inl called ↦
          let (u, run, w, k, new) = accept_each-lists accepted r.1 good valid in
          (u, ground arith, w, Kept-trans t r.1 u kept k, All-Kept events r.1 u k listed, λ _. new)
      | inr quiet ↦ (
        r.1,
        ground arith,
        valid,
        kept,
        listed,
        λ h. absurd (ground (arith, on_events-called listener events (false, t))),
      )
    ]
