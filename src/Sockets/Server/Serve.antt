-- ===== src/Sockets/Server/Serve.antt =====
-- When `sendAndRecv` of ch06/common/tcp_server.cpp calls the program that uses the server.
use building_low_latency_app.Prelude.{
  ◌≡◌, Bool, false, ◌||◌, inl, inr, is_some, List, [], ◌∷◌, arith, refl, ap, sym, ◌∙◌, subst,
  if◌then◌else◌,
}
use building_low_latency_app.Prelude.Result.{Result, Result-cases, bind-ok, ok, abort, ◌>>=◌}
use building_low_latency_app.Sockets.Tcp.{Round, Callback, receive, send_and_recv}
use building_low_latency_app.Sockets.Server.{
  Socket, TcpServer, serve_one, serve_each, server_send_and_recv,
}

-- Whether the kernel has bytes for one of the sockets.
unfoldable pub any_read : (Socket → Round) → List Socket → Bool
any_read rounds [] = false
any_read rounds (s ∷ ss) = is_some (rounds s).arrival || any_read rounds ss

module _ {A : Type 0} (callback : Socket → Callback A) where
  abbrev flagged : Bool → Result (Bool × TcpServer × A) → Result (Bool × TcpServer × A)
  flagged b r = r >>= λ x. ok (b, x.1, x.2)

  serve_one-read :
      (round : Round) (s : Socket) (t : TcpServer) (a : A)
      → serve_one callback round s (t, a)
        ≡ flagged (is_some round.arrival) (serve_one callback round s (t, a))
  unfolding serve_one send_and_recv
  serve_one-read round s t a =
      elim (Result-cases (receive (callback s) round.arrival (t.sockets s, a))) [
        | inl (r, e) ↦ rw e refl
        | inr (x, e) ↦ rw e refl
      ]

  abbrev flag : Result (Bool × TcpServer × A) → Bool
  flag (ok r) = r.0
  flag (abort x) = false

  serve_one-flag :
      (round : Round) (s : Socket) (t u : TcpServer) (a d : A) (c : Bool)
      → serve_one callback round s (t, a) ≡ ok (c, u, d)
      → c ≡ is_some round.arrival
  serve_one-flag round s t u a d c e =
      ap flag (subst (λ r. r ≡ flagged (is_some round.arrival) r) e (serve_one-read round s t a))

  serve_each-flag :
      (rounds : Socket → Round) (ss : List Socket) (b c : Bool) (t u : TcpServer) (a d : A)
      → serve_each callback rounds ss (b, t, a) ≡ ok (c, u, d)
      → c ≡ (b || any_read rounds ss)
  unfolding serve_each any_read
  serve_each-flag rounds [] b c t u a d e = ground arith
  serve_each-flag rounds (s ∷ ss) b c t u a d e =
      elim (Result-cases (serve_one callback (rounds s) s (t, a))) [
        | inr (x, f) ↦ ground arith
        | inl ((g, v, k), f) ↦
            let rest =
              sym (
                bind-ok (serve_one callback (rounds s) s (t, a))
                  (λ r. serve_each callback rounds ss (b || r.0, r.1, r.2)) (g, v, k) f)
              ∙ e in
            ground (
              arith,
              serve_each-flag rounds ss (b || g) c v u k d rest,
              serve_one-flag (rounds s) s t v a k g f,
            )
      ]

  -- The server's program learns that a round of reads is over exactly when a socket of the first loop
  -- had bytes; it learns it after all of them are handled, and before anything is sent in the second
  -- loop.
  pub server_send_and_recv-finished :
      (finished : A → A) (receiving sending : Socket → Round) (t : TcpServer) (a : A)
      → server_send_and_recv callback finished receiving sending (t, a) ≡ (
          serve_each callback receiving t.receive_sockets (false, t, a) >>= λ r.
          serve_each callback sending r.1.send_sockets
            (false, r.1, if any_read receiving t.receive_sockets then finished r.2 else r.2)
          >>= λ u. ok (u.1, u.2))
  unfolding server_send_and_recv
  server_send_and_recv-finished finished receiving sending t a =
      elim (Result-cases (serve_each callback receiving t.receive_sockets (false, t, a))) [
        | inr (x, e) ↦ rw e refl
        | inl ((c, u, d), e) ↦
            rw (e, serve_each-flag receiving t.receive_sockets false c t u a d e) refl
      ]
