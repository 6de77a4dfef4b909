-- ===== src/MatchingEngine/Requests.antt =====
-- What ch06/exchange/matcher/matching_engine.h does with a request.
use building_low_latency_app.Prelude.{
  ℕ, ◌≤◌, ◌<◌, ◌≡◌, ◌⊎◌, inl, inr, none, some, List, [], ◌∷◌, ◌++◌, arith, refl, ap, sym, ◌∙◌,
  update, true, false, Bool-cases, ltb, ==-refl, ==-of_ne,
}
use native.Mathlib.Decide.{ℕ_discrete}
use building_low_latency_app.Prelude.Result.{Result, ok, abort, fatal, ◌>>=◌}
use building_low_latency_app.Types.{
  ClientId, OrderId, TickerId, invalid, me_max_tickers, me_max_num_clients, me_max_order_ids,
  order_id_invalid, price_invalid, qty_invalid,
}
use building_low_latency_app.Messages.{
  MeClientRequest, MeClientResponse, ClientRequestType, ClientResponseType,
}
use building_low_latency_app.LfQueue.{LfQueue, push, size, get_next_to_read, update_read_index}
use building_low_latency_app.LfQueue.Refine.{
  IsValid, contents, size-contents, push_lem, update_read_index_lem,
}
use building_low_latency_app.Matcher.State.{MeOrderBook, Sent, M, response}
use building_low_latency_app.MatchingEngine.Deliver.{deliver-eq}
use building_low_latency_app.Prelude.Lists.{length}
use building_low_latency_app.Matcher.Trade.{add, cancel, reject_cancel, find_client_order}
use building_low_latency_app.MatchingEngine.{
  MatchingEngine, process_client_request, on_book, deliver, send_client_response, run_once,
}

-- The response to a `CANCEL` request that names no order.
abbrev pub rejection : MeClientRequest → MeClientResponse
rejection r = record {
  type = ClientResponseType.cancel_rejected;
  client_id = r.client_id;
  ticker_id = r.ticker_id;
  client_order_id = r.order_id;
  market_order_id = order_id_invalid;
  side = invalid;
  price = price_invalid;
  exec_qty = qty_invalid;
  leaves_qty = qty_invalid;
}

-- The request names no order: the client is unknown, or the order id is one of the array's and the
-- client has no such order in the book.
abbrev pub NamesNone : MeOrderBook → ClientId → OrderId → Type 0
NamesNone b c o =
    (me_max_num_clients ≤ c)
    ⊎ ((c < me_max_num_clients) × (o < me_max_order_ids) × (b.cid_oid_to_order c o ≡ none))

cancel-none :
    (r : MeClientRequest) (b : MeOrderBook)
    → NamesNone b r.client_id r.order_id
    → cancel r.client_id r.order_id r.ticker_id (record b { sent = [] })
      ≡ ok (tt, record b { sent = response (rejection r) ∷ [] })
unfolding cancel reject_cancel find_client_order
cancel-none r b (inl unknown) = ground arith
cancel-none r b (inr (known, inside, empty)) = ground arith

-- A book without what it sends.
abbrev pub kept : MeOrderBook → MeOrderBook
kept b = record b { sent = [] }

abbrev rejected : MeClientRequest → MatchingEngine → MatchingEngine
rejected r e = record e {
  ticker_order_book =
      update e.ticker_order_book r.ticker_id (kept (e.ticker_order_book r.ticker_id));
  outgoing_ogw_responses = push (rejection r) e.outgoing_ogw_responses;
}

process-none :
    (r : MeClientRequest) (e : MatchingEngine)
    → r.type ≡ ClientRequestType.cancel
    → r.ticker_id < me_max_tickers
    → NamesNone (e.ticker_order_book r.ticker_id) r.client_id r.order_id
    → process_client_request r e ≡ ok (rejected r e)
unfolding process_client_request on_book deliver send_client_response
process-none r e t h names_none =
    let c = cancel-none r (e.ticker_order_book r.ticker_id) names_none in
    let inside : ltb r.ticker_id me_max_tickers ≡ true = ground arith in rw (inside, t, c)

-- A `CANCEL` request that names no order, though its ticker is one of the exchange's, where the
-- client is unknown, or the order id is below 2^20 and the client has no order with it, puts one `CANCEL_REJECTED` response behind those that wait for the order server. No market update
-- is sent, and every book stays as it is.
pub cancel-rejected :
    (r : MeClientRequest) (e : MatchingEngine)
    → r.type ≡ ClientRequestType.cancel
    → r.ticker_id < me_max_tickers
    → NamesNone (e.ticker_order_book r.ticker_id) r.client_id r.order_id
    → IsValid e.outgoing_ogw_responses
    → size e.outgoing_ogw_responses < e.outgoing_ogw_responses.num_elems
    → (f : MatchingEngine) × (process_client_request r e ≡ ok f)
      × (contents f.outgoing_ogw_responses
          ≡ contents e.outgoing_ogw_responses ++ (rejection r ∷ []))
      × IsValid f.outgoing_ogw_responses
      × (f.outgoing_md_updates ≡ e.outgoing_md_updates)
      × ((t : ℕ) → kept (f.ticker_order_book t) ≡ kept (e.ticker_order_book t))
unfolding size
cancel-rejected r e t h names_none v room =
    let (v', c, _, _) = push_lem e.outgoing_ogw_responses (rejection r) v room in
    (rejected r e, process-none r e t h names_none, c, v', refl, same_book)
  where
    same_book : (t : ℕ) → kept ((rejected r e).ticker_order_book t) ≡ kept (e.ticker_order_book t)
    same_book t = elim (ℕ_discrete r.ticker_id t) [
      | yes same ↦ rw (same, ==-refl)
      | no other ↦ rw (==-of_ne r.ticker_id t other)
    ]

deliver-requests :
    (ms : List Sent) (e : MatchingEngine) → (deliver ms e).incoming_requests ≡ e.incoming_requests
deliver-requests ms e = ap (λ (f : MatchingEngine). f.incoming_requests) (deliver-eq ms e)

on_book-requests :
    (t : TickerId) (operation : M (Unit {0})) (e f : MatchingEngine)
    → on_book t operation e ≡ ok f
    → f.incoming_requests ≡ e.incoming_requests
unfolding on_book
on_book-requests t operation e f h = after (operation (kept (e.ticker_order_book t))) h
  where
    after :
        (r : Result (Unit {0} × MeOrderBook))
        → r >>= (λ s. ok (
            deliver s.1.sent (record e {
              ticker_order_book = update e.ticker_order_book t (record s.1 { sent = [] });
            })))
          ≡ ok f
        → f.incoming_requests ≡ e.incoming_requests
    after (ok (u, b)) h =
        let same : deliver b.sent (record e {
          ticker_order_book = update e.ticker_order_book t (record b { sent = [] });
        })
            ≡ f =
          cc in
        ap (λ (g : MatchingEngine). g.incoming_requests) (sym same) ∙ deliver-requests b.sent _
    after (abort a) h = absurd (cc)

process-requests :
    (r : MeClientRequest) (e f : MatchingEngine)
    → process_client_request r e ≡ ok f
    → f.incoming_requests ≡ e.incoming_requests
unfolding process_client_request
process-requests r e f h = inside (Bool-cases (ltb r.ticker_id me_max_tickers))
  where
    by_type :
        (t : ClientRequestType)
        → (elim t [
          | ClientRequestType.new ↦
              on_book r.ticker_id (add r.client_id r.order_id r.ticker_id r.side r.price r.qty) e
          | ClientRequestType.cancel ↦
              on_book r.ticker_id (cancel r.client_id r.order_id r.ticker_id) e
          | ClientRequestType.invalid ↦ abort fatal
          | ClientRequestType.unnamed n ↦ abort fatal
        ])
          ≡ ok f
        → f.incoming_requests ≡ e.incoming_requests
    by_type ClientRequestType.new g = on_book-requests _ _ e f g
    by_type ClientRequestType.cancel g = on_book-requests _ _ e f g
    by_type ClientRequestType.invalid g = absurd (cc)
    by_type (ClientRequestType.unnamed n) g = absurd (cc)

    inside :
        (ltb r.ticker_id me_max_tickers ≡ true) ⊎ (ltb r.ticker_id me_max_tickers ≡ false)
        → f.incoming_requests ≡ e.incoming_requests
    inside (inl yes_inside) = by_type r.type (rw yes_inside at h)
    inside (inr outside) = absurd (let g = rw outside at h in cc)

run_once-step :
    (e f : MatchingEngine) (r : MeClientRequest) (i : ℕ) (s : LfQueue MeClientRequest)
    → get_next_to_read e.incoming_requests ≡ some i
    → e.incoming_requests.store i ≡ r
    → process_client_request r e ≡ ok f
    → update_read_index f.incoming_requests ≡ ok s
    → run_once e ≡ ok (record f { incoming_requests = s })
unfolding run_once
run_once-step e f r i s next first p moved = ground arith

-- A round of the loop takes the oldest request out of the queue and processes it: if the processing
-- succeeds, the queue holds the other requests.
pub run_once_lem :
    (e f : MatchingEngine) (r : MeClientRequest) (rs : List MeClientRequest)
    → IsValid e.incoming_requests
    → contents e.incoming_requests ≡ r ∷ rs
    → process_client_request r e ≡ ok f
    → (g : MatchingEngine) × (run_once e ≡ ok g)
      × (contents g.incoming_requests ≡ rs)
      × IsValid g.incoming_requests
      × (g.outgoing_ogw_responses ≡ f.outgoing_ogw_responses)
      × (g.outgoing_md_updates ≡ f.outgoing_md_updates)
      × (g.ticker_order_book ≡ f.ticker_order_book)
run_once_lem e f r rs v c p =
    let q = e.incoming_requests in
    let (s, next, moved, d, v', _) =
      update_read_index_lem q v (omega (arith, size-contents q, ap length c)) in
    let first : q.store q.next_read_index ≡ r = cc in
    let rest : contents s ≡ rs = cc in
    let same = process-requests r e f p in
    (
      record f { incoming_requests = s },
      run_once-step e f r q.next_read_index s next first p (rw same moved),
      rest,
      v',
      refl,
      refl,
      refl,
    )
