-- ===== src/MatchingEngine.antt =====
-- ch06/exchange/matcher/matching_engine.h: requests in from the order server, responses and market
-- updates out.
pub mod Deliver
pub mod Requests
mod Tests
use building_low_latency_app.Prelude.{ℕ, none, some, List, [], ◌∷◌, not, if◌then◌else◌, ltb, update}
use building_low_latency_app.Prelude.Result.{Result, ok, abort, ◌>>=◌, undefined, fatal}
use building_low_latency_app.Types.{TickerId, me_max_tickers}
use building_low_latency_app.Messages.{
  MeClientRequest, MeClientResponse, MeMarketUpdate, ClientRequestType,
}
use building_low_latency_app.LfQueue.{LfQueue, push, get_next_to_read, update_read_index}
use building_low_latency_app.Matcher.State.{MeOrderBook, M, Sent, response, update_sent}
use building_low_latency_app.Matcher.Trade.{add, cancel}

pub record MatchingEngine : Type 0 where
  pub ticker_order_book : TickerId → MeOrderBook
  pub incoming_requests : LfQueue MeClientRequest
  pub outgoing_ogw_responses : LfQueue MeClientResponse
  pub outgoing_md_updates : LfQueue MeMarketUpdate

-- `sendClientResponse`
unfoldable pub send_client_response : MeClientResponse → MatchingEngine → MatchingEngine
send_client_response r e = record e { outgoing_ogw_responses = push r e.outgoing_ogw_responses }

-- `sendMarketUpdate`
unfoldable pub send_market_update : MeMarketUpdate → MatchingEngine → MatchingEngine
send_market_update u e = record e { outgoing_md_updates = push u e.outgoing_md_updates }

-- The calls that a book made on the engine, in their order.
unfoldable pub deliver : List Sent → MatchingEngine → MatchingEngine
deliver [] e = e
deliver (response r ∷ ms) e = deliver ms (send_client_response r e)
deliver (update_sent u ∷ ms) e = deliver ms (send_market_update u e)

-- A call of an operation of a ticker's book. What the book sends goes out.
unfoldable pub on_book : TickerId → M (Unit {0}) → MatchingEngine → Result MatchingEngine
on_book ticker_id operation e =
    operation (record (e.ticker_order_book ticker_id) { sent = [] }) >>= λ r. ok (
      deliver r.1.sent (record e {
        ticker_order_book = update e.ticker_order_book ticker_id (record r.1 { sent = [] });
      }))

-- `processClientRequest`. The array of books is indexed without a check.
unfoldable pub process_client_request : MeClientRequest → MatchingEngine → Result MatchingEngine
process_client_request r e =
    if not (ltb r.ticker_id me_max_tickers) then abort undefined else (elim r.type [
      | ClientRequestType.new ↦
          on_book r.ticker_id (add r.client_id r.order_id r.ticker_id r.side r.price r.qty) e
      | ClientRequestType.cancel ↦ on_book r.ticker_id (cancel r.client_id r.order_id r.ticker_id) e
      | ClientRequestType.invalid ↦ abort fatal
      | ClientRequestType.unnamed n ↦ abort fatal
    ])

-- A round of the loop of `run`.
unfoldable pub run_once : MatchingEngine → Result MatchingEngine
run_once e = elim (get_next_to_read e.incoming_requests) [
  | none ↦ ok e
  | some i ↦ process_client_request (e.incoming_requests.store i) e >>= λ f.
      update_read_index f.incoming_requests >>= λ q. ok (record f { incoming_requests = q })
]
