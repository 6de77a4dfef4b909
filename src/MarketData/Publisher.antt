-- ===== src/MarketData/Publisher.antt =====
-- ch06/exchange/market_data/market_data_publisher.cpp: incremental updates under their numbers, to the
-- market and to the snapshot synthesizer.
pub mod Updates
mod Tests
use building_low_latency_app.Prelude.{ℕ, zero, suc, none, some, List, [], ◌∷◌, ◌++◌, inc64}
use building_low_latency_app.Prelude.Result.{Result, ok, abort, ◌>>=◌, out_of_fuel}
use building_low_latency_app.Messages.{MeMarketUpdate, MdpMarketUpdate}
use building_low_latency_app.LfQueue.{LfQueue, push, get_next_to_read, update_read_index}

-- What is put into the incremental socket: a number, or the bytes from the local variable on that
-- points to a place of the queue. The code sends the latter where it means the update.
pub data Sent : Type 0 where
  number : ℕ → Sent
  pointer_bytes : ℕ → Sent

pub record MarketDataPublisher : Type 0 where
  pub next_inc_seq_num : ℕ
  pub outgoing_md_updates : LfQueue MeMarketUpdate
  pub snapshot_md_updates : LfQueue MdpMarketUpdate
  pub sent : List Sent

-- The body of the loop of `run` for the update at the place `i` of the queue.
unfoldable pub publish_update : ℕ → MarketDataPublisher → Result MarketDataPublisher
publish_update i p =
    let n = p.next_inc_seq_num in
    update_read_index p.outgoing_md_updates >>= λ q. ok (record p {
      next_inc_seq_num = inc64 n;
      outgoing_md_updates = q;
      snapshot_md_updates =
          push (record { seq_num = n; me_market_update = q.store i }) p.snapshot_md_updates;
      sent = p.sent ++ (number n ∷ pointer_bytes i ∷ []);
    })

-- The loop of `run` over the updates; the fuel is their number, if none is added meanwhile.
unfoldable pub publish_updates : ℕ → MarketDataPublisher → Result MarketDataPublisher
publish_updates zero p = elim (get_next_to_read p.outgoing_md_updates) [
  | none ↦ ok p
  | some i ↦ abort out_of_fuel
]
publish_updates (suc fuel) p = elim (get_next_to_read p.outgoing_md_updates) [
  | none ↦ ok p
  | some i ↦ publish_update i p >>= publish_updates fuel
]
