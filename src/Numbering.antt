-- ===== src/Numbering.antt =====
-- Messages under consecutive sequence numbers, as the order server, the order gateway and the
-- snapshots of ch06 send and expect them.
use building_low_latency_app.Prelude.{ℕ, List, [], ◌∷◌, inc64}
use building_low_latency_app.Messages.{
  MeClientRequest, OmClientRequest, MeClientResponse, OmClientResponse, MeMarketUpdate,
  MdpMarketUpdate,
}

abbrev pub om_request : ℕ → MeClientRequest → OmClientRequest
om_request n r = record { seq_num = n; me_client_request = r }

abbrev pub om_response : ℕ → MeClientResponse → OmClientResponse
om_response n r = record { seq_num = n; me_client_response = r }

abbrev pub mdp_update : ℕ → MeMarketUpdate → MdpMarketUpdate
mdp_update n u = record { seq_num = n; me_market_update = u }

module _ {A B : Type 0} (number : ℕ → A → B) where
  -- The messages numbered from `n` on.
  abbrev pub numbered : ℕ → List A → List B
  numbered n [] = []
  numbered n (x ∷ xs) = number n x ∷ numbered (inc64 n) xs

-- The number after those of the messages.
abbrev pub number_after : {A : Type 0} → ℕ → List A → ℕ
number_after n [] = n
number_after n (x ∷ xs) = number_after (inc64 n) xs
