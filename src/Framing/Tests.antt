-- ===== src/Framing/Tests.antt =====
-- Messages of two bytes.
use building_low_latency_app.Prelude.{◌<◌, ◌≡◌, [], ◌∷◌, ◌++◌, arith}
use mathlib.Core.List.{flatten}
use building_low_latency_app.Prelude.Lists.{length, All}
use building_low_latency_app.Framing.{Bytes, messages}
use building_low_latency_app.Framing.Laws.{messages_lem}

abbrev first_part : Bytes
first_part = 1 ∷ 2 ∷ 3 ∷ []

abbrev second_part : Bytes
second_part = 4 ∷ 5 ∷ []

messages_lem_example :
    (flatten (messages 2 first_part).0 ++ (messages 2 first_part).1 ≡ first_part)
    × All (λ m. length m ≡ 2) (messages 2 first_part).0
    × (length (messages 2 first_part).1 < 2)
messages_lem_example = messages_lem 2 (omega arith) first_part
