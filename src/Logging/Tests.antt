-- ===== src/Logging/Tests.antt =====
-- Calls of `log` (ch06/common/logging.h).
use building_low_latency_app.Prelude.{
  ℕ, ◌+◌, ◌≤◌, ◌<◌, ◌≡◌, ◌≢◌, List, [], ◌∷◌, ◌++◌, some, arith, refl,
}
use building_low_latency_app.Prelude.Lists.{length}
use building_low_latency_app.Prelude.Result.{ok}
use building_low_latency_app.Framing.{Bytes}
use building_low_latency_app.LfQueue.{LfQueue, size}
use building_low_latency_app.LfQueue.Refine.{IsValid, contents}
use building_low_latency_app.Logging.{LogType, LogElement, char_element, element, log, flush_queue}
use building_low_latency_app.Logging.Format.{pieces, fill_in, holes}
use building_low_latency_app.Logging.Flush.{printed, log-flush}

abbrev queue : ℕ → LfQueue LogElement
queue n = record {
  store = λ i. char_element i;
  num_elems = 16;
  next_write_index = n;
  next_read_index = 0;
  num_elements = n;
}

queue-IsValid : (n : ℕ) → n < 16 → IsValid (queue n)
queue-IsValid n h = record {
  small = omega arith;
  read_in = omega arith;
  within = omega arith;
  write_at = ground arith;
}

-- "a:% %%"
abbrev format : Bytes
format = b'a' ∷ b':' ∷ b'%' ∷ b' ' ∷ b'%' ∷ b'%' ∷ []

abbrev seven : LogElement
seven = record { type = LogType.integer; bits = 7 }

abbrev logged : List LogElement
logged = char_element b'a' ∷ char_element b':' ∷ seven ∷ char_element b' ' ∷ char_element b'%' ∷ []

format-filled : fill_in (pieces format) (element seven ∷ []) ≡ some logged
unfolding pieces fill_in
format-filled = refl

format-holes : holes (pieces format) ≢ 2
unfolding pieces holes
format-holes = omega arith

room : size (queue 3) + length logged ≤ 16
unfolding size
room = omega arith

-- Numbers by one digit.
abbrev print : LogType → ℕ → Bytes
print LogType.char c = c ∷ []
print _ n = (b'0' + n) ∷ []

log-flush_example :
    (r t : LfQueue LogElement) × (log format (element seven ∷ []) (queue 0) ≡ ok r)
    × (flush_queue print 5 r [] ≡ ok (t, [] ++ printed print logged))
    × (contents t ≡ [])
    × IsValid t
log-flush_example =
    log-flush print format (element seven ∷ []) logged (queue 0) [] format-filled
      (queue-IsValid 0 (omega arith)) refl (omega arith)

log-flush_text : printed print logged ≡ b'a' ∷ b':' ∷ b'7' ∷ b' ' ∷ b'%' ∷ []
unfolding printed
log-flush_text = refl
