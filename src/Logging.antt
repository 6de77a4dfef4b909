-- ===== src/Logging.antt =====
-- ch06/common/logging.h: a call of `log` turns a format and its arguments into elements of a queue,
-- which another thread writes to the log file. Texts are bytes, without the 0 at their end.
pub mod Format
pub mod Flush
mod Tests
use mathlib.Core.List.{reverse}
use building_low_latency_app.Prelude.{
  ℕ, zero, suc, none, some, List, [], ◌∷◌, ◌++◌, if◌then◌else◌, ◌==◌,
}
use building_low_latency_app.Prelude.Result.{Result, ok, abort, ◌>>=◌, fatal, out_of_fuel}
use building_low_latency_app.Framing.{Bytes}
use building_low_latency_app.LfQueue.{LfQueue, push, get_next_to_read, update_read_index}

-- `CHAR`, `INTEGER`, …, `DOUBLE`
pub data LogType : Type 0 where
  char integer long_integer long_long_integer unsigned_integer unsigned_long_integer : LogType
  unsigned_long_long_integer float double : LogType

-- `bits` is what the union `u_` holds, as the bits of its member.
pub record LogElement : Type 0 where
  pub type : LogType
  pub bits : ℕ

abbrev pub char_element : ℕ → LogElement
char_element c = record { type = LogType.char; bits = c }

-- An argument of `log`: a character or a number, by its element, or a text.
pub data LogValue : Type 0 where
  element : LogElement → LogValue
  text : Bytes → LogValue

-- `pushValue` of a `const char*` and of a `std::string`, which stop at a byte 0
unfoldable pub push_text : Bytes → LfQueue LogElement → LfQueue LogElement
push_text [] q = q
push_text (c ∷ cs) q =
    let rest = push_text cs (push (char_element c) q) in if c == 0 then q else rest

-- `pushValue`
unfoldable pub push_value : LogValue → LfQueue LogElement → LfQueue LogElement
unfolding push_text
push_value (element e) q = push e q
push_value (text t) q = push_text t q

-- `log` without arguments.
unfoldable pub log_rest : Bytes → LfQueue LogElement → Result (LfQueue LogElement)
log_rest [] q = ok q
log_rest (c ∷ []) q = if c == b'%' then abort fatal else ok (push (char_element c) q)
log_rest (c ∷ d ∷ s) q =
    let escaped = log_rest s (push (char_element d) q) in
    let plain = log_rest (d ∷ s) (push (char_element c) q) in
    if c == b'%' then (if d == b'%' then escaped else abort fatal) else plain

-- `log`
unfoldable pub log : Bytes → List LogValue → LfQueue LogElement → Result (LfQueue LogElement)
log s [] q = log_rest s q
log [] (v ∷ vs) q = abort fatal
log (c ∷ []) (v ∷ vs) q =
    let called = log [] vs (push_value v q) in if c == b'%' then called else abort fatal
log (c ∷ d ∷ s) (v ∷ vs) q =
    let escaped = log s (v ∷ vs) (push (char_element d) q) in
    let called = log (d ∷ s) vs (push_value v q) in
    let plain = log (d ∷ s) (v ∷ vs) (push (char_element c) q) in
    if c == b'%' then (if d == b'%' then escaped else called) else plain

-- The body of the loop of `flushQueue` on an element: `print` is `file_ <<` of a member.
unfoldable pub write_element : (LogType → ℕ → Bytes) → LogElement → Bytes → Bytes
write_element print e file = file ++ print e.type e.bits

-- The loop of `flushQueue` over the elements; the fuel is their number, if none is added meanwhile.
unfoldable pub flush_queue :
    (LogType → ℕ → Bytes) → ℕ → LfQueue LogElement → Bytes → Result (LfQueue LogElement × Bytes)
unfolding write_element
flush_queue print zero q file = elim (get_next_to_read q) [
  | none ↦ ok (q, file)
  | some i ↦ abort out_of_fuel
]
flush_queue print (suc fuel) q file = elim (get_next_to_read q) [
  | none ↦ ok (q, file)
  | some i ↦
      update_read_index q >>= λ r. flush_queue print fuel r (write_element print (q.store i) file)
]
