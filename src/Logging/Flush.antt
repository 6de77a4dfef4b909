-- ===== src/Logging/Flush.antt =====
-- What `flushQueue` of ch06/common/logging.h writes.
use mathlib.Core.List.{append-nil, append_assoc}
use building_low_latency_app.Prelude.{
  ℕ, zero, suc, ◌≤◌, ◌≡◌, List, [], ◌∷◌, ◌++◌, some, arith, refl, ap, sym, ◌∙◌,
}
use building_low_latency_app.Prelude.Lists.{length}
use building_low_latency_app.Prelude.Result.{ok}
use building_low_latency_app.Framing.{Bytes}
use building_low_latency_app.LfQueue.{LfQueue, size, get_next_to_read, update_read_index}
use building_low_latency_app.LfQueue.Refine.{
  IsValid, contents, size-contents, update_read_index_lem, update_read_index-empty,
}
use building_low_latency_app.Logging.{
  LogType, LogElement, LogValue, log, flush_queue, write_element,
}
use building_low_latency_app.Logging.Format.{pieces, fill_in, log_lem}

module _ (print : LogType → ℕ → Bytes) where
  -- The elements, printed one after the other.
  unfoldable pub printed : List LogElement → Bytes
  printed [] = []
  printed (e ∷ es) = print e.type e.bits ++ printed es

  printed-append : (es fs : List LogElement) → printed (es ++ fs) ≡ printed es ++ printed fs
  unfolding printed
  printed-append [] fs = refl
  printed-append (e ∷ es) fs =
      ap (λ t. print e.type e.bits ++ t) (printed-append es fs)
      ∙ sym (append_assoc (print e.type e.bits) (printed es) (printed fs))

  flush-nil :
      (fuel : ℕ) (q : LfQueue LogElement) (file : Bytes)
      → size q ≡ 0
      → flush_queue print fuel q file ≡ ok (q, file)
  unfolding flush_queue
  flush-nil zero q file e = ground (arith, update_read_index-empty q e)
  flush-nil (suc fuel) q file e = ground (arith, update_read_index-empty q e)

  flush-step :
      (fuel : ℕ) (q r : LfQueue LogElement) (e : LogElement) (i : ℕ) (file : Bytes)
      → get_next_to_read q ≡ some i
      → update_read_index q ≡ ok r
      → q.store i ≡ e
      → flush_queue print (suc fuel) q file ≡ flush_queue print fuel r (file ++ print e.type e.bits)
  unfolding flush_queue write_element
  flush-step fuel q r e i file next moved first = ground arith

  flush_each :
      (es : List LogElement) (q : LfQueue LogElement) (file : Bytes)
      → IsValid q
      → contents q ≡ es
      → (r : LfQueue LogElement) × (flush_queue print (length es) q file
          ≡ ok (r, file ++ printed es))
        × (contents r ≡ [])
        × IsValid r
  unfolding printed
  flush_each [] q file v e = (
    q,
    flush-nil zero q file (sym (size-contents q) ∙ ap length e)
        ∙ ap (λ t. ok (q, t)) (sym (append-nil file)),
    e,
    v,
  )
  flush_each (x ∷ es) q file v e =
      let (r, next, moved, c, v', _) =
        update_read_index_lem q v (omega (arith, size-contents q, ap length e)) in
      let first : q.store q.next_read_index ≡ x = cc in
      let rest : contents r ≡ es = cc in
      let (t, run, empty, w) = flush_each es r (file ++ print x.type x.bits) v' rest in
      (
        t,
        flush-step (length es) q r x q.next_read_index file next moved first
            ∙ run
            ∙ ap (λ f. ok (t, f)) (append_assoc file (print x.type x.bits) (printed es)),
        empty,
        w,
      )

  -- A turn of the loop empties a valid queue and appends its elements to the file, printed in order.
  pub flush_queue_lem :
      (q : LfQueue LogElement) (file : Bytes)
      → IsValid q
      → (r : LfQueue LogElement) × (flush_queue print (size q) q file
          ≡ ok (r, file ++ printed (contents q)))
        × (contents r ≡ [])
        × IsValid r
  flush_queue_lem q file v = rw (← size-contents q) (flush_each (contents q) q file v refl)

  -- What `log` was called with ends up in the file: when an empty valid queue has room, a call of `log`
  -- and a turn of the other thread's loop append the format's characters with the printed arguments in
  -- their places, of a text what stands before its first byte 0, and leave the queue empty.
  pub log-flush :
      (s : Bytes) (vs : List LogValue) (es : List LogElement) (q : LfQueue LogElement)
      (file : Bytes)
      → fill_in (pieces s) vs ≡ some es
      → IsValid q
      → contents q ≡ []
      → length es ≤ q.num_elems
      → (r t : LfQueue LogElement) × (log s vs q ≡ ok r)
        × (flush_queue print (length es) r file ≡ ok (t, file ++ printed es))
        × (contents t ≡ [])
        × IsValid t
  log-flush s vs es q file filled v empty room =
      let (r, run, c, w) =
        log_lem s vs es q filled v (omega (arith, size-contents q, ap length empty)) in
      let (t, written, e, z) = flush_each es r file w (c ∙ ap (λ xs. xs ++ es) empty) in
      (r, t, run, written, e, z)
