-- ===== src/Framing/Laws.antt =====
-- The messages of a buffer do not depend on how the bytes arrived.
use mathlib.Core.List.{flatten, append_assoc}
use building_low_latency_app.Prelude.{
  ℕ, zero, suc, ◌≤◌, ◌<◌, ◌≡◌, List, [], ◌∷◌, ◌++◌, arith, refl, ap, ◌∙◌, sym,
}
use building_low_latency_app.Prelude.Lists.{
  length, take, drop, All, length-append, length-drop, length-take, take-append, drop-append,
  take-append-drop,
}
use native.Mathlib.Decide.{dec_le}
use building_low_latency_app.Framing.{Bytes, split, messages}

module _ (size : ℕ) (pos : 0 < size) where
  split-more :
      (k : ℕ) (bytes : Bytes)
      → size ≤ length bytes
      → split (suc k) size bytes
        ≡ (take size bytes ∷ (split k size (drop size bytes)).0, (split k size (drop size bytes)).1)
  unfolding split
  split-more k bytes h = ground arith

  split-less : (k : ℕ) (bytes : Bytes) → length bytes < size → split k size bytes ≡ ([], bytes)
  unfolding split
  split-less zero bytes h = refl
  split-less (suc k) bytes h = ground arith

  -- Enough fuel is enough.
  split-fuel :
      (j k : ℕ) (bytes : Bytes)
      → length bytes < j
      → length bytes < k
      → split j size bytes ≡ split k size bytes
  split-fuel zero k bytes hj hk = elim hj [ ]
  split-fuel (suc j) zero bytes hj hk = elim hk [ ]
  split-fuel (suc j) (suc k) bytes hj hk = elim (dec_le size (length bytes)) [
    | yes h ↦
        split-more j bytes h
        ∙ ap (λ (r : List Bytes × Bytes). (take size bytes ∷ r.0, r.1))
            (split-fuel j k (drop size bytes) (omega (arith, length-drop size bytes))
              (omega (arith, length-drop size bytes)))
        ∙ sym (split-more k bytes h)
    | no h ↦ split-less (suc j) bytes (omega arith) ∙ sym (split-less (suc k) bytes (omega arith))
  ]

  length-rest : (k : ℕ) (bytes : Bytes) → length (split k size bytes).1 ≤ length bytes
  unfolding split
  length-rest zero bytes = omega arith
  length-rest (suc k) bytes =
      ground (arith, length-rest k (drop size bytes), length-drop size bytes)

  abbrev continued : ℕ → Bytes → List Bytes × Bytes → List Bytes × Bytes
  continued j ys r = (r.0 ++ (split j size (r.1 ++ ys)).0, (split j size (r.1 ++ ys)).1)

  split-append :
      (k j : ℕ) (xs ys : Bytes)
      → length xs < k
      → length (xs ++ ys) < j
      → split j size (xs ++ ys) ≡ continued j ys (split k size xs)
  split-append zero j xs ys hk hj = elim hk [ ]
  split-append (suc k) zero xs ys hk hj = elim hj [ ]
  split-append (suc k) (suc j) xs ys hk hj = elim (dec_le size (length xs)) [
    | no h ↦ rw (split-less (suc k) xs (omega arith))
    | yes h ↦
        let s = split k size (drop size xs) in
        rw (
          split-more k xs h,
          split-more j (xs ++ ys) (omega (arith, length-append xs ys)),
          take-append size xs ys h,
          drop-append size xs ys h,
          split-append k j (drop size xs) ys (omega (arith, length-drop size xs)) (
              omega
                (arith, length-append (drop size xs) ys, length-append xs ys, length-drop size xs)),
          split-fuel (suc j) j (s.1 ++ ys)
              (omega (
                arith,
                length-append s.1 ys,
                length-append xs ys,
                length-rest k (drop size xs),
                length-drop size xs,
              ))
              (omega (
                arith,
                length-append s.1 ys,
                length-append xs ys,
                length-rest k (drop size xs),
                length-drop size xs,
              )),
        )
  ]

  -- However a stream is cut when it arrives, the same messages come out: those of the first part,
  -- then those of what it left and the second part.
  pub messages-append :
      (xs ys : Bytes)
      → let first = messages size xs in
        let second = messages size (first.1 ++ ys) in
        messages size (xs ++ ys) ≡ (first.0 ++ second.0, second.1)
  unfolding messages
  messages-append xs ys =
      let r = (split (suc (length xs)) size xs).1 ++ ys in
      rw (
        split-append (suc (length xs)) (suc (length (xs ++ ys))) xs ys (omega arith) (omega arith),
        split-fuel (suc (length (xs ++ ys))) (suc (length r)) r
            (omega (
              arith,
              length-append xs ys,
              length-append (split (suc (length xs)) size xs).1 ys,
              length-rest (suc (length xs)) xs,
            ))
            (omega arith),
      )

  split-parts :
      (k : ℕ) (bytes : Bytes)
      → length bytes < k
      → (flatten (split k size bytes).0 ++ (split k size bytes).1 ≡ bytes)
        × All (λ m. length m ≡ size) (split k size bytes).0
        × (length (split k size bytes).1 < size)
  unfolding flatten
  split-parts zero bytes h = elim h [ ]
  split-parts (suc k) bytes h = elim (dec_le size (length bytes)) [
    | no less ↦ rw (split-less (suc k) bytes (omega arith)) (refl, tt, omega arith)
    | yes more ↦
        let s = split k size (drop size bytes) in
        let (e, all, rest) =
          split-parts k (drop size bytes) (omega (arith, length-drop size bytes)) in
        rw (split-more k bytes more) (
          append_assoc (take size bytes) (flatten s.0) s.1
              ∙ ap (λ t. take size bytes ++ t) e
              ∙ take-append-drop size bytes,
          (length-take size bytes more, all),
          rest,
        )
  ]

  -- No byte is lost or made up: the messages and what stays are the buffer. Each message is whole,
  -- and no whole message stays.
  pub messages_lem :
      (bytes : Bytes)
      → (flatten (messages size bytes).0 ++ (messages size bytes).1 ≡ bytes)
        × All (λ m. length m ≡ size) (messages size bytes).0
        × (length (messages size bytes).1 < size)
  unfolding messages
  messages_lem bytes = split-parts (suc (length bytes)) bytes (omega arith)

  -- A buffer without a whole message stays.
  pub messages-short : (bytes : Bytes) → length bytes < size → messages size bytes ≡ ([], bytes)
  unfolding messages
  messages-short bytes h = split-less (suc (length bytes)) bytes h
