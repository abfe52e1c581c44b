-- ===== src/Fanotify/Tiles.antt =====
-- The events of a buffer lie one behind the other and leave less than the length of one.
use elyra.Base.{
  ℕ, zero, suc, ◌+◌, ◌-◌, ◌≤◌, ◌<◌, ◌≡◌, refl, String, Option, List, [], ◌∷◌, leb, length, drop,
  arith, Bool-cases, inl, inr,
}
use elyra.Base.Int.{ℤ}
use elyra.Audit.Bytes.{Bytes}
use elyra.Fanotify.Buffer.{
  Event, Metadata, metadata_length, used_length, unpack, event_of, parse_from, parse_events,
}

-- The bytes that events take up.
abbrev pub taken : List Event → ℕ
taken [] = 0
taken (e ∷ events) = e.event_len + taken events

used_length-bounds :
    (left : ℕ) (m : Metadata)
    → metadata_length ≤ left
    → (metadata_length ≤ used_length left m) × (used_length left m ≤ left)
unfolding used_length
used_length-bounds left m h = ground arith

length-drop : (n : ℕ) (xs : Bytes) → length (drop n xs) ≡ length xs - n
length-drop zero xs = omega arith
length-drop (suc n) [] = omega arith
length-drop (suc n) (x ∷ xs) = omega (arith, length-drop n xs)

module _ (readlink : ℤ → Option String) where
  event_len-used :
      (left : ℕ) (m : Metadata) → (event_of readlink left m).event_len ≡ used_length left m
  unfolding event_of
  event_len-used left m = refl

  parse_from-tiles :
      (fuel : ℕ) (bytes : Bytes)
      → length bytes ≤ fuel
      → (taken (parse_from readlink fuel bytes) ≤ length bytes)
        × (length bytes < taken (parse_from readlink fuel bytes) + metadata_length)
  unfolding parse_from
  parse_from-tiles zero bytes h = omega arith
  parse_from-tiles (suc fuel) bytes h = elim (Bool-cases (leb metadata_length (length bytes))) [
    | inl more ↦
        let m = unpack bytes in
        let len = used_length (length bytes) m in
        let bounds = used_length-bounds (length bytes) m (ground arith) in
        rw more (
          omega (
            arith,
            bounds,
            event_len-used (length bytes) m,
            length-drop len bytes,
            parse_from-tiles fuel (drop len bytes) (omega (arith, bounds, length-drop len bytes)),
          ))
    | inr done ↦ rw done (ground arith)
  ]

  -- The loop over a buffer ends: the lengths of the events that it finds add up to no more than the
  -- buffer, and what is left behind the last one is shorter than the metadata of an event. This holds for
  -- any bytes, with lengths that are wrong in any way.
  pub parse_events-tiles :
      (bytes : Bytes)
      → (taken (parse_events readlink bytes) ≤ length bytes)
        × (length bytes < taken (parse_events readlink bytes) + metadata_length)
  unfolding parse_events
  parse_events-tiles bytes = parse_from-tiles (length bytes) bytes (omega arith)
