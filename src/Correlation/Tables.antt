-- ===== src/Correlation/Tables.antt =====
-- The engine's invariant, and the operations on its tables that keep it.
use elyra.Base.{
  ℕ, zero, suc, ◌<◌, is_some, ◌≤◌, ◌≡◌, refl, true, Option, none, some, List, [], ◌∷◌, length, take,
  arith, Option-cases, Bool-cases, inl, inr, String,
}
use elyra.Base.Int.{ℤ, pos, ◌≤ℤ◌, leb_ℤ, ltb_ℤ}
use elyra.Base.Dict.{
  Dict, lookup, insert, int_key, Distinct, lookup-insert, lookup-erase, length-insert_old,
  length-erase_le, length-erase_lt, insert-Distinct, erase-Distinct, beq_refl,
}
use elyra.Correlation.Policy.{CorrelationPolicy}
use elyra.Correlation.Valid.{IsValid}
use elyra.Correlation.State.{ExecutionState}
use elyra.Correlation.Sound.{IsSound}
use elyra.Correlation.Engine.{
  Engine, archive_limit, update, archive, oldest_from, evict_from, evict_oldest, make_room,
}

-- What holds of the two tables: no process is listed twice, each state is as `P` says, and both
-- tables are within their limits.
pub record Tables (P : ExecutionState → Type 0) (limit : ℤ) (states : Dict ℤ ExecutionState)
    (archived : List ExecutionState) : Type 0 where
  pub distinct : Distinct states
  pub room : pos (length states) ≤ℤ limit
  pub archive_room : length archived ≤ archive_limit
  pub each : (pid : ℤ) (s : ExecutionState) → lookup pid states ≡ some s → P s

abbrev pub IsFine : CorrelationPolicy → Engine → Type 0
IsFine p e = Tables (IsSound p) p.max_states e.states e.archived

length-take_le {ℓ} : {A : Type ℓ} (n : ℕ) (xs : List A) → length (take n xs) ≤ n
length-take_le zero xs = omega arith
length-take_le (suc n) [] = omega arith
length-take_le (suc n) (x ∷ xs) = omega (arith, length-take_le n xs)

insert-each :
    (P : ExecutionState → Type 0) (pid q : ℤ) (t v : ExecutionState)
    (states : Dict ℤ ExecutionState)
    → P t
    → ((r : ℤ) (s : ExecutionState) → lookup r states ≡ some s → P s)
    → lookup q (insert pid t states) ≡ some v
    → P v
insert-each P pid q t v states ht each at = ground (arith, lookup-insert pid q t states, each q v)

-- One process's state put in.
pub insert-Tables :
    (P : ExecutionState → Type 0) (limit : ℤ) (pid : ℤ) (t : ExecutionState)
    (states : Dict ℤ ExecutionState) (archived : List ExecutionState)
    → pos (length (insert pid t states)) ≤ℤ limit
    → P t
    → Tables P limit states archived
    → Tables P limit (insert pid t states) archived
insert-Tables P limit pid t states archived room ht h = record {
  distinct = insert-Distinct pid t states h.distinct;
  room = room;
  archive_room = h.archive_room;
  each = λ q v at. insert-each P pid q t v states ht h.each at;
}

-- One process's state replaced.
pub replace-Tables :
    (P : ExecutionState → Type 0) (limit : ℤ) (pid : ℤ) (s t : ExecutionState)
    (states : Dict ℤ ExecutionState) (archived : List ExecutionState)
    → lookup pid states ≡ some s
    → P t
    → Tables P limit states archived
    → Tables P limit (insert pid t states) archived
replace-Tables P limit pid s t states archived found ht h =
    insert-Tables P limit pid t states archived (rw (length-insert_old pid t s states found) h.room)
      ht h

pub update-IsFine :
    (p : CorrelationPolicy) (pid : ℤ) (f : ExecutionState → ExecutionState) (e : Engine)
    → ((s : ExecutionState) → IsSound p s → IsSound p (f s))
    → IsFine p e
    → IsFine p (update pid f e)
unfolding update
update-IsFine p pid f e hf h = elim (Option-cases (lookup pid e.states)) [
  | inl gone ↦ rw (update, gone) h
  | inr (s, at) ↦
      rw (update, at) (replace-Tables (IsSound p) _ pid s (f s) _ _ at (hf s (h.each pid s at)) h)
]

pub archive-IsFine :
    (p : CorrelationPolicy) (pid : ℤ) (reason : String) (e : Engine)
    → IsFine p e
    → IsFine p (archive pid reason e)
unfolding archive
archive-IsFine p pid reason e h = elim (Option-cases (lookup pid e.states)) [
  | inl gone ↦ rw (archive, gone) h
  | inr (s, at) ↦
      rw (archive, at)
        record {
          distinct = erase-Distinct pid e.states h.distinct;
          room = omega (arith, length-erase_le pid e.states, h.room);
          archive_room =
              length-take_le archive_limit
                (record s { terminal_reason = some reason } ∷ e.archived);
          each = λ q v found. ground (arith, lookup-erase pid q e.states, h.each q v);
        }
]

-- The process that `oldest_from` names is in the table.
oldest_from-lookup :
    (pid : ℤ) (seen : ℤ) (s : ExecutionState) (d whole : Dict ℤ ExecutionState)
    → ((k : ℤ) → is_some (lookup k ((pid, s) ∷ d)) ≡ true → is_some (lookup k whole) ≡ true)
    → is_some (lookup (oldest_from pid seen d) whole) ≡ true
unfolding oldest_from lookup
oldest_from-lookup pid seen s [] whole h = h pid (ground (arith, beq_refl pid))
oldest_from-lookup pid seen s ((k, t) ∷ d) whole h = elim (Bool-cases (ltb_ℤ t.last_seen seen)) [
  | inl less ↦ rw less (oldest_from-lookup k t.last_seen t d whole (λ q found. h q (ground arith)))
  | inr more ↦ rw more (oldest_from-lookup pid seen s d whole (λ q found. h q (ground arith)))
]

some_of {ℓ} : {A : Type ℓ} (o : Option A) → is_some o ≡ true → (a : A) × (o ≡ some a)
some_of (some a) h = (a, refl)
some_of none h = cc

-- Archiving a process that is in the table makes room for one.
length-archive :
    (pid : ℤ) (reason : String) (s : ExecutionState) (e : Engine)
    → lookup pid e.states ≡ some s
    → suc (length (archive pid reason e).states) ≤ length e.states
unfolding archive
length-archive pid reason s e at = rw (archive, at) (length-erase_lt pid s e.states at)

length-evict_from :
    (d : Dict ℤ ExecutionState) (e : Engine)
    → ((k : ℤ) → is_some (lookup k d) ≡ true → is_some (lookup k e.states) ≡ true)
    → 0 < length d
    → suc (length (evict_from d e).states) ≤ length e.states
unfolding evict_from
length-evict_from [] e h some_states = omega (arith, some_states)
length-evict_from ((k, s) ∷ rest) e h some_states =
    let (w, found) = some_of _ (oldest_from-lookup k s.last_seen s rest e.states h) in
    length-archive (oldest_from k s.last_seen rest) _ w e found

evict_from-IsFine :
    (p : CorrelationPolicy) (d : Dict ℤ ExecutionState) (e : Engine)
    → IsFine p e
    → IsFine p (evict_from d e)
unfolding evict_from
evict_from-IsFine p [] e h = h
evict_from-IsFine p ((k, s) ∷ rest) e h = archive-IsFine p _ _ e h

-- Room for one more state.
pub make_room-IsFine : (p : CorrelationPolicy) (e : Engine) → IsFine p e → IsFine p (make_room p e)
unfolding make_room evict_oldest
make_room-IsFine p e h = elim (Bool-cases (leb_ℤ p.max_states (pos (length e.states)))) [
  | inl full ↦ rw (make_room, full) (evict_from-IsFine p e.states e h)
  | inr less ↦ rw (make_room, less) h
]

pub length-make_room :
    (p : CorrelationPolicy) (e : Engine)
    → IsValid p
    → IsFine p e
    → pos (suc (length (make_room p e).states)) ≤ℤ p.max_states
unfolding make_room evict_oldest
length-make_room p e v h = ground (arith, h.room, v.room, length-evict_from e.states e (λ k f. f))
