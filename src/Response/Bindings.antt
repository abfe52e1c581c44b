-- ===== src/Response/Bindings.antt =====
-- The table of bindings: its limit, and the file descriptors that it holds.
use elyra.Base.{
  ℕ, zero, suc, ◌+◌, ◌≤◌, ◌<◌, ◌≡◌, refl, ◌∙◌, ap, String, true, Option, none, some, [], ◌∷◌,
  length, arith, leb, is_some, Option-cases, Bool-cases, inl, inr,
}
use elyra.Base.Int.{ℤ, ltb_ℤ}
use elyra.Base.Dict.{
  Dict, keys, lookup, insert, erase, text_key, Distinct, insert-Distinct, erase-Distinct,
  length-insert_le, length-erase_lt, length-erase_le, erase_gone, lookup-erase, beq_refl,
}
use elyra.Response.Engine.{BoundTarget, Engine}
use elyra.Response.Table.{
  close_fd, release_binding, release_all, close, oldest_from, drop_oldest_of, make_room,
  enter_binding, binding_limit,
}

abbrev pub fds : BoundTarget → ℕ
fds b = elim b.file_fd [ none ↦ 0 | some fd ↦ 1 ]

-- The number of descriptors that the bindings hold.
abbrev pub held : Dict String BoundTarget → ℕ
held [] = 0
held ((k, b) ∷ d) = fds b + held d

held-erase_gone :
    (k : String) (d : Dict String BoundTarget) → lookup k d ≡ none → held (erase k d) ≡ held d
unfolding lookup erase
held-erase_gone k [] h = refl
held-erase_gone k ((j, b) ∷ d) h = ground (arith, held-erase_gone k d)

held-erase :
    (k : String) (b : BoundTarget) (d : Dict String BoundTarget)
    → Distinct d
    → lookup k d ≡ some b
    → fds b + held (erase k d) ≡ held d
unfolding lookup erase
held-erase k b [] dist h = ground arith
held-erase k b ((j, c) ∷ d) dist h =
    ground (arith, held-erase k b d dist.1, held-erase_gone k d, text_key.beq_iff j k)

held-insert_new :
    (k : String) (b : BoundTarget) (d : Dict String BoundTarget)
    → lookup k d ≡ none
    → held (insert k b d) ≡ fds b + held d
unfolding lookup insert
held-insert_new k b [] h = omega arith
held-insert_new k b ((j, c) ∷ d) h = ground (arith, held-insert_new k b d)

-- The descriptors that are held or have been closed.
abbrev pub descriptors : Engine → ℕ
descriptors e = held e.bindings + length e.closed

-- A release changes no other part, and loses no descriptor.
record Released (id : String) (e f : Engine) : Type 0 where
  bindings : f.bindings ≡ erase id e.bindings
  kept : descriptors f ≡ descriptors e

release_binding-Released :
    (id : String) (e : Engine) → Distinct e.bindings → Released id e (release_binding id e)
unfolding release_binding close_fd
release_binding-Released id e dist = elim (Option-cases (lookup id e.bindings)) [
  | inl gone ↦ record {
    bindings = ground (arith, gone, erase_gone id e.bindings);
    kept = ground (arith, gone);
  }
  | inr (b, at) ↦ record {
    bindings = ground (arith, at);
    kept = ground (arith, at, held-erase id b e.bindings dist at);
  }
]

some_of {ℓ} : {A : Type ℓ} (o : Option A) → is_some o ≡ true → (a : A) × (o ≡ some a)
some_of (some a) h = (a, refl)
some_of none h = cc

-- The identifier that `oldest_from` names is bound.
oldest_from-lookup :
    (k : String) (at : ℤ) (b : BoundTarget) (d whole : Dict String BoundTarget)
    → ((j : String) → is_some (lookup j ((k, b) ∷ d)) ≡ true → is_some (lookup j whole) ≡ true)
    → is_some (lookup (oldest_from k at d) whole) ≡ true
unfolding oldest_from lookup
oldest_from-lookup k at b [] whole h = h k (ground (arith, beq_refl k))
oldest_from-lookup k at b ((j, c) ∷ d) whole h = elim (Bool-cases (ltb_ℤ c.bound_at at)) [
  | inl less ↦ rw less (oldest_from-lookup j c.bound_at c d whole (λ q found. h q (ground arith)))
  | inr more ↦ rw more (oldest_from-lookup k at b d whole (λ q found. h q (ground arith)))
]

-- One binding less, no descriptor lost, and no new identifier.
record Dropped (e f : Engine) : Type 0 where
  distinct : Distinct f.bindings
  fewer : length f.bindings ≤ length e.bindings
  kept : descriptors f ≡ descriptors e
  gone : (id : String) → lookup id e.bindings ≡ none → lookup id f.bindings ≡ none

release_binding-Dropped :
    (id : String) (e : Engine) → Distinct e.bindings → Dropped e (release_binding id e)
release_binding-Dropped id e dist =
    let r = release_binding-Released id e dist in
    record {
      distinct = rw r.bindings (erase-Distinct id e.bindings dist);
      fewer = rw r.bindings (length-erase_le id e.bindings);
      kept = r.kept;
      gone = λ j absent. rw r.bindings (ground (arith, lookup-erase id j e.bindings, absent));
    }

drop_oldest_of-Dropped :
    (d : Dict String BoundTarget) (e : Engine)
    → Distinct e.bindings
    → Dropped e (drop_oldest_of d e)
unfolding drop_oldest_of
drop_oldest_of-Dropped [] e dist = record {
  distinct = dist;
  fewer = omega arith;
  kept = refl;
  gone = λ id h. h;
}
drop_oldest_of-Dropped ((k, b) ∷ d) e dist = release_binding-Dropped _ e dist

length-drop_oldest_of :
    (d : Dict String BoundTarget) (e : Engine)
    → Distinct e.bindings
    → ((j : String) → is_some (lookup j d) ≡ true → is_some (lookup j e.bindings) ≡ true)
    → 0 < length d
    → suc (length (drop_oldest_of d e).bindings) ≤ length e.bindings
unfolding drop_oldest_of
length-drop_oldest_of [] e dist h some_bound = omega (arith, some_bound)
length-drop_oldest_of ((k, b) ∷ d) e dist h some_bound =
    let (c, found) = some_of _ (oldest_from-lookup k b.bound_at b d e.bindings h) in
    let r = release_binding-Released (oldest_from k b.bound_at d) e dist in
    rw r.bindings (length-erase_lt (oldest_from k b.bound_at d) c e.bindings found)

make_room-Dropped : (n : ℕ) (e : Engine) → Distinct e.bindings → Dropped e (make_room n e)
unfolding make_room
make_room-Dropped zero e dist = record {
  distinct = dist;
  fewer = omega arith;
  kept = refl;
  gone = λ id h. h;
}
make_room-Dropped (suc n) e dist = elim (Bool-cases (leb binding_limit (length e.bindings))) [
  | inr room ↦
      rw (make_room, room)
        (record { distinct = dist; fewer = omega arith; kept = refl; gone = λ id h. h })
  | inl full ↦
      let one = drop_oldest_of-Dropped e.bindings e dist in
      let rest = make_room-Dropped n (drop_oldest_of e.bindings e) one.distinct in
      rw (make_room, full)
        (record {
          distinct = rest.distinct;
          fewer = omega (arith, one.fewer, rest.fewer);
          kept = omega (arith, one.kept, rest.kept);
          gone = λ id absent. rest.gone id (one.gone id absent);
        })
]

-- Fuel for each binding is enough to come below the limit.
length-make_room :
    (n : ℕ) (e : Engine)
    → Distinct e.bindings
    → length e.bindings ≤ n
    → suc (length (make_room n e).bindings) ≤ binding_limit
unfolding make_room
length-make_room zero e dist enough = omega (arith, enough)
length-make_room (suc n) e dist enough = elim (Bool-cases (leb binding_limit (length e.bindings))) [
  | inr room ↦ rw (make_room, room) ground (arith, room)
  | inl full ↦
      let one = drop_oldest_of-Dropped e.bindings e dist in
      let shorter = length-drop_oldest_of e.bindings e dist (λ j h. h) (ground (arith, full)) in
      let rest =
        length-make_room n (drop_oldest_of e.bindings e) one.distinct
          (omega (arith, enough, shorter)) in
      rw (make_room, full) rest
]

-- What a new binding leaves.
pub record Entered (b : BoundTarget) (e f : Engine) : Type 0 where
  pub distinct : Distinct f.bindings
  pub bounded : length f.bindings ≤ binding_limit
  pub kept : descriptors f ≡ descriptors e + fds b

pub enter_binding-Entered :
    (id : String) (b : BoundTarget) (e : Engine)
    → Distinct e.bindings
    → Entered b e (enter_binding id b e)
unfolding enter_binding
enter_binding-Entered id b e dist =
    let before = release_binding id e in
    let r = release_binding-Released id e dist in
    let d = release_binding-Dropped id e dist in
    let room = make_room-Dropped (length before.bindings) before d.distinct in
    let small = length-make_room (length before.bindings) before d.distinct (omega arith) in
    let after = (make_room (length before.bindings) before).bindings in
    let absent : lookup id after ≡ none =
      room.gone id (rw r.bindings (ground (arith, lookup-erase id id e.bindings, beq_refl id))) in
    record {
      distinct = insert-Distinct id b after room.distinct;
      bounded = omega (arith, length-insert_le id b after, small);
      kept = omega (arith, held-insert_new id b after absent, room.kept, d.kept);
    }

erase_head :
    (k : String) (b : BoundTarget) (d : Dict String BoundTarget)
    → lookup k d ≡ none
    → erase k ((k, b) ∷ d) ≡ d
unfolding erase
erase_head k b d h = ground (arith, beq_refl k, erase_gone k d h)

release_all-erased :
    (d : Dict String BoundTarget) (e : Engine)
    → e.bindings ≡ d
    → Distinct d
    → ((release_all (keys d) e).bindings ≡ [])
      × (descriptors (release_all (keys d) e) ≡ descriptors e)
unfolding release_all
release_all-erased [] e same dist = (same, refl)
release_all-erased ((k, b) ∷ d) e same dist =
    let r = release_binding-Released k e (rw same dist) in
    let left : (release_binding k e).bindings ≡ d =
      r.bindings ∙ ap (erase k) same ∙ erase_head k b d dist.0 in
    let rest = release_all-erased d (release_binding k e) left dist.1 in (rest.0, rest.1 ∙ r.kept)

pub close_releases_all :
    (e : Engine)
    → Distinct e.bindings
    → ((close e).bindings ≡ []) × (length (close e).closed ≡ length e.closed + held e.bindings)
unfolding close
close_releases_all e dist =
    let all = release_all-erased e.bindings e refl dist in (all.0, ground (arith, all.0, all.1))

pub release_binding_within :
    (id : String) (e : Engine) (limit : ℕ)
    → Distinct e.bindings × (length e.bindings ≤ limit)
    → Distinct (release_binding id e).bindings × (length (release_binding id e).bindings ≤ limit)
release_binding_within id e limit h =
    let d = release_binding-Dropped id e h.0 in (d.distinct, omega (arith, d.fewer, h.1))

pub release_binding_ranks :
    (id : String) (e : Engine)
    → (release_binding id e).highest_executed_rank ≡ e.highest_executed_rank
unfolding release_binding close_fd
release_binding_ranks id e = ground arith
