-- ===== src/Telemetry/Bounds.antt =====
-- The aggregator's tables are bounded.
use elyra.Base.{
  ℕ, zero, suc, ◌-◌, ◌≤◌, ◌≡◌, refl, subst, ◌∙◌, String, true, Option, none, some, List, [], ◌∷◌,
  ◌++◌, length, drop, leb, arith, Bool-cases, Option-cases, inl, inr, is_some, holds_if,
}
use elyra.Base.Int.{ℤ, ltb_ℤ}
use elyra.Base.Dict.{
  Dict, lookup, insert, erase, int_key, Distinct, lookup-insert, lookup-erase, length-insert_le,
  length-insert_old, length-erase_le, length-erase_lt, insert-Distinct, erase-Distinct, beq_refl,
}
use elyra.Base.Outcome.{Result, ok, err, ok_injective, err-ne-ok}
use elyra.Base.Exec.{
  pure, lift, gets, modify, ◌>>=◌, Keeps, keeps_rules, Keeps-modify, Keeps-lift, Keeps-pure, Leads,
  Leads-bind, Leads-then, after_ok,
}
use elyra.Base.Value.{Fields, PyError, Builtins, get, str_of}
use elyra.Telemetry.Aggregator.{
  ProcessTelemetryState, Aggregator, Limits, recent_limit, Method, fresh, expired, pop_all, expire,
  oldest_from, drop_oldest, make_room, enter_found, enter, store, add, observe, append_recent,
  is_type, leave, ingest_all, empty, ingest_process, ingest,
}

-- Every process of the table is as `P` says.
abbrev Each : (ProcessTelemetryState → Type 0) → Dict ℤ ProcessTelemetryState → Type 0
Each P states = (k : ℤ) (s : ProcessTelemetryState) → lookup k states ≡ some s → P s

abbrev pub HasFewFiles : Limits → ProcessTelemetryState → Type 0
HasFewFiles limits s = length s.distinct_files ≤ limits.max_distinct_files

pub record IsBounded (limits : Limits) (a : Aggregator) : Type 0 where
  pub distinct : Distinct a.states
  pub room : length a.states ≤ limits.max_states
  pub files :
      (k : ℤ) (s : ProcessTelemetryState) → lookup k a.states ≡ some s → HasFewFiles limits s
  pub recent : length a.recent_events ≤ recent_limit

-- The process has a state in the table.
record Has (limits : Limits) (tgid : ℤ) (a : Aggregator) : Type 0 where
  bounded : IsBounded limits a
  holder : ProcessTelemetryState
  there : lookup tgid a.states ≡ some holder

none-ne : {o : Option ProcessTelemetryState} → is_some o ≡ true → o ≡ none → ⊥
none-ne h e = ground arith

module _ (limits : Limits) where
  erase-Each :
      (j : ℤ) (states : Dict ℤ ProcessTelemetryState)
      → Each (HasFewFiles limits) states
      → Each (HasFewFiles limits) (erase j states)
  erase-Each j states h k s at = ground (arith, lookup-erase j k states, h k s)

  insert-Each :
      (j : ℤ) (t : ProcessTelemetryState) (states : Dict ℤ ProcessTelemetryState)
      → HasFewFiles limits t
      → Each (HasFewFiles limits) states
      → Each (HasFewFiles limits) (insert j t states)
  insert-Each j t states few h k s at = ground (arith, lookup-insert j k t states, h k s)

  erase-IsBounded :
      (j : ℤ) (a : Aggregator)
      → IsBounded limits a
      → IsBounded limits (record a { states = erase j a.states })
  erase-IsBounded j a h = record {
    distinct = erase-Distinct j a.states h.distinct;
    room = omega (arith, length-erase_le j a.states, h.room);
    files = erase-Each j a.states h.files;
    recent = h.recent;
  }

  pop_all-IsBounded :
      (ks : List ℤ) (a : Aggregator)
      → IsBounded limits a
      → IsBounded limits (record a { states = pop_all ks a.states })
  pop_all-IsBounded [] a h = h
  pop_all-IsBounded (k ∷ ks) a h =
      pop_all-IsBounded ks (record a { states = erase k a.states }) (erase-IsBounded k a h)

  expire-IsBounded :
      (now : ℤ) (a : Aggregator) → IsBounded limits a → IsBounded limits (expire limits now a)
  unfolding expire
  expire-IsBounded now a h = pop_all-IsBounded (expired limits now a.states) a h

  store-Has :
      (tgid : ℤ) (s : ProcessTelemetryState) (a : Aggregator)
      → HasFewFiles limits s
      → Has limits tgid a
      → Has limits tgid (store tgid s a)
  store-Has tgid s a few h = record {
    bounded = record {
      distinct = insert-Distinct tgid s a.states h.bounded.distinct;
      room = omega (arith, length-insert_old tgid s h.holder a.states h.there, h.bounded.room);
      files = insert-Each tgid s a.states few h.bounded.files;
      recent = h.bounded.recent;
    };
    holder = s;
    there = lookup-insert tgid tgid s a.states ∙ rw (beq_refl tgid) refl;
  }

  Has-cons :
      (o k : ℤ) (s : ProcessTelemetryState) (states : Dict ℤ ProcessTelemetryState)
      → is_some (lookup o states) ≡ true
      → is_some (lookup o ((k, s) ∷ states)) ≡ true
  unfolding lookup
  Has-cons o k s states h = ground arith

  Has-cons_second :
      (o k j : ℤ) (s t : ProcessTelemetryState) (states : Dict ℤ ProcessTelemetryState)
      → is_some (lookup o ((k, s) ∷ states)) ≡ true
      → is_some (lookup o ((k, s) ∷ (j, t) ∷ states)) ≡ true
  unfolding lookup
  Has-cons_second o k j s t states h = ground arith

  -- The key that `min` finds stands in the table.
  oldest_from-Has :
      (k : ℤ) (s : ProcessTelemetryState) (states : Dict ℤ ProcessTelemetryState)
      → is_some (lookup (oldest_from k s states) ((k, s) ∷ states)) ≡ true
  oldest_from-Has k s [] = unfold lookup in rw (beq_refl k) refl
  oldest_from-Has k s ((j, t) ∷ states) = elim (Bool-cases (ltb_ℤ t.last_seen s.last_seen)) [
    | inl older ↦
        rw older
          (Has-cons (oldest_from j t states) k s ((j, t) ∷ states) (oldest_from-Has j t states))
    | inr younger ↦
        rw younger
          (Has-cons_second (oldest_from k s states) k j s t states (oldest_from-Has k s states))
  ]

  drop_oldest-erase :
      (states : Dict ℤ ProcessTelemetryState) {rest : Dict ℤ ProcessTelemetryState}
      → drop_oldest states ≡ ok rest
      → (k : ℤ) × (erase k states ≡ rest) × (suc (length rest) ≤ length states)
  drop_oldest-erase [] e = absurd (err-ne-ok e)
  drop_oldest-erase ((k, s) ∷ states) e =
      elim (Option-cases (lookup (oldest_from k s states) ((k, s) ∷ states))) [
        | inl missing ↦ absurd (none-ne (oldest_from-Has k s states) missing)
        | inr (t, found) ↦ (
          oldest_from k s states,
          ok_injective e,
          subst (λ (r : Dict ℤ ProcessTelemetryState). suc (length r) ≤ suc (length states))
              (ok_injective e) (length-erase_lt (oldest_from k s states) t ((k, s) ∷ states) found),
        )
      ]

  -- A state enters the table when there is room, or in the place of the oldest one.
  make_room-IsBounded :
      (a : Aggregator) (states : Dict ℤ ProcessTelemetryState)
      → IsBounded limits a
      → make_room limits a.states ≡ ok states
      → IsBounded limits (record a { states = states }) × (suc (length states) ≤ limits.max_states)
  unfolding make_room
  make_room-IsBounded a states h e = elim (Bool-cases (leb limits.max_states (length a.states))) [
    | inl full ↦
        let (k, same, less) = drop_oldest-erase a.states (rw full at e) in
        (
          subst (λ (d : Dict ℤ ProcessTelemetryState). IsBounded limits (record a { states = d }))
              same (erase-IsBounded k a h),
          omega (arith, h.room),
        )
    | inr free ↦
        let same : a.states ≡ states = ok_injective (rw free at e) in
        (
          subst (λ (d : Dict ℤ ProcessTelemetryState). IsBounded limits (record a { states = d }))
              same h,
          subst (λ (d : Dict ℤ ProcessTelemetryState). suc (length d) ≤ limits.max_states) same
              (ground arith),
        )
  ]

  fresh-Has :
      (now tgid : ℤ) (a : Aggregator) (states : Dict ℤ ProcessTelemetryState)
      → IsBounded limits (record a { states = states })
      → suc (length states) ≤ limits.max_states
      → Has limits tgid (record a { states = insert tgid (fresh now tgid) states })
  fresh-Has now tgid a states h room = record {
    bounded = record {
      distinct = insert-Distinct tgid (fresh now tgid) states h.distinct;
      room = omega (arith, length-insert_le tgid (fresh now tgid) states);
      files = insert-Each tgid (fresh now tgid) states (omega arith) h.files;
      recent = h.recent;
    };
    holder = fresh now tgid;
    there = lookup-insert tgid tgid (fresh now tgid) states ∙ rw (beq_refl tgid) refl;
  }

  -- What `enter` returns and leaves.
  abbrev Entered : ℤ → ProcessTelemetryState → Aggregator → Type 0
  Entered tgid s a = Has limits tgid a × HasFewFiles limits s

  record Enters (tgid : ℤ) (p : Result PyError ProcessTelemetryState × Aggregator) : Type 0 where
    bounded : IsBounded limits p.1
    entered : (s : ProcessTelemetryState) → p.0 ≡ ok s → Entered tgid s p.1

  enter_made :
      (now tgid : ℤ) (a : Aggregator) (r : Result PyError (Dict ℤ ProcessTelemetryState))
      → IsBounded limits a
      → make_room limits a.states ≡ r
      → Enters tgid (elim r as (λ _. Result PyError ProcessTelemetryState × Aggregator) [
        | ok states ↦
            (ok (fresh now tgid), record a { states = insert tgid (fresh now tgid) states })
        | err e ↦ (err e, a)
      ])
  enter_made now tgid a (ok states) h e =
      let (bounded, room) = make_room-IsBounded a states h e in
      let inside = fresh-Has now tgid a states bounded room in
      record {
        bounded = inside.bounded;
        entered = λ s same. (
          inside,
          subst (λ (t : ProcessTelemetryState). HasFewFiles limits t) (ok_injective same)
              (omega arith),
        );
      }
  enter_made now tgid a (err x) h e = record {
    bounded = h;
    entered = λ s same. absurd (err-ne-ok same);
  }

  enter_found-Enters :
      (now tgid : ℤ) (a : Aggregator) (o : Option ProcessTelemetryState)
      → IsBounded limits a
      → lookup tgid a.states ≡ o
      → Enters tgid (enter_found limits now tgid o a)
  unfolding gets modify lift pure ◌>>=◌
  enter_found-Enters now tgid a none h e = enter_made now tgid a (make_room limits a.states) h refl
  enter_found-Enters now tgid a (some s) h e = record {
    bounded = h;
    entered = λ t same. (
      record { bounded = h; holder = s; there = e },
      subst (λ (t : ProcessTelemetryState). HasFewFiles limits t) (ok_injective same)
          (h.files tgid s e),
    );
  }

  enter-Enters :
      (now tgid : ℤ) (a : Aggregator) → IsBounded limits a → Enters tgid (enter limits now tgid a)
  unfolding enter gets ◌>>=◌
  enter-Enters now tgid a h = enter_found-Enters now tgid a (lookup tgid a.states) h refl

  add-le : (x : String) (xs : List String) → length (add x xs) ≤ suc (length xs)
  add-le x xs = ground arith

  observe-HasFewFiles :
      (lib : Builtins) (event : Fields) (s : ProcessTelemetryState)
      → HasFewFiles limits s
      → HasFewFiles limits (observe lib limits event s)
  unfolding observe
  observe-HasFewFiles lib event s h =
      ground (arith, add-le (str_of lib (get "distinct_file_key" event)) s.distinct_files)

  length-drop_le : (n : ℕ) (xs : List Fields) → length (drop n xs) ≡ length xs - n
  length-drop_le zero xs = omega arith
  length-drop_le (suc n) [] = omega arith
  length-drop_le (suc n) (x ∷ xs) = omega (arith, length-drop_le n xs)

  append_recent-bound : (e : Fields) (es : List Fields) → length (append_recent e es) ≤ recent_limit
  append_recent-bound e es =
      omega (arith, length-drop_le (length (es ++ e ∷ []) - recent_limit) (es ++ e ∷ []))

  append_recent-Has :
      (tgid : ℤ) (e : Fields) (a : Aggregator)
      → Has limits tgid a
      → Has limits tgid (record a { recent_events = append_recent e a.recent_events })
  append_recent-Has tgid e a h = record {
    bounded = record {
      distinct = h.bounded.distinct;
      room = h.bounded.room;
      files = h.bounded.files;
      recent = append_recent-bound e a.recent_events;
    };
    holder = h.holder;
    there = h.there;
  }

  weaker : (tgid : ℤ) (a : Aggregator) → Has limits tgid a → IsBounded limits a
  weaker tgid a h = h.bounded

module _ (lib : Builtins) (limits : Limits) (now : ℤ) (event : Fields) where
  leave-Leads :
      (tgid : ℤ) → Leads (Has limits tgid) (IsBounded limits) (leave lib limits now event tgid)
  unfolding modify pure
  leave-Leads tgid = record {
    run = λ a h.
        holds_if (λ (m : Method (Unit {0})). IsBounded limits (m a).1)
          (is_type event "PROCESS_EXIT")
          (modify (λ (a : Aggregator). record a { states = erase tgid a.states })) (pure tt)
          (erase-IsBounded limits tgid a h.bounded) h.bounded;
  }

  ingest_process-IsBounded :
      (tgid : ℤ) → Keeps (IsBounded limits) (ingest_process lib limits now event tgid)
  unfolding ingest_process
  ingest_process-IsBounded tgid = record {
    at = λ a h.
        let entered = enter-Enters limits now tgid a h in
        after_ok (IsBounded limits) (enter limits now tgid) _ a (Entered limits tgid)
          entered.entered entered.bounded
          (λ found t reach.
            (Leads-bind _ _ (Keeps-modify _ (λ b. store-Has limits tgid _ b reach.1))
                (weaker limits tgid)
                (λ u. Leads-bind _ _ (Keeps-lift _) (weaker limits tgid) (λ parent.
                  Leads-bind _ _ (Keeps-modify _ (λ b. store-Has limits tgid _ b reach.1))
                    (weaker limits tgid)
                    (λ u. Leads-bind _ _ (Keeps-lift _) (weaker limits tgid) (λ user.
                      Leads-bind _ _
                        (Keeps-modify _ (λ b. store-Has limits tgid _ b (
                          observe-HasFewFiles limits lib event
                            (record found {
                              last_seen = now;
                              event_count = suc found.event_count;
                              parent_pid = parent;
                              uid = user;
                            })
                            reach.1)))
                        (weaker limits tgid)
                        (λ u.
                          Leads-bind _ _ (Keeps-modify _ (λ b. append_recent-Has limits tgid _ b))
                            (weaker limits tgid)
                            (λ u. Leads-then _ _ (leave-Leads tgid) (λ u. Keeps-pure _)))))))).run
              t reach.0);
  }

  expire-Keeps : Keeps (IsBounded limits) (modify {E = PyError} (expire limits now))
  expire-Keeps = Keeps-modify (expire limits now) (expire-IsBounded limits now)

  pub ingest-IsBounded : Keeps (IsBounded limits) (ingest lib limits now event)
  unfolding ingest
  ingest-IsBounded = search (keeps_rules, ingest_process-IsBounded, expire-Keeps)

ingest_all-IsBounded :
    (lib : Builtins) (limits : Limits) (events : List (ℤ × Fields)) (a : Aggregator)
    → IsBounded limits a
    → IsBounded limits (ingest_all lib limits events a)
unfolding ingest_all
ingest_all-IsBounded lib limits [] a h = h
ingest_all-IsBounded lib limits ((now, e) ∷ events) a h =
    ingest_all-IsBounded lib limits events (ingest lib limits now e a).1
      ((ingest-IsBounded lib limits now e).at a h)

-- After any events at any times, each of which may be taken, rejected or raise an exception half way,
-- the aggregator lists no process twice and at most `max_states` of them, each with at most
-- `max_distinct_files` files, and keeps at most 4096 recent events.
pub telemetry-IsBounded :
    (lib : Builtins) (limits : Limits) (events : List (ℤ × Fields))
    → IsBounded limits (ingest_all lib limits events empty)
unfolding lookup
telemetry-IsBounded lib limits events =
    ingest_all-IsBounded lib limits events empty
      (record { distinct = tt; room = omega arith; files = λ k s at. cc; recent = omega arith })
