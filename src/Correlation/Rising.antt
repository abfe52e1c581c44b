-- ===== src/Correlation/Rising.antt =====
-- Invariants of the single states that only a new generation can reset: what a state's generation and
-- the rank of its recommendation decide.
use elyra.Base.{
  ℕ, ◌+◌, ◌≤◌, ◌≡◌, refl, ◌∙◌, subst, String, some, [], ◌∷◌, arith, get_or, Option-cases,
  Bool-cases, inl, inr, length,
}
use elyra.Base.Int.{ℤ, pos, leb_ℤ}
use elyra.Base.Dict.{Dict, lookup, insert, int_key, lookup-insert_cases, lookup-erase}
use elyra.Base.Value.{Builtins, Fields}
use elyra.Correlation.Policy.{CorrelationPolicy, RuleId}
use elyra.Correlation.State.{
  ExecutionState, Reason, fanotify_late_binding, state_created, action_rank, recalculate, rescore,
  count_rule, may_apply,
}
use elyra.Correlation.Sound.{recalculate_rank}
use elyra.Correlation.Engine.{
  Engine, Setup, NewState, update, archive, evict_from, evict_oldest, make_room, recalculate_at,
  apply_rule_at, enter_state, new_state, fresh_state,
}
use elyra.Correlation.Events.{late_bind}
use elyra.Correlation.Changes.{
  file, renamed, endpoint, set_seen, set_ppid, set_uid, set_exec, set_exited, add_seen,
}
use elyra.Correlation.Runtime.{set_action_result}
use elyra.Correlation.Fine.{
  recalculate_at_found, recalculate_at_gone, recalculate_at_self, recalculate_at_missing,
  enter_state_tables, changed, entered,
}
use elyra.Correlation.Kept.{
  Quiet, seen_at, parent_read, user_read, executed, observed, acted, Preserved,
}

abbrev pub next : ℤ → Dict ℤ ℕ → ℕ
next q generations = get_or (lookup q generations) 0 + 1

-- The later state is of the same generation, and its recommendation is as strong.
pub record Later (s t : ExecutionState) : Type 0 where
  pub same : t.generation ≡ s.generation
  pub stronger : action_rank s.recommended_action ≤ action_rank t.recommended_action

-- What is to be shown of the numbering of generations and of the states.
pub record Rises (K : Dict ℤ ℕ → Type 0) (P : ℤ → ExecutionState → Dict ℤ ℕ → Type 0) : Type 0 where
  pub later : (q : ℤ) (s t : ExecutionState) (g : Dict ℤ ℕ) → Later s t → P q s g → P q t g
  pub renumbered : (q : ℤ) (g : Dict ℤ ℕ) → K g → K (insert q (next q g) g)
  pub kept : (q r : ℤ) (s : ExecutionState) (g : Dict ℤ ℕ) → P q s g → P q s (insert r (next r g) g)
  pub fresh :
      (q : ℤ) (s : ExecutionState) (g : Dict ℤ ℕ)
      → K g
      → s.generation ≡ next q g
      → P q s (insert q (next q g) g)

pub record Held (K : Dict ℤ ℕ → Type 0) (P : ℤ → ExecutionState → Dict ℤ ℕ → Type 0)
    (states : Dict ℤ ExecutionState) (generations : Dict ℤ ℕ) : Type 0 where
  pub numbering : K generations
  pub each : (q : ℤ) (s : ExecutionState) → lookup q states ≡ some s → P q s generations

recalculate-Later :
    (p : CorrelationPolicy) (now : ℤ) (reason : Reason) (s : ExecutionState)
    → Later s (recalculate p now reason s)
unfolding recalculate rescore
recalculate-Later p now reason s = record {
  same = refl;
  stronger = recalculate_rank p now reason s;
}

Quiet-Later :
    (lib : Builtins) (f : ExecutionState → ExecutionState) (s : ExecutionState)
    → Quiet lib f
    → Later s (f s)
unfolding set_seen set_ppid set_uid set_exec set_exited add_seen set_action_result
Quiet-Later lib _ s (seen_at now) = record { same = refl; stronger = omega arith }
Quiet-Later lib _ s (parent_read n) = record { same = refl; stronger = omega arith }
Quiet-Later lib _ s (user_read n) = record { same = refl; stronger = omega arith }
Quiet-Later lib _ s (executed t identifier) = record { same = refl; stronger = omega arith }
Quiet-Later lib _ s (Quiet.exited_at t now) = record { same = refl; stronger = omega arith }
Quiet-Later lib _ s (observed file k) = record { same = refl; stronger = omega arith }
Quiet-Later lib _ s (observed renamed k) = record { same = refl; stronger = omega arith }
Quiet-Later lib _ s (observed endpoint k) = record { same = refl; stronger = omega arith }
Quiet-Later lib _ s (acted now result) = record { same = refl; stronger = omega arith }

module _ {K : Dict ℤ ℕ → Type 0} {P : ℤ → ExecutionState → Dict ℤ ℕ → Type 0}
    (rises : Rises K P) where
  put-each :
      (pid q : ℤ) (t v : ExecutionState) (states : Dict ℤ ExecutionState) (g : Dict ℤ ℕ)
      → P pid t g
      → ((r : ℤ) (s : ExecutionState) → lookup r states ≡ some s → P r s g)
      → lookup q (insert pid t states) ≡ some v
      → P q v g
  put-each pid q t v states g ht each at = elim (lookup-insert_cases pid q t v states at) [
    | inl (same, entry) ↦ subst (λ x. P q x g) entry (subst (λ x. P x t g) same ht)
    | inr (other, old) ↦ each q v old
  ]

  put-Held :
      (pid : ℤ) (s t : ExecutionState) (states : Dict ℤ ExecutionState) (g : Dict ℤ ℕ)
      → lookup pid states ≡ some s
      → Later s t
      → Held K P states g
      → Held K P (insert pid t states) g
  put-Held pid s t states g at later h = record {
    numbering = h.numbering;
    each = λ q v found.
        put-each pid q t v states g (rises.later pid s t g later (h.each pid s at)) h.each found;
  }

  update-Held :
      (lib : Builtins) (pid : ℤ) (f : ExecutionState → ExecutionState) (e : Engine)
      → Quiet lib f
      → Held K P e.states e.generation_by_pid
      → Held K P (update pid f e).states (update pid f e).generation_by_pid
  unfolding update
  update-Held lib pid f e q h = elim (Option-cases (lookup pid e.states)) [
    | inl gone ↦ rw (update, gone) h
    | inr (s, at) ↦ rw (update, at) (put-Held pid s (f s) _ _ at (Quiet-Later lib f s q) h)
  ]

  archive-Held :
      (pid : ℤ) (reason : String) (e : Engine)
      → Held K P e.states e.generation_by_pid
      → Held K P (archive pid reason e).states (archive pid reason e).generation_by_pid
  unfolding archive
  archive-Held pid reason e h = elim (Option-cases (lookup pid e.states)) [
    | inl gone ↦ rw (archive, gone) h
    | inr (s, at) ↦
        rw (archive, at)
          record {
            numbering = h.numbering;
            each = λ q v found. h.each q v (ground (arith, lookup-erase pid q e.states, found));
          }
  ]

  changed-Held :
      (u : Setup) (pid : ℤ) (reason : Reason) (s t : ExecutionState) (e : Engine)
      → lookup pid e.states ≡ some s
      → Later s t
      → Held K P e.states e.generation_by_pid
      → Held K P (changed u pid reason t e).states e.generation_by_pid
  changed-Held u pid reason s t e at later h =
      let step = recalculate-Later u.policy (u.clock e.reads) reason t in
      put-Held pid s _ e.states e.generation_by_pid at
        (record {
          same = step.same ∙ later.same;
          stronger = omega (arith, step.stronger, later.stronger);
        })
        h

  recalculate_at-Held :
      (u : Setup) (pid : ℤ) (reason : Reason) (e : Engine)
      → Held K P e.states e.generation_by_pid
      → Held K P
          (recalculate_at u pid reason e).states
          (recalculate_at u pid reason e).generation_by_pid
  recalculate_at-Held u pid reason e h = elim (Option-cases (lookup pid e.states)) [
    | inl gone ↦ rw (recalculate_at_missing u pid reason e gone) h
    | inr (s, at) ↦
        rw (recalculate_at_self u pid reason s e at)
          (changed-Held u pid reason s s e at (record { same = refl; stronger = omega arith }) h)
  ]

  recalculate_update-Held :
      (u : Setup) (pid : ℤ) (reason : Reason) (f : ExecutionState → ExecutionState) (e : Engine)
      → ((s : ExecutionState) → Later s (f s))
      → Held K P e.states e.generation_by_pid
      → let after = recalculate_at u pid reason (update pid f e) in
        Held K P after.states after.generation_by_pid
  recalculate_update-Held u pid reason f e later h = elim (Option-cases (lookup pid e.states)) [
    | inl gone ↦ rw (recalculate_at_gone u pid reason f e gone) h
    | inr (s, at) ↦
        rw (recalculate_at_found u pid reason f s e at)
          (changed-Held u pid reason s (f s) e at (later s) h)
  ]

  apply_rule_at-Held :
      (u : Setup) (pid : ℤ) (r : RuleId) (evidence : Fields) (e : Engine)
      → Held K P e.states e.generation_by_pid
      → let after = apply_rule_at u pid r evidence e in
        Held K P after.states after.generation_by_pid
  unfolding apply_rule_at count_rule
  apply_rule_at-Held u pid r evidence e h = elim (Option-cases (lookup pid e.states)) [
    | inl gone ↦ rw (apply_rule_at, gone) h
    | inr (s, at) ↦ elim (Bool-cases (may_apply u.policy r s)) [
      | inl may ↦
          rw (apply_rule_at, at, may)
            (recalculate_update-Held u pid _ (count_rule u.policy r evidence) e
              (λ s. record { same = refl; stronger = omega arith }) h)
      | inr over ↦ rw (apply_rule_at, at, over) h
    ]
  ]

  evict_from-Held :
      (d : Dict ℤ ExecutionState) (e : Engine)
      → Held K P e.states e.generation_by_pid
      → Held K P (evict_from d e).states (evict_from d e).generation_by_pid
  unfolding evict_from
  evict_from-Held [] e h = h
  evict_from-Held ((k, s) ∷ rest) e h = archive-Held _ _ e h

  make_room-Held :
      (p : CorrelationPolicy) (e : Engine)
      → Held K P e.states e.generation_by_pid
      → Held K P (make_room p e).states (make_room p e).generation_by_pid
  unfolding make_room evict_oldest
  make_room-Held p e h = elim (Bool-cases (leb_ℤ p.max_states (pos (length e.states)))) [
    | inl full ↦ rw (make_room, full) (evict_from-Held e.states e h)
    | inr less ↦ rw (make_room, less) h
  ]

  enter_state-Held :
      (u : Setup) (n : NewState) (e : Engine)
      → Held K P e.states e.generation_by_pid
      → let after = recalculate_at u n.pid state_created (enter_state u n e) in
        Held K P after.states after.generation_by_pid
  unfolding recalculate rescore fresh_state
  enter_state-Held u n e h =
      let t = enter_state_tables u n e in
      rw (t.0, t.2)
        record {
          numbering = rises.renumbered n.pid _ h.numbering;
          each = λ q v found.
              put-each n.pid q (entered u n e) v e.states _
                (rises.fresh n.pid (entered u n e) e.generation_by_pid h.numbering refl)
                (λ r s at. rises.kept r n.pid s _ (h.each r s at)) found;
        }

  pub Held-Preserved :
      (lib : Builtins) (u : Setup) → Preserved lib u (λ e. Held K P e.states e.generation_by_pid)
  unfolding new_state late_bind
  Held-Preserved lib u = record {
    quiet = λ pid f e q h. update-Held lib pid f e q h;
    read = λ e h. h;
    archived = archive-Held;
    recalculated = recalculate_at-Held u;
    applied = apply_rule_at-Held u;
    bound = λ pid now r e range h.
        recalculate_update-Held u pid fanotify_late_binding (late_bind now r) e
          (λ s. record { same = refl; stronger = omega arith }) h;
    created = λ n e range h. enter_state-Held u n _ (make_room-Held u.policy e h);
  }
