-- ===== src/Correlation/Escalation.antt =====
-- How strong a state's recommendation is over a sequence of calls.
use elyra.Base.{ℕ, ◌≤◌, ◌≡◌, refl, sym, subst, ◌∙◌, some, List, arith, get_or}
use elyra.Base.Int.{ℤ}
use elyra.Base.Dict.{Dict, lookup, insert, int_key, lookup-insert, beq_ℤ_iff}
use elyra.Base.Value.{Builtins}
use elyra.Correlation.State.{ExecutionState, action_rank}
use elyra.Correlation.Engine.{Setup, empty}
use elyra.Correlation.Calls.{Call, run_calls}
use elyra.Correlation.Kept.{run_calls-holds}
use elyra.Correlation.Rising.{next, Rises, Held, Held-Preserved}

-- Every state's generation has been given out.
abbrev Numbered : ℤ → ExecutionState → Dict ℤ ℕ → Type 0
Numbered q s g = s.generation ≤ get_or (lookup q g) 0

abbrev Anything : Dict ℤ ℕ → Type 0
Anything g = Unit

get-insert_le :
    (q r : ℤ) (g : Dict ℤ ℕ) → get_or (lookup q g) 0 ≤ get_or (lookup q (insert r (next r g) g)) 0
get-insert_le q r g = ground (arith, lookup-insert r q (next r g) g, beq_ℤ_iff r q)

get-insert_same : (q : ℤ) (g : Dict ℤ ℕ) → get_or (lookup q (insert q (next q g) g)) 0 ≡ next q g
get-insert_same q g = ground (arith, lookup-insert q q (next q g) g, beq_ℤ_iff q q)

Numbered-Rises : Rises Anything Numbered
Numbered-Rises = record {
  later = λ q s t g l h. omega (arith, l.same, h);
  renumbered = λ q g h. tt;
  kept = λ q r s g h. omega (arith, h, get-insert_le q r g);
  fresh = λ q s g h same. omega (arith, same, get-insert_same q g);
}

run_calls-Numbered :
    (lib : Builtins) (u : Setup) (cs : List Call)
    → Held Anything Numbered
        (run_calls lib u cs empty).states
        (run_calls lib u cs empty).generation_by_pid
unfolding lookup
run_calls-Numbered lib u cs =
    run_calls-holds lib u (Held-Preserved Numbered-Rises lib u) cs empty
      (record { numbering = tt; each = λ q s h. cc })

-- The generation `n` of the process has been given out.
abbrev GivenOut : ℤ → ℕ → Dict ℤ ℕ → Type 0
GivenOut pid n g = n ≤ get_or (lookup pid g) 0

-- A state of that process and generation recommends at least an action of the rank.
abbrev AtLeast : ℤ → ℕ → ℕ → ℤ → ExecutionState → Dict ℤ ℕ → Type 0
AtLeast pid n rank q s g = q ≡ pid → s.generation ≡ n → rank ≤ action_rank s.recommended_action

AtLeast-Rises : (pid : ℤ) (n rank : ℕ) → Rises (GivenOut pid n) (AtLeast pid n rank)
AtLeast-Rises pid n rank = record {
  later = λ q s t g l h same at. omega (arith, h same (sym l.same ∙ at), l.stronger);
  renumbered = λ q g h. omega (arith, h, get-insert_le pid q g);
  kept = λ q r s g h. h;
  fresh = λ q s g h number same at.
      let given = subst (λ p. n ≤ get_or (lookup p g) 0) (sym same) h in
      omega (arith, given, number, at);
}

-- With any policy, let a state stand in the table after some calls. If after any further calls the
-- table holds a state of the same process and generation, its recommendation is at least as strong.
pub recommendation_monotone :
    (lib : Builtins) (u : Setup) (before after : List Call) (pid : ℤ) (s t : ExecutionState)
    → lookup pid (run_calls lib u before empty).states ≡ some s
    → lookup pid (run_calls lib u after (run_calls lib u before empty)).states ≡ some t
    → t.generation ≡ s.generation
    → action_rank s.recommended_action ≤ action_rank t.recommended_action
recommendation_monotone lib u before after pid s t hs ht same =
    let start = run_calls-Numbered lib u before in
    let rank = action_rank s.recommended_action in
    (run_calls-holds lib u (Held-Preserved (AtLeast-Rises pid s.generation rank) lib u) after
        (run_calls lib u before empty)
        (record {
          numbering = start.each pid s hs;
          each = λ q v found at number.
              let here : lookup pid (run_calls lib u before empty).states ≡ some v =
                subst (λ p. lookup p (run_calls lib u before empty).states ≡ some v) at found in
              ground (arith, here, hs);
        })).each
      pid t ht refl same
