-- ===== src/Response/Safe.antt =====
-- The signals that `terminate` sends, and the pidfds that it opens and closes.
use elyra.Base.{
  ℕ, suc, ◌+◌, ◌≡◌, true, false, some, List, [], ◌∷◌, arith, ◌⊎◌, inl, inr, Option-cases,
  Bool-cases, ◌||◌,
}
use elyra.Base.Dict.{beq_ℤ}
use elyra.Base.Value.{Builtins}
use elyra.Response.Policy.{ResponsePolicy, contains_ℤ, protected_path}
use elyra.Response.Process.{
  ProcessIdentity, same_identity, Processes, SystemCall, pidfd_opened, signal_sent, pidfd_closed,
  Signal, terminate, with_pidfd, send_signals, escalate,
}

abbrev pub signals : List SystemCall → List Signal
signals [] = []
signals (pidfd_opened pid ∷ cs) = signals cs
signals (signal_sent s ∷ cs) = s ∷ signals cs
signals (pidfd_closed ∷ cs) = signals cs

abbrev pub opens : List SystemCall → ℕ
opens [] = 0
opens (pidfd_opened pid ∷ cs) = suc (opens cs)
opens (signal_sent s ∷ cs) = opens cs
opens (pidfd_closed ∷ cs) = opens cs

abbrev pub closes : List SystemCall → ℕ
closes [] = 0
closes (pidfd_opened pid ∷ cs) = closes cs
closes (signal_sent s ∷ cs) = closes cs
closes (pidfd_closed ∷ cs) = suc (closes cs)

-- Why the process may be signalled.
pub record MaySignal (lib : Builtins) (sys : Processes) (expected : ProcessIdentity)
    (p : ResponsePolicy) : Type 0 where
  pub current : ProcessIdentity
  pub captured : sys.capture expected.pid ≡ some current
  pub same : same_identity expected current ≡ true
  pub not_protected : contains_ℤ p.protected_pids expected.pid ≡ false
  pub not_self : beq_ℤ expected.pid sys.own_pid ≡ false
  pub not_elyra : protected_path lib p expected.executable_path ≡ false

-- Either `terminate` sends no signal, or the process that holds the identifier at that time has the
-- expected identity, and neither its identifier nor its executable is protected.
pub signals-terminate :
    (lib : Builtins) (sys : Processes) (expected : ProcessIdentity) (p : ResponsePolicy)
    (trace : List SystemCall)
    → (signals (terminate lib sys expected p trace).1 ≡ signals trace)
      ⊎ MaySignal lib sys expected p
unfolding terminate with_pidfd
signals-terminate lib sys expected p trace = elim (Option-cases (sys.capture expected.pid)) [
  | inl gone ↦ inl (ground (arith, gone))
  | inr (current, at) ↦ elim (Bool-cases (same_identity expected current)) [
    | inr other ↦ inl (ground (arith, at, other))
    | inl same ↦
        elim (Bool-cases
          (contains_ℤ p.protected_pids expected.pid || beq_ℤ expected.pid sys.own_pid)) [
            | inl guarded ↦ inl (ground (arith, guarded))
            | inr free ↦ elim (Bool-cases (protected_path lib p expected.executable_path)) [
              | inl guarded ↦ inl (ground (arith, guarded, free))
              | inr plain ↦ inr (record {
                current = current;
                captured = at;
                same = same;
                not_protected = ground (arith, free);
                not_self = ground (arith, free);
                not_elyra = plain;
              })
            ]
          ]
  ]
]

-- `terminate` closes as many pidfds as it opens, on every path, an exception included.
pub closes-terminate :
    (lib : Builtins) (sys : Processes) (expected : ProcessIdentity) (p : ResponsePolicy)
    (trace : List SystemCall)
    → opens (terminate lib sys expected p trace).1 + closes trace
      ≡ closes (terminate lib sys expected p trace).1 + opens trace
unfolding terminate with_pidfd send_signals escalate
closes-terminate lib sys expected p trace = ground arith
