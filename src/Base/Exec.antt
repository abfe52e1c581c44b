-- ===== src/Base/Exec.antt =====
-- A method that may raise: what was written before an exception stays written.
use mathlib.Core.Path.{◌≡◌, refl, ap}
use mathlib.Core.Bool.{Bool}
use elyra.Base.Tests.{if◌then◌else◌, holds_if}
use elyra.Base.Outcome.{Result, ok, err, err-ne-ok, ok_injective}

abbrev pub Exec : Type 0 → Type 0 → Type 0 → Type 0
Exec E S A = S → Result E A × S

unfoldable pub pure : {E S A : Type 0} → A → Exec E S A
pure a s = (ok a, s)

unfoldable pub lift : {E S A : Type 0} → Result E A → Exec E S A
lift r s = (r, s)

unfoldable pub gets : {E S A : Type 0} → (S → A) → Exec E S A
gets f s = (ok (f s), s)

unfoldable pub modify : {E S : Type 0} → (S → S) → Exec E S (Unit {0})
modify f s = (ok tt, f s)

infixl 5 ◌>>=◌ ◌>>◌
unfoldable pub ◌>>=◌ : {E S A B : Type 0} → Exec E S A → (A → Exec E S B) → Exec E S B
◌>>=◌ m f s = let (r, s') = m s in elim r [ ok a ↦ f a s' | err e ↦ (err e, s') ]

abbrev pub ◌>>◌ : {E S B : Type 0} → Exec E S (Unit {0}) → Exec E S B → Exec E S B
m >> k = m >>= λ _. k

-- The method keeps the invariant, whether it returns or raises.
pub record Keeps {E S A : Type 0} (P : S → Type 0) (m : Exec E S A) : Type 0 where
  pub at : (s : S) → P s → P (m s).1

module _ {E S A : Type 0} {P : S → Type 0} where
  pub Keeps-pure : (a : A) → Keeps P (pure {E = E} a)
  unfolding pure
  Keeps-pure a = record { at = λ s h. h }

  pub Keeps-lift : (r : Result E A) → Keeps P (lift r)
  unfolding lift
  Keeps-lift r = record { at = λ s h. h }

  pub Keeps-gets : (look : S → A) → Keeps P (gets {E = E} look)
  unfolding gets
  Keeps-gets look = record { at = λ t held. held }

  pub Keeps-if :
      (test : Bool) (yes_part no_part : Exec E S A)
      → Keeps P yes_part
      → Keeps P no_part
      → Keeps P (if test then yes_part else no_part)
  Keeps-if = holds_if (Keeps P)

module _ {E S : Type 0} {P : S → Type 0} where
  pub Keeps-modify : (f : S → S) → ((s : S) → P s → P (f s)) → Keeps P (modify {E = E} f)
  unfolding modify
  Keeps-modify f h = record { at = h }

module _ {E S A B : Type 0} {P : S → Type 0} where
  Keeps-result :
      (r : Result E A) (s : S) (f : A → Exec E S B)
      → P s
      → ((a : A) → Keeps P (f a))
      → P (elim r as (λ _. Result E B × S) [ ok a ↦ f a s | err e ↦ (err e, s) ]).1
  Keeps-result (ok a) s f h k = (k a).at s h
  Keeps-result (err e) s f h k = h

  pub Keeps-bind :
      (m : Exec E S A) (f : A → Exec E S B)
      → Keeps P m
      → ((a : A) → Keeps P (f a))
      → Keeps P (m >>= f)
  unfolding ◌>>=◌
  Keeps-bind m f km kf = record { at = λ s h. Keeps-result (m s).0 (m s).1 f (km.at s h) kf }

-- What is looked up is known of the state.
module _ {E S A B : Type 0} {P : S → Type 0} where
  pub Keeps-look :
      (look : S → A) (f : A → Exec E S B)
      → ((s : S) → P s → P (f (look s) s).1)
      → Keeps P (gets look >>= f)
  unfolding ◌>>=◌ gets
  Keeps-look look f h = record { at = h }

pub ruleset keeps_rules = (Keeps-pure, Keeps-lift, Keeps-gets, Keeps-modify, Keeps-if, Keeps-bind)

-- What a computation that returns gives.
pub record Gives {E S A : Type 0} (Q : A → Type 0) (m : Exec E S A) : Type 0 where
  pub given : (s : S) (a : A) → (m s).0 ≡ ok a → Q a

module _ {E S A B : Type 0} {P : S → Type 0} {Q : A → Type 0} where
  Keeps-given :
      (r : Result E A) (s : S) (f : A → Exec E S B)
      → P s
      → ((a : A) → r ≡ ok a → Q a)
      → ((a : A) → Q a → Keeps P (f a))
      → P (elim r as (λ _. Result E B × S) [ ok a ↦ f a s | err e ↦ (err e, s) ]).1
  Keeps-given (ok a) s f h g k = (k a (g a refl)).at s h
  Keeps-given (err e) s f h g k = h

  pub Keeps-bind_given :
      (m : Exec E S A) (f : A → Exec E S B)
      → Keeps P m
      → Gives Q m
      → ((a : A) → Q a → Keeps P (f a))
      → Keeps P (m >>= f)
  unfolding ◌>>=◌
  Keeps-bind_given m f km g kf = record {
    at = λ s h. Keeps-given (m s).0 (m s).1 f (km.at s h) (g.given s) kf;
  }

-- What holds after the first part of a method, and what then holds at the end.
module _ {E S A B : Type 0} {P Q : S → Type 0} where
  after_result :
      (r : Result E A) (s : S) (f : A → Exec E S B)
      → P s
      → ((a : A) (t : S) → P t → Q (f a t).1)
      → ((t : S) → P t → Q t)
      → Q (elim r as (λ _. Result E B × S) [ ok a ↦ f a s | err e ↦ (err e, s) ]).1
  after_result (ok a) s f h k raised = k a s h
  after_result (err e) s f h k raised = raised s h

  pub after_bind :
      (m : Exec E S A) (f : A → Exec E S B) (s : S)
      → P (m s).1
      → ((a : A) (t : S) → P t → Q (f a t).1)
      → ((t : S) → P t → Q t)
      → Q ((m >>= f) s).1
  unfolding ◌>>=◌
  after_bind m f s h k raised = after_result (m s).0 (m s).1 f h k raised

-- A sequence of which the first part is computed.
module _ {E S A B : Type 0} where
  pub bind-of_ok :
      (m : Exec E S A) (f : A → Exec E S B) (s : S) {a : A} {t : S}
      → m s ≡ (ok a, t)
      → (m >>= f) s ≡ f a t
  unfolding ◌>>=◌
  bind-of_ok m f s h =
      ap
        (λ (x : Result E A × S). elim x.0 as (λ _. Result E B × S) [
          | ok a ↦ f a x.1
          | err e ↦ (err e, x.1)
        ])
        h

  pub bind-of_err :
      (m : Exec E S A) (f : A → Exec E S B) (s : S) {e : E} {t : S}
      → m s ≡ (err e, t)
      → (m >>= f) s ≡ (err e, t)
  unfolding ◌>>=◌
  bind-of_err m f s h =
      ap
        (λ (x : Result E A × S). elim x.0 as (λ _. Result E B × S) [
          | ok a ↦ f a x.1
          | err e ↦ (err e, x.1)
        ])
        h

-- Inversion of a sequence that returns.
module _ {E S A B : Type 0} where
  returned :
      (r : Result E A) (s : S) (f : A → Exec E S B) {b : B} {t : S}
      → elim r as (λ _. Result E B × S) [ ok a ↦ f a s | err e ↦ (err e, s) ] ≡ (ok b, t)
      → (a : A) × (r ≡ ok a) × (f a s ≡ (ok b, t))
  returned (ok a) s f h = (a, refl, h)
  returned (err e) s f h = absurd (err-ne-ok (ap (λ (r : Result E B × S). r.0) h))

  pub exec-eq-ok :
      (m : Exec E S A) (f : A → Exec E S B) (s : S) {b : B} {t : S}
      → (m >>= f) s ≡ (ok b, t)
      → (a : A) × ((m s).0 ≡ ok a) × (f a (m s).1 ≡ (ok b, t))
  unfolding ◌>>=◌
  exec-eq-ok m f s h = returned (m s).0 (m s).1 f h

  pub lift-eq-ok :
      (r : Result E A) (f : A → Exec E S B) (s : S) {b : B} {t : S}
      → (lift r >>= f) s ≡ (ok b, t)
      → (a : A) × (r ≡ ok a) × (f a s ≡ (ok b, t))
  unfolding ◌>>=◌ lift
  lift-eq-ok r f s h = returned r s f h

  pub gets-eq-ok :
      (look : S → A) (f : A → Exec E S B) (s : S) {b : B} {t : S}
      → (gets look >>= f) s ≡ (ok b, t)
      → f (look s) s ≡ (ok b, t)
  unfolding ◌>>=◌ gets
  gets-eq-ok look f s h = h

module _ {E S B : Type 0} where
  pub modify-eq-ok :
      (change : S → S) (f : Unit {0} → Exec E S B) (s : S) {b : B} {t : S}
      → (modify change >>= f) s ≡ (ok b, t)
      → f tt (change s) ≡ (ok b, t)
  unfolding ◌>>=◌ modify
  modify-eq-ok change f s h = h

  pub pure-eq-ok :
      (a : B) (s : S) {b : B} {t : S} → pure {E = E} a s ≡ (ok b, t) → (a ≡ b) × (s ≡ t)
  unfolding pure
  pure-eq-ok a s h =
      (ok_injective (ap (λ (r : Result E B × S). r.0) h), ap (λ (r : Result E B × S). r.1) h)

  pub lift_last :
      (r : Result E B) (s : S) {b : B} {t : S} → lift r s ≡ (ok b, t) → (r ≡ ok b) × (s ≡ t)
  unfolding lift
  lift_last r s h = (ap (λ (r : Result E B × S). r.0) h, ap (λ (r : Result E B × S). r.1) h)

-- A method that leads from what `P` says to what `Q` says, whether it returns or raises.
pub record Leads {E S A : Type 0} (P Q : S → Type 0) (m : Exec E S A) : Type 0 where
  pub run : (s : S) → P s → Q (m s).1

module _ {E S A B : Type 0} {P Q : S → Type 0} where
  pub Leads-bind :
      (m : Exec E S A) (f : A → Exec E S B)
      → Keeps P m
      → ((s : S) → P s → Q s)
      → ((a : A) → Leads P Q (f a))
      → Leads P Q (m >>= f)
  Leads-bind m f km weaker kf = record {
    run = λ s h. after_bind m f s (km.at s h) (λ a t. (kf a).run t) weaker;
  }

module _ {E S A B : Type 0} {P Q : S → Type 0} where
  pub Leads-then :
      (m : Exec E S A) (f : A → Exec E S B)
      → Leads P Q m
      → ((a : A) → Keeps Q (f a))
      → Leads P Q (m >>= f)
  Leads-then m f lm kf = record {
    run = λ s h. after_bind {P = Q} {Q = Q} m f s (lm.run s h) (λ a t. (kf a).at t) (λ t q. q);
  }

module _ {E S A B : Type 0} (Q : S → Type 0) where
  reached :
      (r : Result E A) (s : S) (f : A → Exec E S B) (R : A → S → Type 0)
      → ((a : A) → r ≡ ok a → R a s)
      → Q s
      → ((a : A) (t : S) → R a t → Q (f a t).1)
      → Q (elim r as (λ _. Result E B × S) [ ok a ↦ f a s | err e ↦ (err e, s) ]).1
  reached (ok a) s f R given raised next = next a s (given a refl)
  reached (err e) s f R given raised next = raised

  -- What the first part returns may depend on the state that it leaves.
  pub after_ok :
      (m : Exec E S A) (f : A → Exec E S B) (s : S) (R : A → S → Type 0)
      → ((a : A) → (m s).0 ≡ ok a → R a (m s).1)
      → Q (m s).1
      → ((a : A) (t : S) → R a t → Q (f a t).1)
      → Q ((m >>= f) s).1
  unfolding ◌>>=◌
  after_ok m f s R given raised next = reached (m s).0 (m s).1 f R given raised next

-- What a computation that returns gives, from where the invariant holds.
pub record Ensures {E S A : Type 0} (P : S → Type 0) (Q : A → Type 0) (m : Exec E S A)
    : Type 0 where
  pub ensured : (s : S) → P s → (a : A) → (m s).0 ≡ ok a → Q a

module _ {E S A B : Type 0} {P : S → Type 0} {Q : B → Type 0} {R : A → Type 0} where
  ensured_result :
      (r : Result E A) (s : S) (f : A → Exec E S B)
      → P s
      → ((a : A) → r ≡ ok a → R a)
      → ((a : A) → R a → Ensures P Q (f a))
      → (b : B) → (elim r as (λ _. Result E B × S) [ ok a ↦ f a s | err e ↦ (err e, s) ]).0 ≡ ok b
      → Q b
  ensured_result (ok a) s f h given next b e = (next a (given a refl)).ensured s h b e
  ensured_result (err x) s f h given next b e = absurd (err-ne-ok e)

  pub Ensures-bind :
      (m : Exec E S A) (f : A → Exec E S B)
      → Keeps P m
      → Ensures P R m
      → ((a : A) → R a → Ensures P Q (f a))
      → Ensures P Q (m >>= f)
  unfolding ◌>>=◌
  Ensures-bind m f km em next = record {
    ensured = λ s h b e. ensured_result (m s).0 (m s).1 f (km.at s h) (em.ensured s h) next b e;
  }

module _ {E S A B : Type 0} {P : S → Type 0} {R : A → Type 0} where
  pub Keeps-bind_ensured :
      (m : Exec E S A) (f : A → Exec E S B)
      → Keeps P m
      → Ensures P R m
      → ((a : A) → R a → Keeps P (f a))
      → Keeps P (m >>= f)
  unfolding ◌>>=◌
  Keeps-bind_ensured m f km em kf = record {
    at = λ s h. Keeps-given (m s).0 (m s).1 f (km.at s h) (em.ensured s h) kf;
  }

module _ {E S A B : Type 0} {P : S → Type 0} {Q : B → Type 0} where
  -- The value of the first part says nothing.
  pub Ensures-after :
      (m : Exec E S A) (f : A → Exec E S B)
      → Keeps P m
      → ((a : A) → Ensures P Q (f a))
      → Ensures P Q (m >>= f)
  Ensures-after m f km next =
      Ensures-bind {R = λ _. Unit {0}} m f km (record { ensured = λ s h a e. tt }) (λ a _. next a)
