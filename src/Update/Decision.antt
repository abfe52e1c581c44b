-- ===== src/Update/Decision.antt =====
-- Which releases are offered.
use Prim.Native.Char.{Char}
use elyra.Base.{
  subst, get_or, ◌≡◌, refl, sym, ap, ◌∙◌, ◌⊎◌, inl, inr, String, Bool, true, false, Option, none,
  some, List, [], ◌∷◌, arith, Bool-cases,
}
use mathlib.Core.Option.{none-ne-some}
use elyra.Base.Int.{ℤ}
use elyra.Base.Outcome.{ok, bind-eq-ok, ok_injective}
use elyra.Base.Value.{Fields, Builtins}
use elyra.Update.Checker.{
  manifest_version, UpdateDecision, version_tuple, lt_tuple, up_to_date_at, offer, is_mandatory,
  offer_release, decide_release, decide_latest, decide_update,
}

lt_tuple_irrefl : (xs : List ℤ) → lt_tuple xs xs ≡ false
unfolding lt_tuple
lt_tuple_irrefl [] = refl
lt_tuple_irrefl (x ∷ xs) = ground (arith, lt_tuple_irrefl xs)

module _ (lib : Builtins) (is_digit : Char → Bool) where
  -- The numbers of the version of a release and of the installed one.
  pub record Compared (current : String) (latest : String) (order : Bool) : Type 0 where
    pub new : List ℤ
    pub now : List ℤ
    pub new_read : version_tuple lib is_digit latest ≡ ok new
    pub now_read : version_tuple lib is_digit current ≡ ok now
    pub newer : lt_tuple now new ≡ order

  -- A release that is offered.
  pub record Offered (current : String) (manifest : Fields) (version : Option String)
      (d : UpdateDecision) : Type 0 where
    pub latest : String
    pub mandatory : Bool
    pub version_is : version ≡ some latest
    pub compared : Compared current latest true
    pub asked : is_mandatory lib is_digit current manifest ≡ ok mandatory
    pub decision : d ≡ offer lib is_digit current manifest latest mandatory

  -- No release is newer than the installed one.
  pub record Current (current : String) (version : Option String) (d : UpdateDecision)
      : Type 0 where
    pub decision : d ≡ up_to_date_at lib is_digit current version
    pub compared : (latest : String) → version ≡ some latest → Compared current latest false

  offer_release-eq_ok :
      (current : String) (manifest : Fields) (latest : String) {d : UpdateDecision}
      → offer_release lib is_digit current manifest latest ≡ ok d
      → (m : Bool) × (is_mandatory lib is_digit current manifest ≡ ok m)
        × (offer lib is_digit current manifest latest m ≡ d)
  offer_release-eq_ok current manifest latest e =
      let (m, asked, e1) = bind-eq-ok (is_mandatory lib is_digit current manifest) _ e in
      (m, asked, ok_injective e1)

  decide_release-cases :
      (current : String) (manifest : Fields) (latest : String) {d : UpdateDecision}
      → decide_release lib is_digit current manifest latest ≡ ok d
      → (Current current (some latest) d) ⊎ (Offered current manifest (some latest) d)
  unfolding decide_release
  decide_release-cases current manifest latest {d} e =
      let (new, new_read, e1) = bind-eq-ok (version_tuple lib is_digit latest) _ e in
      let (now, now_read, e2) = bind-eq-ok (version_tuple lib is_digit current) _ e1 in
      let compared : (order : Bool) → lt_tuple now new ≡ order → Compared current latest order =
        λ order p. record {
          new = new;
          now = now;
          new_read = new_read;
          now_read = now_read;
          newer = p;
        } in
      elim (Bool-cases (lt_tuple now new)) [
        | inl newer ↦
            let (m, asked, same) = offer_release-eq_ok current manifest latest (rw newer at e2) in
            inr (record {
              latest = latest;
              mandatory = m;
              version_is = refl;
              compared = compared true newer;
              asked = asked;
              decision = sym same;
            })
        | inr older ↦ inl (record {
          decision = sym (ok_injective (rw older at e2));
          compared = λ v named.
              subst (λ w. Compared current w false) (ap (λ o. get_or o latest) named)
                (compared false older);
        })
      ]

  -- The version that a decision names is that of the release, and can be read.
  latest_of :
      (current : String) (manifest : Fields) (latest : String) {d : UpdateDecision}
      → decide_release lib is_digit current manifest latest ≡ ok d
      → (new : List ℤ) × (version_tuple lib is_digit latest ≡ ok new)
        × (d.latest_version ≡ some latest)
  latest_of current manifest latest {d} e = elim (decide_release-cases current manifest latest e) [
    | inl c ↦
        let compared = c.compared latest refl in
        (compared.new, compared.new_read, ap (λ (x : UpdateDecision). x.latest_version) c.decision)
    | inr o ↦
        let named = ap (λ (x : UpdateDecision). x.latest_version) o.decision in
        let same = ap (λ v. get_or v latest) o.version_is in
        (
          o.compared.new,
          subst (λ v. version_tuple lib is_digit v ≡ ok o.compared.new) (sym same)
              o.compared.new_read,
          named ∙ ap some (sym same),
        )
  ]

  installed_release :
      (v : String) (manifest : Fields) (new : List ℤ)
      → version_tuple lib is_digit v ≡ ok new
      → decide_release lib is_digit v manifest v ≡ ok (up_to_date_at lib is_digit v (some v))
  unfolding decide_release
  installed_release v manifest new new_read = rw new_read (rw (lt_tuple_irrefl new) refl)

  same_release :
      (v current : String) (manifest : Fields) (latest : Option String) (d : UpdateDecision)
      → decide_latest lib is_digit current manifest latest ≡ ok d
      → d.latest_version ≡ some v
      → decide_latest lib is_digit v manifest latest ≡ ok (up_to_date_at lib is_digit v (some v))
  same_release v current manifest none d e named =
      absurd
        (none-ne-some v (ap (λ (x : UpdateDecision). x.latest_version) (ok_injective e) ∙ named))
  same_release v current manifest (some latest) d e named =
      let (new, new_read, latest_is) = latest_of current manifest latest e in
      let same = ap (λ o. get_or o latest) (sym latest_is ∙ named) in
      subst
        (λ w.
          decide_release lib is_digit w manifest latest
          ≡ ok (up_to_date_at lib is_digit w (some w)))
        same (installed_release latest manifest new new_read)

  -- Once the version that a decision names is installed, the same manifest offers nothing more.
  pub decide_update_settles :
      (v current : String) (manifest : Fields) (d : UpdateDecision)
      → decide_update lib is_digit current manifest ≡ ok d
      → d.latest_version ≡ some v
      → decide_update lib is_digit v manifest ≡ ok (up_to_date_at lib is_digit v (some v))
  unfolding decide_update
  decide_update_settles v current manifest d e named =
      same_release v current manifest (manifest_version lib manifest) d e named
