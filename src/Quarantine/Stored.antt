-- ===== src/Quarantine/Stored.antt =====
-- A quarantine that returns has stored the file.
use elyra.Base.{ℕ, Bool, true, false, ◌≡◌, inl, inr, sym, ap, subst, ◌∙◌, none, some, if◌then◌else◌}
use elyra.Base.Dict.{lookup}
use elyra.Base.Outcome.{Result, ok, err, err-ne-ok}
use elyra.Base.Exec.{
  modify, exec-eq-ok, gets-eq-ok, lift-eq-ok, pure-eq-ok, lift_last, bind-of_ok, bind-of_err,
}
use elyra.Quarantine.Files.{
  FilePath, path_key, Node, Fault, os_error, System, World, Method, attempt, raise, counted, put,
  drop_path, unlink, unlink_missing_ok, link, rename_noreplace,
}
use elyra.Quarantine.Moves.{move_by_link, undo_link, unless_renamed, move_by_rename, move_noreplace}
use elyra.Quarantine.Pending.{lookup-put, lookup-drop_other, taken-other}
use elyra.Quarantine.Cases.{link-cases, unlink-cases}

module _ (sys : System) where
  module _ {A : Type 0} where
    attempt-of :
        (m : Method A) (w : World) {r : Result Fault A} {v : World}
        → m w ≡ (r, v)
        → attempt m w ≡ (ok r, v)
    unfolding attempt
    attempt-of m w e = ap (λ (x : Result Fault A × World). (ok x.0, x.1)) e

    not_both :
        {x : Result Fault A × World} {e : Fault} {s t : World} {a : A}
        → x ≡ (err e, s)
        → x ≡ (ok a, t)
        → ⊥
    not_both p q = err-ne-ok (ap (λ (y : Result Fault A × World). y.0) (sym p ∙ q))

  -- Where the first name goes, the second one keeps the file.
  second_stays :
      (a b : FilePath) (f : Node) (w : World)
      → lookup b w.files ≡ none
      → lookup a w.files ≡ some f
      → lookup b (drop_path a (put b f w)).files ≡ some f
  second_stays a b f w free there =
      lookup-drop_other a b _ (λ same. taken-other b a w.files free there (sym same))
      ∙ lookup-put b f w.files

  undo_raises :
      (b : FilePath) (e : Fault) (w : World) {c : Unit {0}} {v : World}
      → undo_link sys b (err e) w ≡ (ok c, v)
      → ⊥
  undo_raises b e w h =
      let (r, cleaned, raised) = exec-eq-ok (attempt (unlink_missing_ok sys b)) _ w h in
      err-ne-ok (lift_last _ _ raised).0

  moved_by_link :
      (a b : FilePath) (f : Node) (w : World) {c : Unit {0}} {v : World}
      → lookup a w.files ≡ some f
      → move_by_link sys a b w ≡ (ok c, v)
      → lookup b v.files ≡ some f
  unfolding move_by_link
  moved_by_link a b f w there e = elim (link-cases sys a b w) [
    | inl (n, failed) ↦ absurd (not_both (bind-of_err (link sys a b) _ w failed) e)
    | inr (g, free, there', linked) ↦
        let v0 = put b g (counted w) in
        let rest = sym (bind-of_ok (link sys a b) _ w linked) ∙ e in
        elim (unlink-cases sys a v0) [
          | inl (n, failed) ↦
              let undone =
                sym (
                  bind-of_ok (attempt (unlink sys a)) (undo_link sys b) v0
                    (attempt-of (unlink sys a) v0 failed))
                ∙ rest in
              absurd (undo_raises b (os_error n) (counted v0) undone)
          | inr gone ↦
              let kept =
                sym (
                  bind-of_ok (attempt (unlink sys a)) (undo_link sys b) v0
                    (attempt-of (unlink sys a) v0 gone))
                ∙ rest in
              subst (λ u. lookup b u.files ≡ some f) (pure-eq-ok _ _ kept).1
                (second_stays a b g (counted w) free there' ∙ sym there' ∙ there)
        ]
  ]

  moved_unless :
      (a b : FilePath) (f : Node) (n : ℕ) (test : Bool) (w : World) {c : Unit {0}} {v : World}
      → lookup a w.files ≡ some f
      → (if test then move_by_link sys a b else raise (os_error n)) w ≡ (ok c, v)
      → lookup b v.files ≡ some f
  moved_unless a b f n true w there e = moved_by_link a b f w there e
  moved_unless a b f n false w there e = absurd (err-ne-ok (lift_last _ _ e).0)

  moved_by_rename :
      (a b : FilePath) (f : Node) (w : World) {c : Unit {0}} {v : World}
      → lookup a w.files ≡ some f
      → move_by_rename sys a b w ≡ (ok c, v)
      → lookup b v.files ≡ some f
  unfolding rename_noreplace modify
  moved_by_rename a b f w there e =
      let rename = rename_noreplace sys a b in
      elim (link-cases sys a b w) [
        | inl (n, failed) ↦
            let tried = attempt-of rename w (bind-of_err (link sys a b) _ w failed) in
            moved_unless a b f n _ (counted w) there
              (sym (bind-of_ok (attempt rename) (unless_renamed sys a b) w tried) ∙ e)
        | inr (g, free, there', linked) ↦
            let tried = attempt-of rename w (bind-of_ok (link sys a b) _ w linked) in
            let kept = sym (bind-of_ok (attempt rename) (unless_renamed sys a b) w tried) ∙ e in
            subst (λ u. lookup b u.files ≡ some f) (pure-eq-ok _ _ kept).1
              (second_stays a b g (counted w) free there' ∙ sym there' ∙ there)
      ]

  moved_either :
      (a b : FilePath) (f : Node) (test : Bool) (w : World) {c : Unit {0}} {v : World}
      → lookup a w.files ≡ some f
      → (if test then move_by_rename sys a b else move_by_link sys a b) w ≡ (ok c, v)
      → lookup b v.files ≡ some f
  moved_either a b f true w there e = moved_by_rename a b f w there e
  moved_either a b f false w there e = moved_by_link a b f w there e

  -- A move that returns leaves the file at the new path.
  pub moved_file :
      (a b : FilePath) (f : Node) (w : World) {c : Unit {0}} {v : World}
      → lookup a w.files ≡ some f
      → move_noreplace sys a b w ≡ (ok c, v)
      → lookup b v.files ≡ some f
  unfolding move_noreplace
  moved_file a b f w there e =
      let (x, free, rest) = lift-eq-ok _ _ _ (gets-eq-ok _ _ _ e) in
      moved_either a b f sys.has_renameat2 w there rest
