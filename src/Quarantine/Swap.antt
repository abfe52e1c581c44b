-- ===== src/Quarantine/Swap.antt =====
-- The move between the path of the file and the name that holds it, whatever fails.
use elyra.Base.{
  ◌==◌, ◌||◌, get_or, String, ℕ, ◌≡◌, ◌≢◌, ◌⊎◌, inl, inr, sym, ap, subst, ◌∙◌, none, some, is_some,
  Bool-cases, holds_if,
}
use elyra.Base.Dict.{lookup, erase}
use elyra.Base.Outcome.{Result, ok, err}
use elyra.Base.Exec.{pure, lift, gets, modify, ◌>>=◌, bind-of_ok, bind-of_err}
use elyra.Quarantine.Files.{
  einval, enosys, raise, enoent, FilePath, path_key, Node, Fault, os_error, System, World, Method,
  Done, attempt, counted, put, drop_path, unlink, unlink_missing_ok, if_missing, link,
  rename_noreplace,
}
use elyra.Quarantine.Moves.{move_by_link, undo_link, unless_renamed, move_by_rename, move_noreplace}
use elyra.Quarantine.Cases.{unlink-cases, link-cases}
use elyra.Quarantine.Pending.{
  IsHeld, IsHeld-Stable, IsSomewhere, lookup-put, lookup-put_other, lookup-drop_other, taken-other,
}

module _ (source : FilePath) (node : Node) (quarantine_dir metadata_dir : String) where
  abbrev Held : World → Type 0
  Held = IsHeld source node quarantine_dir metadata_dir

  -- One of the paths is that of the file, the other one holds it.
  abbrev pub IsPair : FilePath → FilePath → World → Type 0
  IsPair a b w =
      ((a ≡ source) × (w.holding_path ≡ some b)) ⊎ ((b ≡ source) × (w.holding_path ≡ some a))

  -- Both paths name the same file.
  record IsLinked (a b : FilePath) (w : World) : Type 0 where
    held : Held w
    pair : IsPair a b w
    apart : a ≢ b
    file : Node
    first : lookup a w.files ≡ some file
    second : lookup b w.files ≡ some file

  IsLinked-sym : (a b : FilePath) (w : World) → IsLinked a b w → IsLinked b a w
  IsLinked-sym a b w h = record {
    held = h.held;
    pair = elim h.pair [ inl p ↦ inr p | inr p ↦ inl p ];
    apart = λ e. h.apart (sym e);
    file = h.file;
    first = h.second;
    second = h.first;
  }

  holding-some :
      (w : World) {a b : FilePath} → w.holding_path ≡ some a → w.holding_path ≡ some b → a ≡ b
  holding-some w {a} {b} x y = ap (λ o. get_or o a) (sym x ∙ y)

  -- Where the file is when the first of the two names goes.
  IsSomewhere-drop :
      (a b : FilePath) (w : World) → IsLinked a b w → IsSomewhere source node (drop_path a w)
  IsSomewhere-drop a b w h =
      let stays = lookup-drop_other a b w.files h.apart in
      elim h.pair [
        | inl (is, held) ↦ inr (
          b,
          held,
          stays ∙ elim h.held.somewhere [
            | inl at ↦
                h.second ∙ sym h.first ∙ subst (λ p. lookup p w.files ≡ some node) (sym is) at
            | inr (p, held', at) ↦
                subst (λ r. lookup r w.files ≡ some node) (holding-some w held' held) at
          ],
        )
        | inr (is, held) ↦ inl (
            subst (λ p. lookup p (erase a w.files) ≡ some node) is
              (stays ∙ elim h.held.somewhere [
                | inl at ↦ subst (λ p. lookup p w.files ≡ some node) (sym is) at
                | inr (p, held', at) ↦
                    h.second
                    ∙ sym h.first
                    ∙ subst (λ r. lookup r w.files ≡ some node) (holding-some w held' held) at
              ]))
      ]

  IsHeld-drop : (a b : FilePath) (w : World) → IsLinked a b w → Held (drop_path a w)
  IsHeld-drop a b w h = record {
    somewhere = IsSomewhere-drop a b w h;
    pending = h.held.pending;
    temporary_in = h.held.temporary_in;
    final_in = h.held.final_in;
    metadata_in = h.held.metadata_in;
  }

  IsLinked-counted : (a b : FilePath) (w : World) → IsLinked a b w → IsLinked a b (counted w)
  IsLinked-counted a b w h = record {
    held = (IsHeld-Stable source node quarantine_dir metadata_dir).counting w h.held;
    pair = h.pair;
    apart = h.apart;
    file = h.file;
    first = h.first;
    second = h.second;
  }

  IsLinked-put :
      (a b : FilePath) (f : Node) (w : World)
      → Held w
      → IsPair a b w
      → lookup b w.files ≡ none
      → lookup a w.files ≡ some f
      → IsLinked a b (put b f w)
  IsLinked-put a b f w h pair free there = record {
    held = (IsHeld-Stable source node quarantine_dir metadata_dir).taking b f w free h;
    pair = pair;
    apart = λ e. taken-other b a w.files free there (sym e);
    file = f;
    first = lookup-put_other b a f w.files (taken-other b a w.files free there) ∙ there;
    second = lookup-put b f w.files;
  }

  module _ (sys : System) where
    -- The end of a sequence of which the first part is computed.
    module _ {A B : Type 0} where
      Held-then :
          (m : Method A) (f : A → Method B) (w : World) {a : A} {v : World}
          → m w ≡ (ok a, v)
          → Held (f a v).1
          → Held ((m >>= f) w).1
      Held-then m f w e h =
          subst (λ (r : Result Fault B × World). Held r.1) (sym (bind-of_ok m f w e)) h

      Held-stop :
          (m : Method A) (f : A → Method B) (w : World) {e : Fault} {v : World}
          → m w ≡ (err e, v)
          → Held v
          → Held ((m >>= f) w).1
      Held-stop m f w e h =
          subst (λ (r : Result Fault B × World). Held r.1) (sym (bind-of_err m f w e)) h

    module _ {A : Type 0} where
      attempted :
          (m : Method A) (w : World) {r : Result Fault A} {v : World}
          → m w ≡ (r, v)
          → attempt m w ≡ (ok r, v)
      unfolding attempt
      attempted m w e = ap (λ (x : Result Fault A × World). (ok x.0, x.1)) e

    Held-if_missing :
        (r : Result Fault (Unit {0})) (w : World) → Held w → Held (if_missing sys r w).1
    unfolding pure lift
    Held-if_missing (ok a) w h = h
    Held-if_missing (err (os_error e)) w h =
        holds_if (λ (m : Done). Held (m w).1) (e == enoent) (pure tt) (raise (os_error e)) h h
    Held-if_missing (err e) w h = h

    IsHeld-unlinked :
        (a b : FilePath) (w : World) → IsLinked a b w → Held (unlink_missing_ok sys b w).1
    unfolding unlink_missing_ok
    IsHeld-unlinked a b w h =
        let next = IsLinked-counted a b w h in
        elim (unlink-cases sys b w) [
          | inl (n, failed) ↦
              Held-then (attempt (unlink sys b)) (if_missing sys) w
                (attempted (unlink sys b) w failed)
                (Held-if_missing (err (os_error n)) (counted w) next.held)
          | inr done ↦
              Held-then (attempt (unlink sys b)) (if_missing sys) w
                (attempted (unlink sys b) w done)
                (Held-if_missing (ok tt) _
                  (IsHeld-drop b a (counted w) (IsLinked-sym a b (counted w) next)))
        ]

    IsHeld-undone :
        (a b : FilePath) (e : Fault) (w : World)
        → IsLinked a b w
        → Held (undo_link sys b (err e) w).1
    unfolding attempt lift ◌>>=◌
    IsHeld-undone a b e w h = IsHeld-unlinked a b w h

    IsHeld-moved :
        (a b : FilePath) (w : World) → Held w → IsPair a b w → Held (move_by_link sys a b w).1
    unfolding move_by_link pure
    IsHeld-moved a b w h pair =
        let rules = IsHeld-Stable source node quarantine_dir metadata_dir in
        elim (link-cases sys a b w) [
          | inl (n, failed) ↦ Held-stop (link sys a b) _ w failed (rules.counting w h)
          | inr (f, free, there, linked) ↦
              let both = IsLinked-put a b f (counted w) (rules.counting w h) pair free there in
              let v = put b f (counted w) in
              let next = IsLinked-counted a b v both in
              Held-then (link sys a b) _ w linked (elim (unlink-cases sys a v) [
                | inl (n, failed) ↦
                    Held-then (attempt (unlink sys a)) (undo_link sys b) v
                      (attempted (unlink sys a) v failed)
                      (IsHeld-undone a b (os_error n) (counted v) next)
                | inr done ↦
                    Held-then (attempt (unlink sys a)) (undo_link sys b) v
                      (attempted (unlink sys a) v done) (IsHeld-drop a b (counted v) next)
              ])
        ]

    Held-unless_renamed :
        (a b : FilePath) (n : ℕ) (w : World)
        → Held w
        → IsPair a b w
        → Held (unless_renamed sys a b (err (os_error n)) w).1
    unfolding lift
    Held-unless_renamed a b n w h pair =
        holds_if (λ (m : Done). Held (m w).1) (n == enosys || n == einval) (move_by_link sys a b)
          (raise (os_error n)) (IsHeld-moved a b w h pair) h

    IsHeld-renamed :
        (a b : FilePath) (w : World) → Held w → IsPair a b w → Held (move_by_rename sys a b w).1
    unfolding pure rename_noreplace modify
    IsHeld-renamed a b w h pair =
        let rules = IsHeld-Stable source node quarantine_dir metadata_dir in
        let same = rules.counting w h in
        let rename = rename_noreplace sys a b in
        elim (link-cases sys a b w) [
          | inl (n, failed) ↦
              Held-then (attempt rename) (unless_renamed sys a b) w
                (attempted rename w (bind-of_err (link sys a b) _ w failed))
                (Held-unless_renamed a b n (counted w) same pair)
          | inr (f, free, there, linked) ↦
              Held-then (attempt rename) (unless_renamed sys a b) w
                (attempted rename w (bind-of_ok (link sys a b) _ w linked))
                (IsHeld-drop a b _ (IsLinked-put a b f (counted w) same pair free there))
        ]

    -- A move between the two loses nothing, whatever fails.
    pub IsHeld-move_noreplace :
        (a b : FilePath) (w : World) → Held w → IsPair a b w → Held (move_noreplace sys a b w).1
    unfolding ◌>>=◌ gets lift move_noreplace
    IsHeld-move_noreplace a b w h pair = elim (Bool-cases (is_some (lookup b w.files))) [
      | inl taken ↦ rw taken h
      | inr free ↦ rw free (
          holds_if (λ (m : Done). Held (m w).1) sys.has_renameat2 (move_by_rename sys a b)
            (move_by_link sys a b) (IsHeld-renamed a b w h pair) (IsHeld-moved a b w h pair))
    ]
