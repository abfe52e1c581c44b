-- ===== src/Quarantine/Cases.antt =====
-- What a call that unlinks or links a file does.
use elyra.Base.{ℕ, ◌≡◌, ◌⊎◌, inl, inr, refl, ◌∙◌, none, some, Option-cases}
use elyra.Base.Dict.{lookup}
use elyra.Base.Outcome.{ok, err, raise_if}
use elyra.Base.Exec.{lift, gets, modify, ◌>>=◌, ◌>>◌, bind-of_ok, bind-of_err}
use elyra.Quarantine.Files.{
  found, enoent, eexist, FilePath, path_key, Node, os_error, System, World, Done, counted, put,
  drop_path, lexists, call, unlink, link,
}

-- What a call that unlinks or links does.
module _ (sys : System) where
  pub call-cases :
      (w : World)
      → ((e : ℕ) × (call sys w ≡ (err (os_error e), counted w))) ⊎ (call sys w ≡ (ok tt, counted w))
  unfolding call ◌>>=◌ gets modify lift
  call-cases w = elim (Option-cases (sys.failure w.calls)) [
    | inr (e, failed) ↦ inl (e, rw failed refl)
    | inl fine ↦ inr (rw fine refl)
  ]

  -- What follows the call itself.
  abbrev unlink_rest : FilePath → Done
  unlink_rest p = gets (λ (w : World). lookup p w.files) >>= λ there.
      lift (found there) >>= λ f. modify (drop_path p)

  abbrev link_rest : FilePath → FilePath → Done
  link_rest p q = lexists q >>= λ taken.
      lift (raise_if taken (os_error eexist))
      >> (gets (λ (w : World). lookup p w.files) >>= λ there.
          lift (found there) >>= λ f. modify (put q f))

  unlink_rest-gone :
      (p : FilePath) (w : World)
      → lookup p w.files ≡ none
      → unlink_rest p w ≡ (err (os_error enoent), w)
  unfolding ◌>>=◌ gets modify lift
  unlink_rest-gone p w gone = rw gone refl

  unlink_rest-there :
      (p : FilePath) (f : Node) (w : World)
      → lookup p w.files ≡ some f
      → unlink_rest p w ≡ (ok tt, drop_path p w)
  unfolding ◌>>=◌ gets modify lift
  unlink_rest-there p f w there = rw there refl

  link_rest-taken :
      (p q : FilePath) (f : Node) (w : World)
      → lookup q w.files ≡ some f
      → link_rest p q w ≡ (err (os_error eexist), w)
  unfolding ◌>>=◌ gets modify lift
  link_rest-taken p q f w taken = rw taken refl

  link_rest-gone :
      (p q : FilePath) (w : World)
      → lookup q w.files ≡ none
      → lookup p w.files ≡ none
      → link_rest p q w ≡ (err (os_error enoent), w)
  unfolding ◌>>=◌ gets modify lift
  link_rest-gone p q w free gone = rw free (rw gone refl)

  link_rest-there :
      (p q : FilePath) (f : Node) (w : World)
      → lookup q w.files ≡ none
      → lookup p w.files ≡ some f
      → link_rest p q w ≡ (ok tt, put q f w)
  unfolding ◌>>=◌ gets modify lift
  link_rest-there p q f w free there = rw free (rw there refl)

  pub unlink-cases :
      (p : FilePath) (w : World)
      → ((e : ℕ) × (unlink sys p w ≡ (err (os_error e), counted w)))
        ⊎ (unlink sys p w ≡ (ok tt, drop_path p (counted w)))
  unfolding unlink
  unlink-cases p w = elim (call-cases w) [
    | inl (e, failed) ↦ inl (e, bind-of_err (call sys) _ w failed)
    | inr fine ↦ elim (Option-cases (lookup p w.files)) [
      | inl gone ↦
          inl (enoent, bind-of_ok (call sys) _ w fine ∙ unlink_rest-gone p (counted w) gone)
      | inr (f, there) ↦
          inr (bind-of_ok (call sys) _ w fine ∙ unlink_rest-there p f (counted w) there)
    ]
  ]

  pub link-cases :
      (p q : FilePath) (w : World)
      → ((e : ℕ) × (link sys p q w ≡ (err (os_error e), counted w)))
        ⊎ ((f : Node) × (lookup q w.files ≡ none)
            × (lookup p w.files ≡ some f)
            × (link sys p q w ≡ (ok tt, put q f (counted w))))
  unfolding link
  link-cases p q w = elim (call-cases w) [
    | inl (e, failed) ↦ inl (e, bind-of_err (call sys) _ w failed)
    | inr fine ↦ elim (Option-cases (lookup q w.files)) [
      | inr (f, taken) ↦
          inl (eexist, bind-of_ok (call sys) _ w fine ∙ link_rest-taken p q f (counted w) taken)
      | inl free ↦ elim (Option-cases (lookup p w.files)) [
        | inl gone ↦
            inl (enoent, bind-of_ok (call sys) _ w fine ∙ link_rest-gone p q (counted w) free gone)
        | inr (f, there) ↦ inr (
          f,
          free,
          there,
          bind-of_ok (call sys) _ w fine ∙ link_rest-there p q f (counted w) free there,
        )
      ]
    ]
  ]
