-- ===== src/Scoring/Complete.antt =====
-- Which policies let `score` return, and the part the collectors have in it.
use elyra.Base.{
  ◌≡◌, refl, inl, inr, Bool, Bool-cases, true, false, ◌&&◌, some, String, List, [], ◌∷◌, ◌++◌, all,
  contains, str_eq, eq_iff, arith, All,
}
use elyra.Base.Int.{ℤ}
use elyra.Base.Dict.{Dict, keys, lookup, all_in, text_key}
use elyra.Base.Text.{sort_texts}
use elyra.Base.Outcome.{Result, ok, ◌>>=◌, append_if, Returns, Returns-bind}
use elyra.Scoring.Policy.{
  ScoringPolicy, RuleSpec, Error, validate, check_header, check_rules, cap_of, allowed_categories,
}
use elyra.Scoring.Evidence.{
  Evidence, ScoreIndicator, StaticScan, indicator, threshold, collect_each, collect_entropy,
  collect_static, collect_context, collect_world_writable, append_texts, texts, text, mime,
  error_names, matching_prefix,
}
use elyra.Scoring.Engine.{
  CategoryScores, score, collect, combine, cap_scores, decision, total_score, raw_scores,
  empty_scores, sort_indicators,
}
use elyra.Scoring.Range.{validate_inversion}
use elyra.Scoring.Gate.{validated_thresholds, decision-Boundaries}

-- The rules that the collectors look up.
abbrev pub named_rules : List String
named_rules =
    "HIGH_WHOLE_FILE_ENTROPY" ∷ "HIGH_ENTROPY_BLOCK_RATIO" ∷ "MIME_EXTENSION_INCONSISTENT"
    ∷ "MALFORMED_ELF" ∷ "WRITABLE_EXECUTABLE_SECTION" ∷ "WRITABLE_EXECUTABLE_SEGMENT"
    ∷ "ELF_ENTRY_POINT_ZERO" ∷ "ELF_NO_SECTION_HEADERS" ∷ "SUID_BIT_SET" ∷ "SGID_BIT_SET"
    ∷ "WORLD_WRITABLE_AND_EXECUTABLE" ∷ "WORLD_WRITABLE" ∷ "TEMPORARY_DIRECTORY"
    ∷ "DOWNLOAD_DIRECTORY" ∷ "REMOVABLE_OR_MOUNTED_MEDIA" ∷ "HIDDEN_PATH_COMPONENT" ∷ []

pub record IsComplete (p : ScoringPolicy) : Type 0 where
  pub rule_at :
      (name : String)
      → contains named_rules name ≡ true
      → (r : RuleSpec) × (lookup name p.rules ≡ some r)
  pub whole_limit : (l : ℤ) × (threshold p "HIGH_WHOLE_FILE_ENTROPY" ≡ ok l)
  pub ratio_limit : (l : ℤ) × (threshold p "HIGH_ENTROPY_BLOCK_RATIO" ≡ ok l)

abbrev known : ScoreIndicator → Bool
known i = contains allowed_categories i.category

-- The list is returned, and each of its indicators has one of the three categories.
record Fine (m : Result Error (List ScoreIndicator)) : Type 0 where
  items : List ScoreIndicator
  returned : m ≡ ok items
  known_items : all known items ≡ true

Fine-ok : (l : List ScoreIndicator) → all known l ≡ true → Fine (ok l)
Fine-ok l h = record { items = l; returned = refl; known_items = h }

all-append {ℓ} :
    {A : Type ℓ} (p : A → Bool) (xs ys : List A) → all p (xs ++ ys) ≡ (all p xs && all p ys)
all-append p [] ys = refl
all-append p (x ∷ xs) ys = ground (arith, all-append p xs ys)

Fine-bind :
    (m : Result Error (List ScoreIndicator))
    (f : List ScoreIndicator → Result Error (List ScoreIndicator))
    → Fine m
    → ((a : List ScoreIndicator) → all known a ≡ true → Fine (f a))
    → Fine (m >>= f)
Fine-bind m f h k = rw h.returned (k h.items h.known_items)

Fine-bind_limit :
    (m : Result Error ℤ) (f : ℤ → Result Error (List ScoreIndicator))
    → (l : ℤ) × (m ≡ ok l)
    → ((l : ℤ) → Fine (f l))
    → Fine (m >>= f)
Fine-bind_limit m f (l, e) k = rw e (k l)

check_rules-lookup :
    (maximum : ℤ) (d : Dict String RuleSpec) (name : String) (r : RuleSpec)
    → check_rules maximum d ≡ ok tt
    → lookup name d ≡ some r
    → contains allowed_categories r.category ≡ true
unfolding check_rules lookup
check_rules-lookup maximum [] name r h e = ground arith
check_rules-lookup maximum ((j, s) ∷ d) name r h e =
    ground (arith, check_rules-lookup maximum d name r)

pub all_in-contains :
    (xs ys : List String) (a : String)
    → all_in xs ys ≡ true
    → contains xs a ≡ true
    → contains ys a ≡ true
all_in-contains [] ys a h c = cc
all_in-contains (x ∷ xs) ys a h c = ground (arith, eq_iff x a, all_in-contains xs ys a)

pub contains-lookup :
    {V : Type 0} (name : String) (d : Dict String V)
    → contains (keys d) name ≡ true
    → (v : V) × (lookup name d ≡ some v)
unfolding lookup
contains-lookup name [] h = ground arith
contains-lookup name ((j, v) ∷ d) h = elim (Bool-cases (str_eq j name)) [
  | inl here ↦ (v, rw here)
  | inr later ↦ rw later (contains-lookup name d (rw later at h))
]

module _ (p : ScoringPolicy) (valid : validate p ≡ ok tt) (complete : IsComplete p) where
  append_if-Fine :
      (b : Bool) (name : String) (e : Evidence)
      → contains named_rules name ≡ true
      → Fine (append_if b (indicator p name e))
  unfolding indicator
  append_if-Fine false name e h = Fine-ok [] refl
  append_if-Fine true name e h =
      let (r, found) = complete.rule_at name h in
      rw found (
        Fine-ok _ (
          rw (
            check_rules-lookup p.score_maximum p.rules name r (validate_inversion p valid).rules
              found)))

  append_texts-Fine :
      (name : String) (xs : List String)
      → contains named_rules name ≡ true
      → Fine (append_texts p name xs)
  append_texts-Fine name [] h = Fine-ok [] refl
  append_texts-Fine name (x ∷ xs) h = append_if-Fine true name (texts (x ∷ xs)) h

  append-Fine :
      (xs : List ScoreIndicator) (m : Result Error (List ScoreIndicator))
      → all known xs ≡ true
      → Fine m
      → Fine (m >>= λ ys. ok (xs ++ ys))
  append-Fine xs m hx hm =
      Fine-bind m _ hm (λ ys hy. Fine-ok (xs ++ ys) (rw (all-append known xs ys, hx, hy)))

  collect_each-Fine :
      (values names : List String) (evidence : String → Evidence)
      → All (λ name. contains named_rules name ≡ true) names
      → Fine (collect_each p values evidence names)
  unfolding collect_each
  collect_each-Fine values [] evidence h = Fine-ok [] refl
  collect_each-Fine values (name ∷ names) evidence h =
      Fine-bind (append_if (contains values name) (indicator p name (evidence name))) _
        (append_if-Fine (contains values name) name (evidence name) h.0)
        (λ xs hx. append-Fine xs _ hx (collect_each-Fine values names evidence h.1))

  collect_world_writable-Fine : (scan : StaticScan) → Fine (collect_world_writable p scan)
  unfolding collect_world_writable
  collect_world_writable-Fine scan =
      elim (Bool-cases (contains scan.permission_anomalies "WORLD_WRITABLE_AND_EXECUTABLE")) [
        | inl both ↦ rw both (append_if-Fine true _ _ refl)
        | inr not_both ↦ rw not_both (append_if-Fine _ _ _ refl)
      ]

  ruleset fine_rules = (
    Fine-bind, Fine-bind_limit, append-Fine, append_if-Fine, append_texts-Fine,
    collect_world_writable-Fine,
  )

  collect_entropy-Fine : (scan : StaticScan) → Fine (collect_entropy p scan)
  unfolding collect_entropy
  collect_entropy-Fine scan = search (fine_rules, complete.whole_limit, complete.ratio_limit)

  collect_static-Fine : (scan : StaticScan) → Fine (collect_static p scan)
  unfolding collect_static
  collect_static-Fine scan =
      let inconsistent : Fine _ =
        append_if-Fine (str_eq scan.mime_extension_consistency "INCONSISTENT")
          "MIME_EXTENSION_INCONSISTENT"
          (mime scan.mime_type scan.extension scan.expected_mime_types) refl in
      let malformed : Fine _ =
        append_if-Fine (contains (sort_texts (error_names scan.error_codes)) "MALFORMED_ELF")
          "MALFORMED_ELF" (text "MALFORMED_ELF") refl in
      let sections : Fine _ =
        append_texts-Fine "WRITABLE_EXECUTABLE_SECTION"
          (matching_prefix scan.elf_anomalies "WRITABLE_EXECUTABLE_SECTION:") refl in
      let segments : Fine _ =
        append_texts-Fine "WRITABLE_EXECUTABLE_SEGMENT"
          (matching_prefix scan.elf_anomalies "WRITABLE_EXECUTABLE_SEGMENT:") refl in
      let elf : Fine _ =
        collect_each-Fine scan.elf_anomalies
          ("ELF_ENTRY_POINT_ZERO" ∷ "ELF_NO_SECTION_HEADERS" ∷ []) text (refl, (refl, tt)) in
      let bits : Fine _ =
        collect_each-Fine scan.permission_anomalies ("SUID_BIT_SET" ∷ "SGID_BIT_SET" ∷ []) text
          (refl, (refl, tt)) in
      let world : Fine _ = collect_world_writable-Fine scan in
      rw
        (
          inconsistent.returned, malformed.returned, sections.returned, segments.returned,
          elf.returned, bits.returned, world.returned,
        )
        (Fine-ok _ (
          simp (
            all-append, inconsistent.known_items, malformed.known_items, sections.known_items,
            segments.known_items, elf.known_items, bits.known_items, world.known_items,
          )))

  collect-Fine : (scan : StaticScan) → Fine (collect p scan)
  unfolding collect collect_context
  collect-Fine scan = Fine-bind _ _ (collect_entropy-Fine scan) λ a ha.
      Fine-bind _ _ (collect_static-Fine scan) λ b hb.
        Fine-bind _ _ (collect_each-Fine _ _ _ (refl, (refl, (refl, (refl, tt)))))
          λ c hc. Fine-ok _ (simp (all-append, ha, hb, hc))

  cap_at : (name : String) → contains allowed_categories name ≡ true → Returns (cap_of p name)
  unfolding check_header cap_of
  cap_at name h =
      let (c, e) = contains-lookup name p.category_caps (
        all_in-contains allowed_categories (keys p.category_caps) name
          (ground (arith, (validate_inversion p valid).header)) h) in
      (c, rw e)

  cap_scores-Returns : (raw : CategoryScores) → Returns (cap_scores p raw)
  unfolding cap_scores
  cap_scores-Returns raw = Returns-bind (cap_of p "entropy") _ (cap_at "entropy" refl) λ e.
      Returns-bind (cap_of p "static") _ (cap_at "static" refl)
        λ s. Returns-bind (cap_of p "context") _ (cap_at "context" refl) λ c. (_, refl)

  decision-Returns : (s g : ℤ) → Returns (decision p s g)
  decision-Returns s g =
      let (d, notes, e, _) = decision-Boundaries p (validated_thresholds p valid) s g in
      ((d, notes), e)

  combine-Returns :
      (scan : StaticScan) (collected : List ScoreIndicator)
      → all known collected ≡ true
      → Returns (combine p scan collected)
  unfolding combine
  combine-Returns scan collected h = rw h (
      Returns-bind (cap_scores p (raw_scores empty_scores (sort_indicators collected))) _
        (cap_scores-Returns _)
        (λ capped.
          Returns-bind (decision p (total_score p capped) capped.static) _ (decision-Returns _ _)
            (λ verdict. (_, refl))))

  -- Under a validated policy with every rule that the collectors name, `score` returns a result
  -- for every scan.
  pub score_total : (scan : StaticScan) → Returns (score p scan)
  unfolding score
  score_total scan = elim (Bool-cases (str_eq scan.status "ERROR")) [
    | inl failed ↦ rw failed (_, refl)
    | inr read ↦
        let c = collect-Fine scan in
        rw (read, c.returned) (combine-Returns scan c.items c.known_items)
  ]
