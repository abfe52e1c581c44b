-- ===== src/Scoring/Evidence.antt =====
-- elyra-engine/src/elyra/scoring/engine.py: `ScoreIndicator` and the three collectors, which turn
-- one static scan into indicators. The scan is analyzer/static_analyzer.py's `StaticScanResult`,
-- with the fields that scoring reads.
use elyra.Base.{String, true, Option, List, [], ◌∷◌, ◌++◌, contains, str_eq, get_or, if◌then◌else◌}
use elyra.Base.Int.{ℤ, pos, leb_ℤ}
use elyra.Base.Dict.{lookup, text_key}
use elyra.Base.Outcome.{Result, ok, ◌>>=◌, require, append_if}
use elyra.Base.Text.{sort_texts, with_prefix}
use elyra.Scoring.Policy.{ScoringPolicy, Error, missing_rule, missing_threshold}

-- The values that the engine attaches to an indicator.
pub data Evidence : Type 0 where
  amount : ℤ → Evidence
  text : String → Evidence
  texts : List String → Evidence
  mode : Option String → Evidence
  mime : String → String → List String → Evidence

pub record ScoreIndicator : Type 0 where
  pub rule : String
  pub category : String
  pub weight : ℤ
  pub evidence : Evidence
  pub description : String

-- Entropies are in millionths; `error_codes` holds `error.get("code")` of each error.
pub record StaticScan : Type 0 where
  pub filepath : String
  pub status : String
  pub mime_type : String
  pub extension : String
  pub mime_extension_consistency : String
  pub expected_mime_types : List String
  pub elf_anomalies : List String
  pub permission_anomalies : List String
  pub mode_octal : Option String
  pub path_indicators : List String
  pub absolute_path : Option String
  pub whole_file_entropy : Option ℤ
  pub high_entropy_block_ratio : Option ℤ
  pub error_codes : List (Option String)

unfoldable pub indicator : ScoringPolicy → String → Evidence → Result Error ScoreIndicator
indicator p rule_id e = do
  rule ← require (lookup rule_id p.rules) (missing_rule rule_id)
  ok (record {
    rule = rule.rule;
    category = rule.category;
    weight = rule.weight;
    evidence = e;
    description = rule.description;
  })

unfoldable pub threshold : ScoringPolicy → String → Result Error ℤ
threshold p rule_id = do
  rule ← require (lookup rule_id p.rules) (missing_threshold rule_id)
  require rule.threshold (missing_threshold rule_id)

unfoldable pub matching_prefix : List String → String → List String
matching_prefix values prefix = sort_texts (with_prefix prefix values)

-- `if values:` with the indicator of the whole list
abbrev pub append_texts : ScoringPolicy → String → List String → Result Error (List ScoreIndicator)
append_texts p rule_id [] = ok []
append_texts p rule_id (x ∷ xs) = append_if true (indicator p rule_id (texts (x ∷ xs)))

-- `for rule_id in rule_ids: if rule_id in values: …`
unfoldable pub collect_each :
    ScoringPolicy
    → List String
    → (String → Evidence)
    → List String
    → Result Error (List ScoreIndicator)
collect_each p values evidence [] = ok []
collect_each p values evidence (rule_id ∷ rule_ids) = do
  first ← append_if (contains values rule_id) (indicator p rule_id (evidence rule_id))
  rest ← collect_each p values evidence rule_ids
  ok (first ++ rest)

unfoldable pub collect_entropy : ScoringPolicy → StaticScan → Result Error (List ScoreIndicator)
collect_entropy p scan = do
  let whole_entropy = get_or scan.whole_file_entropy (pos 0)
  let high_ratio = get_or scan.high_entropy_block_ratio (pos 0)
  whole_limit ← threshold p "HIGH_WHOLE_FILE_ENTROPY"
  whole ←
      append_if (leb_ℤ whole_limit whole_entropy)
        (indicator p "HIGH_WHOLE_FILE_ENTROPY" (amount whole_entropy))
  ratio_limit ← threshold p "HIGH_ENTROPY_BLOCK_RATIO"
  ratio ←
      append_if (leb_ℤ ratio_limit high_ratio)
        (indicator p "HIGH_ENTROPY_BLOCK_RATIO" (amount high_ratio))
  ok (whole ++ ratio)

-- The rule for world-writable files: at most one of the two applies.
unfoldable pub collect_world_writable :
    ScoringPolicy → StaticScan → Result Error (List ScoreIndicator)
collect_world_writable p scan =
    if contains scan.permission_anomalies "WORLD_WRITABLE_AND_EXECUTABLE"
    then append_if true (indicator p "WORLD_WRITABLE_AND_EXECUTABLE" (mode scan.mode_octal))
    else append_if (contains scan.permission_anomalies "WORLD_WRITABLE")
        (indicator p "WORLD_WRITABLE" (mode scan.mode_octal))

abbrev pub error_names : List (Option String) → List String
error_names [] = []
error_names (c ∷ cs) = get_or c "" ∷ error_names cs

unfoldable pub collect_static : ScoringPolicy → StaticScan → Result Error (List ScoreIndicator)
collect_static p scan = do
  inconsistent ← append_if (str_eq scan.mime_extension_consistency "INCONSISTENT") (
      indicator p "MIME_EXTENSION_INCONSISTENT"
        (mime scan.mime_type scan.extension scan.expected_mime_types))
  malformed ←
      append_if (contains (sort_texts (error_names scan.error_codes)) "MALFORMED_ELF")
        (indicator p "MALFORMED_ELF" (text "MALFORMED_ELF"))
  wx_sections ←
      append_texts p "WRITABLE_EXECUTABLE_SECTION"
        (matching_prefix scan.elf_anomalies "WRITABLE_EXECUTABLE_SECTION:")
  wx_segments ←
      append_texts p "WRITABLE_EXECUTABLE_SEGMENT"
        (matching_prefix scan.elf_anomalies "WRITABLE_EXECUTABLE_SEGMENT:")
  elf ←
      collect_each p scan.elf_anomalies text
        ("ELF_ENTRY_POINT_ZERO" ∷ "ELF_NO_SECTION_HEADERS" ∷ [])
  bits ← collect_each p scan.permission_anomalies text ("SUID_BIT_SET" ∷ "SGID_BIT_SET" ∷ [])
  world ← collect_world_writable p scan
  ok (inconsistent ++ (malformed ++ (wx_sections ++ (wx_segments ++ (elf ++ (bits ++ world))))))

unfoldable pub collect_context : ScoringPolicy → StaticScan → Result Error (List ScoreIndicator)
collect_context p scan =
    collect_each p scan.path_indicators (λ _. text (get_or scan.absolute_path scan.filepath))
      ("TEMPORARY_DIRECTORY" ∷ "DOWNLOAD_DIRECTORY" ∷ "REMOVABLE_OR_MOUNTED_MEDIA"
        ∷ "HIDDEN_PATH_COMPONENT" ∷ [])
