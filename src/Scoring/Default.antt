-- ===== src/Scoring/Default.antt =====
-- elyra-engine/src/elyra/config/scoring.default.json, and two scans that the tests run on.
-- Thresholds are in millionths.
use elyra.Base.{ℕ, String, none, some, [], ◌∷◌}
use elyra.Base.Int.{pos}
use elyra.Scoring.Policy.{ScoringPolicy, RuleSpec}
use elyra.Scoring.Evidence.{StaticScan}

abbrev rule : String → String → ℕ → String → String × RuleSpec
rule name category weight description = (
  name,
  record {
    rule = name;
    category = category;
    weight = pos weight;
    description = description;
    threshold = none;
  },
)

abbrev rule_above : String → String → ℕ → ℕ → String → String × RuleSpec
rule_above name category weight limit description = (
  name,
  record {
    rule = name;
    category = category;
    weight = pos weight;
    description = description;
    threshold = some (pos limit);
  },
)

abbrev pub default_policy : ScoringPolicy
default_policy = record {
  schema_version = "1.0";
  policy_name = "ELYRA default pre-execution scoring policy";
  policy_status = "PROVISIONAL_NOT_CALIBRATED";
  score_minimum = pos 0;
  score_maximum = pos 100;
  category_caps = ("entropy", pos 30) ∷ ("static", pos 60) ∷ ("context", pos 25) ∷ [];
  decision_thresholds =
      ("allow_monitor_min", pos 20)
      ∷ ("warn_min", pos 40)
      ∷ ("deny_min", pos 70)
      ∷ ("deny_min_static_score", pos 25)
      ∷ [];
  rules =
      rule_above "HIGH_WHOLE_FILE_ENTROPY" "entropy" 10 7_500_000
        "Whole-file Shannon entropy is above the provisional development threshold."
      ∷ rule_above "HIGH_ENTROPY_BLOCK_RATIO" "entropy" 16 500_000
          "At least half of the analysed blocks exceed the provisional entropy threshold."
      ∷ rule "MIME_EXTENSION_INCONSISTENT" "static" 15
          "The detected MIME or ELF content is inconsistent with the file extension."
      ∷ rule "MALFORMED_ELF" "static" 25
          "The file begins with ELF magic but its ELF structure could not be parsed."
      ∷ rule "WRITABLE_EXECUTABLE_SECTION" "static" 25
          "At least one ELF section is both writable and executable."
      ∷ rule "WRITABLE_EXECUTABLE_SEGMENT" "static" 30
          "At least one ELF segment is both writable and executable."
      ∷ rule "ELF_ENTRY_POINT_ZERO" "static" 8 "The ELF entry point is zero."
      ∷ rule "ELF_NO_SECTION_HEADERS" "static" 12 "The ELF file has no section headers."
      ∷ rule "SUID_BIT_SET" "static" 15 "The SUID permission bit is set."
      ∷ rule "SGID_BIT_SET" "static" 8 "The SGID permission bit is set."
      ∷ rule "WORLD_WRITABLE" "static" 8 "The file is writable by all users."
      ∷ rule "WORLD_WRITABLE_AND_EXECUTABLE" "static" 18
          "The file is both world-writable and world-executable."
      ∷ rule "TEMPORARY_DIRECTORY" "context" 15 "The file is located under /tmp or /var/tmp."
      ∷ rule "DOWNLOAD_DIRECTORY" "context" 8
          "The file is located in a Downloads or İndirilenler directory."
      ∷ rule "REMOVABLE_OR_MOUNTED_MEDIA" "context" 12
          "The file is located on a mounted or removable-media path."
      ∷ rule "HIDDEN_PATH_COMPONENT" "context" 7
          "At least one component of the file path is hidden."
      ∷ [];
}

-- A packed text file in a temporary directory: entropy and context evidence, no static evidence.
abbrev pub packed_scan : StaticScan
packed_scan = record {
  filepath = "/tmp/.blob";
  status = "COMPLETE";
  mime_type = "application/octet-stream";
  extension = "";
  mime_extension_consistency = "UNKNOWN";
  expected_mime_types = [];
  elf_anomalies = [];
  permission_anomalies = [];
  mode_octal = some "0o600";
  path_indicators = "HIDDEN_PATH_COMPONENT" ∷ "TEMPORARY_DIRECTORY" ∷ [];
  absolute_path = some "/tmp/.blob";
  whole_file_entropy = some (pos 7_990_000);
  high_entropy_block_ratio = some (pos 900_000);
  error_codes = [];
}

-- A set-uid ELF file with a writable and executable segment in a temporary directory.
abbrev pub dropper_scan : StaticScan
dropper_scan = record packed_scan {
  filepath = "/tmp/dropper";
  elf_anomalies = "WRITABLE_EXECUTABLE_SEGMENT:1" ∷ "ELF_ENTRY_POINT_ZERO" ∷ [];
  permission_anomalies = "SUID_BIT_SET" ∷ "WORLD_WRITABLE" ∷ [];
}
