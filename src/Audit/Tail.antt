-- ===== src/Audit/Tail.antt =====
-- The hash that `_tail_state_locked` returns has the form of a hash.
use mathlib.Core.List.{reverse}
use elyra.Base.{
  ℕ, ◌≡◌, refl, ap, subst, String, true, Option, none, some, [], ◌∷◌, length, Bool-cases,
  Option-cases, inl, inr,
}
use elyra.Base.Int.{ℤ}
use elyra.Base.Outcome.{ok, ok_injective, err-ne-ok}
use elyra.Base.Value.{Value, null, bool, int, float, text, list, dict, get, Builtins}
use elyra.Audit.Bytes.{last_line, split_lines}
use elyra.Audit.Record.{Json, IntegrityReport, validate_hex_hash}
use elyra.Audit.Verify.{regular, symbolic_link, special, unreadable, Log, text_of}
use elyra.Audit.Disk.{segments_for}
use elyra.Audit.Logger.{AuditLogger, window, tail_report, tail_entry, tail_of, tail_state}

module _ (lib : Builtins) (js : Json) where
  text_of-hex :
      (v : Value) → validate_hex_hash v ≡ true → validate_hex_hash (text (text_of lib v)) ≡ true
  unfolding validate_hex_hash
  text_of-hex (text s) h = h
  text_of-hex null h = cc
  text_of-hex (bool b) h = cc
  text_of-hex (int n) h = cc
  text_of-hex (float x) h = cc
  text_of-hex (list vs) h = cc
  text_of-hex (dict fs) h = cc

  tail_entry-hex :
      (broken : IntegrityReport) (memory : ℤ) (v : Option Value) {h : String} {n : ℤ}
      → tail_entry lib js broken memory v ≡ ok (h, n)
      → validate_hex_hash (text h) ≡ true
  unfolding tail_entry
  tail_entry-hex broken memory (some (dict fs)) {h} e =
      elim (Bool-cases (validate_hex_hash (get "record_hash" fs))) [
        | inl hex ↦
            subst (λ (s : String). validate_hex_hash (text s) ≡ true)
              (ap (λ (p : String × ℤ). p.0) (ok_injective (rw hex at e)))
              (text_of-hex (get "record_hash" fs) hex)
        | inr bad ↦ absurd (err-ne-ok (rw bad at e))
      ]
  tail_entry-hex broken memory none e = absurd (err-ne-ok e)
  tail_entry-hex broken memory (some null) e = absurd (err-ne-ok e)
  tail_entry-hex broken memory (some (bool b)) e = absurd (err-ne-ok e)
  tail_entry-hex broken memory (some (int b)) e = absurd (err-ne-ok e)
  tail_entry-hex broken memory (some (float b)) e = absurd (err-ne-ok e)
  tail_entry-hex broken memory (some (text b)) e = absurd (err-ne-ok e)
  tail_entry-hex broken memory (some (list b)) e = absurd (err-ne-ok e)

  tail_of-hex :
      (segments : ℕ) (memory : ℤ) (log : Log) {h : String} {n : ℤ}
      → tail_of lib js segments memory log ≡ ok (h, n)
      → validate_hex_hash (text h) ≡ true
  unfolding tail_of validate_hex_hash
  tail_of-hex segments memory [] e =
      subst (λ (s : String). validate_hex_hash (text s) ≡ true)
        (ap (λ (p : String × ℤ). p.0) (ok_injective e)) refl
  tail_of-hex segments memory ((s, regular raw) ∷ log) e =
      elim (Option-cases (last_line (split_lines (window raw)))) [
        | inl blank ↦ tail_of-hex segments memory log (rw (blank, tail_of) at e)
        | inr (line, found) ↦
            tail_entry-hex (tail_report segments s) memory (js.loads line)
              (rw (found, tail_of) at e)
      ]
  tail_of-hex segments memory ((s, symbolic_link t) ∷ log) e = absurd (err-ne-ok e)
  tail_of-hex segments memory ((s, special t) ∷ log) e = absurd (err-ne-ok e)
  tail_of-hex segments memory ((s, unreadable t) ∷ log) e = absurd (err-ne-ok e)

  pub tail_state-hex :
      (l : AuditLogger) {h : String} {n : ℤ}
      → tail_state lib js l ≡ ok (h, n)
      → validate_hex_hash (text h) ≡ true
  unfolding tail_state
  tail_state-hex l e =
      tail_of-hex (length (segments_for l.disk)) l.last_sequence (reverse (segments_for l.disk)) e
