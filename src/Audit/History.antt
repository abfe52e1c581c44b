-- ===== src/Audit/History.antt =====
-- Sequences of records, from an empty log on.
use elyra.Base.{
  ◌+◌, ◌≤◌, ◌<◌, ◌≡◌, refl, sym, ap, ◌∙◌, String, none, List, [], ◌∷◌, arith, length, All,
}
use elyra.Base.Int.{ℤ, pos, ◌+ℤ◌, zero_+ℤ, int_laws}
use elyra.Base.Outcome.{Result, ok}
use elyra.Base.Exec.{pure, ◌>>=◌, exec-eq-ok, pure-eq-ok}
use elyra.Base.Value.{float, text, dict, Fields, Builtins}
use elyra.Audit.Record.{Json, safe_fields}
use elyra.Audit.Verify.{Cursor, start, check_log, passed, report, verify_audit_directory}
use elyra.Audit.Disk.{segments_for, largest_index}
use elyra.Audit.Logger.{
  AuditConfig, AuditLogger, AuditFault, Method, Moment, tail_bytes, tail_of, tail_state,
}
use elyra.Audit.Methods.{append_record_locked}
use elyra.Audit.JsonLaws.{IsPlain, JsonLaws}
use elyra.Audit.Growth.{IsContinued, record-IsContinued}

-- One call of `record`.
pub record Call : Type 0 where
  pub at : Moment
  pub source : String
  pub subject : String
  pub payload : Fields

abbrev pub IsPlainCall : Call → Type 0
IsPlainCall k = IsPlain (float k.at.timestamp) × IsPlain (dict (safe_fields k.payload))

module _ (lib : Builtins) (js : Json) (cfg : AuditConfig) where
  abbrev pub record_call : Call → Method String
  record_call k =
      append_record_locked lib js cfg k.at (text k.source) (text k.subject) (dict k.payload)

  -- Calls of `record` one after another, up to the first that raises.
  unfoldable pub record_all : List Call → Method (Unit {0})
  record_all [] = pure tt
  record_all (k ∷ ks) = do hash ← record_call k; record_all ks

  pub empty-IsContinued :
      (l : AuditLogger)
      → l.disk.rotated_files ≡ []
      → l.disk.active_file ≡ none
      → IsContinued lib js l start
  empty-IsContinued l no_rotated no_active =
      let nothing : segments_for l.disk ≡ [] =
        unfold segments_for in rw no_rotated (rw no_active refl) in
      record {
        verified = unfold check_log in rw nothing refl;
        tail = unfold tail_state in unfold tail_of in rw nothing refl;
      }

  module _ (laws : JsonLaws js) (short : cfg.max_record_bytes ≤ tail_bytes) where
    record_all-IsContinued :
        (calls : List Call) (l l' : AuditLogger) (c : Cursor)
        → IsContinued lib js l c
        → largest_index l.disk.rotated_files + length calls < 1000000
        → All IsPlainCall calls
        → record_all calls l ≡ (ok tt, l')
        → (d : Cursor) × (verify_audit_directory lib js (segments_for l'.disk)
            ≡ ok (passed lib js (length (segments_for l'.disk)) d))
          × (d.sequence ≡ c.sequence +ℤ pos (length calls))
    unfolding record_all verify_audit_directory
    record_all-IsContinued [] l l' c k small plain e =
        let same = (pure-eq-ok tt l e).1 in
        (
          c,
          ap
                (λ (m : AuditLogger).
                  report lib js (length (segments_for m.disk))
                    (check_log lib js start (segments_for m.disk)))
                (sym same)
              ∙ ap (report lib js (length (segments_for l.disk))) k.verified
              ∙ ap (λ (m : AuditLogger). ok (passed lib js (length (segments_for m.disk)) c)) same,
          omega int_laws,
        )
    record_all-IsContinued (call ∷ calls) l l' c k small plain e =
        let (h, first, later) = exec-eq-ok (record_call call) _ l e in
        let m = (record_call call l).1 in
        let (d, continued, valid, last, number, count, grown) =
          record-IsContinued lib js laws cfg l m c call.at call.source call.subject call.payload h
            short k (omega arith) plain.0.0 plain.0.1
            (ap (λ (r : Result AuditFault String). (r, m)) first) in
        let (e', verified, total) =
          record_all-IsContinued calls m l' d continued (omega arith) plain.1 later in
        (e', verified, total ∙ ap (λ (n : ℤ). n +ℤ pos (length calls)) number ∙ omega int_laws)

    -- After any number of records below one million on an empty log, each of them written, whatever
    -- was rotated and dropped meanwhile, the verification passes, and the last sequence number is the
    -- number of the records. JSON texts and digests are as documented, records are no longer than the
    -- part of the file that is read from its end, and payloads are made of values that JSON has.
    pub records_verified :
        (calls : List Call) (l l' : AuditLogger)
        → l.disk.rotated_files ≡ []
        → l.disk.active_file ≡ none
        → length calls < 1000000
        → All IsPlainCall calls
        → record_all calls l ≡ (ok tt, l')
        → (d : Cursor) × (verify_audit_directory lib js (segments_for l'.disk)
            ≡ ok (passed lib js (length (segments_for l'.disk)) d))
          × (d.sequence ≡ pos (length calls))
    records_verified calls l l' no_rotated no_active few plain e =
        let (d, verified, number) =
          record_all-IsContinued calls l l' start (empty-IsContinued l no_rotated no_active)
            (rw no_rotated (omega arith)) plain e in
        (d, verified, number ∙ zero_+ℤ (pos (length calls)))
