-- ===== src/Audit/Entry.antt =====
-- A record that the logger builds is accepted by the verification.
use elyra.Base.{
  suc, ◌≡◌, refl, ap, subst, String, true, false, none, some, arith, eq_refl, Bool-cases, ◌⊎◌, inl,
  inr,
}
use elyra.Base.Int.{ℤ, pos, ◌≤ℤ◌, ◌<ℤ◌, ◌+ℤ◌, leb_ℤ, int_laws}
use elyra.Base.Outcome.{Result, ok, err, ok_injective, err-ne-ok}
use elyra.Base.Value.{equals_text, int, float, text, dict, Fields, get, set, has, PyError, Builtins}
use elyra.Audit.Bytes.{Bytes, is_blank_line}
use elyra.Audit.Record.{
  Json, schema_version, digest_of, previous_text, record_hash, validate_hex_hash, remove,
  safe_fields,
}
use elyra.Audit.Verify.{
  Cursor, open_chain, next_sequence, accept, check_fields, check_value, check_line,
}
use elyra.Audit.Logger.{AuditLogger, Moment, unhashed_entry}
use elyra.Audit.Accepted.{Accepted, Accepted-check_record}
use elyra.Audit.JsonLaws.{IsPlain, JsonLaws}

-- The variables of a verification that has come to the end of the log whose last record has this
-- hash and this number.
pub record EndsWith (c : Cursor) (h : String) (n : ℤ) : Type 0 where
  pub link : (c.previous ≡ none) ⊎ (c.previous ≡ some h)
  pub low : c.sequence ≤ℤ n

not_le : (a b : ℤ) → b <ℤ a → leb_ℤ a b ≡ false
not_le a b h = ground arith

next_sequence-after :
    (c : Cursor) (n : ℤ) → c.sequence ≤ℤ n → next_sequence c (int (n +ℤ pos 1)) ≡ ok (n +ℤ pos 1)
unfolding next_sequence
next_sequence-after c n low =
    let above : leb_ℤ (n +ℤ pos 1) c.sequence ≡ false =
      not_le (n +ℤ pos 1) c.sequence (omega int_laws) in
    rw above refl

opened-EndsWith :
    (c : Cursor) (h : String) (n : ℤ)
    → EndsWith c h n
    → ((open_chain h c).previous ≡ some h) × ((open_chain h c).sequence ≡ c.sequence)
opened-EndsWith c h n e = elim e.link [ inl new ↦ ground arith | inr same ↦ ground arith ]

open_chain-count : (p : String) (c : Cursor) → (open_chain p c).count ≡ c.count
open_chain-count p c = ground arith

pub dumps-is_blank_line :
    (js : Json) (laws : JsonLaws js) (fs : Fields) (line : Bytes)
    → js.dumps fs ≡ ok line
    → is_blank_line line ≡ false
unfolding is_blank_line
dumps-is_blank_line js laws fs line e = let (others, opens) = laws.opens fs line e in rw opens refl

module _ (lib : Builtins) (js : Json) (laws : JsonLaws js) (l : AuditLogger) (at : Moment)
    (source subject : String) (payload : Fields) where
  abbrev pub built : String → Fields
  built h =
      set "record_hash" (text h) (unhashed_entry lib js l at (text source) (text subject) payload)

  built-Accepted :
      (c : Cursor) (h : String)
      → EndsWith c l.last_hash l.last_sequence
      → validate_hex_hash (text l.last_hash) ≡ true
      → validate_hex_hash (text h) ≡ true
      → record_hash lib js (unhashed_entry lib js l at (text source) (text subject) payload) ≡ ok h
      → Accepted lib js c (built h) h (l.last_sequence +ℤ pos 1)
  unfolding get set remove unhashed_entry
  built-Accepted c h e last_hex hex hashed = record {
    stored_hex = hex;
    prev_hex = last_hex;
    linked = rw (opened-EndsWith c l.last_hash l.last_sequence e).0 (eq_refl l.last_hash);
    hashed = hashed;
    same_hash = eq_refl h;
    numbered =
        next_sequence-after (open_chain l.last_hash c) l.last_sequence
          (rw (opened-EndsWith c l.last_hash l.last_sequence e).1 e.low);
  }

  digest-hex :
      (r : Result PyError Bytes) (h : String)
      → digest_of js r ≡ ok h
      → validate_hex_hash (text h) ≡ true
  digest-hex (ok b) h e =
      subst (λ (d : String). validate_hex_hash (text d) ≡ true) (ok_injective e) (laws.digest b)
  digest-hex (err x) h e = absurd (err-ne-ok e)

  pub built-hash : (h : String) → get "record_hash" (built h) ≡ text h
  unfolding get set unhashed_entry
  built-hash h = refl

  pub built-sequence : (h : String) → get "sequence" (built h) ≡ int (l.last_sequence +ℤ pos 1)
  unfolding get set unhashed_entry
  built-sequence h = refl

  pub built-IsPlain :
      (h : String)
      → IsPlain (float at.timestamp)
      → IsPlain (dict (safe_fields payload))
      → IsPlain (dict (built h))
  unfolding IsPlain get set has unhashed_entry
  built-IsPlain h finite_time plain = ground arith

  -- The line of the record, from where the log has come to its end.
  pub check_line-built :
      (c : Cursor) (h : String) (line : Bytes)
      → EndsWith c l.last_hash l.last_sequence
      → validate_hex_hash (text l.last_hash) ≡ true
      → record_hash lib js (unhashed_entry lib js l at (text source) (text subject) payload) ≡ ok h
      → validate_hex_hash (text h) ≡ true
      → IsPlain (float at.timestamp)
      → IsPlain (dict (safe_fields payload))
      → js.dumps (built h) ≡ ok line
      → (d : Cursor) × (check_line lib js c line ≡ ok d)
        × (d.previous ≡ some h)
        × (d.last ≡ h)
        × (d.sequence ≡ l.last_sequence +ℤ pos 1)
        × (d.count ≡ suc c.count)
  unfolding check_line check_value check_fields get set has unhashed_entry
  check_line-built c h line e last_hex hashed hex finite_time plain dumped =
      let reread = laws.loads-dumps (built h) line (built-IsPlain h finite_time plain) dumped in
      let accepted =
        Accepted-check_record lib js c (built h) h (l.last_sequence +ℤ pos 1)
          (built-Accepted c h e last_hex hex hashed) in
      (
        accept lib js (open_chain l.last_hash c) (built h) (l.last_sequence +ℤ pos 1),
        rw (dumps-is_blank_line js laws (built h) line dumped) (rw reread accepted),
        refl,
        refl,
        refl,
        ap suc (open_chain-count l.last_hash c),
      )

  -- The hash that the record gets is a digest.
  pub record_hash-hex :
      (entry : Fields) (h : String)
      → record_hash lib js entry ≡ ok h
      → validate_hex_hash (text h) ≡ true
  unfolding record_hash
  record_hash-hex entry h e =
      elim (Bool-cases (equals_text (get "schema_version" entry) schema_version)) [
        | inl two ↦ digest-hex (js.canonical entry) h (rw two at e)
        | inr one ↦ digest-hex (js.legacy (previous_text lib entry) entry) h (rw one at e)
      ]
