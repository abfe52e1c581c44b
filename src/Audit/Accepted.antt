-- ===== src/Audit/Accepted.antt =====
-- What a record that is accepted by the verification satisfies.
use elyra.Base.{ap, sym, ◌∙◌, ◌≡◌, refl, String, Bool, true, false, not, arith}
use elyra.Base.Int.{ℤ}
use elyra.Base.Outcome.{Result, ok, err, ◌>>=◌, ◌>>◌, raise_if, bind-eq-ok, ok_injective}
use elyra.Base.Value.{equals_text, Fields, get, PyError, Builtins}
use elyra.Audit.Record.{Json, record_hash_mismatch, record_hash, validate_hex_hash, remove}
use elyra.Audit.Verify.{
  Cursor, Stop, text_of, open_chain, follows, next_sequence, uncaught, check_link, check_hash,
  accept, check_record, reported,
}

module _ (lib : Builtins) (js : Json) where
  -- What the verification of the record `fs` on the variables `c` asks for: `h` is its hash and `n`
  -- its number.
  pub record Accepted (c : Cursor) (fs : Fields) (h : String) (n : ℤ) : Type 0 where
    pub stored_hex : validate_hex_hash (get "record_hash" fs) ≡ true
    pub prev_hex : validate_hex_hash (get "prev_hash" fs) ≡ true
    pub linked :
        follows (get "prev_hash" fs) (open_chain (text_of lib (get "prev_hash" fs)) c).previous
        ≡ true
    pub hashed : record_hash lib js (remove "record_hash" fs) ≡ ok h
    pub same_hash : equals_text (get "record_hash" fs) h ≡ true
    pub numbered :
        next_sequence (open_chain (text_of lib (get "prev_hash" fs)) c) (get "sequence" fs) ≡ ok n

  abbrev opened : Cursor → Fields → Cursor
  opened c fs = open_chain (text_of lib (get "prev_hash" fs)) c

  check_link-eq_ok :
      (c : Cursor) (fs : Fields) {d : Cursor}
      → check_link lib js c fs ≡ ok d
      → (validate_hex_hash (get "record_hash" fs) ≡ true)
        × (validate_hex_hash (get "prev_hash" fs) ≡ true)
        × (follows (get "prev_hash" fs) (opened c fs).previous ≡ true)
        × (d ≡ opened c fs)
  unfolding check_link
  check_link-eq_ok c fs e = ground arith

  not-eq_ok : (b : Bool) (e : Stop) → raise_if (not b) e ≡ ok tt → b ≡ true
  not-eq_ok true e h = refl
  not-eq_ok false e h = cc

  uncaught-eq_ok : (r : Result PyError String) {h : String} → uncaught r ≡ ok h → r ≡ ok h
  uncaught-eq_ok (ok h) e = ap ok (ok_injective e)
  uncaught-eq_ok (err x) e = cc

  check_hash-eq_ok :
      (c : Cursor) (fs : Fields)
      → check_hash lib js c fs ≡ ok tt
      → (h : String) × (record_hash lib js (remove "record_hash" fs) ≡ ok h)
        × (equals_text (get "record_hash" fs) h ≡ true)
  unfolding check_hash
  check_hash-eq_ok c fs e =
      let (h, hashed, same) =
        bind-eq-ok (uncaught (record_hash lib js (remove "record_hash" fs)))
          (λ (h : String).
            raise_if (not (equals_text (get "record_hash" fs) h)) (reported c record_hash_mismatch))
          e in
      (h, uncaught-eq_ok _ hashed, not-eq_ok _ _ same)

  pub check_record-Accepted :
      (c : Cursor) (fs : Fields) {d : Cursor}
      → check_record lib js c fs ≡ ok d
      → (h : String) × (n : ℤ) × Accepted c fs h n × (d ≡ accept lib js (opened c fs) fs n)
  unfolding check_record
  check_record-Accepted c fs e =
      let (o, linked, e1) =
        bind-eq-ok (check_link lib js c fs)
          (λ (o : Cursor).
            check_hash lib js o fs
            >> (next_sequence o (get "sequence" fs) >>= λ n. ok (accept lib js o fs n)))
          e in
      let (u, h, e2) =
        bind-eq-ok (check_hash lib js o fs)
          (λ (u : Unit {0}). next_sequence o (get "sequence" fs) >>= λ n. ok (accept lib js o fs n))
          e1 in
      let (n, numbered, e3) =
        bind-eq-ok (next_sequence o (get "sequence" fs)) (λ (n : ℤ). ok (accept lib js o fs n))
          e2 in
      let (stored, prev, link, same) = check_link-eq_ok c fs linked in
      let (hash, hashed, equal) = check_hash-eq_ok o fs h in
      (
        hash,
        n,
        record {
          stored_hex = stored;
          prev_hex = prev;
          linked = link;
          hashed = hashed;
          same_hash = equal;
          numbered = ap (λ (c : Cursor). next_sequence c (get "sequence" fs)) (sym same) ∙ numbered;
        },
        sym (ok_injective e3) ∙ ap (λ (c : Cursor). accept lib js c fs n) same,
      )

  pub Accepted-check_record :
      (c : Cursor) (fs : Fields) (h : String) (n : ℤ)
      → Accepted c fs h n
      → check_record lib js c fs ≡ ok (accept lib js (opened c fs) fs n)
  unfolding check_record check_link check_hash
  Accepted-check_record c fs h n a =
      rw a.stored_hex
        (rw a.prev_hex (rw a.linked (rw a.hashed (rw a.same_hash (rw a.numbered refl)))))
