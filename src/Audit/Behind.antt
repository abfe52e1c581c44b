-- ===== src/Audit/Behind.antt =====
-- A verification that begins later in the log accepts what one from its start accepts.
use elyra.Base.{
  ℕ, suc, ◌≡◌, refl, sym, ap, subst, ◌∙◌, String, true, false, Option, none, some, List, [], ◌∷◌,
  arith, eq_refl, ◌⊎◌, inl, inr, Bool-cases,
}
use elyra.Base.Int.{ℤ, pos, ◌≤ℤ◌, ◌+ℤ◌, int_laws}
use elyra.Base.Outcome.{
  Result, ok, err, raise_if, raise_if-eq-ok, seq-eq-ok, bind-eq-ok, ok_injective, err-ne-ok,
}
use elyra.Base.Value.{Value, null, bool, int, float, text, list, dict, Fields, get, Builtins}
use elyra.Audit.Bytes.{Bytes, is_whole, is_blank_line, split_lines}
use elyra.Audit.Record.{Json, missing_fields, validate_hex_hash, Segment}
use elyra.Audit.Verify.{
  Cursor, start, Stop, reported, raised, text_of, open_chain, follows, next_sequence, accept,
  absent, required, some_absent, check_record, check_fields, check_value, check_line, check_lines,
  check_bytes, check_file, check_log, File, regular, symbolic_link, special, unreadable, Fault,
  located, Log,
}
use elyra.Audit.Accepted.{check_record-Accepted, Accepted-check_record}

-- `d` are the variables of a verification that began later than the one with the variables `c`.
pub record Behind (d c : Cursor) : Type 0 where
  pub settled : (c.previous ≡ none) ⊎ (c.previous ≡ some c.last)
  pub positive : pos 0 ≤ℤ c.sequence
  pub link : (d.previous ≡ none) ⊎ ((d.previous ≡ c.previous) × (d.last ≡ c.last))
  pub low : d.sequence ≤ℤ c.sequence

pub start-Behind : Behind start start
start-Behind = record {
  settled = inl refl;
  positive = omega arith;
  link = inl refl;
  low = omega arith;
}

next_sequence-Behind :
    (d c : Cursor) (v : Value) (n : ℤ)
    → d.sequence ≤ℤ c.sequence
    → next_sequence c v ≡ ok n
    → (m : ℤ) × (next_sequence d v ≡ ok m) × (m ≤ℤ n) × (c.sequence ≤ℤ n)
unfolding next_sequence
next_sequence-Behind d c null n low e =
    let added : c.sequence +ℤ pos 1 ≡ n = ok_injective e in
    (
      d.sequence +ℤ pos 1,
      refl,
      subst (λ (k : ℤ). (d.sequence +ℤ pos 1) ≤ℤ k) added (omega int_laws),
      subst (λ (k : ℤ). c.sequence ≤ℤ k) added (omega int_laws),
    )
next_sequence-Behind d c (bool true) n low e = (n, ground arith, ground arith, ground arith)
next_sequence-Behind d c (bool false) n low e = (n, ground arith, ground arith, ground arith)
next_sequence-Behind d c (int k) n low e = (n, ground arith, ground arith, ground arith)
next_sequence-Behind d c (float x) n low e = absurd (err-ne-ok e)
next_sequence-Behind d c (text s) n low e = absurd (err-ne-ok e)
next_sequence-Behind d c (list s) n low e = absurd (err-ne-ok e)
next_sequence-Behind d c (dict s) n low e = absurd (err-ne-ok e)

le_trans_ℤ : (a b c : ℤ) → a ≤ℤ b → b ≤ℤ c → a ≤ℤ c
le_trans_ℤ a b c p q = omega arith

open_chain-sequence : (p : String) (c : Cursor) → (open_chain p c).sequence ≡ c.sequence
open_chain-sequence p c = ground arith

abbrev known_previous : String → Option String → Option String
known_previous p none = some p
known_previous p (some q) = some q

open_chain-previous :
    (p : String) (c : Cursor) → (open_chain p c).previous ≡ known_previous p c.previous
open_chain-previous p c = ground arith

module _ (lib : Builtins) where
  follows_self : (v : Value) → validate_hex_hash v ≡ true → follows v (some (text_of lib v)) ≡ true
  unfolding validate_hex_hash
  follows_self (text s) h = eq_refl s
  follows_self null h = cc
  follows_self (bool b) h = cc
  follows_self (int b) h = cc
  follows_self (float b) h = cc
  follows_self (list b) h = cc
  follows_self (dict b) h = cc

  linked-Behind :
      (d c : Cursor) (v : Value)
      → Behind d c
      → validate_hex_hash v ≡ true
      → follows v (open_chain (text_of lib v) c).previous ≡ true
      → follows v (open_chain (text_of lib v) d).previous ≡ true
  linked-Behind d c v b hex h = elim b.link [
    | inl new ↦ rw new (follows_self v hex)
    | inr (same, last) ↦
        let opened : (open_chain (text_of lib v) d).previous
            ≡ (open_chain (text_of lib v) c).previous =
          open_chain-previous (text_of lib v) d
          ∙ ap (known_previous (text_of lib v)) same
          ∙ sym (open_chain-previous (text_of lib v) c) in
        rw opened h
  ]

module _ (lib : Builtins) (js : Json) where
  -- The variables `d` that began later accept what `c` accepts, and stay behind.
  abbrev Follows : Cursor → Cursor → Result Stop Cursor → Type 0
  Follows d c r = (e : Cursor) × (r ≡ ok e) × Behind e c

  check_record-Behind :
      (d c : Cursor) (fs : Fields) {c' : Cursor}
      → Behind d c
      → check_record lib js c fs ≡ ok c'
      → Follows d c' (check_record lib js d fs)
  check_record-Behind d c fs b e =
      let (h, n, a, result) = check_record-Accepted lib js c fs e in
      let (m, numbered, low, grown) =
        next_sequence-Behind (open_chain (text_of lib (get "prev_hash" fs)) d)
          (open_chain (text_of lib (get "prev_hash" fs)) c) (get "sequence" fs) n
          (rw (open_chain-sequence (text_of lib (get "prev_hash" fs)) d)
            (rw (open_chain-sequence (text_of lib (get "prev_hash" fs)) c) b.low))
          a.numbered in
      (
        accept lib js (open_chain (text_of lib (get "prev_hash" fs)) d) fs m,
        Accepted-check_record lib js d fs h m (record {
          stored_hex = a.stored_hex;
          prev_hex = a.prev_hex;
          linked = linked-Behind lib d c (get "prev_hash" fs) b a.prev_hex a.linked;
          hashed = a.hashed;
          same_hash = a.same_hash;
          numbered = numbered;
        }),
        rw result (record {
          settled = inr refl;
          positive =
              le_trans_ℤ (pos 0) c.sequence n b.positive
                (rw (open_chain-sequence (text_of lib (get "prev_hash" fs)) c) at grown);
          link = inr (refl, refl);
          low = low;
        }),
      )

  check_value-Behind :
      (d c : Cursor) (v : Option Value) {c' : Cursor}
      → Behind d c
      → check_value lib js c v ≡ ok c'
      → Follows d c' (check_value lib js d v)
  unfolding check_value check_fields
  check_value-Behind d c (some (dict fs)) b e =
      let (present, checked) =
        seq-eq-ok
          (raise_if (some_absent (absent fs required))
            (reported c (missing_fields (absent fs required))))
          (check_record lib js c fs) e in
      let (x, result, behind) = check_record-Behind d c fs b checked in
      (x, rw (raise_if-eq-ok (some_absent (absent fs required)) _ present) result, behind)
  check_value-Behind d c none b e = cc
  check_value-Behind d c (some null) b e = cc
  check_value-Behind d c (some (bool x)) b e = cc
  check_value-Behind d c (some (int x)) b e = cc
  check_value-Behind d c (some (float x)) b e = cc
  check_value-Behind d c (some (text x)) b e = cc
  check_value-Behind d c (some (list x)) b e = cc

  check_line-Behind :
      (d c : Cursor) (line : Bytes) {c' : Cursor}
      → Behind d c
      → check_line lib js c line ≡ ok c'
      → Follows d c' (check_line lib js d line)
  unfolding check_line
  check_line-Behind d c line b e = elim (Bool-cases (is_blank_line line)) [
    | inl blank ↦
        (d, rw blank refl, subst (λ (k : Cursor). Behind d k) (ok_injective (rw blank at e)) b)
    | inr full ↦ rw full (check_value-Behind d c (js.loads line) b (rw full at e))
  ]

  pub located-eq_ok :
      {A : Type 0} (s : Segment) (n : ℕ) (r : Result Stop A) {a : A}
      → located s n r ≡ ok a
      → r ≡ ok a
  located-eq_ok s n (ok a) e = ap ok (ok_injective e)
  located-eq_ok s n (err (reported c x)) e = cc
  located-eq_ok s n (err (raised x)) e = cc

  abbrev FollowsLog : Cursor → Cursor → Result Fault Cursor → Type 0
  FollowsLog d c r = (e : Cursor) × (r ≡ ok e) × Behind e c

  check_lines-Behind :
      (s : Segment) (n : ℕ) (d c : Cursor) (lines : List Bytes) {c' : Cursor}
      → Behind d c
      → check_lines lib js s n c lines ≡ ok c'
      → FollowsLog d c' (check_lines lib js s n d lines)
  unfolding check_lines
  check_lines-Behind s n d c [] b e =
      (d, refl, subst (λ (k : Cursor). Behind d k) (ok_injective e) b)
  check_lines-Behind s n d c (line ∷ lines) b e =
      let (c1, first, later) =
        bind-eq-ok (located s n (check_line lib js c line))
          (λ (k : Cursor). check_lines lib js s (suc n) k lines) e in
      let (d1, same, b1) =
        check_line-Behind d c line b (located-eq_ok s n (check_line lib js c line) first) in
      rw same (check_lines-Behind s (suc n) d1 c1 lines b1 later)

  pub check_file-Behind :
      (s : Segment) (d c : Cursor) (f : File) {c' : Cursor}
      → Behind d c
      → check_file lib js s c f ≡ ok c'
      → FollowsLog d c' (check_file lib js s d f)
  unfolding check_file check_bytes
  check_file-Behind s d c (regular raw) b e = elim (Bool-cases (is_whole raw)) [
    | inl whole ↦ rw whole (check_lines-Behind s 1 d c (split_lines raw) b (rw whole at e))
    | inr torn ↦ absurd (err-ne-ok (rw torn at e))
  ]
  check_file-Behind s d c (symbolic_link t) b e = absurd (err-ne-ok e)
  check_file-Behind s d c (special n) b e = absurd (err-ne-ok e)
  check_file-Behind s d c (unreadable n) b e = absurd (err-ne-ok e)

  pub check_log-Behind :
      (d c : Cursor) (log : Log) {c' : Cursor}
      → Behind d c
      → check_log lib js c log ≡ ok c'
      → FollowsLog d c' (check_log lib js d log)
  unfolding check_log
  check_log-Behind d c [] b e = (d, refl, subst (λ (k : Cursor). Behind d k) (ok_injective e) b)
  check_log-Behind d c ((s, f) ∷ log) b e =
      let (c1, first, later) =
        bind-eq-ok (check_file lib js s c f) (λ (k : Cursor). check_log lib js k log) e in
      let (d1, same, b1) = check_file-Behind s d c f b first in
      rw same (check_log-Behind d1 c1 log b1 later)
