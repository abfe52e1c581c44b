-- ===== src/Quarantine/Copied.antt =====
-- What a copy and a move that return leave.
use elyra.Base.{
  ℕ, String, true, ◌≡◌, refl, sym, ap, subst, ◌∙◌, Option, some, List, [], ◌∷◌, ◌++◌, length,
}
use mathlib.Core.List.{append_assoc, append-nil}
use elyra.Audit.Append.{write_all-prefix}
use elyra.Base.Dict.{lookup}
use elyra.Base.Outcome.{Result, ok, raise_if-not-eq-ok, ok_injective}
use elyra.Base.Exec.{
  modify, Keeps, exec-eq-ok, gets-eq-ok, lift-eq-ok, modify-eq-ok, pure-eq-ok, lift_last,
}
use elyra.Audit.Bytes.{Bytes}
use elyra.Audit.Disk.{write_all}
use elyra.Quarantine.Files.{
  FilePath, path_key, Node, Fault, System, World, Method, found, call, create, write,
}
use elyra.Quarantine.Record.{Library}
use elyra.Quarantine.Moves.{
  joined, read_chunks, write_chunks, copy_between_fds, copy_fd_to_new_file,
}
use elyra.Quarantine.Stable.{Keeps-call, Keeps-read_chunks}
use elyra.Quarantine.Pending.{lookup-put}
use elyra.Quarantine.Untouched.{Stands, Stands-Stable}

write_all-whole :
    (kernel : List ℕ) (line content : Bytes)
    → (write_all kernel line content).1 ≡ true
    → (write_all kernel line content).0 ≡ content ++ line
write_all-whole kernel line content h =
    let (done, torn, parts, is, complete, broken) = write_all-prefix kernel line content in
    is
    ∙ ap (λ rest. content ++ rest)
        (sym (sym parts ∙ ap (λ rest. done ++ rest) (complete h) ∙ append-nil done))

-- The file at the path has these bytes.
pub record Has (p : FilePath) (bytes : Bytes) (w : World) : Type 0 where
  pub node : Node
  pub there : lookup p w.files ≡ some node
  pub content : node.content ≡ bytes

module _ {A : Type 0} where
  pub kept_to :
      {P : World → Type 0} (m : Method A) (w : World) {r : Result Fault A} {v : World}
      → Keeps P m
      → P w
      → m w ≡ (r, v)
      → P v
  kept_to {P = P} m w {v = v} k h e =
      subst P (ap (λ (x : Result Fault A × World). x.1) e) (k.at w h)

  pub Has-kept :
      (p : FilePath) (bytes : Bytes) (m : Method A) (w : World) {r : Result Fault A} {v : World}
      → ((f : Node) → Keeps (Stands p f) m)
      → Has p bytes w
      → m w ≡ (r, v)
      → Has p bytes v
  Has-kept p bytes m w k h e = record {
    node = h.node;
    there = kept_to {P = Stands p h.node} m w (k h.node) h.there e;
    content = h.content;
  }

module _ {A : Type 0} where
  pub returning : (m : Method A) (w : World) {r : Result Fault A} → (m w).0 ≡ r → m w ≡ (r, (m w).1)
  returning m w e i = (e i, (m w).1)

found_is : {o : Option Node} {f g : Node} → o ≡ some f → found o ≡ ok g → g ≡ f
found_is {o} {f} {g} is e = sym (ok_injective (subst (λ p. found p ≡ ok g) is e))

modify_last :
    (f : World → World) (w : World) {a : Unit {0}} {v : World}
    → modify {E = Fault} f w ≡ (ok a, v)
    → f w ≡ v
unfolding modify
modify_last f w e = ap (λ (x : Result Fault (Unit {0}) × World). x.1) e

module _ (sys : System) where
  Has-call :
      (p : FilePath) (bytes : Bytes) (w : World) {r : Result Fault (Unit {0})} {v : World}
      → Has p bytes w
      → call sys w ≡ (r, v)
      → Has p bytes v
  Has-call p bytes w h e =
      Has-kept p bytes (call sys) w (λ f. Keeps-call sys (Stands-Stable p f)) h e

  created :
      (p : FilePath) (w : World) {a : Unit {0}} {v : World}
      → create sys p w ≡ (ok a, v)
      → Has p [] v
  unfolding create
  created p w e =
      let (b, called, e1) = exec-eq-ok (call sys) _ w e in
      let (c, free, e2) = lift-eq-ok _ _ _ (gets-eq-ok _ _ _ e1) in
      let is = modify_last _ _ e2 in
      subst (Has p []) is (record { node = _; there = lookup-put p _ _; content = refl })

  written :
      (p : FilePath) (line content : Bytes) (w : World) {a : Unit {0}} {v : World}
      → Has p content w
      → write sys p line w ≡ (ok a, v)
      → Has p (content ++ line) v
  unfolding write
  written p line content w h e =
      let (b, called, e1) = exec-eq-ok (call sys) _ w e in
      let e2 = gets-eq-ok _ _ _ e1 in
      let e3 = gets-eq-ok _ _ _ e2 in
      let (f, found_there, e4) = lift-eq-ok _ _ _ e3 in
      let (full, is) = lift_last _ _ (modify-eq-ok _ _ _ e4) in
      let before = Has-call p content w h (returning (call sys) w called) in
      let same = found_is before.there found_there in
      subst (Has p (content ++ line)) is (record {
        node = _;
        there = lookup-put p _ _;
        content =
            write_all-whole _ line f.content (raise_if-not-eq-ok _ _ full)
            ∙ ap (λ (g : Node). g.content ++ line) same
            ∙ ap (λ c. c ++ line) before.content;
      })

  chunks_written :
      (p : FilePath) (cs : List Bytes) (content : Bytes) (w : World) {a : Unit {0}} {v : World}
      → Has p content w
      → write_chunks sys p cs w ≡ (ok a, v)
      → Has p (content ++ joined cs) v
  unfolding write_chunks
  chunks_written p [] content w h e =
      subst (Has p (content ++ [])) (pure-eq-ok _ _ e).1
        (record { node = h.node; there = h.there; content = h.content ∙ sym (append-nil content) })
  chunks_written p (c ∷ cs) content w {v = v} h e =
      let (b, one, rest) = exec-eq-ok (write sys p c) _ w e in
      let next = written p c content w h (returning (write sys p c) w one) in
      let all = chunks_written p cs (content ++ c) _ next rest in
      subst (λ bytes. Has p bytes v) (append_assoc content c (joined cs)) all

  module _ (lib : Library) where
    copied_between :
        (p : FilePath) (w : World) {copied : String × ℕ} {v : World}
        → Has p [] w
        → copy_between_fds sys lib p w ≡ (ok copied, v)
        → (bytes : Bytes) × Has p bytes v
          × (lib.sha256 bytes ≡ copied.0)
          × (length bytes ≡ copied.1)
    unfolding copy_between_fds
    copied_between p w {copied} {v} h e =
        let (r, read, e1) = exec-eq-ok (read_chunks sys) _ w e in
        let start =
          Has-kept p [] (read_chunks sys) w (λ f. Keeps-read_chunks sys (Stands-Stable p f)) h
            (returning (read_chunks sys) w read) in
        let (b, wrote, e2) = exec-eq-ok (write_chunks sys p r.chunks) _ _ e1 in
        let full =
          chunks_written p r.chunks [] _ start (returning (write_chunks sys p r.chunks) _ wrote) in
        let (c, fine, e3) = lift-eq-ok _ _ _ e2 in
        let (same, is) = pure-eq-ok _ _ e3 in
        (
          joined r.chunks,
          subst (Has p (joined r.chunks)) is full,
          ap (λ (x : String × ℕ). x.0) same,
          ap (λ (x : String × ℕ). x.1) same,
        )

    -- A copy that returns left a file with bytes of the digest and the length that it gives.
    pub copied_file :
        (p : FilePath) (w : World) {copied : String × ℕ} {v : World}
        → copy_fd_to_new_file sys lib p w ≡ (ok copied, v)
        → (bytes : Bytes) × Has p bytes v
          × (lib.sha256 bytes ≡ copied.0)
          × (length bytes ≡ copied.1)
    unfolding copy_fd_to_new_file
    copied_file p w {copied} {v} e =
        let (a, made, e1) = exec-eq-ok (create sys p) _ w e in
        let start = created p w (returning (create sys p) w made) in
        let (c, done, e2) = exec-eq-ok (copy_between_fds sys lib p) _ _ e1 in
        let (bytes, has, digest, size) =
          copied_between p _ start (returning (copy_between_fds sys lib p) _ done) in
        let (b, first, e3) = exec-eq-ok (call sys) _ _ e2 in
        let (d, second, e4) = exec-eq-ok (call sys) _ _ e3 in
        let (same, is) = pure-eq-ok _ _ e4 in
        let has1 = Has-call p bytes _ has (returning (call sys) _ first) in
        let has2 = Has-call p bytes _ has1 (returning (call sys) _ second) in
        (
          bytes,
          subst (Has p bytes) is has2,
          digest ∙ ap (λ (x : String × ℕ). x.0) same,
          size ∙ ap (λ (x : String × ℕ). x.1) same,
        )
