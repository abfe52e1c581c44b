-- ===== src/Quarantine/Files.antt =====
-- elyra-engine/src/elyra/response/quarantine_manager.py: what the manager asks of the file system. Paths
-- name files; every call may fail, and what is read from a file or its status is the kernel's answer,
-- which other processes may change. No call of another process moves the files that are named.
use elyra.Base.{
  ℕ, suc, String, Bool, true, not, ◌&&◌, ◌≡◌, ◌↔◌, Option, none, some, List, [], ◌==◌, str_eq,
  eq_iff, eq_refl, subst, is_some, arith, if◌then◌else◌,
}
use elyra.Base.Int.{ℤ}
use elyra.Base.Dict.{Key, Dict, lookup, insert, erase}
use elyra.Base.Outcome.{Result, ok, err, raise_if}
use elyra.Base.Exec.{Exec, pure, lift, gets, modify, ◌>>=◌, ◌>>◌}
use elyra.Audit.Bytes.{Bytes}
use elyra.Audit.Disk.{write_all}

-- A directory and a name in it.
pub record FilePath : Type 0 where
  pub dir : String
  pub name : String

abbrev pub beq_path : FilePath → FilePath → Bool
beq_path p q = str_eq p.dir q.dir && str_eq p.name q.name

same_path : (p q : FilePath) → p.dir ≡ q.dir → p.name ≡ q.name → p ≡ q
same_path p q d n i = record { dir = d i; name = n i }

beq_path_sound : (p q : FilePath) → beq_path p q ≡ true → p ≡ q
beq_path_sound p q h =
    same_path p q (ground (arith, eq_iff p.dir q.dir)) (ground (arith, eq_iff p.name q.name))

beq_path_refl : (p : FilePath) → beq_path p p ≡ true
beq_path_refl p = ground (arith, eq_refl p.dir, eq_refl p.name)

pub beq_path_iff : (p q : FilePath) → (beq_path p q ≡ true) ↔ (p ≡ q)
beq_path_iff p q = (beq_path_sound p q, λ e. subst (λ r. beq_path p r ≡ true) e (beq_path_refl p))

instance abbrev pub path_key : Key FilePath
path_key = record { beq = beq_path; beq_iff = beq_path_iff }

-- What can be raised: the family of `QuarantineError`, of which the first stands for a rollback that was
-- incomplete, and what the methods catch beside it. Texts of messages are left out.
pub data Fault : Type 0 where
  rollback_incomplete quarantine_error integrity_error conflict_error metadata_error : Fault
  os_error : ℕ → Fault
  value_error type_error : Fault

pub data Kind : Type 0 where
  regular symbolic_link other_kind : Kind

-- The fields of `os.stat_result` that the manager reads.
pub record Stat : Type 0 where
  pub kind : Kind
  pub device : ℤ
  pub inode : ℤ
  pub size : ℤ
  pub mtime : ℤ
  pub ctime : ℤ
  pub links : ℤ
  pub mode : ℕ
  pub uid : ℤ
  pub gid : ℤ

-- A file that has a name: which one it is, and its bytes.
pub record Node : Type 0 where
  pub identity : ℕ
  pub content : Bytes

-- What is read from a file: the chunks, and the number of an error that ends them.
pub record Reading : Type 0 where
  pub chunks : List Bytes
  pub failure : Option ℕ

-- The answers of the kernel and of the clock, by the number of the call.
pub record System : Type 0 where
  pub failure : ℕ → Option ℕ
  pub stat : ℕ → Stat
  pub reading : ℕ → Reading
  pub writes : ℕ → List ℕ
  pub uuid : ℕ → String
  pub time : ℕ → ℤ
  pub has_renameat2 : Bool
  pub is_root : Bool

pub data AuditStatus : Type 0 where
  healthy not_configured degraded : AuditStatus

-- The files, the number of calls made, the state of the manager, and the local variables of
-- `quarantine_file` that its `except` clause reads.
pub record World : Type 0 where
  pub files : Dict FilePath Node
  pub calls : ℕ
  pub audit_status : AuditStatus
  pub holding_path : Option FilePath
  pub temporary_payload : Option FilePath
  pub final_payload : Option FilePath
  pub metadata_path : Option FilePath

abbrev pub Method : Type 0 → Type 0
Method A = Exec Fault World A

abbrev pub Done : Type 0
Done = Method (Unit {0})

-- `try`: the exception as a value
unfoldable pub attempt : {A : Type 0} → Method A → Method (Result Fault A)
attempt m s = (ok (m s).0, (m s).1)

abbrev pub raise : {A : Type 0} → Fault → Method A
raise e = lift (err e)

abbrev pub enoent : ℕ
enoent = 2

abbrev pub eexist : ℕ
eexist = 17

abbrev pub einval : ℕ
einval = 22

abbrev pub erofs : ℕ
erofs = 30

abbrev pub enosys : ℕ
enosys = 38

abbrev pub os_fails : Option ℕ → Result Fault (Unit {0})
os_fails none = ok tt
os_fails (some e) = err (os_error e)

abbrev pub counted : World → World
counted w = record w { calls = suc w.calls }

abbrev pub put : FilePath → Node → World → World
put p f w = record w { files = insert p f w.files }

abbrev pub drop_path : FilePath → World → World
drop_path p w = record w { files = erase p w.files }

-- `os.path.lexists`
abbrev pub lexists : FilePath → Method Bool
lexists p = gets (λ (w : World). is_some (lookup p w.files))

abbrev pub found : Option Node → Result Fault Node
found none = err (os_error enoent)
found (some f) = ok f

module _ (sys : System) where
  -- A call that may fail and changes nothing here: `chmod`, `fsync`, `chown`.
  unfoldable pub call : Done
  call = do
    failed ← gets (λ (w : World). sys.failure w.calls)
    modify counted
    lift (os_fails failed)

  unfoldable pub stat : Method Stat
  unfolding call
  stat = do call; gets (λ (w : World). sys.stat w.calls)

  -- `os.unlink`
  unfoldable pub unlink : FilePath → Done
  unfolding call
  unlink p = do
    call
    there ← gets (λ (w : World). lookup p w.files)
    file ← lift (found there)
    modify (drop_path p)

  abbrev pub if_missing : Result Fault (Unit {0}) → Done
  if_missing (ok a) = pure tt
  if_missing (err (os_error e)) = if e == enoent then pure tt else raise (os_error e)
  if_missing (err e) = raise e

  -- `Path.unlink(missing_ok=True)`
  unfoldable pub unlink_missing_ok : FilePath → Done
  unfolding unlink
  unlink_missing_ok p = do r ← attempt (unlink p); if_missing r

  -- `os.open` with `O_CREAT | O_EXCL`
  unfoldable pub create : FilePath → Done
  unfolding call
  create p = do
    call
    taken ← lexists p
    lift (raise_if taken (os_error eexist))
    modify (λ (w : World). put p (record { identity = w.calls; content = [] }) w)

  -- `os.link`
  unfoldable pub link : FilePath → FilePath → Done
  unfolding call
  link source destination = do
    call
    taken ← lexists destination
    lift (raise_if taken (os_error eexist))
    there ← gets (λ (w : World). lookup source w.files)
    file ← lift (found there)
    modify (put destination file)

  -- `renameat2` with `RENAME_NOREPLACE`
  unfoldable pub rename_noreplace : FilePath → FilePath → Done
  unfolding link
  rename_noreplace source destination = do link source destination; modify (drop_path source)

  -- `os.replace`
  unfoldable pub replace : FilePath → FilePath → Done
  unfolding call
  replace source destination = do
    call
    there ← gets (λ (w : World). lookup source w.files)
    file ← lift (found there)
    modify (λ (w : World). put destination file (drop_path source w))

  abbrev pub written_file : List ℕ → Bytes → Node → Node
  written_file kernel line f = record f { content = (write_all kernel line f.content).0 }

  -- The loop of `os.write` calls on a descriptor of a file that was created at this path.
  unfoldable pub write : FilePath → Bytes → Done
  unfolding call
  write p bytes = do
    call
    kernel ← gets (λ (w : World). sys.writes w.calls)
    there ← gets (λ (w : World). lookup p w.files)
    file ← lift (found there)
    modify (put p (written_file kernel bytes file))
    lift (raise_if (not (write_all kernel bytes file.content).1) (os_error 0))
