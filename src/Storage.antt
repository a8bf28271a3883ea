-- ===== src/Storage.antt =====
-- The local copies of a project: `StorageAdapter` of src/core/persistence.ts, and the atomic
-- writes of src/core/atomicFile.ts, on a platform whose separator is '/'.
--
-- An operation is an action on a world: the adapter's fields, the disk, and the lists of paths
-- that it has emitted as 'flushed'. Node's file system and paths, the serialization of a document
-- and the open editors are parameters (`Host`). Whatever else the program does while an action
-- waits for one of them is part of what that parameter does to the world. A loop of the source
-- that can run for ever takes fuel, and ends with `endless` when the fuel does.
use jupyter_pair_ext.Base.{
  ℕ, ◌+◌, Bool, true, false, Option, none, some, List, [], ◌∷◌, ◌++◌, nat_eq, string_eq, Result, ok,
  err, Map,
}
use jupyter_pair_ext.Base.Codes.{Text, text_eq}
use jupyter_pair_ext.ProjectPath.{safe_relative_path}
pub mod State
pub mod AtomicFile
pub mod Target
pub mod Operations
pub mod Manifest
pub mod Inspect
pub mod Agreement
pub mod Holds
pub mod Valid
pub mod Materialize
pub mod Redirects
pub mod Requeue
pub mod Done
pub mod Flushes
pub mod Lost
pub mod Ends
pub mod DiskLaws
pub mod Published
pub mod Live
pub mod WriteEnds
pub mod FlushEnds

-- The `code` of a system error.
pub data Code : Type 0 where
  enoent eexist eperm eacces enotempty ebadf eisdir einval enosys enotsup other : Code

-- The errors that the code itself throws.
pub data Reason : Type 0 where
  invalid_path symbolic_link replaces_directory not_regular invalid_digest changed : Reason
  nested_rename too_many_entries not_a_directory duplicate_file duplicate_directory : Reason
  below_a_file omitted_parent : Reason

pub data Failure : Type 0 where
  system : Code → Failure
  thrown : Reason → Failure
  endless : Failure

abbrev pub Bytes : Type 0
Bytes = List ℕ

pub record Adapter : Type 0 where
  pub pending : List Text
  pub redirects : Map Text Text
  pub removed : List Text
  pub timer : Option ℕ
  pub active : Bool
  pub backing_root : Option Text
  pub last_flush_at : ℕ

pub record World (D : Type 0) : Type 0 where
  pub adapter : Adapter
  pub disk : D
  pub flushed : List (List Text)

abbrev pub Action : Type 0 → Type 0 → Type 0
Action D A = World D → Result Failure A × World D

module _ {D : Type 0} where
  abbrev pub after {ℓ} :
      {A : Type 0} {B : Type ℓ}
      → Result Failure A × World D
      → (A → World D → Result Failure B × World D)
      → Result Failure B × World D
  after (ok a, w) f = f a w
  after (err e, w) f = (err e, w)

  infixl 5 ◌>>=◌ ◌>>◌
  abbrev pub ◌>>=◌ : {A B : Type 0} → Action D A → (A → Action D B) → Action D B
  (m >>= f) w = after (m w) f

  abbrev pub ◌>>◌ : {B : Type 0} → Action D (Unit {0}) → Action D B → Action D B
  (m >> k) w = after (m w) (λ _. k)

  abbrev pub pure : {A : Type 0} → A → Action D A
  pure a w = (ok a, w)

  abbrev pub throw : {A : Type 0} → Failure → Action D A
  throw e w = (err e, w)

  abbrev pub lift : {A : Type 0} → Result Failure A → Action D A
  lift r w = (r, w)

  abbrev pub recover :
      {A : Type 0}
      → Result Failure A × World D
      → (Failure → Action D A)
      → Result Failure A × World D
  recover (ok a, w) h = (ok a, w)
  recover (err endless, w) h = (err endless, w)
  recover (err (system c), w) h = h (system c) w
  recover (err (thrown r), w) h = h (thrown r) w

  -- `try { m } catch (error) { h }`; what does not end is not caught
  abbrev pub catch : {A : Type 0} → Action D A → (Failure → Action D A) → Action D A
  catch m h w = recover (m w) h

  abbrev pub finish :
      {A : Type 0} → Result Failure A × World D → Action D (Unit {0}) → Result Failure A × World D
  finish (ok a, w) k = after (k w) (λ _. pure a)
  finish (err endless, w) k = (err endless, w)
  finish (err (system c), w) k = after (k w) (λ _. throw (system c))
  finish (err (thrown r), w) k = after (k w) (λ _. throw (thrown r))

  -- `try { m } finally { k }`
  abbrev pub finally : {A : Type 0} → Action D A → Action D (Unit {0}) → Action D A
  finally m k w = finish (m w) k

  -- `for (const x of xs) await f(x);`
  abbrev pub for_each : {A : Type 0} → (A → Action D (Unit {0})) → List A → Action D (Unit {0})
  for_each f [] w = (ok tt, w)
  for_each f (x ∷ xs) w = after (f x w) (λ _. for_each f xs)

  abbrev pub when : Bool → Action D (Unit {0}) → Action D (Unit {0})
  when true m w = m w
  when false m w = (ok tt, w)

  abbrev pub modify : (Adapter → Adapter) → Action D (Unit {0})
  modify f w = (ok tt, record w { adapter = f w.adapter })

  -- `this.emit('flushed', paths)`
  abbrev pub emit : List Text → Action D (Unit {0})
  emit paths w = (ok tt, record w { flushed = w.flushed ++ (paths ∷ []) })

-- What `lstat` tells, and an entry of `readdir`.
pub data FileKind : Type 0 where
  regular folder link special : FileKind

pub record DirectoryEntry : Type 0 where
  pub name : Text
  pub kind : FileKind

pub record ProjectFile : Type 0 where
  pub relative_path : Text
  pub absolute_path : Text
  pub hash : Text

-- Code that is not the adapter's: Node's, the editor's, and the project scan.
pub record Host (D : Type 0) : Type 0 where
  pub normalize : Text → Text
  pub fold : Text → Text
  pub is_linux : Bool
  pub folds_case : Bool
  pub dirname : Text → Text
  pub join : Text → Text → Text
  pub resolve : Text → Text
  pub random_uuid : Action D Text
  pub now : World D → ℕ
  pub mkdir : Text → Action D (Unit {0})
  pub create : Text → Action D (Unit {0})
  pub write_file : Text → Bytes → Action D (Unit {0})
  pub open_file : Text → Action D (Unit {0})
  pub sync_file : Text → Action D (Unit {0})
  pub close_file : Text → Action D (Unit {0})
  pub move_file : Text → Text → Action D (Unit {0})
  pub delete_file : Text → Action D (Unit {0})
  pub rmdir : Text → Action D (Unit {0})
  pub lstat : Text → Action D FileKind
  pub readdir : Text → Action D (List DirectoryEntry)
  pub copy_file : Text → Text → Action D (Unit {0})
  pub hash_file : Text → Action D Text
  pub should_track : Text → Bool
  pub scan_project : Text → Action D (List ProjectFile)
  pub scan_directories : Text → Action D (List Text)
  pub sha256 : Bytes → Text
  pub sort : List Text → List Text
  pub serialize : Text → Action D Bytes
  pub write_working_copy : Option (Text → Bytes → Action D Bool)
  pub on_working_copy_write : Text → Bytes → Action D (Unit {0})
  -- the operations that wait in the queue before this one
  pub turn : Action D (Unit {0})

-- `canonicalRelativePath`
unfoldable pub canonical_relative_path : {D : Type 0} → Host D → Text → Result Failure Text
canonical_relative_path host path = elim (safe_relative_path host.normalize path) [
  | none ↦ err (thrown invalid_path)
  | some p ↦ ok p
]
