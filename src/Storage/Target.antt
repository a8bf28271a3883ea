-- ===== src/Storage/Target.antt =====
-- Where the adapter reads and writes below a root: `safeProjectTarget`, `atomicWrite`,
-- `atomicCopy`, `removeSharedProjectPath` and `renameOrPending` (src/core/persistence.ts).
use jupyter_pair_ext.Base.{
  ℕ, zero, suc, ◌+◌, ◌-◌, Bool, true, false, not, ◌&&◌, ◌||◌, Option, none, some, List, [], ◌∷◌,
  map, leb, nat_eqb, if◌then◌else◌, nat_eq, string_eq, length, take, all,
}
use jupyter_pair_ext.Base.Codes.{Text, text_eqb, text_eq, split}
use jupyter_pair_ext.Base.Js.{is_digit}
use jupyter_pair_ext.Storage.{
  enoent, eexist, enotempty, symbolic_link, not_regular, invalid_digest, changed, Failure, system,
  thrown, endless, Bytes, Action, ◌>>=◌, ◌>>◌, pure, throw, lift, catch, for_each, when, FileKind,
  regular, folder, link, special, DirectoryEntry, Host, canonical_relative_path,
}
use jupyter_pair_ext.Storage.AtomicFile.{
  is_missing, temporary_sibling, ignore, sync_file_contents, publish_temporary_file,
  atomic_write_file,
}

-- `/^[a-f0-9]{64}$/i`
unfoldable pub is_digest : Text → Bool
is_digest hash =
    nat_eqb (length hash) 64
    && all (λ c. is_digit c || (leb 97 c && leb c 102) || (leb 65 c && leb c 70)) hash

-- `toLowerCase()` of a digest
unfoldable pub lower_digest : Text → Text
lower_digest hash = map (λ c. if leb 65 c && leb c 90 then c + 32 else c) hash

module _ {D : Type 0} (host : Host D) where
  -- a symbolic link is refused; whether the segment exists
  abbrev pub refuse_link : FileKind → Action D Bool
  refuse_link link = throw (thrown symbolic_link)
  refuse_link regular = pure true
  refuse_link folder = pure true
  refuse_link special = pure true

  -- the loop of `safeProjectTarget`: it ends at the first segment that does not exist
  unfoldable pub check_segments : Text → List Text → Action D (Unit {0})
  check_segments current [] = pure tt
  check_segments current (segment ∷ segments) =
      let next = host.join current segment in
      let rest = check_segments next segments in
      catch (host.lstat next >>= refuse_link) (λ e. if is_missing e then pure false else throw e)
      >>= λ exists. when exists rest

  unfoldable pub safe_project_target : Text → Text → Bool → Action D Text
  safe_project_target root relative_path include_target =
      lift (canonical_relative_path host relative_path) >>= λ safe_path.
      let segments = split 47 safe_path in
      let checked = if include_target then length segments else length segments - 1 in
      check_segments (host.resolve root) (take checked segments)
      >> pure (host.join (host.resolve root) safe_path)

  unfoldable pub atomic_write : Text → Text → Bytes → Action D (Unit {0})
  atomic_write root relative_path bytes =
      safe_project_target root relative_path false >>= λ target. atomic_write_file host target bytes

  -- the test of the copy before it is published
  unfoldable pub check_copy : Text → Option Text → Action D (Unit {0})
  check_copy temporary none = pure tt
  check_copy temporary (some expected) = host.hash_file temporary >>= λ hash.
      if text_eqb hash (lower_digest expected) then pure tt else throw (thrown changed)

  unfoldable pub copy_into_place : Text → Text → Option Text → Action D (Unit {0})
  copy_into_place source target expected =
      host.mkdir (host.dirname target)
      >> (temporary_sibling host target >>= λ temporary.
          catch
            (host.copy_file source temporary
              >> sync_file_contents host temporary
              >> check_copy temporary expected
              >> publish_temporary_file host temporary target)
            (λ e. ignore host (host.delete_file temporary) >> throw e))

  unfoldable pub atomic_copy : Text → Text → Text → Option Text → Action D (Unit {0})
  atomic_copy source root relative_path expected =
      when (elim expected [ none ↦ false | some hash ↦ not (is_digest hash) ])
        (throw (thrown invalid_digest))
      >> (host.lstat source >>= λ kind. elim kind [
        | regular ↦ safe_project_target root relative_path false >>= λ target.
            copy_into_place source target expected
        | folder ↦ throw (thrown not_regular)
        | link ↦ throw (thrown not_regular)
        | special ↦ throw (thrown not_regular)
      ])

  -- a failure that leaves a directory where it is
  unfoldable pub is_kept_directory : Failure → Bool
  is_kept_directory (system enoent) = true
  is_kept_directory (system enotempty) = true
  is_kept_directory (system eexist) = true
  is_kept_directory e = false

  unfoldable pub remove_empty_directory : Text → Action D (Unit {0})
  remove_empty_directory target =
      catch (host.rmdir target) (λ e. if is_kept_directory e then pure tt else throw e)

  -- `!shouldTrackProjectPath(child) || (!entry.isFile() && !entry.isDirectory())`
  unfoldable pub is_host_only : Text → FileKind → Bool
  is_host_only child kind =
      not (host.should_track child)
      || elim kind [ regular ↦ false | folder ↦ false | link ↦ true | special ↦ true ]

  -- `lstat`, `none` where there is nothing
  unfoldable pub stat_if_present : Text → Action D (Option FileKind)
  stat_if_present target =
      catch (host.lstat target >>= λ kind. pure (some kind))
        (λ e. if is_missing e then pure none else throw e)

  -- the fuel bounds the depth of the directories
  unfoldable pub remove_shared_project_path : ℕ → Text → Text → Action D (Unit {0})
  remove_shared_project_path zero root relative_path = throw endless
  remove_shared_project_path (suc n) root relative_path =
      let below = λ (entry : DirectoryEntry).
        let child = host.join relative_path entry.name in
        when (not (is_host_only child entry.kind)) (remove_shared_project_path n root child) in
      safe_project_target root relative_path true >>= λ target. stat_if_present target >>= λ info.
      elim info [
        | none ↦ pure tt
        | some folder ↦
            (host.readdir target >>= λ entries. for_each below entries)
            >> remove_empty_directory target
        | some regular ↦ host.delete_file target
        | some link ↦ host.delete_file target
        | some special ↦ host.delete_file target
      ]

  unfoldable pub rename_or_pending : Text → Text → Bool → Action D (Unit {0})
  rename_or_pending source target pending_write_will_create_target =
      catch (host.move_file source target)
        (λ e. if is_missing e && pending_write_will_create_target then pure tt else throw e)
