-- ===== src/Storage/AtomicFile.antt =====
-- Files that are published by a rename: src/core/atomicFile.ts.
use jupyter_pair_ext.Base.{Bool, true, false, not, ◌||◌, ◌++◌, if◌then◌else◌, nat_eq, string_eq}
use jupyter_pair_ext.Base.Codes.{Text, text_eq}
use jupyter_pair_ext.Base.Js.{codes}
use jupyter_pair_ext.Storage.{
  enoent, eexist, eperm, eacces, ebadf, eisdir, einval, enosys, enotsup, replaces_directory,
  Failure, system, thrown, Bytes, Action, ◌>>=◌, ◌>>◌, pure, throw, catch, finally, when, FileKind,
  regular, folder, link, special, Host,
}

-- the codes after which `publishTemporaryFile` falls back to a backup
unfoldable pub is_replaceable : Failure → Bool
is_replaceable (system eexist) = true
is_replaceable (system eperm) = true
is_replaceable (system eacces) = true
is_replaceable e = false

abbrev pub is_missing : Failure → Bool
is_missing (system enoent) = true
is_missing e = false

-- the codes that `syncParentDirectory` ignores where it may
unfoldable pub is_sync_unsupported : Failure → Bool
is_sync_unsupported (system eacces) = true
is_sync_unsupported (system ebadf) = true
is_sync_unsupported (system eisdir) = true
is_sync_unsupported (system einval) = true
is_sync_unsupported (system enosys) = true
is_sync_unsupported (system enotsup) = true
is_sync_unsupported (system eperm) = true
is_sync_unsupported e = false

module _ {D : Type 0} (host : Host D) where
  unfoldable pub temporary_sibling : Text → Action D Text
  temporary_sibling target =
      host.random_uuid >>= λ uuid. pure (target ++ codes ".pair-notebook-" ++ uuid ++ codes ".tmp")

  unfoldable pub backup_sibling : Text → Action D Text
  backup_sibling target = host.random_uuid >>= λ uuid.
      pure (target ++ codes ".pair-notebook-" ++ uuid ++ codes "-backup.tmp")

  -- `p.catch(() => undefined)`
  unfoldable pub ignore : Action D (Unit {0}) → Action D (Unit {0})
  ignore m = catch m (λ e. pure tt)

  unfoldable pub sync_parent_directory : Text → Action D (Unit {0})
  sync_parent_directory target =
      let directory = host.dirname target in
      catch
        (host.open_file directory
          >> finally (host.sync_file directory) (ignore (host.close_file directory)))
        (λ e. if host.is_linux || not (is_sync_unsupported e) then throw e else pure tt)

  unfoldable pub sync_file_contents : Text → Action D (Unit {0})
  sync_file_contents target =
      host.open_file target >> finally (host.sync_file target) (host.close_file target)

  -- the first `try` of `publishTemporaryFile`: whether the rename replaced the target
  unfoldable pub try_replace : Text → Text → Action D Bool
  try_replace temporary target =
      catch (host.move_file temporary target >> pure true)
        (λ e. if is_replaceable e then pure false else throw e)

  -- the second: a directory is never replaced
  abbrev pub refuse_directory : FileKind → Action D (Unit {0})
  refuse_directory folder = throw (thrown replaces_directory)
  refuse_directory regular = pure tt
  refuse_directory link = pure tt
  refuse_directory special = pure tt

  unfoldable pub check_replaced : Text → Action D (Unit {0})
  check_replaced target =
      catch (host.lstat target >>= refuse_directory)
        (λ e. if is_missing e then pure tt else throw e)

  -- the third: whether there was a target to keep aside
  unfoldable pub set_aside : Text → Text → Action D Bool
  set_aside target backup =
      catch (host.move_file target backup >> pure true)
        (λ e. if is_missing e then pure false else throw e)

  -- the fourth, and what follows it
  unfoldable pub move_into_place : Text → Text → Text → Bool → Action D (Unit {0})
  move_into_place temporary target backup has_backup =
      catch (host.move_file temporary target)
        (λ e. when has_backup (ignore (host.move_file backup target)) >> throw e)
      >> when has_backup (host.delete_file backup)
      >> sync_parent_directory target

  unfoldable pub replace_with_backup : Text → Text → Action D (Unit {0})
  replace_with_backup temporary target =
      check_replaced target
      >> (backup_sibling target >>= λ backup. set_aside target backup >>= λ has_backup.
          move_into_place temporary target backup has_backup)

  unfoldable pub publish_temporary_file : Text → Text → Action D (Unit {0})
  publish_temporary_file temporary target = try_replace temporary target >>= λ replaced.
      if replaced then sync_parent_directory target else replace_with_backup temporary target

  -- the temporary file, written and synced
  unfoldable pub write_temporary : Text → Bytes → Action D (Unit {0})
  write_temporary temporary bytes =
      host.create temporary
      >> finally (host.write_file temporary bytes >> host.sync_file temporary)
          (host.close_file temporary)

  unfoldable pub atomic_write_file : Text → Bytes → Action D (Unit {0})
  atomic_write_file target bytes =
      host.mkdir (host.dirname target)
      >> (temporary_sibling target >>= λ temporary.
          catch (write_temporary temporary bytes >> publish_temporary_file temporary target)
            (λ e. ignore (host.delete_file temporary) >> throw e))
