-- ===== src/Storage/WriteEnds.antt =====
-- The adapter's writes end where the host's actions do: `atomicWriteFile`, `safeProjectTarget` and
-- `atomicWrite` (src/core/atomicFile.ts, src/core/persistence.ts).
use jupyter_pair_ext.Base.{
  ◌≡◌, refl, inl, inr, Bool, true, false, List, [], ◌∷◌, Option-cases, nat_eq, string_eq, Map,
}
use jupyter_pair_ext.Base.Codes.{Text, text_eq}
use jupyter_pair_ext.Storage.{
  symbolic_link, replaces_directory, thrown, Bytes, Action, pure, FileKind, regular, folder, link,
  special, Host, canonical_relative_path,
}
use jupyter_pair_ext.Storage.AtomicFile.{
  is_replaceable, is_missing, temporary_sibling, backup_sibling, ignore, sync_parent_directory,
  try_replace, refuse_directory, check_replaced, set_aside, move_into_place, replace_with_backup,
  publish_temporary_file, write_temporary, atomic_write_file,
}
use jupyter_pair_ext.Storage.Target.{refuse_link, check_segments, safe_project_target, atomic_write}
use jupyter_pair_ext.ProjectPath.{safe_relative_path}
use jupyter_pair_ext.Storage.Live.{
  Live, Live-pure, Live-throw, Live-lift, Live-bind, Live-then, Live-catch, Live-finally, Live-when,
  Live-if, Live-unless, LiveHost, has_ended,
}

module _ {D : Type 0} {rs : Map Text Text} (host : Host D) (live : LiveHost rs host) where
  ignore-Live : (m : Action D (Unit {0})) → Live rs m → Live rs (ignore host m)
  unfolding ignore
  ignore-Live m h = Live-catch m (λ e. pure tt) h (λ e c. Live-pure tt)

  sync_parent_directory-Live : (target : Text) → Live rs (sync_parent_directory host target)
  unfolding sync_parent_directory
  sync_parent_directory-Live target =
      let directory = host.dirname target in
      let closing = ignore-Live (host.close_file directory) (live.close_file directory) in
      Live-catch _ _
        (Live-then _ _ (live.open_file directory)
          (Live-finally _ _ (live.sync_file directory) closing))
        (λ e c. Live-if _ _ _ (Live-throw e c) (Live-pure tt))

  try_replace-Live : (temporary target : Text) → Live rs (try_replace host temporary target)
  unfolding try_replace
  try_replace-Live temporary target =
      Live-catch _ _ (Live-then _ _ (live.move_file temporary target) (Live-pure true))
        (λ e c. Live-unless (is_replaceable e) false e c)

  refuse_directory-Live : (kind : FileKind) → Live {D = D} rs (refuse_directory host kind)
  refuse_directory-Live folder = Live-throw (thrown replaces_directory) refl
  refuse_directory-Live regular = Live-pure tt
  refuse_directory-Live link = Live-pure tt
  refuse_directory-Live special = Live-pure tt

  check_replaced-Live : (target : Text) → Live rs (check_replaced host target)
  unfolding check_replaced
  check_replaced-Live target =
      Live-catch _ _ (Live-bind _ _ (live.lstat target) refuse_directory-Live)
        (λ e c. Live-unless (is_missing e) tt e c)

  set_aside-Live : (target backup : Text) → Live rs (set_aside host target backup)
  unfolding set_aside
  set_aside-Live target backup =
      Live-catch _ _ (Live-then _ _ (live.move_file target backup) (Live-pure true))
        (λ e c. Live-unless (is_missing e) false e c)

  move_into_place-Live :
      (temporary target backup : Text) (has_backup : Bool)
      → Live rs (move_into_place host temporary target backup has_backup)
  unfolding move_into_place
  move_into_place-Live temporary target backup has_backup =
      let undo = ignore-Live (host.move_file backup target) (live.move_file backup target) in
      Live-then _ _
        (Live-then _ _
          (Live-catch _ _ (live.move_file temporary target)
            (λ e c. Live-then _ _ (Live-when has_backup _ undo) (Live-throw e c)))
          (Live-when has_backup _ (live.delete_file backup)))
        (sync_parent_directory-Live target)

  replace_with_backup-Live :
      (temporary target : Text) → Live rs (replace_with_backup host temporary target)
  unfolding replace_with_backup backup_sibling
  replace_with_backup-Live temporary target = Live-then _ _ (check_replaced-Live target) (
      Live-bind _ _ (Live-bind _ _ live.random_uuid (λ uuid. Live-pure _)) (λ backup.
        Live-bind _ _ (set_aside-Live target backup)
          (move_into_place-Live temporary target backup)))

  publish_temporary_file-Live :
      (temporary target : Text) → Live rs (publish_temporary_file host temporary target)
  unfolding publish_temporary_file
  publish_temporary_file-Live temporary target =
      Live-bind _ _ (try_replace-Live temporary target) (λ replaced.
        Live-if replaced _ _ (sync_parent_directory-Live target)
          (replace_with_backup-Live temporary target))

  write_temporary-Live :
      (temporary : Text) (bytes : Bytes) → Live rs (write_temporary host temporary bytes)
  unfolding write_temporary
  write_temporary-Live temporary bytes = Live-then _ _ (live.create temporary) (
      Live-finally _ _ (Live-then _ _ (live.write_file temporary bytes) (live.sync_file temporary))
        (live.close_file temporary))

  pub atomic_write_file-Live :
      (target : Text) (bytes : Bytes) → Live rs (atomic_write_file host target bytes)
  unfolding atomic_write_file temporary_sibling
  atomic_write_file-Live target bytes = Live-then _ _ (live.mkdir (host.dirname target)) (
      Live-bind _ _ (Live-bind _ _ live.random_uuid (λ uuid. Live-pure _)) (λ temporary.
        Live-catch _ _
          (Live-then _ _ (write_temporary-Live temporary bytes)
            (publish_temporary_file-Live temporary target))
          (λ e c. Live-then _ _ (ignore-Live _ (live.delete_file temporary)) (Live-throw e c))))

  canonical-ended : (path : Text) → has_ended (canonical_relative_path host path) ≡ true
  unfolding canonical_relative_path
  canonical-ended path = elim (Option-cases (safe_relative_path host.normalize path)) [
    | inl e ↦ simp (e, canonical_relative_path) refl
    | inr (p, e) ↦ simp (e, canonical_relative_path) refl
  ]

  refuse_link-Live : (kind : FileKind) → Live {D = D} rs (refuse_link host kind)
  refuse_link-Live link = Live-throw (thrown symbolic_link) refl
  refuse_link-Live regular = Live-pure true
  refuse_link-Live folder = Live-pure true
  refuse_link-Live special = Live-pure true

  check_segments-Live :
      (current : Text) (segments : List Text) → Live rs (check_segments host current segments)
  unfolding check_segments
  check_segments-Live current [] = Live-pure tt
  check_segments-Live current (segment ∷ segments) =
      let next = host.join current segment in
      Live-bind _ _
        (Live-catch _ _ (Live-bind _ _ (live.lstat next) refuse_link-Live)
          (λ e c. Live-unless (is_missing e) false e c))
        (λ exists. Live-when exists _ (check_segments-Live next segments))

  safe_project_target-Live :
      (root path : Text) (include_target : Bool)
      → Live rs (safe_project_target host root path include_target)
  unfolding safe_project_target
  safe_project_target-Live root path include_target =
      Live-bind _ _ (Live-lift _ (canonical-ended path))
        (λ safe_path. Live-then _ _ (check_segments-Live (host.resolve root) _) (Live-pure _))

  pub atomic_write-Live :
      (root path : Text) (bytes : Bytes) → Live rs (atomic_write host root path bytes)
  unfolding atomic_write
  atomic_write-Live root path bytes =
      Live-bind _ _ (safe_project_target-Live root path false)
        (λ target. atomic_write_file-Live target bytes)
