-- ===== src/Storage/Operations.antt =====
-- The operations of `StorageAdapter` on documents, binaries and names (src/core/persistence.ts).
-- The first part of each runs at once; what it hands to `enqueue` runs after `host.turn`.
use jupyter_pair_ext.Base.{
  ℕ, Bool, true, false, not, ◌&&◌, ◌||◌, Option, none, some, List, [], ◌∷◌, ◌++◌, if◌then◌else◌,
  nat_eq, string_eq, Result, ok, err,
}
use jupyter_pair_ext.Base.Codes.{Text, text_eqb, text_eq, starts_with}
use jupyter_pair_ext.Storage.{
  nested_rename, Failure, thrown, Bytes, Adapter, World, Action, ◌>>=◌, ◌>>◌, pure, throw, lift,
  catch, finally, when, modify, emit, Host, canonical_relative_path,
}
use jupyter_pair_ext.Storage.State.{
  resolve_current_path, is_removed, clear_removed, requeue, mark_removed, redirect, end_redirect,
}
use jupyter_pair_ext.Storage.Target.{
  safe_project_target, atomic_write, atomic_copy, remove_shared_project_path, rename_or_pending,
}

-- What the loop of `flush` leaves: the paths it has written, those it has not, and its outcome.
pub record Progress : Type 0 where
  pub flushed : List Text
  pub outstanding : List Text
  pub outcome : Result Failure (Unit {0})

-- `relativePathsNested`
unfoldable pub relative_paths_nested : (Text → Text) → Text → Text → Bool
relative_paths_nested fold left right =
    let first = fold left in
    let second = fold right in
    not (text_eqb first second)
    && (starts_with first (second ++ (47 ∷ [])) || starts_with second (first ++ (47 ∷ [])))

module _ {D : Type 0} (host : Host D) (fuel debounce : ℕ) (working_root : Text) where
  -- `this.resolveCurrentPath(path)` and `this.isRemoved(path)` at the time they are called
  unfoldable pub current : Text → Action D Text
  current path w = (resolve_current_path fuel w.adapter path, w)

  unfoldable pub removed_now : Text → Action D Bool
  removed_now path w = (ok (is_removed w.adapter path), w)

  -- `if (this.backingRoot) ...`
  unfoldable pub with_backing : (Text → Action D (Unit {0})) → Action D (Unit {0})
  with_backing f w = elim w.adapter.backing_root [ none ↦ (ok tt, w) | some root ↦ f root w ]

  unfoldable pub if_active : Action D (Unit {0}) → Action D (Unit {0})
  if_active m w = if w.adapter.active then m w else (ok tt, w)

  -- `this.lastFlushAt = Date.now(); this.emit('flushed', paths);`
  unfoldable pub report_flushed : List Text → Action D (Unit {0})
  report_flushed paths w =
      emit paths (record w { adapter = record w.adapter { last_flush_at = host.now w } })

  -- the first `try` of `flushOne`: the bytes, and the path that was serialized
  unfoldable pub serialize_current : Text → Text → Action D (Bytes × Text)
  serialize_current original path =
      catch (host.serialize path >>= λ bytes. pure (bytes, path)) (λ e.
        current original >>= λ redirected. removed_now redirected >>= λ removed.
        if text_eqb redirected path || removed
        then throw e
        else host.serialize redirected >>= λ bytes. pure (bytes, redirected))

  -- the writes of `flushOne`: the backing copy first
  unfoldable pub write_copies : Text → Bytes → Action D (Unit {0})
  write_copies path bytes =
      with_backing (λ root. atomic_write host root path bytes)
      >> (elim host.write_working_copy [ none ↦ pure false | some write ↦ write path bytes ]
          >>= λ handled_by_editor.
              when (not handled_by_editor) (
                host.on_working_copy_write path bytes >> atomic_write host working_root path bytes))

  -- the end of `flushOne`, from the last look at whether the path is removed
  unfoldable pub write_unless_removed : Bytes → Text → Action D (Option Text)
  write_unless_removed bytes path = removed_now path >>= λ removed.
      if removed then pure none else write_copies path bytes >> pure (some path)

  unfoldable pub write_final : Text → Bytes × Text → Action D (Option Text)
  write_final original (bytes, serialized) = current original >>= write_unless_removed bytes

  -- from the first look on
  unfoldable pub flush_current : Text → Text → Action D (Option Text)
  flush_current original path = removed_now path >>= λ removed.
      if removed then pure none else serialize_current original path >>= write_final original

  -- `flushOne`, with the path that it adds to `flushed`
  unfoldable pub flush_one : Text → Action D (Option Text)
  flush_one original = current original >>= flush_current original

  -- what the loop of `flush` does after `flushOne` for the first of the paths
  unfoldable pub after_one :
      List Text
      → (List Text → World D → Progress × World D)
      → List Text
      → Result Failure (Option Text) × World D
      → Progress × World D
  after_one paths rest flushed (ok none, w) = rest flushed w
  after_one paths rest flushed (ok (some written), w) = rest (flushed ++ (written ∷ [])) w
  after_one paths rest flushed (err e, w) =
      (record { flushed = flushed; outstanding = paths; outcome = err e }, w)

  unfoldable pub flush_each : List Text → List Text → World D → Progress × World D
  flush_each [] flushed w = (record { flushed = flushed; outstanding = []; outcome = ok tt }, w)
  flush_each (path ∷ paths) flushed w =
      after_one (path ∷ paths) (flush_each paths) flushed (flush_one path w)

  -- the adapter as a call has left it, or its failure
  abbrev pub with_adapter : Result Failure Adapter → Action D (Unit {0})
  with_adapter (ok a) w = (ok tt, record w { adapter = a })
  with_adapter (err e) w = (err e, w)

  -- the `catch` of `flush`
  unfoldable pub requeue_outstanding : List Text → Action D (Unit {0})
  requeue_outstanding paths w = with_adapter (requeue fuel debounce paths w.adapter) w

  unfoldable pub report_if_any : List Text → Action D (Unit {0})
  report_if_any [] = pure tt
  report_if_any (path ∷ paths) = report_flushed (path ∷ paths)

  -- the `catch` and the `finally` around the loop
  unfoldable pub settle : Progress → Action D (Unit {0})
  settle progress =
      finally
        (catch (lift progress.outcome) (λ e. requeue_outstanding progress.outstanding >> throw e))
        (report_if_any progress.flushed)

  unfoldable pub flush_paths : List Text → Action D (Unit {0})
  flush_paths paths w = let (progress, next) = flush_each paths [] w in settle progress next

  unfoldable pub flush : Action D (Unit {0})
  flush w =
      (modify (λ (a : Adapter). record a { timer = none; pending = [] })
          >> host.turn
          >> flush_paths w.adapter.pending)
        w

  -- the part that `mirrorBinary`, `mirrorBinaryToBacking`, `mirrorBinaryFile` and
  -- `createDirectory` share: `body` runs with the path as it is then, `gone` where it is removed
  unfoldable pub at_current :
      Text → (Text → Action D (Unit {0})) → Action D (Unit {0}) → Action D (Unit {0})
  at_current path body gone = if_active (
      lift (canonical_relative_path host path) >>= λ safe_path.
      lift (canonical_relative_path host safe_path) >>= λ canonical.
      modify (clear_removed canonical)
      >> host.turn
      >> (current canonical >>= λ target.
          removed_now target >>= λ removed. if removed then gone else body target))

  unfoldable pub mirror_binary : Text → Bytes → Action D (Unit {0})
  mirror_binary path bytes =
      at_current path
        (λ target.
          with_backing (λ root. atomic_write host root target bytes)
          >> host.on_working_copy_write target bytes
          >> atomic_write host working_root target bytes
          >> report_flushed (target ∷ []))
        (pure tt)

  unfoldable pub mirror_binary_to_backing : Text → Option Text → Action D (Unit {0})
  mirror_binary_to_backing path expected = if_active (
      lift (canonical_relative_path host path) >>= λ safe_path.
      lift (canonical_relative_path host safe_path) >>= λ canonical.
      modify (clear_removed canonical)
      >> host.turn
      >> with_backing (λ root. current canonical >>= λ target. removed_now target >>= λ removed.
          when (not removed) (
            (safe_project_target host working_root target true >>= λ source.
            atomic_copy host source root target expected)
            >> report_flushed (target ∷ []))))

  unfoldable pub mirror_binary_file : Text → Text → Option Text → Action D (Unit {0})
  mirror_binary_file path source expected =
      at_current path
        (λ target.
          finally
            (with_backing (λ root. atomic_copy host source root target expected)
              >> (safe_project_target host working_root target false >>= λ checked.
                  atomic_copy host source working_root target expected))
            (host.delete_file source)
          >> report_flushed (target ∷ []))
        (host.delete_file source)

  unfoldable pub create_directory : Text → Action D (Unit {0})
  create_directory path =
      at_current path
        (λ target.
          (safe_project_target host working_root target true >>= host.mkdir)
          >> with_backing (λ root. safe_project_target host root target true >>= host.mkdir)
          >> report_flushed (target ∷ []))
        (pure tt)

  -- `Promise.all` of two removals: both run, and it fails with the failure of the first that does
  unfoldable pub both : Action D (Unit {0}) → Action D (Unit {0}) → Action D (Unit {0})
  both m k w =
      let (first, w₁) = m w in
      let (second, w₂) = k w₁ in elim first [ ok x ↦ (second, w₂) | err e ↦ (err e, w₂) ]

  unfoldable pub remove : Text → Action D (Unit {0})
  remove path = if_active (
      lift (canonical_relative_path host path) >>= λ safe_path.
      modify (mark_removed safe_path)
      >> host.turn
      >> both (remove_shared_project_path host fuel working_root safe_path)
          (with_backing (λ root. remove_shared_project_path host fuel root safe_path))
      >> report_flushed (safe_path ∷ []))

  unfoldable pub rename_below : Text → Text → Text → Bool → Action D (Unit {0})
  rename_below root from to remapped = safe_project_target host root from true >>= λ source.
      safe_project_target host root to true >>= λ target.
      host.mkdir (host.dirname target) >> rename_or_pending host source target remapped

  unfoldable pub rename_copies : Text → Text → Bool → Bool → Action D (Unit {0})
  rename_copies from to already remapped =
      host.turn
      >> when (not already) (rename_below working_root from to remapped)
      >> with_backing (λ root. rename_below root from to remapped)
      >> report_flushed (from ∷ to ∷ [])

  -- `this.redirects.set(...)` up to the loop over the pending paths
  unfoldable pub redirect_now : Text → Text → Action D Bool
  redirect_now from to w =
      let (remapped, a) = redirect from to w.adapter in (ok remapped, record w { adapter = a })

  unfoldable pub rename : Text → Text → Bool → Action D (Unit {0})
  rename from to already = if_active (
      lift (canonical_relative_path host from) >>= λ safe_from.
      lift (canonical_relative_path host to) >>= λ safe_to.
      when (relative_paths_nested host.fold safe_from safe_to) (throw (thrown nested_rename))
      >> (redirect_now safe_from safe_to >>= λ remapped.
          finally (rename_copies safe_from safe_to already remapped)
            (modify (end_redirect safe_from safe_to))))

  -- the end of `stop`, with the failure of the last flush
  unfoldable pub shut_down : Result Failure (Unit {0}) → Action D (Unit {0})
  shut_down failure =
      modify (λ (a : Adapter). record a { active = false; timer = none; pending = [] })
      >> host.turn
      >> lift failure

  unfoldable pub stop : Bool → Action D (Unit {0})
  stop last_flush =
      (if last_flush then catch (flush >> pure (ok tt)) (λ e. pure (err e)) else pure (ok tt))
      >>= shut_down
