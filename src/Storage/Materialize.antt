-- ===== src/Storage/Materialize.antt =====
-- Complete copies of a project: `materializeProjectTree`, `materializeFolder` and
-- `materializeBacking` (src/core/persistence.ts).
use jupyter_pair_ext.Base.{Bool, true, not, ◌||◌, some, List, [], nat_eq, string_eq, any, Map, has}
use jupyter_pair_ext.Base.Codes.{Text, text_eqb, text_eq, starts_with}
use jupyter_pair_ext.Storage.{Action, ◌>>=◌, ◌>>◌, pure, lift, for_each, when, ProjectFile, Host}
use jupyter_pair_ext.Storage.Target.{
  safe_project_target, atomic_write, atomic_copy, remove_empty_directory,
}
use jupyter_pair_ext.Storage.Operations.{report_flushed, with_backing}
use jupyter_pair_ext.Storage.Manifest.{
  Document, Binary, Tree, file_paths, filesystem_relative_key, validated_tree, values,
  directory_map, with_slash,
}

module _ {D : Type 0} (host : Host D) where
  unfoldable pub make_directory : Text → Text → Action D (Unit {0})
  make_directory root directory = safe_project_target host root directory true >>= host.mkdir

  -- the entries that `materializeProjectTree` writes
  unfoldable pub write_entries : Text → Tree → Action D (Unit {0})
  write_entries root t =
      host.mkdir root
      >> for_each (make_directory root) (host.sort t.directories)
      >> for_each (λ (d : Document). atomic_write host root d.path d.bytes) t.documents
      >> for_each (λ (b : Binary). atomic_copy host b.source root b.path (some b.hash)) t.binaries

  -- the keys and spellings of the files of the tree
  unfoldable pub desired_files : Tree → Map Text Text
  desired_files t = directory_map host (file_paths t) []

  unfoldable pub remove_unwanted_file : Tree → ProjectFile → Action D (Unit {0})
  remove_unwanted_file t file =
      when (not (has (filesystem_relative_key host file.relative_path) (desired_files t)))
        (host.delete_file file.absolute_path)

  -- a directory of the tree, or one that holds a file of the tree
  unfoldable pub is_wanted_directory : Tree → Text → Bool
  is_wanted_directory t directory =
      let key = filesystem_relative_key host directory in
      any (λ d. text_eqb (filesystem_relative_key host d) key) t.directories
      || any (λ (file, path). starts_with file (with_slash key)) (desired_files t)

  unfoldable pub remove_unwanted_directory : Text → Tree → Text → Action D (Unit {0})
  remove_unwanted_directory root t directory =
      when (not (is_wanted_directory t directory))
        (safe_project_target host root directory true >>= remove_empty_directory host)

  module _ (longest_first : List Text → List Text) where
    unfoldable pub materialize_project_tree : Text → Tree → Action D (List Text)
    materialize_project_tree root tree = lift (validated_tree host tree) >>= λ t.
        write_entries root t
        >> (host.scan_project root >>= λ files. for_each (remove_unwanted_file t) files)
        >> (host.scan_directories root >>= λ directories.
            for_each (remove_unwanted_directory root t) (longest_first directories))
        >> pure (values (desired_files t))

    -- `materializeFolder`
    unfoldable pub materialize_folder : Text → Tree → Action D (Unit {0})
    materialize_folder root tree =
        host.turn >> (materialize_project_tree root tree >>= λ desired. pure tt)

    -- `materializeBacking`: the root is read before the turn
    unfoldable pub materialize_backing : Tree → Action D (Unit {0})
    materialize_backing tree =
        with_backing host 0 0 []
          (λ root. host.turn >> (materialize_project_tree root tree >>= report_flushed host 0 0 []))
