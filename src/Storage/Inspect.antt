-- ===== src/Storage/Inspect.antt =====
-- The comparison of a folder with the copy that it should hold: `inspectMaterializedProjectTree`
-- and `bindExistingBacking` (src/core/persistence.ts).
use jupyter_pair_ext.Base.{
  Option, Bool, true, false, not, ◌&&◌, ◌||◌, none, some, List, [], ◌∷◌, ◌++◌, map, nat_eqb,
  if◌then◌else◌, nat_eq, string_eq, length, all, any, filter, Map, get, put, has,
}
use jupyter_pair_ext.Base.Codes.{Text, text_eqb, text_eq}
use jupyter_pair_ext.Storage.{
  not_a_directory, thrown, Adapter, Action, ◌>>=◌, ◌>>◌, pure, throw, lift, catch, when, modify,
  regular, folder, link, special, DirectoryEntry, ProjectFile, Host,
}
use jupyter_pair_ext.Storage.AtomicFile.{is_missing}
use jupyter_pair_ext.Storage.Target.{safe_project_target, is_host_only}
use jupyter_pair_ext.Storage.Manifest.{
  Document, Binary, Tree, filesystem_relative_key, validated_tree, directory_map, with_slash,
}

pub record Inspection : Type 0 where
  pub empty : Bool
  pub is_match : Bool
  pub missing : List Text
  pub different : List Text
  pub extra : List Text

unfoldable pub is_empty {ℓ} : {A : Type ℓ} → List A → Bool
is_empty [] = true
is_empty (x ∷ xs) = false

module _ {D : Type 0} (host : Host D) where
  -- what a path should hold: its own spelling and its hash
  unfoldable pub expect_documents : List Document → Map Text (Text × Text) → Map Text (Text × Text)
  expect_documents [] m = m
  expect_documents (d ∷ ds) m =
      expect_documents ds
        (put (filesystem_relative_key host d.path) (d.path, host.sha256 d.bytes) m)

  unfoldable pub expect_binaries : List Binary → Map Text (Text × Text) → Map Text (Text × Text)
  expect_binaries [] m = m
  expect_binaries (b ∷ bs) m =
      expect_binaries bs (put (filesystem_relative_key host b.path) (b.path, b.hash) m)

  unfoldable pub expected_files : Tree → Map Text (Text × Text)
  expected_files t = expect_binaries t.binaries (expect_documents t.documents [])

  -- what the loop does with a file that exists, given what is expected at its key
  unfoldable pub compare_file :
      Option (Text × Text)
      → ProjectFile
      → List Text × List Text × List Text
      → List Text × List Text × List Text
  compare_file none file (extra, different, seen) = (file.relative_path ∷ extra, different, seen)
  compare_file (some (path, hash)) file (extra, different, seen) = (
    extra,
    if text_eqb file.hash hash then different else path ∷ different,
    filesystem_relative_key host file.relative_path ∷ seen,
  )

  -- the loop over the files that exist: what is extra, what differs, and the keys it has seen
  unfoldable pub compare_files :
      Map Text (Text × Text) → List ProjectFile → List Text × List Text × List Text
  compare_files expected [] = ([], [], [])
  compare_files expected (file ∷ files) =
      compare_file (get (filesystem_relative_key host file.relative_path) expected) file
        (compare_files expected files)

  unfoldable pub missing_files : Map Text (Text × Text) → List Text → List Text
  missing_files expected seen =
      map (λ (key, entry). entry.0)
        (filter (λ (key, entry). not (any (text_eqb key) seen)) expected)

  unfoldable pub missing_directories : Map Text Text → List Text → List Text
  missing_directories expected existing =
      let seen = map (filesystem_relative_key host) existing in
      map (λ (key, directory). with_slash directory)
        (filter (λ (key, directory). not (any (text_eqb key) seen)) expected)

  unfoldable pub extra_directories : Map Text Text → List Text → List Text → List Text
  extra_directories expected private_keys existing = map with_slash (
      filter
        (λ directory.
          let key = filesystem_relative_key host directory in
          not (has key expected) && not (any (text_eqb key) private_keys))
        existing)

  -- a directory whose entries are all host-only, or such directories themselves
  unfoldable pub is_private_container : List Text → Text → List DirectoryEntry → Bool
  is_private_container private_keys directory entries =
      not (nat_eqb (length entries) 0)
      && all
          (λ (entry : DirectoryEntry).
            let child = host.join directory entry.name in
            is_host_only host child entry.kind
            || (elim entry.kind [ folder ↦ true | regular ↦ false | link ↦ false | special ↦ false ]
                && any (text_eqb (filesystem_relative_key host child)) private_keys))
          entries

  -- the loop over the existing directories, deepest first
  unfoldable pub private_directories : Text → List Text → List Text → Action D (List Text)
  private_directories root [] found = pure found
  private_directories root (directory ∷ rest) found =
      (safe_project_target host root directory true >>= host.readdir) >>= λ entries.
      private_directories root rest (
        if is_private_container found directory entries
        then filesystem_relative_key host directory ∷ found
        else found)

  unfoldable pub check_root : Text → Action D (Unit {0})
  check_root root = host.lstat root >>= λ kind. elim kind [
    | folder ↦ pure tt
    | regular ↦ throw (thrown not_a_directory)
    | link ↦ throw (thrown not_a_directory)
    | special ↦ throw (thrown not_a_directory)
  ]

  unfoldable pub scan : Text → Action D (List ProjectFile × List Text)
  scan root =
      catch
        (check_root root
          >> (host.scan_project root >>= λ files.
              host.scan_directories root >>= λ directories. pure (files, directories)))
        (λ e. if is_missing e then pure ([], []) else throw e)

  -- what the comparison of the expected with the existing entries finds
  unfoldable pub inspection : Tree → List ProjectFile → List Text → List Text → Inspection
  inspection t files directories private_keys =
      let expected = expected_files t in
      let expected_directories = directory_map host t.directories [] in
      let (extra, different, seen) = compare_files expected files in
      let missing =
        missing_files expected seen ++ missing_directories expected_directories directories in
      let all_extra = extra ++ extra_directories expected_directories private_keys directories in
      record {
        empty = is_empty files && is_empty directories;
        is_match = is_empty missing && is_empty different && is_empty all_extra;
        missing = host.sort missing;
        different = host.sort different;
        extra = host.sort all_extra;
      }

  module _ (deepest_first : List Text → List Text) where
    unfoldable pub inspect_materialized_project_tree : Text → Tree → Action D Inspection
    inspect_materialized_project_tree root tree = lift (validated_tree host tree) >>= λ t.
        scan root >>= λ (files, directories).
        private_directories root (deepest_first directories) [] >>= λ private_keys.
        pure (inspection t files directories private_keys)

    -- `bindExistingBacking`
    unfoldable pub bind_existing_backing : Text → Tree → Action D Inspection
    bind_existing_backing root tree =
        host.turn
        >> (inspect_materialized_project_tree root tree >>= λ found.
            when found.is_match (modify (λ (a : Adapter). record a { backing_root = some root }))
            >> pure found)
