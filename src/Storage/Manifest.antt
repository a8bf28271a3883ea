-- ===== src/Storage/Manifest.antt =====
-- What a complete copy of a project holds, and its validation:
-- `validateMaterializationManifest` and what runs before it (src/core/persistence.ts).
use jupyter_pair_ext.Base.{
  ℕ, ◌+◌, not, ◌||◌, List, [], ◌∷◌, ◌++◌, map, ltb, if◌then◌else◌, nat_eq, string_eq, Result, ok,
  err, length, Map, put, has,
}
use jupyter_pair_ext.Base.Codes.{Text, text_eq}
use jupyter_pair_ext.Workspace.{parents}
use jupyter_pair_ext.Storage.{
  invalid_digest, too_many_entries, duplicate_file, duplicate_directory, below_a_file,
  omitted_parent, Failure, thrown, Bytes, Host, canonical_relative_path,
}
use jupyter_pair_ext.Storage.Target.{is_digest, lower_digest}

pub record Document : Type 0 where
  pub path : Text
  pub bytes : Bytes

pub record Binary : Type 0 where
  pub path : Text
  pub source : Text
  pub hash : Text

pub record Tree : Type 0 where
  pub documents : List Document
  pub binaries : List Binary
  pub directories : List Text

-- `MAX_TRACKED_PROJECT_ENTRIES`
abbrev pub max_tracked_project_entries : ℕ
max_tracked_project_entries = 50000

-- the first loop of `validateMaterializationManifest`: the keys of the files
unfoldable pub collect_files :
    (Text → Text) → List Text → Map Text Text → Result Failure (Map Text Text)
collect_files key [] files = ok files
collect_files key (path ∷ paths) files =
    let rest = collect_files key paths (put (key path) path files) in
    if has (key path) files then err (thrown duplicate_file) else rest

-- the second: the keys of the directories
unfoldable pub collect_directories :
    (Text → Text) → Map Text Text → List Text → Map Text Text → Result Failure (Map Text Text)
collect_directories key files [] directories = ok directories
collect_directories key files (path ∷ paths) directories =
    let rest = collect_directories key files paths (put (key path) path directories) in
    if has (key path) directories || has (key path) files
    then err (thrown duplicate_directory)
    else rest

-- the inner loop of the third, over the proper ancestors of an entry
unfoldable pub check_parents :
    (Text → Text) → Map Text Text → Map Text Text → List Text → Result Failure (Unit {0})
check_parents key files directories [] = ok tt
check_parents key files directories (parent ∷ rest) =
    let next = check_parents key files directories rest in
    if has (key parent) files
    then err (thrown below_a_file)
    else if not (has (key parent) directories)
    then err (thrown omitted_parent)
    else next

unfoldable pub check_entries :
    (Text → Text) → Map Text Text → Map Text Text → List Text → Result Failure (Unit {0})
check_entries key files directories [] = ok tt
check_entries key files directories (path ∷ paths) =
    let rest = check_entries key files directories paths in
    elim (check_parents key files directories (parents path)) [ ok x ↦ rest | err e ↦ err e ]

abbrev pub values : Map Text Text → List Text
values m = map (λ (k, v). v) m

unfoldable pub validate_materialization_manifest :
    (Text → Text) → List Text → List Text → Result Failure (Unit {0})
validate_materialization_manifest key files directories = elim (collect_files key files []) [
  | err e ↦ err e
  | ok file_keys ↦ elim (collect_directories key file_keys directories []) [
    | err e ↦ err e
    | ok directory_keys ↦
        check_entries key file_keys directory_keys (values file_keys ++ values directory_keys)
  ]
]

abbrev pub file_paths : Tree → List Text
file_paths t = map (λ (d : Document). d.path) t.documents ++ map (λ (b : Binary). b.path) t.binaries

-- `filesystemRelativeKey` of a canonical path
unfoldable pub filesystem_relative_key : {D : Type 0} → Host D → Text → Text
filesystem_relative_key host path = if host.folds_case then host.fold path else path

-- `array.map(canonicalRelativePath)`, which throws at the first bad path
unfoldable pub each {ℓ κ} :
    {A : Type ℓ} {B : Type κ} → (A → Result Failure B) → List A → Result Failure (List B)
each f [] = ok []
each f (x ∷ xs) = elim (f x) [
  | err e ↦ err e
  | ok y ↦ elim (each f xs) [ err e ↦ err e | ok ys ↦ ok (y ∷ ys) ]
]

abbrev pub with_slash : Text → Text
with_slash path = path ++ (47 ∷ [])

module _ {D : Type 0} (host : Host D) where
  unfoldable pub normalize_document : Document → Result Failure Document
  normalize_document d = elim (canonical_relative_path host d.path) [
    | err e ↦ err e
    | ok path ↦ ok (record d { path = path })
  ]

  unfoldable pub normalize_binary : Binary → Result Failure Binary
  normalize_binary b =
      if not (is_digest b.hash)
      then err (thrown invalid_digest)
      else elim (canonical_relative_path host b.path) [
        | err e ↦ err e
        | ok path ↦ ok (record b { path = path; hash = lower_digest b.hash })
      ]

  -- the head of both operations: what they normalize and validate
  unfoldable pub normalize_tree : Tree → Result Failure Tree
  normalize_tree t =
      if ltb max_tracked_project_entries
        (length t.documents + length t.binaries + length t.directories)
      then err (thrown too_many_entries)
      else elim (each normalize_document t.documents) [
        | err e ↦ err e
        | ok documents ↦ elim (each normalize_binary t.binaries) [
          | err e ↦ err e
          | ok binaries ↦ elim (each (canonical_relative_path host) t.directories) [
            | err e ↦ err e
            | ok directories ↦
                ok
                  (record { documents = documents; binaries = binaries; directories = directories })
          ]
        ]
      ]

  unfoldable pub validated_tree : Tree → Result Failure Tree
  validated_tree t = elim (normalize_tree t) [
    | err e ↦ err e
    | ok u ↦ elim (validate_materialization_manifest host.fold (file_paths u) u.directories) [
      | err e ↦ err e
      | ok x ↦ ok u
    ]
  ]

  abbrev pub directory_map : List Text → Map Text Text → Map Text Text
  directory_map [] m = m
  directory_map (d ∷ ds) m = directory_map ds (put (filesystem_relative_key host d) d m)
