-- ===== src/Tests/Workspaces.antt =====
-- A persistent workspace (src/vps/persistentStorage.ts).
use jupyter_pair_ext.Base.{
  List, subst, sym, ℕ, ◌+◌, ◌≡◌, refl, ◌⊎◌, true, false, ◌&&◌, none, some, [], ◌∷◌, nat_eq,
  string_eq, ok, all, any,
}
use mathlib.Core.List.{Memᴰ}
use mathlib.Core.List.Memᴰ.{head, tail}
use jupyter_pair_ext.Base.Codes.{Text}
use jupyter_pair_ext.Base.Js.{codes}
use jupyter_pair_ext.ProjectPath.{
  safe_relative_path, byte_length, utf8_bytes, has_control_characters, is_format_character,
  is_portable_path_segment, ends_badly, is_device_name, before_dot, is_numbered_device,
  portable_path_comparison_key,
}
use jupyter_pair_ext.Workspace.{
  directory, is_within, public, private, StoredEntry, Manifest, Limits, is_marked_private,
  is_private, new_directory, authorize, private_paths, authorize_subtree, ensure_each,
  ensure_parents, find_entry, is_publication_id, parents, visibility_of,
}
use jupyter_pair_ext.Workspace.Paths.{is_private-is_within}
use jupyter_pair_ext.Workspace.Operations.{
  FileEntry, snapshot, mutate, has_parents, rename_entry, remove_entry, normalize_path,
  rename_normalized, check_names, has_publication, move_entries, moved, publication_count,
  publish_id, validate_entries,
}
use jupyter_pair_ext.Workspace.Listing.{snapshot-public}
use jupyter_pair_ext.Workspace.Operations.{has_publication}
use jupyter_pair_ext.Workspace.Revisions.{
  move, delete, apply, was_published, rename-private, member_operation-kept,
  member_operation-private, mutate-revision, mutate-published,
}

abbrev same_text : Text → Text
same_text s = s

abbrev limits : Limits
limits = record { max_file_bytes = 1000; max_project_bytes = 1000; max_entries = 10 }

abbrev manifest_bytes : Manifest → ℕ
manifest_bytes m = 100

abbrev secret : StoredEntry
secret = new_directory 0 (codes "s") (some private) 1

abbrev inner : StoredEntry
inner = new_directory 0 (codes "s/i") none 1

abbrev shared : StoredEntry
shared = new_directory 0 (codes "p") none 1

abbrev workspace : Manifest
workspace = record { revision = 1; entries = secret ∷ inner ∷ shared ∷ []; publications = none }

-- A member renames what is public.
abbrev renamed : Manifest
renamed = record {
  revision = 2;
  entries = secret ∷ inner ∷ new_directory 5 (codes "q") (some public) 2 ∷ [];
  publications = none;
}

renamed-ok :
    mutate same_text same_text limits manifest_bytes 1
      (apply same_text 5 false (move (codes "p") (codes "q")))
      none
      workspace
    ≡ ok renamed
unfolding mutate apply rename_entry remove_entry normalize_path safe_relative_path byte_length
    utf8_bytes has_control_characters is_format_character is_portable_path_segment ends_badly
    is_device_name before_dot is_numbered_device rename_normalized authorize is_private
    private_paths is_marked_private portable_path_comparison_key check_names has_parents
    has_publication move_entries moved publication_count publish_id validate_entries
    authorize_subtree ensure_each ensure_parents find_entry is_publication_id new_directory parents
    visibility_of
renamed-ok = refl

-- The owner renames what is private.
abbrev owned : Manifest
owned = record {
  revision = 2;
  entries =
      new_directory 5 (codes "t") (some private) 2
      ∷ new_directory 5 (codes "t/i") none 2
      ∷ shared
      ∷ [];
  publications = none;
}

owned-ok :
    mutate same_text same_text limits manifest_bytes 1
      (apply same_text 5 true (move (codes "s") (codes "t")))
      none
      workspace
    ≡ ok owned
unfolding mutate apply rename_entry remove_entry normalize_path safe_relative_path byte_length
    utf8_bytes has_control_characters is_format_character is_portable_path_segment ends_badly
    is_device_name before_dot is_numbered_device rename_normalized authorize is_private
    private_paths is_marked_private portable_path_comparison_key check_names has_parents
    has_publication move_entries moved publication_count publish_id validate_entries
    authorize_subtree ensure_each ensure_parents find_entry is_publication_id new_directory parents
    visibility_of
owned-ok = refl

abbrev removed : Manifest
removed = record {
  revision = 2;
  entries = secret ∷ inner ∷ [];
  publications = some (codes "job:remove:1" ∷ []);
}

removed-ok :
    mutate same_text same_text limits manifest_bytes 1
      (apply same_text 5 false (delete (codes "p")))
      (some (codes "job:remove:1"))
      workspace
    ≡ ok removed
unfolding mutate apply rename_entry remove_entry normalize_path safe_relative_path byte_length
    utf8_bytes has_control_characters is_format_character is_portable_path_segment ends_badly
    is_device_name before_dot is_numbered_device rename_normalized authorize is_private
    private_paths is_marked_private portable_path_comparison_key check_names has_parents
    has_publication move_entries moved publication_count publish_id validate_entries
    authorize_subtree ensure_each ensure_parents find_entry is_publication_id new_directory parents
    visibility_of
removed-ok = refl

inner_within : is_within (codes "s/i") (codes "s") ≡ true
inner_within = refl

inner-private : is_private (codes "s/i") workspace.entries ≡ true
unfolding is_private private_paths is_marked_private parents new_directory
inner-private = refl

rename-private_example : is_private (codes "t/i") owned.entries ≡ true
rename-private_example =
    rename-private same_text same_text limits manifest_bytes 5 1 (codes "s") (codes "t") true
      workspace (codes "s/i") owned-ok inner_within inner-private

member_operation-kept_example : Memᴰ inner renamed.entries
unfolding new_directory
member_operation-kept_example =
    member_operation-kept same_text same_text limits manifest_bytes 5 1
      (move (codes "p") (codes "q")) none workspace inner renamed-ok (tail (head refl))
      inner-private

member_operation-private_example : is_private (codes "s/i") renamed.entries ≡ true
member_operation-private_example =
    member_operation-private same_text same_text limits manifest_bytes 5 1
      (move (codes "p") (codes "q")) none workspace (codes "s/i") renamed-ok inner-private

mutate-revision_example :
    (1 ≡ workspace.revision)
    × (((workspace ≡ renamed) × (was_published none workspace ≡ true))
        ⊎ ((renamed.revision ≡ workspace.revision + 1)
            × ((q : Text) → none ≡ some q → has_publication q renamed ≡ true)
            × (all (has_parents renamed.entries) renamed.entries ≡ true)))
mutate-revision_example =
    mutate-revision same_text same_text limits manifest_bytes 5 1 false
      (move (codes "p") (codes "q")) none workspace renamed-ok

mutate-published_example :
    mutate same_text same_text limits manifest_bytes 2
      (apply same_text 5 false (delete (codes "p")))
      (some (codes "job:remove:1"))
      removed
    ≡ ok removed
mutate-published_example =
    mutate-published same_text same_text limits manifest_bytes 1
      (apply same_text 5 false (delete (codes "p"))) (codes "job:remove:1") workspace removed-ok

is_private-is_within_example :
    is_private (codes "s/i") workspace.entries
    ≡ any (λ e. is_marked_private e && is_within (codes "s/i") e.path) workspace.entries
is_private-is_within_example = is_private-is_within (codes "s/i") workspace.entries

abbrev unsorted : List FileEntry → List FileEntry
unsorted lines = lines

abbrev public_line : FileEntry
public_line = record {
  path = codes "p";
  kind = directory;
  size = 0;
  mtime = 0;
  version = 1;
  visibility = public;
}

public_line-shown : snapshot unsorted false workspace ≡ public_line ∷ []
unfolding snapshot is_private private_paths is_marked_private parents new_directory visibility_of
public_line-shown = refl

snapshot-public_example :
    (e : StoredEntry) × Memᴰ e workspace.entries
    × (codes "p" ≡ e.path)
    × (is_private (codes "p") workspace.entries ≡ false)
    × (public ≡ public)
snapshot-public_example =
    snapshot-public unsorted workspace public_line (λ lines line m. m)
      (subst (Memᴰ public_line) (sym public_line-shown) (head refl))
