-- ===== src/Workspace/Operations.antt =====
-- The operations of a persistent workspace: `validateEntries`, `mutate`, `snapshot`, `mkdir`,
-- `rename` and `remove` of src/vps/persistentStorage.ts.
--
-- Parameters: Node's `path.normalize`, the Unicode folding of the comparison key, the limits, the
-- size of the manifest as JSON, and `localeCompare`'s sort. `now` is `Date.now()`.
use jupyter_pair_ext.Base.{
  ℕ, ◌+◌, ◌*◌, Bool, false, not, ◌&&◌, ◌||◌, Option, none, some, List, [], ◌∷◌, ◌++◌, map, ltb, leb,
  if◌then◌else◌, ◌==◌, nat_eq, string_eq, Result, ok, err, ◌>>=◌, ◌>>◌, throw_if, is_some, or_else,
  length, drop, all, any, filter, sum,
}
use jupyter_pair_ext.Base.Codes.{Text, text_eqb, text_eq, starts_with}
use jupyter_pair_ext.ProjectPath.{safe_relative_path, portable_path_comparison_key}
use jupyter_pair_ext.Workspace.{
  is_within, parents, ErrorCode, conflict, invalid_path, not_found, quota_exceeded, forbidden,
  Visibility, Kind, StoredEntry, Manifest, Limits, is_private, visibility_of, find_entry, authorize,
  authorize_subtree, is_directory, new_directory, ensure_parents, is_publication_id,
}

pub record FileEntry : Type 0 where
  pub path : Text
  pub kind : Kind
  pub size : ℕ
  pub mtime : ℕ
  pub version : ℕ
  pub visibility : Visibility

abbrev pub max_publications : ℕ
max_publications = 16384

abbrev pub max_manifest_bytes : ℕ
max_manifest_bytes = 32 * 1024 * 1024

unfoldable pub snapshot : (List FileEntry → List FileEntry) → Bool → Manifest → List FileEntry
snapshot locale_sort owner m =
    let shown =
      filter (λ (e : StoredEntry). owner || not (is_private e.path m.entries)) m.entries in
    locale_sort (
      map
        (λ (e : StoredEntry). record {
          path = e.path;
          kind = e.kind;
          size = e.size;
          mtime = e.mtime;
          version = e.version;
          visibility = visibility_of e.path m.entries;
        })
        shown)

unfoldable pub has_publication : Text → Manifest → Bool
has_publication id m = elim m.publications [ none ↦ false | some ids ↦ any (text_eqb id) ids ]

-- `(next.publications ??= []).push(id)`, when there is an id
unfoldable pub publish_id : Option Text → Manifest → Manifest
publish_id none m = m
publish_id (some id) m = record m { publications = some (or_else m.publications [] ++ (id ∷ [])) }

unfoldable pub publication_count : Manifest → ℕ
publication_count m = elim m.publications [ none ↦ 0 | some ids ↦ length ids ]

-- every proper ancestor of the path is a directory of the manifest
unfoldable pub has_parents : List StoredEntry → StoredEntry → Bool
has_parents entries entry =
    all (λ parent. elim (find_entry parent entries) [ none ↦ false | some e ↦ is_directory e ])
      (parents entry.path)

-- `entry` as the loop of `rename` leaves it: what is not within `name` stays
unfoldable pub moved : ℕ → ℕ → Text → Text → Visibility → StoredEntry → StoredEntry
moved now revision name target source_visibility entry =
    if is_within entry.path name
    then record entry {
      path = target ++ drop (length name) entry.path;
      version = revision;
      mtime = now;
      visibility = if text_eqb entry.path name then some source_visibility else entry.visibility;
    }
    else entry

-- the moving loop, after `ensureParents`; the directories that it adds are outside `name`
unfoldable pub move_entries : ℕ → ℕ → Text → Text → Visibility → Manifest → Manifest
move_entries now revision name target source_visibility made = record made {
  entries = map (moved now revision name target source_visibility) made.entries;
}

-- `rename` of normalized paths
unfoldable pub rename_normalized : ℕ → Text → Text → Bool → Manifest → Result ErrorCode Manifest
rename_normalized now name target owner next = do
  authorize name owner next
  authorize target owner next
  throw_if (not (is_some (find_entry name next.entries))) not_found
  throw_if (text_eqb target name || starts_with target (name ++ (47 ∷ []))) invalid_path
  authorize_subtree (filter (λ (e : StoredEntry). is_within e.path name) next.entries) owner next
  throw_if (any (λ (e : StoredEntry). is_within e.path target) next.entries) invalid_path
  made ← ensure_parents now target next
  ok (move_entries now next.revision name target (visibility_of name next.entries) made)

module _ (normalize : Text → Text) where
  -- `normalizePath`
  unfoldable pub normalize_path : Text → Result ErrorCode Text
  normalize_path value = elim (safe_relative_path normalize value) [
    | none ↦ err invalid_path
    | some normalized ↦ if text_eqb normalized value then ok normalized else err invalid_path
  ]

  unfoldable pub make_directory :
      ℕ → Text → Bool → Option Visibility → Manifest → Result ErrorCode Manifest
  make_directory now value owner visibility next = do
    name ← normalize_path value
    authorize name owner next
    throw_if (is_some visibility && not owner) forbidden
    throw_if (any (λ (e : StoredEntry). text_eqb e.path name) next.entries) invalid_path
    made ← ensure_parents now name next
    ok (record made {
      entries = made.entries ++ (new_directory now name visibility next.revision ∷ []);
    })

  unfoldable pub rename_entry : ℕ → Text → Text → Bool → Manifest → Result ErrorCode Manifest
  rename_entry now value new_value owner next = do
    name ← normalize_path value
    target ← normalize_path new_value
    rename_normalized now name target owner next

  unfoldable pub remove_entry : Text → Bool → Manifest → Result ErrorCode Manifest
  remove_entry value owner next = do
    name ← normalize_path value
    authorize name owner next
    let removing = filter (λ (e : StoredEntry). is_within e.path name) next.entries
    throw_if (leb (length removing) 0) not_found
    authorize_subtree removing owner next
    ok (record next {
      entries = filter (λ (e : StoredEntry). not (is_within e.path name)) next.entries;
    })

module _ (normalize fold : Text → Text) (limits : Limits) (manifest_bytes : Manifest → ℕ) where
  -- the loop over the entries, with the keys that it has met
  unfoldable pub check_names : List Text → List StoredEntry → Result ErrorCode (Unit {0})
  check_names seen [] = ok tt
  check_names seen (entry ∷ rest) = elim (normalize_path normalize entry.path) [
    | err e ↦ err e
    | ok name ↦ elim (portable_path_comparison_key normalize fold name) [
      | none ↦ err invalid_path
      | some key ↦
          let next = check_names (key ∷ seen) rest in
          if any (text_eqb key) seen
          then err invalid_path
          else if ltb limits.max_file_bytes entry.size
          then err quota_exceeded
          else next
    ]
  ]

  unfoldable pub validate_entries : Manifest → Result ErrorCode (Unit {0})
  validate_entries m = do
    throw_if (ltb limits.max_entries (length m.entries)) quota_exceeded
    throw_if (ltb max_publications (publication_count m)) quota_exceeded
    check_names [] m.entries
    throw_if (ltb limits.max_project_bytes (sum (map (λ (e : StoredEntry). e.size) m.entries)))
        quota_exceeded
    throw_if (not (all (has_parents m.entries) m.entries)) invalid_path

  -- The new manifest; the reply is its `snapshot`. `publish` refuses a manifest that is too large.
  unfoldable pub mutate :
      ℕ
      → (Manifest → Result ErrorCode Manifest)
      → Option Text
      → Manifest
      → Result ErrorCode Manifest
  mutate expected change publication m =
      if not (expected == m.revision)
      then err conflict
      else if elim publication [ none ↦ false | some id ↦ not (is_publication_id id) ]
      then err invalid_path
      else if elim publication [ none ↦ false | some id ↦ has_publication id m ]
      then ok m
      else do
        changed ← change (record m { revision = m.revision + 1 })
        let next = publish_id publication changed
        validate_entries next
        throw_if (ltb max_manifest_bytes (manifest_bytes next)) quota_exceeded
        ok next
