-- ===== src/Workspace.antt =====
-- The manifest of a persistent workspace: `PersistentWorkspace` of src/vps/persistentStorage.ts.
--
-- Modelled are the manifest, its access rules, and the operations `mutate`, `snapshot`, `mkdir`,
-- `rename` and `remove`. A path is the list of its code points. The blobs on disk,
-- the manifest's file and the queue that makes the operations run one at a time are left out: an
-- operation takes the current manifest and gives the next one, or the error.
use jupyter_pair_ext.Base.{
  ℕ, ◌+◌, String, Bool, true, false, not, ◌&&◌, ◌||◌, Option, none, some, List, [], ◌∷◌, ◌++◌, map,
  reverse, leb, nat_eqb, if◌then◌else◌, nat_eq, string_eq, Result, ok, err, ◌>>=◌, ◌>>◌, throw_if,
  length, all, any, filter, find, remove,
}
use jupyter_pair_ext.Base.Codes.{Text, text_eqb, text_eq, starts_with, split}
use jupyter_pair_ext.Base.Js.{codes, is_digit, is_id_character}
pub mod Paths
pub mod Operations
pub mod Listing
pub mod Privacy
pub mod Moves
pub mod Revisions

abbrev pub is_within : Text → Text → Bool
is_within name parent = text_eqb name parent || starts_with name (parent ++ (47 ∷ []))

-- The proper ancestors of a path, shortest first: `segments.slice(0, index).join('/')` for
-- `index` from 1 up to the number of segments less one, that is, what stands before each '/'.
unfoldable pub parents : Text → List Text
parents [] = []
parents (c ∷ cs) =
    let rest = map (λ p. c ∷ p) (parents cs) in if nat_eqb c 47 then [] ∷ rest else rest

pub data ErrorCode : Type 0 where
  conflict invalid_path not_found quota_exceeded forbidden : ErrorCode

pub data Visibility : Type 0 where
  public private : Visibility

pub data Kind : Type 0 where
  file directory : Kind

pub record StoredEntry : Type 0 where
  pub path : Text
  pub kind : Kind
  pub size : ℕ
  pub mtime : ℕ
  pub version : ℕ
  pub visibility : Option Visibility
  pub blob : Option String
  pub notebook_identity : Option String

pub record Manifest : Type 0 where
  pub revision : ℕ
  pub entries : List StoredEntry
  pub publications : Option (List Text)

pub record Limits : Type 0 where
  pub max_file_bytes : ℕ
  pub max_project_bytes : ℕ
  pub max_entries : ℕ

unfoldable pub is_marked_private : StoredEntry → Bool
is_marked_private entry = elim entry.visibility [
  | none ↦ false
  | some public ↦ false
  | some private ↦ true
]

unfoldable pub private_paths : List StoredEntry → List Text
private_paths entries = map (λ e. e.path) (filter is_marked_private entries)

-- `visibility(name, manifest) === 'private'`: the loop looks at the name, then at what stands
-- before its last '/', and so on.
unfoldable pub is_private : Text → List StoredEntry → Bool
is_private name entries =
    let marked = private_paths entries in
    any (λ parent. any (text_eqb parent) marked) (name ∷ reverse (parents name))

unfoldable pub visibility_of : Text → List StoredEntry → Visibility
visibility_of name entries = if is_private name entries then private else public

unfoldable pub find_entry : Text → List StoredEntry → Option StoredEntry
find_entry name entries = find (λ e. text_eqb e.path name) entries

unfoldable pub authorize : Text → Bool → Manifest → Result ErrorCode (Unit {0})
authorize name owner m = throw_if (not owner && is_private name m.entries) not_found

unfoldable pub authorize_subtree : List StoredEntry → Bool → Manifest → Result ErrorCode (Unit {0})
authorize_subtree entries owner m =
    throw_if (not owner && any (λ e. is_private e.path m.entries) entries) forbidden

abbrev pub is_directory : StoredEntry → Bool
is_directory entry = elim entry.kind [ file ↦ false | directory ↦ true ]

-- the entry of a new directory
unfoldable pub new_directory : ℕ → Text → Option Visibility → ℕ → StoredEntry
new_directory now name visibility revision = record {
  path = name;
  kind = directory;
  size = 0;
  mtime = now;
  version = revision;
  visibility = visibility;
  blob = none;
  notebook_identity = none;
}

-- the loop of `ensureParents` over the ancestors
unfoldable pub ensure_each : ℕ → List Text → Manifest → Result ErrorCode Manifest
ensure_each now [] m = ok m
ensure_each now (parent ∷ rest) m = elim (find_entry parent m.entries) [
  | some existing ↦
      let next = ensure_each now rest m in
      if not (is_directory existing) then err invalid_path else next
  | none ↦
      ensure_each now rest
        (record m { entries = m.entries ++ (new_directory now parent none m.revision ∷ []) })
]

unfoldable pub ensure_parents : ℕ → Text → Manifest → Result ErrorCode Manifest
ensure_parents now name m = ensure_each now (parents name) m

unfoldable pub is_publication_id : Text → Bool
is_publication_id id = elim (split 58 id) [
  | [] ↦ false
  | a ∷ [] ↦ false
  | a ∷ b ∷ [] ↦ false
  | a ∷ b ∷ c ∷ [] ↦
      all is_id_character a
      && leb 1 (length a)
      && leb (length a) 128
      && (text_eqb b (codes "write") || text_eqb b (codes "remove"))
      && all is_digit c
      && leb 1 (length c)
      && leb (length c) 3
  | a ∷ b ∷ c ∷ d ∷ rest ↦ false
]
