-- ===== src/FileStates.antt =====
-- The lifecycle states of project files: `FileLifecycleState` and the functions of
-- src/runtime/session.ts that order them, give the next one, find the effective one and settle
-- renames that conflict. Paths are lists of code points; kinds are their names.
use jupyter_pair_ext.Base.{
  ℕ, zero, suc, ◌+◌, ◌-◌, ◌*◌, String, Bool, true, false, not, ◌&&◌, Option, none, some, List, [],
  ◌∷◌, ltb, leb, if◌then◌else◌, ◌==◌, nat_eq, string_eq, Result, ok, err, ◌>>=◌, ◌>>◌, length,
  filter, Map, get, put, has,
}
use jupyter_pair_ext.Base.Int.{ℤ, pos, negsuc, sub_ℕ, is_positive}
use jupyter_pair_ext.Base.Js.{max_safe_integer}
use jupyter_pair_ext.Base.Codes.{Text, text_eqb, text_eq}
use jupyter_pair_ext.Workspace.{parents}
pub mod Renames
pub mod Lifecycle
pub mod Counter
pub mod Newest

pub record FileState : Type 0 where
  pub version : ℕ
  pub author : String
  pub kind : String
  pub deleted : Bool

pub record RenameOrigin : Type 0 where
  pub to : Text
  pub to_state : FileState
  pub at : ℕ

abbrev pub is_zero : ℤ → Bool
is_zero (pos zero) = true
is_zero (pos (suc n)) = false
is_zero (negsuc n) = false

unfoldable pub compare_flags : Bool → Bool → ℤ → ℤ
compare_flags true true otherwise = otherwise
compare_flags false false otherwise = otherwise
compare_flags true false otherwise = pos 1
compare_flags false true otherwise = negsuc 0

-- `nextFileState`, with the counter afterwards
unfoldable pub next_file_state : String → Bool → String → ℕ → Result String (ℕ × FileState)
next_file_state kind deleted author counter =
    if leb (max_safe_integer - 1) counter
    then err "Project revision counter reached its supported limit."
    else ok (
      counter + 1,
      record { version = counter + 1; author = author; kind = kind; deleted = deleted },
    )

-- `setFileState`
unfoldable pub set_file_state :
    ℕ → Text → FileState → Map Text FileState → Result String (Map Text FileState)
set_file_state max_entries path state states =
    if not (has path states) && leb max_entries (length states)
    then err "Session exceeds the project entry limit."
    else ok (put path state states)

-- `recordRenameOrigin`: what is older than ten minutes goes
unfoldable pub record_rename_origin :
    ℕ → Text → Text → FileState → Map Text RenameOrigin → Map Text RenameOrigin
record_rename_origin now from to to_state origins =
    filter (λ entry. not (ltb (10 * 60000) (now - entry.1.at)))
      (put from (record { to = to; to_state = to_state; at = now }) origins)

abbrev pub tombstone_of : FileState → FileState
tombstone_of state = record state { deleted = true }

pub data RenameDecision : Type 0 where
  applies : Text → Option (Text × FileState) → RenameDecision
  loses : Text → FileState → RenameDecision

module _ (locale_compare : String → String → ℤ) where
  unfoldable pub compare_file_state : FileState → FileState → ℤ
  compare_file_state a b =
      let author = locale_compare a.author b.author in
      if not (a.version == b.version)
      then sub_ℕ a.version b.version
      else if not (is_zero author)
      then author
      else compare_flags a.deleted b.deleted (locale_compare a.kind b.kind)

  -- the loop over the ancestors
  unfoldable pub effective_from :
      Map Text FileState → List Text → Option FileState → Option FileState
  effective_from states [] winner = winner
  effective_from states (path ∷ paths) winner = elim (get path states) [
    | none ↦ effective_from states paths winner
    | some ancestor ↦
        let unchanged = effective_from states paths winner in
        let replaced = effective_from states paths (some ancestor) in
        let wins : Bool = elim winner [
          | none ↦ true
          | some w ↦ is_positive (compare_file_state ancestor w)
        ] in
        if not ancestor.deleted then unchanged else if wins then replaced else unchanged
  ]

  -- `effectiveFileState`
  unfoldable pub effective_file_state : Text → Map Text FileState → Option FileState
  effective_file_state path states = effective_from states (parents path) (get path states)

  unfoldable pub resolve_rename_conflict :
      Text → Text → FileState → Map Text RenameOrigin → RenameDecision
  resolve_rename_conflict from to to_state origins = elim (get from origins) [
    | none ↦ applies from none
    | some previous ↦
        if text_eqb previous.to to
        then applies from none
        else if is_positive (compare_file_state to_state previous.to_state)
        then applies previous.to (some (previous.to, tombstone_of previous.to_state))
        else loses from (tombstone_of to_state)
  ]
