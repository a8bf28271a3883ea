-- ===== src/FileStates/Renames.antt =====
-- Renames of one source that conflict (src/runtime/session.ts, `resolveRenameConflict`).
use jupyter_pair_ext.Base.{String, ◌≡◌, true, Option, some, if◌then◌else◌, nat_eq, string_eq}
use jupyter_pair_ext.Base.Int.{ℤ, is_negative, is_positive}
use jupyter_pair_ext.Base.Codes.{Text, text_eq}
use jupyter_pair_ext.FileStates.{
  FileState, is_zero, compare_file_state, RenameDecision, applies, loses,
}

-- what is deleted by a decision on a rename to `to`
unfoldable pub lost : Text → RenameDecision → Option (Text × FileState)
lost to (applies source losing) = losing
lost to (loses source tombstone) = some (to, tombstone)

-- The comparison of two names is turned by exchanging them.
abbrev pub IsAntisymmetric : (String → String → ℤ) → Type 0
IsAntisymmetric compare =
    (a b : String)
    → (is_positive (compare a b) ≡ is_negative (compare b a))
      × (is_zero (compare a b) ≡ is_zero (compare b a))

-- the destination of the lower of two renames, and its state marked as deleted
abbrev pub lower_rename :
    (String → String → ℤ) → Text → Text → FileState → FileState → Text × FileState
lower_rename locale_compare left right a b =
    let second : Text × FileState = (right, record b { deleted = true }) in
    let first : Text × FileState = (left, record a { deleted = true }) in
    if is_positive (compare_file_state locale_compare a b) then second else first
