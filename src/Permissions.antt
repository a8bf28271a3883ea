-- ===== src/Permissions.antt =====
-- What a participant may do: src/core/permissions.ts. Paths and rules are lists of code points.
use jupyter_pair_ext.Base.{
  ◌≡◌, sym, subst, Bool, true, false, not, ◌&&◌, ◌||◌, Option, none, some, List, [], ◌∷◌, ◌++◌,
  arith, nat_eqb, if◌then◌else◌, nat_eq, string_eq, is_some, length, drop, any,
}
use mathlib.Core.List.{Memᴰ}
use mathlib.Core.List.Memᴰ.{head, tail}
use jupyter_pair_ext.Base.Codes.{Text, text_eqb, starts_with}
use jupyter_pair_ext.ProjectPath.{safe_relative_path}

pub data EditPermission : Type 0 where
  all_files selected_files no_files : EditPermission

pub data TerminalPermission : Type 0 where
  no_terminal read_terminal write_terminal : TerminalPermission

pub record ParticipantPermissions : Type 0 where
  pub edit : EditPermission
  pub paths : List Text
  pub execute : Bool
  pub terminal : TerminalPermission
  pub comment : Bool

unfoldable pub default_permissions : Bool → ParticipantPermissions
default_permissions read_only = record {
  edit = if read_only then no_files else all_files;
  paths = [];
  execute = not read_only;
  terminal = read_terminal;
  comment = not read_only;
}

-- `rule.endsWith('/')`, with `rule.slice(0, -1)`
unfoldable pub directory_of : Text → Option Text
directory_of [] = none
directory_of (c ∷ []) = if nat_eqb c 47 then some [] else none
directory_of (c ∷ d ∷ cs) = elim (directory_of (d ∷ cs)) [ none ↦ none | some r ↦ some (c ∷ r) ]

-- one rule of `paths`
unfoldable pub grants : Text → Text → Bool
grants filename rule = elim (directory_of rule) [
  | some directory ↦ text_eqb filename directory || starts_with filename rule
  | none ↦ text_eqb filename rule
]

module _ (normalize : Text → Text) where
  unfoldable pub may_edit : ParticipantPermissions → Text → Bool
  may_edit permissions filename =
      if not (is_some (safe_relative_path normalize filename))
      then false
      else elim permissions.edit [
        | all_files ↦ true
        | selected_files ↦ any (grants filename) permissions.paths
        | no_files ↦ false
      ]

  -- the tests of one path, and of where it goes
  unfoldable pub may_move : ParticipantPermissions → Text → Option Text → Bool
  may_move permissions filename none = may_edit permissions filename
  may_move permissions filename (some destination) =
      may_edit permissions filename && may_edit permissions destination

  unfoldable pub relocated : Text → Text → Option Text → Option Text
  relocated filename entry none = none
  relocated filename entry (some destination) = some (destination ++ drop (length filename) entry)

  unfoldable pub may_change_entries : ParticipantPermissions → Text → List Text → Option Text → Bool
  may_change_entries permissions filename [] destination = true
  may_change_entries permissions filename (entry ∷ entries) destination =
      let rest = may_change_entries permissions filename entries destination in
      if text_eqb entry filename || starts_with entry (filename ++ (47 ∷ []))
      then may_move permissions entry (relocated filename entry destination) && rest
      else rest

  unfoldable pub may_change_tree : ParticipantPermissions → Text → List Text → Option Text → Bool
  may_change_tree permissions filename entries destination =
      if not (may_move permissions filename destination)
      then false
      else may_change_entries permissions filename entries destination

  may_change_entries-each :
      (permissions : ParticipantPermissions) (filename : Text) (entries : List Text)
      (destination entry : Text)
      → may_change_entries permissions filename entries (some destination) ≡ true
      → Memᴰ entry entries
      → (text_eqb entry filename || starts_with entry (filename ++ (47 ∷ []))) ≡ true
      → (may_edit permissions entry ≡ true)
        × (may_edit permissions (destination ++ drop (length filename) entry) ≡ true)
  unfolding may_change_entries may_move relocated
  may_change_entries-each p f [] d e h m w = elim m [ ]
  may_change_entries-each p f (x ∷ xs) d e h (head k) w =
      let w' : (text_eqb x f || starts_with x (f ++ (47 ∷ []))) ≡ true =
        subst (λ y. (text_eqb y f || starts_with y (f ++ (47 ∷ []))) ≡ true) k w in
      subst (λ y. (may_edit p y ≡ true) × (may_edit p (d ++ drop (length f) y) ≡ true)) (sym k)
        (ground (arith, h, w'), ground (arith, h, w'))
  may_change_entries-each p f (x ∷ xs) d e h (tail m) w =
      may_change_entries-each p f xs d e ground (arith, h) m w

  -- A directory is moved only by who may edit it and its destination, and each path in it and
  -- where that path goes.
  pub may_change_tree-each :
      (permissions : ParticipantPermissions) (filename : Text) (entries : List Text)
      (destination entry : Text)
      → may_change_tree permissions filename entries (some destination) ≡ true
      → Memᴰ entry entries
      → (text_eqb entry filename || starts_with entry (filename ++ (47 ∷ []))) ≡ true
      → (may_edit permissions filename ≡ true)
        × (may_edit permissions destination ≡ true)
        × (may_edit permissions entry ≡ true)
        × (may_edit permissions (destination ++ drop (length filename) entry) ≡ true)
  unfolding may_change_tree may_move
  may_change_tree-each p f es d e h m w =
      let (a, b) = may_change_entries-each p f es d e ground (arith, h) m w in
      (ground (arith, h), ground (arith, h), a, b)
