-- ===== src/FileStates/Lifecycle.antt =====
-- What a session does with the states of its files (src/runtime/session.ts): the states it accepts
-- from others, those it makes itself, renames, and the deletions that its watcher is to ignore.
--
-- An operation that throws keeps the changes that it has made. Effects on the storage adapter and
-- the transport are a list in the order of the calls. The removal of notebook runtime state and of
-- line comments is left out. Parameters: `normalizedTrackedPath`, `canEdit`, the comparison key of
-- a path segment and `localeCompare`.
use jupyter_pair_ext.Base.{
  ℕ, ◌+◌, max, String, Bool, true, false, not, ◌&&◌, ◌||◌, Option, none, some, List, [], ◌∷◌, ◌++◌,
  map, ltb, leb, if◌then◌else◌, ◌==◌, nat_eq, string_eq, Result, ok, err, length, drop, any, filter,
  Map, get, put, remove, has,
}
use jupyter_pair_ext.Base.Int.{ℤ, pos, is_negative}
use jupyter_pair_ext.Base.Codes.{Text, text_eqb, text_eq, starts_with, split}
use jupyter_pair_ext.Storage.State.{is_same_or_child}
use jupyter_pair_ext.FileStates.{
  FileState, is_zero, compare_file_state, next_file_state, set_file_state, effective_file_state,
}

pub data Effect : Type 0 where
  create_directory : Text → Effect
  schedule : Text → Effect
  remove_path : Text → Effect
  broadcast_state : Text → FileState → Effect
  persist_descriptor : Effect

pub record Lifecycle : Type 0 where
  pub states : Map Text FileState
  pub counter : ℕ
  pub documents : Map Text String
  pub binaries : List Text
  pub directories : List Text
  pub suppressed : Map Text ℕ
  pub effects : List Effect

pub data Refusal : Type 0 where
  entry_limit path_conflict counter_limit : Refusal

abbrev pub Change : Type 0 → Type 0
Change A = Lifecycle → Result Refusal A × Lifecycle

abbrev pub and_then :
    {A B : Type 0} → Result Refusal A × Lifecycle → (A → Change B) → Result Refusal B × Lifecycle
and_then (ok a, s) f = f a s
and_then (err e, s) f = (err e, s)

-- `MAX_TRACKED_PROJECT_ENTRIES`
abbrev pub max_entries : ℕ
max_entries = 50000

-- `MAX_REMOTE_REVISION_ADVANCE`
abbrev pub max_remote_revision_advance : ℕ
max_remote_revision_advance = 1000000

abbrev pub bool_eq : Bool → Bool → Bool
bool_eq true b = b
bool_eq false b = not b

unfoldable pub perform : List Effect → Lifecycle → Lifecycle
perform effects s = record s { effects = s.effects ++ effects }

unfoldable pub delete_documents : Text → Map Text String → Map Text String
delete_documents path documents = filter (λ (key, kind). not (is_same_or_child key path)) documents

unfoldable pub delete_paths : Text → List Text → List Text
delete_paths path paths = filter (λ key. not (is_same_or_child key path)) paths

unfoldable pub is_conflict_of_segments : (Text → Text) → List Text → List Text → Bool
is_conflict_of_segments fold [] right = false
is_conflict_of_segments fold (l ∷ left) [] = false
is_conflict_of_segments fold (l ∷ left) (r ∷ right) =
    let rest = is_conflict_of_segments fold left right in
    if not (text_eqb (fold l) (fold r)) then false else if not (text_eqb l r) then true else rest

unfoldable pub suppress_delete : ℕ → Text → Lifecycle → Lifecycle
suppress_delete now path s = record s { suppressed = put path (now + 5000) s.suppressed }

-- the loop of `consumeSuppressedDelete` over a copy of the entries
unfoldable pub consume_each : ℕ → Text → Map Text ℕ → Map Text ℕ → Bool × Map Text ℕ
consume_each now path [] suppressed = (false, suppressed)
consume_each now path ((key, expires_at) ∷ entries) suppressed =
    let expired = consume_each now path entries (remove key suppressed) in
    let rest = consume_each now path entries suppressed in
    if leb expires_at now
    then expired
    else if is_same_or_child path key
    then (true, remove key suppressed)
    else rest

unfoldable pub consume_suppressed_delete : ℕ → Text → Lifecycle → Bool × Lifecycle
consume_suppressed_delete now path s =
    let (found, left) = consume_each now path s.suppressed s.suppressed in
    (found, record s { suppressed = left })

abbrev pub with_states : Result String (Map Text FileState) → Change (Unit {0})
with_states (err e) s = (err entry_limit, s)
with_states (ok states) s = (ok tt, record s { states = states })

abbrev pub with_counter : Result String (ℕ × FileState) → Change FileState
with_counter (err e) s = (err counter_limit, s)
with_counter (ok (counter, state)) s = (ok state, record s { counter = counter })

-- `if (...) return exact;`
abbrev pub keep_live :
    Bool → Option FileState → Result Refusal FileState × Lifecycle → Change FileState
keep_live true (some exact) made s = (ok exact, s)
keep_live false (some exact) made s = made
keep_live b none made s = made

module _ (fold : Text → Text) (locale_compare : String → String → ℤ) where
  -- `portablePathCaseConflict`
  unfoldable pub portable_path_case_conflict : Text → Text → Bool
  portable_path_case_conflict left right =
      is_conflict_of_segments fold (split 47 left) (split 47 right)

  unfoldable pub is_live : Lifecycle → Text → Bool
  is_live s path = elim (effective_file_state locale_compare path s.states) [
    | some state ↦ not state.deleted
    | none ↦
        has path s.documents || any (text_eqb path) s.binaries || any (text_eqb path) s.directories
  ]

  abbrev pub keys : {A : Type 0} → Map Text A → List Text
  keys m = map (λ (key, value). key) m

  unfoldable pub known_paths : Lifecycle → List Text
  known_paths s = keys s.states ++ keys s.documents ++ s.binaries ++ s.directories

  -- `assertNoPortableLivePathConflict`
  unfoldable pub has_live_path_conflict : Text → Lifecycle → Bool
  has_live_path_conflict path s =
      any
        (λ existing.
          not (text_eqb existing path)
          && portable_path_case_conflict existing path
          && is_live s existing)
        (known_paths s)

  unfoldable pub assert_no_conflict : Text → Change (Unit {0})
  assert_no_conflict path s =
      if has_live_path_conflict path s then (err path_conflict, s) else (ok tt, s)

  unfoldable pub set_state : Text → FileState → Change (Unit {0})
  set_state path state s = with_states (set_file_state max_entries path state s.states) s

  unfoldable pub make_state : String → Bool → String → Change FileState
  make_state kind deleted author s = with_counter (next_file_state kind deleted author s.counter) s

  -- the state that is there is live, of the kind, and no ancestor's deletion is above it
  unfoldable pub is_live_as : String → Text → Lifecycle → Bool
  is_live_as kind path s = elim (get path s.states) [
    | none ↦ false
    | some exact ↦
        not exact.deleted
        && exact.kind == kind
        && is_zero (elim (effective_file_state locale_compare path s.states) [
          | none ↦ pos 0
          | some effective ↦ compare_file_state locale_compare effective exact
        ])
  ]

  unfoldable pub materialize_live : Text → FileState → Lifecycle → Lifecycle
  materialize_live path state s =
      let replaced : Map Text String = elim (get path s.documents) [
        | none ↦ s.documents
        | some kind ↦ if kind == state.kind then s.documents else delete_documents path s.documents
      ] in
      let binaries = if state.kind == "binary" then s.binaries else delete_paths path s.binaries in
      let directories =
        if state.kind == "directory"
        then (if any (text_eqb path) s.directories
            then s.directories
            else s.directories ++ (path ∷ []))
        else filter (λ d. not (text_eqb d path)) s.directories in
      let documents =
        if (state.kind == "text" || state.kind == "notebook") && not (has path replaced)
        then put path state.kind replaced
        else replaced in
      let effects =
        if state.kind == "directory"
        then create_directory path ∷ []
        else if state.kind == "text" || state.kind == "notebook"
        then schedule path ∷ []
        else [] in
      perform effects
        (record s { documents = documents; binaries = binaries; directories = directories })

  unfoldable pub apply_deleted_path : ℕ → Text → Lifecycle → Lifecycle
  apply_deleted_path now path s =
      perform (remove_path path ∷ []) (record (suppress_delete now path s) {
        documents = delete_documents path s.documents;
        binaries = delete_paths path s.binaries;
        directories = delete_paths path s.directories;
      })

  unfoldable pub make_live_state : String → Text → String → Change FileState
  make_live_state local path kind s = and_then (assert_no_conflict path s) (λ x s₁.
      and_then (make_state kind false local s₁)
        (λ state s₂. and_then (set_state path state s₂) (λ y s₃. (ok state, s₃))))

  -- `ensureLiveFileState`: the state that is there is kept when it is live, of the kind, and no
  -- deletion of an ancestor wins over it
  unfoldable pub ensure_live_file_state : String → Text → String → Change FileState
  ensure_live_file_state local path kind s =
      keep_live (is_live_as kind path s) (get path s.states) (make_live_state local path kind s) s

  -- what differs from the state that is there
  unfoldable pub is_changed : Option FileState → FileState → Bool
  is_changed none incoming = true
  is_changed (some exact) incoming =
      not (is_zero (compare_file_state locale_compare incoming exact))
      || not (bool_eq exact.deleted incoming.deleted)
      || not (exact.kind == incoming.kind)

  -- whether the state is the effective one, at the end of `acceptFileState`
  unfoldable pub is_effective : Text → FileState → Lifecycle → Bool
  is_effective path incoming s = elim (effective_file_state locale_compare path s.states) [
    | none ↦ false
    | some winner ↦ is_zero (compare_file_state locale_compare incoming winner)
  ]

  -- `incoming` is below what is effective
  unfoldable pub is_superseded : Text → FileState → Lifecycle → Bool
  is_superseded path incoming s = elim (effective_file_state locale_compare path s.states) [
    | none ↦ false
    | some effective ↦ is_negative (compare_file_state locale_compare incoming effective)
  ]

  unfoldable pub apply_effects : ℕ → Text → FileState → Lifecycle → Lifecycle
  apply_effects now path incoming s =
      if incoming.deleted then apply_deleted_path now path s else materialize_live path incoming s

  -- a live state may not conflict with another live path
  unfoldable pub check_state : Text → FileState → Bool → Change (Unit {0})
  check_state path incoming applies s =
      if not incoming.deleted && applies then assert_no_conflict path s else (ok tt, s)

  -- what follows once the state is set: the counter, the effects and the announcement
  unfoldable pub settle_state : ℕ → Text → FileState → Bool → Bool → Lifecycle → Lifecycle
  settle_state now path incoming applies propagates s =
      let counted = record s { counter = max s.counter incoming.version } in
      perform
        ((if propagates then broadcast_state path incoming ∷ [] else [])
          ++ (persist_descriptor ∷ []))
        (if applies then apply_effects now path incoming counted else counted)

  unfoldable pub store_state : ℕ → Text → FileState → Bool → Bool → Change (Unit {0})
  store_state now path incoming applies propagates s =
      and_then (set_state path incoming s)
        (λ x s₁. (ok tt, settle_state now path incoming applies propagates s₁))

  -- the part of `acceptFileState` that records a state and applies it
  unfoldable pub record_state : ℕ → Text → FileState → Bool → Bool → Change (Unit {0})
  record_state now path incoming applies propagates s =
      and_then (check_state path incoming applies s)
        (λ x. store_state now path incoming applies propagates)

  -- `acceptFileState` of a normalized path; `is_local` and `may_edit` are what it asks of its
  -- source: the local participant, and the host or a participant who may edit the path
  unfoldable pub accept_file_state : ℕ → Text → FileState → Bool → Bool → Bool → Bool → Change Bool
  accept_file_state now path incoming is_local may_edit applies propagates s =
      let decided : Lifecycle → Result Refusal Bool × Lifecycle =
        λ u. (ok (is_effective path incoming u), u) in
      if not is_local && ltb (s.counter + max_remote_revision_advance) incoming.version
      then (ok false, s)
      else if is_superseded path incoming s
      then (ok false, s)
      else if not (is_changed (get path s.states) incoming)
      then decided s
      else if not may_edit
      then (ok false, s)
      else and_then (record_state now path incoming applies propagates s) (λ x. decided)

  -- the states below `from`, in the order of the map
  unfoldable pub descendants : Text → Map Text FileState → Map Text FileState
  descendants from states =
      filter (λ (key, state). not (text_eqb key from) && starts_with key (from ++ (47 ∷ []))) states

  abbrev pub follow_state : FileState → FileState → Bool → FileState
  follow_state state leader deleted = record {
    version = max state.version leader.version;
    author = leader.author;
    kind = state.kind;
    deleted = deleted;
  }

  unfoldable pub bury_each : FileState → Map Text FileState → Change (Unit {0})
  bury_each from_state [] s = (ok tt, s)
  bury_each from_state ((key, state) ∷ rest) s =
      and_then (set_state key (follow_state state from_state true) s)
        (λ x. bury_each from_state rest)

  unfoldable pub move_each : Text → Text → FileState → Map Text FileState → Change (Unit {0})
  move_each from to to_state [] s = (ok tt, s)
  move_each from to to_state ((key, state) ∷ rest) s =
      let new_key = to ++ drop (length from) key in
      and_then (assert_no_conflict new_key s) (λ x s₁.
        and_then (set_state new_key (follow_state state to_state state.deleted) s₁)
          (λ y. move_each from to to_state rest))

  -- the end of `renameFileStates`
  unfoldable pub end_rename : Text → FileState → FileState → Change (Unit {0})
  end_rename to from_state to_state s = and_then (assert_no_conflict to s) (λ x s₁.
      and_then (set_state to to_state s₁) (λ y s₂.
        (ok tt, record s₂ { counter = max s₂.counter (max from_state.version to_state.version) })))

  -- `renameFileStates`
  unfoldable pub rename_file_states : Text → Text → FileState → FileState → Change (Unit {0})
  rename_file_states from to from_state to_state s =
      let below = descendants from s.states in
      and_then (bury_each from_state below s) (λ x s₁.
        and_then (set_state from from_state s₁) (λ y s₂.
          and_then (move_each from to to_state below s₂) (λ z. end_rename to from_state to_state)))
