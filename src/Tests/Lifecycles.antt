-- ===== src/Tests/Lifecycles.antt =====
-- File states of a session at concrete inputs (src/runtime/session.ts).
use jupyter_pair_ext.Base.{String, ◌≡◌, refl, true, false, [], nat_eq, string_eq, length, get, put}
use jupyter_pair_ext.Base.Int.{ℤ, sub_ℕ, is_positive}
use jupyter_pair_ext.Base.Js.{codes}
use jupyter_pair_ext.Base.Codes.{Text, text_eq}
use jupyter_pair_ext.Workspace.{parents}
use jupyter_pair_ext.FileStates.{
  FileState, next_file_state, effective_file_state, effective_from, set_file_state,
  compare_file_state, compare_flags,
}
use jupyter_pair_ext.FileStates.Lifecycle.{
  Lifecycle, accept_file_state, is_superseded, is_changed, record_state, check_state,
  assert_no_conflict, has_live_path_conflict, known_paths, store_state, set_state, settle_state,
  apply_effects, is_effective, is_live, materialize_live, perform, portable_path_case_conflict,
  is_conflict_of_segments, delete_paths, delete_documents,
}
use jupyter_pair_ext.FileStates.Newest.{accepts, initially, later, next_file_state-newest}

abbrev plain_compare : String → String → ℤ
plain_compare a b = sub_ℕ (length (codes a)) (length (codes b))

abbrev same_path : Text → Text
same_path p = p

abbrev empty_session : Lifecycle
empty_session = record {
  states = [];
  counter = 4;
  documents = [];
  binaries = [];
  directories = [];
  suppressed = [];
  effects = [];
}

abbrev from_peer : FileState
from_peer = record { version = 9; author = "peer"; kind = "text"; deleted = false }

abbrev accepted : Lifecycle
accepted =
    (accept_file_state same_path plain_compare 100 (codes "n") from_peer false true true true
      empty_session).1

abbrev made : FileState
made = record { version = 10; author = "me"; kind = "text"; deleted = true }

next_file_state-newest_example :
    is_positive (compare_file_state plain_compare made from_peer) ≡ true
unfolding next_file_state effective_file_state effective_from set_file_state compare_file_state
    compare_flags parents get put accept_file_state is_superseded is_changed record_state
    check_state assert_no_conflict has_live_path_conflict known_paths store_state set_state
    settle_state apply_effects is_effective is_live materialize_live perform
    portable_path_case_conflict is_conflict_of_segments delete_paths delete_documents
next_file_state-newest_example =
    next_file_state-newest same_path plain_compare
      (later (initially empty_session refl)
        (accepts 100 (codes "n") from_peer false true true true))
      "text" true "me" 10 made refl (codes "n") from_peer refl
