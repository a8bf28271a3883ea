-- ===== src/Tests/Admissions.antt =====
-- Frames, routes, permissions and the queue of executions (src/runtime/mesh.ts,
-- src/runtime/routeScoring.ts, src/core/permissions.ts, src/core/executionQueue.ts).
use jupyter_pair_ext.Base.{
  ℕ, ◌*◌, ◌≤◌, String, ◌≡◌, refl, true, false, none, some, List, [], ◌∷◌, nat_eq, string_eq, length,
  get, put,
}
use jupyter_pair_ext.Base.Int.{pos}
use mathlib.Core.List.Memᴰ.{head}
use jupyter_pair_ext.Base.Js.{codes}
use jupyter_pair_ext.Base.Codes.{Text}
use jupyter_pair_ext.ProjectPath.{
  safe_relative_path, byte_length, utf8_bytes, has_control_characters, is_format_character,
  is_portable_path_segment, ends_badly, is_device_name, before_dot, is_numbered_device,
}
use jupyter_pair_ext.Admission.{
  Inbound, count_message, exceeds, accept_inbound_rate, max_total_inbound_bytes,
}
use jupyter_pair_ext.Admission.Rate.{Arrival, accepted_bytes, accepted_bytes-bounded}
use jupyter_pair_ext.RouteScoring.{
  direct, RouteQuality, should_migrate_route, both_direct, is_meaningful,
  should_migrate_route_asymmetric,
}
use jupyter_pair_ext.Permissions.{
  ParticipantPermissions, selected_files, read_terminal, grants, directory_of, may_edit, may_move,
  may_change_entries, may_change_tree, relocated, may_change_tree-each,
}
use jupyter_pair_ext.ExecutionQueue.{QueueLimits, ExecutionQueue, pending_of, enqueue}
use jupyter_pair_ext.ExecutionQueue.Counts.{accept, initially, later, count, enqueue-counts}

abbrev quiet : Inbound
quiet = record { windows = []; global_window = record { started_at = 0; bytes = 0; messages = 0 } }

abbrev flood : List Arrival
flood =
    record { at = 5000; peer = "anna"; bytes = 40 * 1024 * 1024 }
    ∷ record { at = 5001; peer = "anna"; bytes = 40 * 1024 * 1024 }
    ∷ record { at = 5002; peer = "anna"; bytes = 40 * 1024 * 1024 }
    ∷ []

-- two frames of the peer are accepted, and the third is refused
flood_accepted : accepted_bytes flood quiet ≡ 2 * 40 * 1024 * 1024
unfolding accepted_bytes accept_inbound_rate count_message exceeds get put
flood_accepted = refl

accepted_bytes-bounded_example : accepted_bytes flood quiet ≤ 2 * max_total_inbound_bytes
accepted_bytes-bounded_example = accepted_bytes-bounded 5000 flood quiet refl

abbrev slow : RouteQuality
slow = record { kind = direct; rtt = pos 100; recent_failures = 0 }

abbrev fast : RouteQuality
fast = record { kind = direct; rtt = pos 70; recent_failures = 0 }

fast-better : (should_migrate_route slow fast).0 ≡ true
unfolding should_migrate_route both_direct is_meaningful
fast-better = refl

should_migrate_route_asymmetric_example : (should_migrate_route fast slow).0 ≡ false
should_migrate_route_asymmetric_example = should_migrate_route_asymmetric slow fast fast-better

abbrev same_text : Text → Text
same_text s = s

abbrev student : ParticipantPermissions
student = record {
  edit = selected_files;
  paths = codes "mine/" ∷ codes "out/" ∷ [];
  execute = true;
  terminal = read_terminal;
  comment = true;
}

tree-allowed :
    may_change_tree same_text student
      (codes "mine/a")
      (codes "mine/a/x" ∷ [])
      (some (codes "out/a"))
    ≡ true
unfolding may_change_tree may_change_entries may_move relocated may_edit grants directory_of
    safe_relative_path byte_length utf8_bytes has_control_characters is_format_character
    is_portable_path_segment ends_badly is_device_name before_dot is_numbered_device
tree-allowed = refl

may_change_tree-each_example :
    (may_edit same_text student (codes "mine/a") ≡ true)
    × (may_edit same_text student (codes "out/a") ≡ true)
    × (may_edit same_text student (codes "mine/a/x") ≡ true)
    × (may_edit same_text student (codes "out/a/x") ≡ true)
may_change_tree-each_example =
    may_change_tree-each same_text student (codes "mine/a") (codes "mine/a/x" ∷ []) (codes "out/a")
      (codes "mine/a/x") tree-allowed (head refl) refl

abbrev limits : QueueLimits
limits = record { maximum_per_notebook = 1; maximum_total = 2 }

abbrev busy : ExecutionQueue
busy = record { tails = ("nb", 7) ∷ []; pending = ("nb", 1) ∷ []; total_pending = 1 }

abbrev one_task : List (String × ℕ)
one_task = ("nb", 7) ∷ []

busy-accepted :
    enqueue limits "nb" 7 (record { tails = []; pending = []; total_pending = 0 })
    ≡ some (busy, none)
unfolding enqueue get put
busy-accepted = refl

enqueue-counts_example :
    (pending_of "nb" busy ≡ count "nb" one_task)
    × (1 ≡ length one_task)
    × (pending_of "nb" busy ≤ 1)
    × (1 ≤ 2)
enqueue-counts_example =
    enqueue-counts limits (later initially (accept "nb" 7 busy none busy-accepted)) "nb"
