-- ===== src/Tests/Hosts.antt =====
-- Clocks and coordinators (src/core/types.ts, src/core/election.ts).
use jupyter_pair_ext.Base.{
  ◌≤◌, String, ◌≡◌, refl, ◌≢◌, ◌↔◌, ◌⊎◌, true, false, none, some, [], ◌∷◌, arith, if◌then◌else◌,
  ◌==◌, nat_eq, string_eq, ok, get, put,
}
use jupyter_pair_ext.Base.Js.{get_field}
use jupyter_pair_ext.Base.Int.{ℤ, pos}
use jupyter_pair_ext.Clock.{HostClock, is_peer_id, normalize_host_clock, compare_clock}
use jupyter_pair_ext.Clock.Laws.{clock_value, IsValid}
use jupyter_pair_ext.Coordinator.{
  PeerRuntime, connected, create, upsert_peer, is_current_host, evaluate, manual_transfer,
  accept_clock, apply_announcement, host_changed, host_lost, manual,
}
use jupyter_pair_ext.Coordinator.Laws.{apply_announcement_lem, Outcome, IsLost, evaluate_lem}
use jupyter_pair_ext.Coordinator.Network.System.{
  System, Reach, start, newest_one, transfer, deliver, learn, initially, later, receive, announce,
  replace,
}
use jupyter_pair_ext.Coordinator.Network.Safety.{one_host, hosts_agree, host_ahead}

abbrev by_name : String → String → ℤ
by_name a b = if a == b then pos 0 else pos 1

abbrev first : HostClock
first = record { session_epoch = 1; host_epoch = 4; host_id = "anna" }

abbrev second : HostClock
second = record { session_epoch = 1; host_epoch = 5; host_id = "bert" }

first-IsValid : IsValid first
unfolding is_peer_id
first-IsValid = record {
  session_positive = omega arith;
  session_safe = omega arith;
  epoch_safe = omega arith;
  host_named = refl;
}

abbrev bert : PeerRuntime
bert = record {
  peer_id = "bert";
  last_heartbeat = 0;
  missed_heartbeats = 0;
  online = true;
  connection_state = some connected;
}

-- Anna learns of Bert, hands the session over to him, and the announcement reaches Bert.
abbrev met : System
met = replace (start first) "anna" (upsert_peer (create "anna" first) bert)

handed :
    manual_transfer (met.nodes "anna") "bert"
    ≡ ok (record (met.nodes "anna") { clock = second }, second, host_changed second manual ∷ [])
unfolding manual_transfer is_current_host upsert_peer create get put
handed = refl

abbrev announced : System
announced = announce met "anna" (record (met.nodes "anna") { clock = second }) second

abbrev taken_over : System
taken_over =
    replace announced "bert" (receive by_name (announced.nodes "bert") (clock_value second) "anna")

taken_over-Reach : Reach by_name first taken_over
taken_over-Reach =
    later
      (later (later initially (learn "anna" bert) tt)
        (transfer "anna" "bert" (record (met.nodes "anna") { clock = second }) second
          (host_changed second manual ∷ []) handed)
        tt)
      (deliver "bert" (record { announcer = "anna"; clock = second }) newest_one) tt

bert-is_current_host : is_current_host (taken_over.nodes "bert") ≡ true
unfolding is_current_host apply_announcement accept_clock normalize_host_clock compare_clock create
    clock_value get_field is_peer_id
bert-is_current_host = refl

one_host_example : ◌≡◌ {A = String} "bert" "bert"
one_host_example =
    one_host first by_name taken_over-Reach "bert" "bert" bert-is_current_host bert-is_current_host

hosts_agree_example :
    (taken_over.nodes "anna").clock.host_id ≡ (taken_over.nodes "bert").clock.host_id
unfolding apply_announcement normalize_host_clock clock_value get_field is_peer_id create
    compare_clock
hosts_agree_example = hosts_agree first by_name taken_over-Reach "anna" "bert" refl

host_ahead_example :
    (taken_over.nodes "anna").clock.host_epoch ≤ (taken_over.nodes "bert").clock.host_epoch
host_ahead_example = host_ahead first by_name taken_over-Reach "bert" "anna" bert-is_current_host

second-normal : normalize_host_clock (clock_value second) (some 1) ≡ some second
unfolding normalize_host_clock is_peer_id clock_value get_field
second-normal = refl

apply_announcement_lem_example : Outcome by_name (create "bert" first) (clock_value second) "anna"
apply_announcement_lem_example =
    apply_announcement_lem by_name (create "bert" first) (clock_value second) "anna"

-- Anna is not known to Bert, so Bert closes.
evaluate_lem_example :
    let (c', events) = evaluate (create "bert" first) in
    (c'.clock ≡ first)
    × (c'.peers ≡ [])
    × (c'.self_id ≡ "bert")
    × ((events ≡ host_lost ∷ [])
        ↔ ((false ≡ false) × (◌≢◌ {A = String} "anna" "bert") × IsLost none))
    × ((c'.closed ≡ true) ↔ ((false ≡ true) ⊎ (events ≡ host_lost ∷ [])))
unfolding create get
evaluate_lem_example = evaluate_lem (create "bert" first)
