-- ===== src/Coordinator/Network/System.antt =====
-- The state of all participants and its steps.
use jupyter_pair_ext.Base.{
  ℕ, String, ◌≡◌, refl, ◌≢◌, ◌⊎◌, inl, inr, true, List, [], ◌∷◌, if◌then◌else◌, ◌==◌, nat_eq,
  string_eq, ok,
}
use jupyter_pair_ext.Base.Js.{Value}
use jupyter_pair_ext.Base.Int.{ℤ}
use jupyter_pair_ext.Clock.{HostClock}
use jupyter_pair_ext.Clock.Laws.{clock_value}
use jupyter_pair_ext.Coordinator.{
  PeerRuntime, Coordinator, Event, upsert_peer, mark_heartbeat, mark_disconnected, evaluate,
  manual_transfer, apply_announcement, create,
}

abbrev pub update : (String → Coordinator) → String → Coordinator → String → Coordinator
update nodes i c j = if i == j then c else nodes j

-- An announcement and who sent it.
pub record Announcement : Type 0 where
  pub announcer : String
  pub clock : HostClock

-- `hosts` and `newest` record who was made the host of each epoch, for the statements: no step
-- reads them.
pub record System : Type 0 where
  pub nodes : String → Coordinator
  pub sent : List Announcement
  pub hosts : ℕ → String
  pub newest : ℕ

abbrev pub record_host : (ℕ → String) → ℕ → String → ℕ → String
record_host hosts epoch host e = if epoch == e then host else hosts e

abbrev pub announce : System → String → Coordinator → HostClock → System
announce s i c next = record {
  nodes = update s.nodes i c;
  sent = record { announcer = i; clock = next } ∷ s.sent;
  hosts = record_host s.hosts next.host_epoch next.host_id;
  newest = next.host_epoch;
}

abbrev pub replace : System → String → Coordinator → System
replace s i c = record s { nodes = update s.nodes i c }

pub data IsSent (m : Announcement) : List Announcement → Type 0 where
  newest_one : {ms : List Announcement} → IsSent m (m ∷ ms)
  earlier : {n : Announcement} {ms : List Announcement} → IsSent m ms → IsSent m (n ∷ ms)

pub IsSent-cons :
    {m n : Announcement} {ms : List Announcement} → IsSent m (n ∷ ms) → (m ≡ n) ⊎ IsSent m ms
IsSent-cons newest_one = inl refl
IsSent-cons (earlier q) = inr q

-- At the start every participant holds the clock of its invitation.
abbrev pub start : HostClock → System
start clock = record {
  nodes = λ i. create i clock;
  sent = [];
  hosts = λ _. clock.host_id;
  newest = clock.host_epoch;
}

module _ (locale_compare : String → String → ℤ) where
  -- What a participant makes of an announcement.
  abbrev pub receive : Coordinator → Value → String → Coordinator
  receive c incoming announcer = (apply_announcement locale_compare c incoming announcer).0

  pub data Step (s : System) : System → Type 0 where
    -- `manualTransfer`
    transfer :
        (i target : String) (c : Coordinator) (next : HostClock) (events : List Event)
        → manual_transfer (s.nodes i) target ≡ ok (c, next, events)
        → Step s (announce s i c next)
    -- the commit in `transferHost`: the host's own coordinator is told of the clock that was
    -- agreed on, and the clock is broadcast whether the coordinator has accepted it or not
    commit :
        (i : String) (next : HostClock)
        → Step s (announce s i (receive (s.nodes i) (clock_value next) i) next)
    -- an announcement arrives
    deliver :
        (i : String) (m : Announcement)
        → IsSent m s.sent
        → Step s (replace s i (receive (s.nodes i) (clock_value m.clock) m.announcer))
    -- anything at all arrives from any peer
    forge :
        (i announcer : String) (v : Value) → Step s (replace s i (receive (s.nodes i) v announcer))
    learn : (i : String) (peer : PeerRuntime) → Step s (replace s i (upsert_peer (s.nodes i) peer))
    hear :
        (i peer_id : String) (at : ℕ) → Step s (replace s i (mark_heartbeat (s.nodes i) peer_id at))
    lose : (i peer_id : String) → Step s (replace s i (mark_disconnected (s.nodes i) peer_id))
    check : (i : String) → Step s (replace s i (evaluate (s.nodes i)).0)

  -- What the participants have to keep to: a transfer is committed only where the host's own
  -- coordinator accepts its clock, and made-up announcements come only from peers that their
  -- receiver does not take for its host.
  abbrev pub IsOrderly : {s t : System} → Step s t → Type 0
  IsOrderly {s} (transfer i target c next events e) = Unit {0}
  IsOrderly {s} (commit i next) =
      (apply_announcement locale_compare (s.nodes i) (clock_value next) i).1 ≡ true
  IsOrderly {s} (deliver i m q) = Unit {0}
  IsOrderly {s} (forge i announcer v) = announcer ≢ (s.nodes i).clock.host_id
  IsOrderly {s} (learn i peer) = Unit {0}
  IsOrderly {s} (hear i p at) = Unit {0}
  IsOrderly {s} (lose i p) = Unit {0}
  IsOrderly {s} (check i) = Unit {0}

  -- the states that orderly steps lead to
  pub data Reach (clock : HostClock) : System → Type 0 where
    initially : Reach clock (start clock)
    later : {s t : System} → Reach clock s → (st : Step s t) → IsOrderly st → Reach clock t
