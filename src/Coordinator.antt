-- ===== src/Coordinator.antt =====
-- src/core/election.ts: `SessionCoordinator`, one for each participant of a session. Events that
-- the source emits are returned; the fields of a peer that the coordinator never reads (names,
-- latencies, route) are left out of `PeerRuntime`.
pub mod Laws
pub mod Network
use jupyter_pair_ext.Base.{
  ℕ, ◌+◌, String, Bool, true, false, not, ◌&&◌, ◌||◌, Option, none, some, List, [], ◌∷◌,
  if◌then◌else◌, ◌==◌, nat_eq, string_eq, Result, ok, ◌>>=◌, ◌>>◌, throw_if, Map, get, put,
}
use jupyter_pair_ext.Base.Js.{Value}
use jupyter_pair_ext.Base.Int.{ℤ, is_positive}
use jupyter_pair_ext.Clock.{HostClock, normalize_host_clock, compare_clock}

pub data ConnectionState : Type 0 where
  connected recovering disconnected : ConnectionState

pub record PeerRuntime : Type 0 where
  pub peer_id : String
  pub last_heartbeat : ℕ
  pub missed_heartbeats : ℕ
  pub online : Bool
  pub connection_state : Option ConnectionState

pub record Coordinator : Type 0 where
  pub self_id : String
  pub peers : Map String PeerRuntime
  pub clock : HostClock
  pub closed : Bool

pub data Reason : Type 0 where
  manual remote : Reason

pub data Event : Type 0 where
  host_changed : HostClock → Reason → Event
  host_lost : Event

pub data TransferError : Type 0 where
  not_host target_offline : TransferError

unfoldable pub create : String → HostClock → Coordinator
create self_id clock = record { self_id = self_id; peers = []; clock = clock; closed = false }

unfoldable pub upsert_peer : Coordinator → PeerRuntime → Coordinator
upsert_peer c peer = record c { peers = put peer.peer_id peer c.peers }

unfoldable pub mark_heartbeat : Coordinator → String → ℕ → Coordinator
mark_heartbeat c peer_id at = elim (get peer_id c.peers) [
  | none ↦ c
  | some peer ↦
      let peer' = record peer { last_heartbeat = at; online = true; missed_heartbeats = 0 } in
      record c { peers = put peer_id peer' c.peers }
]

unfoldable pub mark_disconnected : Coordinator → String → Coordinator
mark_disconnected c peer_id = elim (get peer_id c.peers) [
  | none ↦ c
  | some peer ↦
      let peer' = record peer { online = false; connection_state = some disconnected } in
      record c { peers = put peer_id peer' c.peers }
]

unfoldable pub is_current_host : Coordinator → Bool
is_current_host c = c.clock.host_id == c.self_id && not c.closed

abbrev pub is_state : ConnectionState → Option ConnectionState → Bool
is_state recovering (some recovering) = true
is_state disconnected (some disconnected) = true
is_state connected (some connected) = true
is_state _ _ = false

-- `host?.connectionState === 'recovering'`
abbrev pub is_recovering : Option PeerRuntime → Bool
is_recovering none = false
is_recovering (some host) = is_state recovering host.connection_state

abbrev pub hard_loss : Option PeerRuntime → Bool
hard_loss none = true
hard_loss (some host) = is_state disconnected host.connection_state || not host.online

unfoldable pub evaluate : Coordinator → Coordinator × List Event
evaluate c =
    let host = get c.clock.host_id c.peers in
    if c.closed || c.clock.host_id == c.self_id
    then (c, [])
    else if is_recovering host
    then (c, [])
    else if not (hard_loss host)
    then (c, [])
    else (record c { closed = true }, host_lost ∷ [])

-- `target?.online`
abbrev pub is_online : Option PeerRuntime → Bool
is_online none = false
is_online (some peer) = peer.online

unfoldable pub manual_transfer :
    Coordinator → String → Result TransferError (Coordinator × HostClock × List Event)
unfolding is_current_host
manual_transfer c target = do
  throw_if (not (is_current_host c)) not_host
  throw_if (not (is_online (get target c.peers))) target_offline
  let next = record (c.clock) { host_epoch = c.clock.host_epoch + 1; host_id = target }
  ok (record c { clock = next }, next, host_changed next manual ∷ [])

module _ (locale_compare : String → String → ℤ) where
  -- `compareClock(normalized, this.clock) <= 0` is `not (is_positive …)`.
  unfoldable pub accept_clock :
      Coordinator → Option HostClock → String → Coordinator × Bool × List Event
  accept_clock c none announcer = (c, false, [])
  accept_clock c (some normalized) announcer =
      if not (announcer == c.clock.host_id)
        || not (normalized.host_epoch == c.clock.host_epoch + 1)
        || not (is_positive (compare_clock locale_compare normalized c.clock))
      then (c, false, [])
      else (record c { clock = normalized }, true, host_changed normalized remote ∷ [])

  unfoldable pub apply_announcement : Coordinator → Value → String → Coordinator × Bool × List Event
  unfolding accept_clock
  apply_announcement c incoming announcer =
      accept_clock c (normalize_host_clock incoming (some c.clock.session_epoch)) announcer
