-- ===== src/Clock.antt =====
-- src/core/types.ts: the host clock, which says who holds the authority of a session.
pub mod Laws
use jupyter_pair_ext.Base.{
  ℕ, String, Bool, false, not, ◌&&◌, ◌||◌, Option, none, some, leb, if◌then◌else◌, ◌==◌, nat_eq,
  string_eq, ◌>>=◌, ◌>>◌,
}
use jupyter_pair_ext.Base.Js.{Value, str, obj, get_field, natural_value?, matches_id}
use jupyter_pair_ext.Base.Int.{ℤ, sub_ℕ}

pub record HostClock : Type 0 where
  pub session_epoch : ℕ
  pub host_epoch : ℕ
  pub host_id : String

-- PEER_ID_PATTERN
unfoldable pub is_peer_id : String → Bool
is_peer_id s = matches_id 128 s

-- `normalizeHostClock`, after its tests that the value is an object: the three fields are read,
-- and each is tested.
abbrev host_clock_of : Option ℕ → Option ℕ → Value → Option ℕ → Option HostClock
host_clock_of (some session) (some epoch) (str host) expected =
    if (leb session 0 || not (is_peer_id host))
      || elim expected [ none ↦ false | some e ↦ not (session == e) ]
    then none
    else some (record { session_epoch = session; host_epoch = epoch; host_id = host })
host_clock_of _ _ _ _ = none

unfoldable pub normalize_host_clock : Value → Option ℕ → Option HostClock
normalize_host_clock (obj raw) expected =
    host_clock_of (natural_value? (get_field "sessionEpoch" raw))
      (natural_value? (get_field "hostEpoch" raw)) (get_field "hostId" raw) expected
normalize_host_clock _ expected = none

-- `localeCompare` belongs to the runtime: it is a parameter.
module _ (locale_compare : String → String → ℤ) where
  unfoldable pub compare_clock : HostClock → HostClock → ℤ
  compare_clock a b =
      if not (a.session_epoch == b.session_epoch)
      then sub_ℕ a.session_epoch b.session_epoch
      else if not (a.host_epoch == b.host_epoch)
      then sub_ℕ a.host_epoch b.host_epoch
      else locale_compare a.host_id b.host_id

-- `sameClock` of src/runtime/session.ts
unfoldable pub same_clock : HostClock → HostClock → Bool
same_clock a b =
    a.session_epoch == b.session_epoch && a.host_epoch == b.host_epoch && a.host_id == b.host_id
