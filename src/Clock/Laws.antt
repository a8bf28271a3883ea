-- ===== src/Clock/Laws.antt =====
-- The host clock: what normalisation lets through, and how clocks compare.
use jupyter_pair_ext.Base.{
  ℕ, ◌≤◌, ◌<◌, String, ◌≡◌, true, Option, none, some, arith, nat_eq, string_eq,
}
use jupyter_pair_ext.Base.Js.{
  whole, not_whole, max_safe_integer, Value, undefined, null, bool, num, str, arr, obj, end, field,
  get_field, natural_value?,
}
use jupyter_pair_ext.Base.Int.{ℤ, pos, negsuc, is_positive}
use jupyter_pair_ext.Clock.{
  HostClock, is_peer_id, host_clock_of, normalize_host_clock, compare_clock,
}

-- The clock as it travels in a frame.
unfoldable pub clock_value : HostClock → Value
clock_value c = obj (
    field "sessionEpoch" (num (whole (pos c.session_epoch)))
      (field "hostEpoch" (num (whole (pos c.host_epoch))) (field "hostId" (str c.host_id) end)))

-- What every clock that the program accepts satisfies.
pub record IsValid (c : HostClock) : Type 0 where
  pub session_positive : 0 < c.session_epoch
  pub session_safe : c.session_epoch ≤ max_safe_integer
  pub epoch_safe : c.host_epoch ≤ max_safe_integer
  pub host_named : is_peer_id c.host_id ≡ true

host_clock_of-IsValid :
    (session epoch : Option ℕ) (host : Value) (expected : ℕ) {c : HostClock}
    → host_clock_of session epoch host (some expected) ≡ some c
    → (session ≡ some c.session_epoch)
      × (epoch ≡ some c.host_epoch)
      × (host ≡ str c.host_id)
      × (0 < c.session_epoch)
      × (is_peer_id c.host_id ≡ true)
      × (c.session_epoch ≡ expected)
host_clock_of-IsValid (some s) (some e) (str h) expected q = ground arith
host_clock_of-IsValid none e h expected q = cc
host_clock_of-IsValid (some s) none h expected q = cc
host_clock_of-IsValid (some s) (some e) undefined expected q = cc
host_clock_of-IsValid (some s) (some e) null expected q = cc
host_clock_of-IsValid (some s) (some e) (bool b) expected q = cc
host_clock_of-IsValid (some s) (some e) (num n) expected q = cc
host_clock_of-IsValid (some s) (some e) (arr i) expected q = cc
host_clock_of-IsValid (some s) (some e) (obj f) expected q = cc

natural_value_bound : (v : Value) {n : ℕ} → natural_value? v ≡ some n → n ≤ max_safe_integer
natural_value_bound (num (whole (pos n))) h = ground arith
natural_value_bound (num (whole (negsuc n))) h = cc
natural_value_bound (num not_whole) h = cc
natural_value_bound undefined h = cc
natural_value_bound null h = cc
natural_value_bound (bool b) h = cc
natural_value_bound (str s) h = cc
natural_value_bound (arr i) h = cc
natural_value_bound (obj f) h = cc

-- Whatever arrives, a clock that normalisation returns is valid and of the expected session.
pub normalize_host_clock-IsValid :
    (v : Value) (expected : ℕ) {c : HostClock}
    → normalize_host_clock v (some expected) ≡ some c
    → IsValid c × (c.session_epoch ≡ expected)
unfolding normalize_host_clock
normalize_host_clock-IsValid (obj raw) expected {c} h =
    let (s, e, host, positive, named, same) = host_clock_of-IsValid _ _ _ expected h in
    (
      record {
        session_positive = positive;
        session_safe = natural_value_bound (get_field "sessionEpoch" raw) s;
        epoch_safe = natural_value_bound (get_field "hostEpoch" raw) e;
        host_named = named;
      },
      same,
    )
normalize_host_clock-IsValid undefined expected h = cc
normalize_host_clock-IsValid null expected h = cc
normalize_host_clock-IsValid (bool b) expected h = cc
normalize_host_clock-IsValid (num n) expected h = cc
normalize_host_clock-IsValid (str s) expected h = cc
normalize_host_clock-IsValid (arr i) expected h = cc

-- A valid clock survives the way through a frame, at a receiver of its session.
normalize-clock_value :
    (c : HostClock)
    → IsValid c
    → normalize_host_clock (clock_value c) (some c.session_epoch) ≡ some c
unfolding normalize_host_clock clock_value get_field
normalize-clock_value c v = ground arith

module _ (locale_compare : String → String → ℤ) where
  -- Within a session a later host epoch is a later clock, whatever the names of the hosts.
  pub compare_clock-later :
      (a b : HostClock)
      → a.session_epoch ≡ b.session_epoch
      → b.host_epoch < a.host_epoch
      → is_positive (compare_clock locale_compare a b) ≡ true
  unfolding compare_clock
  compare_clock-later a b s h = ground arith

-- And no other clock comes out.
pub normalize-clock_value_inv :
    (c : HostClock) (expected : ℕ) {n : HostClock}
    → normalize_host_clock (clock_value c) (some expected) ≡ some n
    → n ≡ c
unfolding normalize_host_clock clock_value get_field
normalize-clock_value_inv c expected h = ground arith
