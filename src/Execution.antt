-- ===== src/Execution.antt =====
-- The requester's side of a remote notebook execution, of src/runtime/session.ts: a
-- `PendingExecution`, the `executionEvent` and `executeResult` cases of the message handler, and
-- the functions that deliver events and settle the request.
--
-- One request is followed. Its entry is in `pendingExecutions` while `outcome` is `none`; the
-- promise's `resolve` and `reject` set the outcome. `onEvent` is a log, `delivered`, newest event
-- last; it is taken not to throw. The payloads are decoded before: a payload that the decoder
-- refuses is `none`. Timers, diagnostics and the acknowledgements that are sent are left out;
-- `receipt` is true when the completed execution's receipt is remembered.
use jupyter_pair_ext.Base.{
  ℕ, zero, suc, ◌+◌, ◌-◌, ◌*◌, String, Bool, true, not, ◌||◌, Option, none, some, List, [], ◌∷◌,
  ◌++◌, ltb, leb, if◌then◌else◌, ◌==◌, nat_eq, string_eq, Result, ok, err, ◌>>=◌, ◌>>◌, is_some,
  length, Map, get, put, remove, has,
}
use jupyter_pair_ext.Base.Js.{Number, whole, not_whole, max_safe_integer}
use jupyter_pair_ext.Base.Int.{pos, negsuc}
pub mod Laws
pub mod Delivery
mod Covered
pub mod Stream
pub mod Full
pub mod Complete

abbrev pub max_replayed_execution_events : ℕ
max_replayed_execution_events = 2048

abbrev pub max_replayed_execution_event_bytes : ℕ
max_replayed_execution_event_bytes = 32 * 1024 * 1024

pub record Pending (E R : Type 0) : Type 0 where
  pub executor_id : String
  pub accepted : Bool
  pub next_event_sequence : ℕ
  pub buffered_events : Map ℕ (E × ℕ)
  pub buffered_event_bytes : ℕ
  pub input_request_sequence : Option ℕ
  pub deferred_result : Option R
  pub expected_event_count : Option ℕ
  pub delivered : List E
  pub outcome : Option (Result String R)
  pub receipt : Bool

-- `boundedNumber(value, 0, maximum, true)`
unfoldable pub bounded_natural : Number → ℕ → Option ℕ
bounded_natural (whole (pos n)) maximum = if leb n maximum then some n else none
bounded_natural (whole (negsuc n)) maximum = none
bounded_natural not_whole maximum = none

module _ {E R : Type 0} (is_input_request : E → Bool) where
  unfoldable pub reject_pending : String → Pending E R → Pending E R
  reject_pending message p =
      if is_some p.outcome then p else record p { outcome = some (err message) }

  -- settles the request and remembers the receipt
  unfoldable pub resolve_pending : R → Pending E R → Pending E R
  resolve_pending result p =
      if is_some p.outcome then p else record p { outcome = some (ok result); receipt = true }

  -- `markRemoteExecutionAccepted`
  unfoldable pub mark_accepted : String → Pending E R → Pending E R
  mark_accepted source p =
      if not (p.executor_id == source) || p.accepted then p else record p { accepted = true }

  -- an event is handed on, and the next one is awaited
  unfoldable pub deliver : E → Pending E R → Pending E R
  deliver event p = record p {
    input_request_sequence =
        if is_input_request event then some p.next_event_sequence else p.input_request_sequence;
    delivered = p.delivered ++ (event ∷ []);
    next_event_sequence = p.next_event_sequence + 1;
  }

  -- the event that is awaited leaves the buffer
  unfoldable pub unbuffer : ℕ → Pending E R → Pending E R
  unbuffer bytes p = record p {
    buffered_events = remove p.next_event_sequence p.buffered_events;
    buffered_event_bytes = p.buffered_event_bytes - bytes;
  }

  -- the `while (true)` loop
  unfoldable pub drain : ℕ → Pending E R → Pending E R
  drain zero p = p
  drain (suc fuel) p = elim (get p.next_event_sequence p.buffered_events) [
    | none ↦ p
    | some (event, bytes) ↦ drain fuel (deliver event (unbuffer bytes p))
  ]

  -- the last statement of `acceptRemoteExecutionEvent`
  unfoldable pub resolve_deferred : Pending E R → Pending E R
  resolve_deferred p = elim p.deferred_result [
    | none ↦ p
    | some result ↦ elim p.expected_event_count [
      | none ↦ p
      | some count ↦ if count == p.next_event_sequence then resolve_pending result p else p
    ]
  ]

  unfoldable pub buffer : ℕ → E → ℕ → Pending E R → Result String (Pending E R)
  buffer sequence event bytes p =
      if has sequence p.buffered_events
      then ok p
      else if leb max_replayed_execution_events (length p.buffered_events)
          || ltb max_replayed_execution_event_bytes (p.buffered_event_bytes + bytes)
      then err "Remote Jupyter event replay exceeded its bounded receive queue."
      else ok (record p {
        buffered_events = put sequence (event, bytes) p.buffered_events;
        buffered_event_bytes = p.buffered_event_bytes + bytes;
      })

  -- The loop is given one round for each buffered event and one for leaving.
  unfoldable pub accept_event : ℕ → E → ℕ → Pending E R → Result String (Pending E R)
  accept_event sequence event bytes p =
      if ltb sequence p.next_event_sequence
      then ok p
      else if ltb p.next_event_sequence sequence
      then buffer sequence event bytes p
      else ok (resolve_deferred (drain (suc (length p.buffered_events)) (deliver event p)))

  unfoldable pub settle_event : Pending E R → Result String (Pending E R) → Pending E R
  settle_event p (ok q) = q
  settle_event p (err message) = reject_pending message p

  -- case 'executionEvent'
  unfoldable pub on_execution_event :
      String → Option (E × ℕ) → Option Number → Pending E R → Pending E R
  on_execution_event source decoded raw_sequence p =
      if is_some p.outcome || not (p.executor_id == source)
      then p
      else let q = mark_accepted source p in
        elim decoded [
          | none ↦ reject_pending "Remote executor sent a malformed Jupyter event." q
          | some (event, bytes) ↦ elim raw_sequence [
            | none ↦ record q { delivered = q.delivered ++ (event ∷ []) }
            | some raw ↦ elim (bounded_natural raw max_safe_integer) [
              | none ↦ reject_pending "Remote executor sent an invalid Jupyter event sequence." q
              | some sequence ↦ settle_event q (accept_event sequence event bytes q)
            ]
          ]
        ]

  -- the branches of a result that was decoded, by the event count
  unfoldable pub finish : R → Option ℕ → Pending E R → Pending E R
  finish result none p = resolve_pending result p
  finish result (some count) p =
      if ltb p.next_event_sequence count
      then record p { deferred_result = some result; expected_event_count = some count }
      else if ltb count p.next_event_sequence
      then reject_pending "Remote executor sent an inconsistent event count." p
      else resolve_pending result p

  -- case 'executeResult'; of a request that is settled nothing changes
  unfoldable pub on_execute_result : String → Option R → Option Number → Pending E R → Pending E R
  on_execute_result source decoded raw_count p =
      if is_some p.outcome || not (p.executor_id == source) then p else elim decoded [
        | none ↦ reject_pending "Remote executor sent a malformed execution result." p
        | some result ↦ elim raw_count [
          | none ↦ finish result none p
          | some raw ↦ elim (bounded_natural raw max_replayed_execution_events) [
            | none ↦ reject_pending "Remote executor sent an invalid event count." p
            | some count ↦ finish result (some count) p
          ]
        ]
      ]
