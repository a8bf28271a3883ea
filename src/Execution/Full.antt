-- ===== src/Execution/Full.antt =====
-- When the receive queue of a remote execution is full (src/runtime/session.ts,
-- `acceptRemoteExecutionEvent`).
use jupyter_pair_ext.Base.{
  ℕ, zero, suc, ◌+◌, ◌≤◌, ◌<◌, String, ◌≡◌, refl, sym, ap, ◌∙◌, subst, ◌≢◌, ◌⊎◌, inl, inr, Bool,
  true, false, ◌||◌, none, some, List, [], ◌∷◌, arith, ltb, leb, Bool-cases, Option-cases, ◌==◌,
  nat_eq, string_eq, Result, err, length, All, get, has,
}
use jupyter_pair_ext.Base.Js.{whole}
use jupyter_pair_ext.Base.Int.{pos}
use mathlib.Core.List.{Memᴰ}
use mathlib.Core.List.Memᴰ.{head, tail}
use jupyter_pair_ext.Execution.{
  Pending, max_replayed_execution_events, max_replayed_execution_event_bytes, reject_pending,
  mark_accepted, deliver, unbuffer, drain, resolve_deferred, buffer, accept_event, settle_event,
  finish,
}
use jupyter_pair_ext.Execution.Laws.{overflow}
use jupyter_pair_ext.Execution.Delivery.{reject_pending-open, resolve_pending-open}
use jupyter_pair_ext.Execution.Stream.{
  Message, execution_event, execute_result, on_message, on_messages, Genuine, numbered, counted,
  other_event, other_result, Good, on_message-Kept, settled-ignored, on_execution_event-own,
  on_execute_result-own, stranger-ignored, mark_accepted-fields,
}

-- There is no room for an event of so many bytes.
abbrev pub IsFull : {E R : Type 0} → ℕ → Pending E R → Type 0
IsFull bytes p =
    (max_replayed_execution_events ≤ length p.buffered_events)
    ⊎ (max_replayed_execution_event_bytes < p.buffered_event_bytes + bytes)

-- if the request has failed for want of room, there is none
abbrev Justified : {E R : Type 0} → ℕ → Pending E R → Type 0
Justified bytes d = d.outcome ≡ some (err overflow) → IsFull bytes d

module _ {E R : Type 0} (is_input_request : E → Bool) where
  IsFull-test :
      (bytes : ℕ) (p : Pending E R)
      → (leb max_replayed_execution_events (length p.buffered_events)
          || ltb max_replayed_execution_event_bytes (p.buffered_event_bytes + bytes))
        ≡ true
      → IsFull bytes p
  IsFull-test bytes p h =
      elim (Bool-cases (leb max_replayed_execution_events (length p.buffered_events))) [
        | inl t ↦ inl ground (arith, t)
        | inr f ↦ inr ground (arith, f, h)
      ]

  buffer-Justified :
      (sequence : ℕ) (event : E) (bytes : ℕ) (p : Pending E R)
      → p.outcome ≡ none
      → Justified bytes
          (settle_event is_input_request p (buffer is_input_request sequence event bytes p))
  unfolding buffer settle_event
  buffer-Justified sequence event bytes p o = elim (Bool-cases (has sequence p.buffered_events)) [
    | inl t ↦ simp (t, buffer, settle_event) (λ h. cc (h, o))
    | inr f ↦
        elim (Bool-cases (
          leb max_replayed_execution_events (length p.buffered_events)
          || ltb max_replayed_execution_event_bytes (p.buffered_event_bytes + bytes))) [
            | inl t ↦
                let e : settle_event is_input_request p
                      (buffer is_input_request sequence event bytes p)
                    ≡ reject_pending is_input_request overflow p =
                  simp (f, t, buffer, settle_event) refl in
                subst (Justified bytes)
                  (sym (e ∙ reject_pending-open is_input_request overflow p o))
                  (λ h. IsFull-test bytes p t)
            | inr t ↦ simp (f, t, buffer, settle_event) (λ h. cc (h, o))
          ]
  ]

  drain-outcome : (fuel : ℕ) (p : Pending E R) → (drain is_input_request fuel p).outcome ≡ p.outcome
  unfolding drain deliver unbuffer
  drain-outcome zero p = refl
  drain-outcome (suc fuel) p = elim (Option-cases (get p.next_event_sequence p.buffered_events)) [
    | inl e ↦ simp (e, drain) refl
    | inr ((event, bytes), e) ↦
        simp (e, drain)
          (drain-outcome fuel (deliver is_input_request event (unbuffer is_input_request bytes p)))
  ]

  deferred-fine :
      (p : Pending E R) (m : String)
      → p.outcome ≡ none
      → (resolve_deferred is_input_request p).outcome ≢ some (err m)
  unfolding resolve_deferred
  deferred-fine p m o = elim (Option-cases p.deferred_result) [
    | inl e ↦ simp (e, resolve_deferred) (λ h. cc (h, o))
    | inr (x, e) ↦ elim (Option-cases p.expected_event_count) [
      | inl k ↦ simp (e, k, resolve_deferred) (λ h. cc (h, o))
      | inr (n, k) ↦ elim (Bool-cases (n == p.next_event_sequence)) [
        | inl t ↦
            simp (e, k, t, resolve_deferred)
              (λ h. cc (
                sym (
                  ap (λ (d : Pending E R). d.outcome) (resolve_pending-open is_input_request x p o))
                ∙ h))
        | inr f ↦ simp (e, k, f, resolve_deferred) (λ h. cc (h, o))
      ]
    ]
  ]

  accept_event-Justified :
      (sequence : ℕ) (event : E) (bytes : ℕ) (p : Pending E R)
      → p.outcome ≡ none
      → Justified bytes
          (settle_event is_input_request p (accept_event is_input_request sequence event bytes p))
  unfolding accept_event settle_event deliver
  accept_event-Justified sequence event bytes p o =
      elim (Bool-cases (ltb sequence p.next_event_sequence)) [
        | inl t ↦ simp (t, accept_event, settle_event) (λ h. cc (h, o))
        | inr u ↦ elim (Bool-cases (ltb p.next_event_sequence sequence)) [
          | inl t ↦ simp (u, t, accept_event) (buffer-Justified sequence event bytes p o)
          | inr t ↦
              let d =
                drain is_input_request (suc (length p.buffered_events))
                  (deliver is_input_request event p) in
              let running : d.outcome ≡ none =
                drain-outcome (suc (length p.buffered_events)) (deliver is_input_request event p)
                ∙ o in
              simp (u, t, accept_event, settle_event)
                (λ h. elim (deferred-fine d overflow running h) [ ])
        ]
      ]

  finish-fine :
      (r : R) (total : ℕ) (p : Pending E R) (m : String)
      → p.outcome ≡ none
      → p.next_event_sequence ≤ total
      → (finish is_input_request r (some total) p).outcome ≢ some (err m)
  unfolding finish
  finish-fine r total p m o b =
      let ordered : ltb total p.next_event_sequence ≡ false = ground (arith, b) in
      elim (Bool-cases (ltb p.next_event_sequence total)) [
        | inl t ↦ simp (t, finish) (λ h. cc (h, o))
        | inr f ↦
            simp (f, ordered, finish)
              (λ h. cc (
                sym (
                  ap (λ (d : Pending E R). d.outcome) (resolve_pending-open is_input_request r p o))
                ∙ h))
      ]

module _ {E R : Type 0} (executor : String) (f : ℕ → E) where
  -- One of the messages is an event of the executor for which the request has no room.
  pub record NoRoom (ms : List (Message E R)) (p : Pending E R) : Type 0 where
    pub sequence : ℕ
    pub bytes : ℕ
    pub came :
        Memᴰ (execution_event executor (some (f sequence, bytes)) (some (whole (pos sequence)))) ms
    pub full : IsFull bytes p

module _ {E R : Type 0} (is_input_request : E → Bool) (executor : String) (f : ℕ → E) (total : ℕ)
    (r : R) (small : total ≤ max_replayed_execution_events) where
  message-NoRoom :
      (m : Message E R) (ms : List (Message E R)) (p : Pending E R)
      → Genuine executor f total r m
      → Good is_input_request executor f total r small p
      → p.outcome ≡ none
      → (on_message is_input_request m p).outcome ≡ some (err overflow)
      → NoRoom executor f (m ∷ ms) (on_message is_input_request m p)
  unfolding on_message
  message-NoRoom (execution_event source decoded raw) ms p (numbered {s} {bytes} l) i o h =
      let q = mark_accepted is_input_request executor p in
      let (same, more) =
        mark_accepted-fields is_input_request executor f total r small executor p in
      let e =
        on_execution_event-own is_input_request executor f total r small s bytes p i.queue.owned o
          l in
      record {
        sequence = s;
        bytes = bytes;
        came = head refl;
        full =
            subst (Justified bytes) (sym e)
              (accept_event-Justified is_input_request s (f s) bytes q (same ∙ o)) h;
      }
  message-NoRoom (execution_event source decoded raw) ms p (other_event n) i o h =
      let e =
        (stranger-ignored is_input_request executor f total r small p source i.queue.owned n).0
          decoded raw in
      let h' : p.outcome ≡ some (err overflow) = sym (ap (λ (d : Pending E R). d.outcome) e) ∙ h in
      cc (h', o)
  message-NoRoom (execute_result source decoded raw) ms p counted i o h =
      let e = on_execute_result-own is_input_request executor f total r small p i.queue.owned o in
      elim (finish-fine is_input_request r total p overflow o i.queue.bounded
        (sym (ap (λ (d : Pending E R). d.outcome) e) ∙ h)) [ ]
  message-NoRoom (execute_result source decoded raw) ms p (other_result n) i o h =
      let e =
        (stranger-ignored is_input_request executor f total r small p source i.queue.owned n).1
          decoded raw in
      let h' : p.outcome ≡ some (err overflow) = sym (ap (λ (d : Pending E R). d.outcome) e) ∙ h in
      cc (h', o)

  pub settled-run :
      (ms : List (Message E R)) (p : Pending E R) (x : Result String R)
      → p.outcome ≡ some x
      → on_messages is_input_request ms p ≡ p
  unfolding on_messages
  settled-run [] p x o = refl
  settled-run (m ∷ ms) p x o =
      rw (settled-ignored is_input_request executor f total r small m p x o) (settled-run ms p x o)

  pub run-NoRoom :
      (ms : List (Message E R)) (p : Pending E R)
      → All (Genuine executor f total r) ms
      → Good is_input_request executor f total r small p
      → p.outcome ≡ none
      → (on_messages is_input_request ms p).outcome ≡ some (err overflow)
      → NoRoom executor f ms (on_messages is_input_request ms p)
  unfolding on_messages
  run-NoRoom [] p g i o h = cc (h, o)
  run-NoRoom (m ∷ ms) p (g, gs) i o h =
      let q = on_message is_input_request m p in
      elim (Option-cases q.outcome) [
        | inl running ↦
            let kept = on_message-Kept is_input_request executor f total r small m p g i in
            let n = run-NoRoom ms q gs kept.0 running h in
            record { sequence = n.sequence; bytes = n.bytes; came = tail n.came; full = n.full }
        | inr (x, settled) ↦
            let e = settled-run ms q x settled in
            let h' : q.outcome ≡ some (err overflow) =
              sym (ap (λ (d : Pending E R). d.outcome) e) ∙ h in
            subst (NoRoom executor f (m ∷ ms)) (sym e) (message-NoRoom m ms p g i o h')
      ]
