-- ===== src/Execution/Delivery.antt =====
-- Delivery of a remote execution's events, message by message (src/runtime/session.ts, the cases
-- 'executionEvent' and 'executeResult').
use jupyter_pair_ext.Base.{
  ℕ, suc, ◌+◌, ◌<◌, String, ◌≡◌, refl, sym, ap, ◌∙◌, subst, ◌⊎◌, inl, inr, Bool, true, false, not,
  ◌||◌, none, some, arith, ltb, leb, if◌then◌else◌, Bool-cases, Option-cases, ◌==◌, nat_eq,
  string_eq, ok, err, length, put, has, get-put,
}
use jupyter_pair_ext.Execution.{
  Pending, reject_pending, resolve_pending, mark_accepted, deliver, drain, resolve_deferred, buffer,
  accept_event, settle_event, finish, max_replayed_execution_events,
  max_replayed_execution_event_bytes,
}
use jupyter_pair_ext.Execution.Laws.{overflow, Queue, Inv, Drained, drain-Drained, deliver-Queue}

module _ {E R : Type 0} (is_input_request : E → Bool) where
  pub reject_pending-open :
      (m : String) (p : Pending E R)
      → p.outcome ≡ none
      → reject_pending is_input_request m p ≡ record p { outcome = some (err m) }
  unfolding reject_pending
  reject_pending-open m p o = simp (o, reject_pending) refl

  pub resolve_pending-open :
      (x : R) (p : Pending E R)
      → p.outcome ≡ none
      → resolve_pending is_input_request x p ≡ record p { outcome = some (ok x); receipt = true }
  unfolding resolve_pending
  resolve_pending-open x p o = simp (o, resolve_pending) refl

  pub resolve_deferred-none :
      (p : Pending E R) → p.deferred_result ≡ none → resolve_deferred is_input_request p ≡ p
  unfolding resolve_deferred
  resolve_deferred-none p e = simp (e, resolve_deferred) refl

  pub resolve_deferred-some :
      (p : Pending E R) (x : R) (n : ℕ)
      → p.deferred_result ≡ some x
      → p.expected_event_count ≡ some n
      → resolve_deferred is_input_request p
        ≡ (if n == p.next_event_sequence then resolve_pending is_input_request x p else p)
  unfolding resolve_deferred
  resolve_deferred-some p x n e k = simp (e, k, resolve_deferred) refl

  pub buffer-cases :
      (sequence : ℕ) (event : E) (bytes : ℕ) (p : Pending E R)
      → ((has sequence p.buffered_events ≡ true)
          × (settle_event is_input_request p (buffer is_input_request sequence event bytes p) ≡ p))
        ⊎ (settle_event is_input_request p (buffer is_input_request sequence event bytes p)
            ≡ reject_pending is_input_request overflow p)
        ⊎ (settle_event is_input_request p (buffer is_input_request sequence event bytes p)
            ≡ record p {
              buffered_events = put sequence (event, bytes) p.buffered_events;
              buffered_event_bytes = p.buffered_event_bytes + bytes;
            })
  unfolding buffer settle_event
  buffer-cases sequence event bytes p = elim (Bool-cases (has sequence p.buffered_events)) [
    | inl t ↦ inl (t, simp (t, buffer, settle_event) refl)
    | inr f ↦
        elim (Bool-cases (
          leb max_replayed_execution_events (length p.buffered_events)
          || ltb max_replayed_execution_event_bytes (p.buffered_event_bytes + bytes))) [
            | inl t ↦ inr (inl (simp (f, t, buffer, settle_event) refl))
            | inr t ↦ inr (inr (simp (f, t, buffer, settle_event) refl))
          ]
  ]

module _ {E R : Type 0} (is_input_request : E → Bool) (executor : String) (f : ℕ → E) (total : ℕ)
    (r : R) where
  reject-Inv :
      (p : Pending E R)
      → Inv executor f total r p
      → p.outcome ≡ none
      → Inv executor f total r (reject_pending is_input_request overflow p)
  reject-Inv p i o =
      subst (Inv executor f total r) (sym (reject_pending-open is_input_request overflow p o))
        (record {
          queue = record {
            owned = i.queue.owned;
            in_order = i.queue.in_order;
            bounded = i.queue.bounded;
            genuine = i.queue.genuine;
            announced = i.queue.announced;
            settled = λ x h. cc h;
            failed = λ m h. cc h;
          };
          waiting = λ h. cc h;
          deferred = λ h. cc h;
        })

  resolve-Inv :
      (p : Pending E R)
      → Queue executor f total r p
      → p.outcome ≡ none
      → p.next_event_sequence ≡ total
      → Inv executor f total r (resolve_pending is_input_request r p)
  resolve-Inv p q o n =
      subst (Inv executor f total r) (sym (resolve_pending-open is_input_request r p o)) (record {
        queue = record {
          owned = q.owned;
          in_order = q.in_order;
          bounded = q.bounded;
          genuine = q.genuine;
          announced = q.announced;
          settled = λ x h. (cc h, n);
          failed = λ m h. cc h;
        };
        waiting = λ h. cc h;
        deferred = λ h. cc h;
      })

  resolve_deferred-Inv :
      (p : Pending E R)
      → Drained is_input_request executor f total r p
      → Inv executor f total r (resolve_deferred is_input_request p)
  resolve_deferred-Inv p (q, o, w) = elim (Option-cases p.deferred_result) [
    | inl e ↦
        subst (Inv executor f total r) (sym (resolve_deferred-none is_input_request p e))
          (record { queue = q; waiting = λ _. w; deferred = λ _ x h. cc (e, h) })
    | inr (x, e) ↦
        let (same, counted) = q.announced x e in
        subst (Inv executor f total r)
          (sym (resolve_deferred-some is_input_request p x total e counted))
          (elim (Bool-cases (total == p.next_event_sequence)) [
            | inl t ↦ rw (t, same) (resolve-Inv p q o ground (arith, t))
            | inr u ↦ rw u (record {
              queue = q;
              waiting = λ _. w;
              deferred = λ _ x h. ground (arith, u, q.bounded);
            })
          ])
  ]

  buffer-Inv :
      (sequence bytes : ℕ) (p : Pending E R)
      → Inv executor f total r p
      → p.outcome ≡ none
      → sequence < total
      → p.next_event_sequence < sequence
      → Inv executor f total r
          (settle_event is_input_request p (buffer is_input_request sequence (f sequence) bytes p))
  buffer-Inv sequence bytes p i o b l =
      elim (buffer-cases is_input_request sequence (f sequence) bytes p) [
        | inl (_, e) ↦ subst (Inv executor f total r) (sym e) i
        | inr (inl e) ↦ subst (Inv executor f total r) (sym e) (reject-Inv p i o)
        | inr (inr e) ↦ subst (Inv executor f total r) (sym e) (record {
          queue = record {
            owned = i.queue.owned;
            in_order = i.queue.in_order;
            bounded = i.queue.bounded;
            genuine = λ k x h. ground (
              arith,
              h,
              b,
              i.queue.genuine k x,
              get-put sequence k (f sequence, bytes) p.buffered_events,
            );
            announced = i.queue.announced;
            settled = i.queue.settled;
            failed = i.queue.failed;
          };
          waiting = λ h.
              get-put sequence p.next_event_sequence (f sequence, bytes) p.buffered_events
              ∙ ground (arith, l, i.waiting h);
          deferred = i.deferred;
        })
      ]

  pub accept_event-Inv :
      (sequence bytes : ℕ) (p : Pending E R)
      → Inv executor f total r p
      → p.outcome ≡ none
      → sequence < total
      → Inv executor f total r (
          settle_event is_input_request p
            (accept_event is_input_request sequence (f sequence) bytes p))
  unfolding accept_event settle_event deliver
  accept_event-Inv sequence bytes p i o b = elim (Bool-cases (ltb sequence p.next_event_sequence)) [
    | inl t ↦ simp (t, accept_event, settle_event) i
    | inr u ↦ elim (Bool-cases (ltb p.next_event_sequence sequence)) [
      | inl t ↦ simp (u, t, accept_event) (buffer-Inv sequence bytes p i o b ground (arith, t))
      | inr t ↦
          let same : sequence ≡ p.next_event_sequence = ground (arith, u, t) in
          simp (u, t, accept_event, settle_event)
            (resolve_deferred-Inv
              (drain is_input_request (suc (length p.buffered_events))
                (deliver is_input_request (f sequence) p))
              (drain-Drained is_input_request executor f total r (suc (length p.buffered_events))
                (deliver is_input_request (f sequence) p)
                (deliver-Queue is_input_request executor f total r (f sequence) p i.queue o
                  (ap f same) ground (arith, same, b))
                o (omega arith)))
    ]
  ]

  pub finish-Inv :
      (p : Pending E R)
      → Inv executor f total r p
      → p.outcome ≡ none
      → Inv executor f total r (finish is_input_request r (some total) p)
  unfolding finish
  finish-Inv p i o = elim (Bool-cases (ltb p.next_event_sequence total)) [
    | inl t ↦
        simp (t, finish)
          (record {
            queue = record {
              owned = i.queue.owned;
              in_order = i.queue.in_order;
              bounded = i.queue.bounded;
              genuine = i.queue.genuine;
              announced = λ x h. (cc h, refl);
              settled = i.queue.settled;
              failed = i.queue.failed;
            };
            waiting = i.waiting;
            deferred = λ _ x h. ground (arith, t);
          })
    | inr u ↦
        let no : ltb total p.next_event_sequence ≡ false = ground (arith, i.queue.bounded) in
        simp (u, no, finish) (resolve-Inv p i.queue o ground (arith, u, i.queue.bounded))
  ]

  pub mark_accepted-Inv :
      (source : String) (p : Pending E R)
      → Inv executor f total r p
      → Inv executor f total r (mark_accepted is_input_request source p)
  unfolding mark_accepted
  mark_accepted-Inv source p i = elim (Bool-cases (not (p.executor_id == source) || p.accepted)) [
    | inl t ↦ simp (t, mark_accepted) i
    | inr t ↦
        simp (t, mark_accepted)
          (record {
            queue = record {
              owned = i.queue.owned;
              in_order = i.queue.in_order;
              bounded = i.queue.bounded;
              genuine = i.queue.genuine;
              announced = i.queue.announced;
              settled = i.queue.settled;
              failed = i.queue.failed;
            };
            waiting = i.waiting;
            deferred = i.deferred;
          })
  ]
