-- ===== src/Execution/Covered.antt =====
-- No event that came is lost (src/runtime/session.ts, `acceptRemoteExecutionEvent`).
use jupyter_pair_ext.Base.{
  ℕ, zero, suc, ◌+◌, String, ◌≡◌, refl, sym, subst, ◌≢◌, inl, inr, Bool, true, Option, none, some,
  arith, ltb, Bool-cases, Option-cases, ◌==◌, nat_eq, string_eq, Result, ok, err, is_some, length,
  get, put, get-put, get-remove,
}
use jupyter_pair_ext.Execution.{
  Pending, reject_pending, resolve_pending, deliver, unbuffer, drain, resolve_deferred, buffer,
  accept_event, settle_event, finish,
}
use jupyter_pair_ext.Execution.Laws.{overflow, covered, drain-none, drain-some}
use jupyter_pair_ext.Execution.Delivery.{buffer-cases}

module _ {E R : Type 0} (is_input_request : E → Bool) where
  deliver-covered :
      (k : Option ℕ) (event : E) (p : Pending E R)
      → covered k p ≡ true
      → covered k (deliver is_input_request event p) ≡ true
  unfolding deliver
  deliver-covered (some k) event p h = ground (arith, h)
  deliver-covered none event p h = h

  unbuffer-covered :
      (k : Option ℕ) (bytes : ℕ) (event : E) (p : Pending E R)
      → covered k p ≡ true
      → covered k (deliver is_input_request event (unbuffer is_input_request bytes p)) ≡ true
  unfolding deliver unbuffer
  unbuffer-covered none bytes event p h = h
  unbuffer-covered (some k) bytes event p h =
      ground (arith, h, get-remove p.next_event_sequence k p.buffered_events)

  drain-covered :
      (k : Option ℕ) (fuel : ℕ) (p : Pending E R)
      → covered k p ≡ true
      → covered k (drain is_input_request fuel p) ≡ true
  unfolding drain
  drain-covered k zero p h = h
  drain-covered k (suc fuel) p h =
      elim (Option-cases (get p.next_event_sequence p.buffered_events)) [
        | inl e ↦
            subst (λ d. covered k d ≡ true) (sym (drain-none is_input_request (suc fuel) p e)) h
        | inr ((event, bytes), e) ↦
            subst (λ d. covered k d ≡ true) (sym (drain-some is_input_request fuel p event bytes e))
              (drain-covered k fuel
                (deliver is_input_request event (unbuffer is_input_request bytes p))
                (unbuffer-covered k bytes event p h))
      ]

  outcome-covered :
      (k : Option ℕ) (o : Option (Result String R)) (b : Bool) (p : Pending E R)
      → covered k p ≡ true
      → covered k (record p { outcome = o; receipt = b }) ≡ true
  outcome-covered none o b p h = h
  outcome-covered (some k) o b p h = h

  reject-covered :
      (k : Option ℕ) (m : String) (p : Pending E R)
      → covered k p ≡ true
      → covered k (reject_pending is_input_request m p) ≡ true
  unfolding reject_pending
  reject-covered k m p h = elim (Bool-cases (is_some p.outcome)) [
    | inl t ↦ simp (t, reject_pending) h
    | inr t ↦ simp (t, reject_pending) (outcome-covered k (some (err m)) p.receipt p h)
  ]

  resolve-covered :
      (k : Option ℕ) (x : R) (p : Pending E R)
      → covered k p ≡ true
      → covered k (resolve_pending is_input_request x p) ≡ true
  unfolding resolve_pending
  resolve-covered k x p h = elim (Bool-cases (is_some p.outcome)) [
    | inl t ↦ simp (t, resolve_pending) h
    | inr t ↦ simp (t, resolve_pending) (outcome-covered k (some (ok x)) true p h)
  ]

  resolve_deferred-covered :
      (k : Option ℕ) (p : Pending E R)
      → covered k p ≡ true
      → covered k (resolve_deferred is_input_request p) ≡ true
  unfolding resolve_deferred
  resolve_deferred-covered k p h = elim (Option-cases p.deferred_result) [
    | inl e ↦ simp (e, resolve_deferred) h
    | inr (x, e) ↦ elim (Option-cases p.expected_event_count) [
      | inl g ↦ simp (e, g, resolve_deferred) h
      | inr (n, g) ↦ elim (Bool-cases (n == p.next_event_sequence)) [
        | inl t ↦ simp (e, g, t, resolve_deferred) (resolve-covered k x p h)
        | inr t ↦ simp (e, g, t, resolve_deferred) h
      ]
    ]
  ]

  put-covered :
      (k : Option ℕ) (sequence : ℕ) (event : E) (bytes : ℕ) (p : Pending E R)
      → covered k p ≡ true
      → covered k (record p {
        buffered_events = put sequence (event, bytes) p.buffered_events;
        buffered_event_bytes = p.buffered_event_bytes + bytes;
      })
        ≡ true
  put-covered none sequence event bytes p h = h
  put-covered (some k) sequence event bytes p h =
      ground (arith, h, get-put sequence k (event, bytes) p.buffered_events)

  pub accept_event-covered :
      (k : Option ℕ) (sequence bytes : ℕ) (event : E) (p : Pending E R)
      → covered k p ≡ true
      → covered k
          (settle_event is_input_request p (accept_event is_input_request sequence event bytes p))
        ≡ true
  unfolding accept_event settle_event
  accept_event-covered k sequence bytes event p h =
      elim (Bool-cases (ltb sequence p.next_event_sequence)) [
        | inl t ↦ simp (t, accept_event, settle_event) h
        | inr u ↦ elim (Bool-cases (ltb p.next_event_sequence sequence)) [
          | inl t ↦
              simp (u, t, accept_event)
                (elim (buffer-cases is_input_request sequence event bytes p) [
                  | inl (_, e) ↦ subst (λ d. covered k d ≡ true) (sym e) h
                  | inr (inl e) ↦
                      subst (λ d. covered k d ≡ true) (sym e) (reject-covered k overflow p h)
                  | inr (inr e) ↦
                      subst (λ d. covered k d ≡ true) (sym e)
                        (put-covered k sequence event bytes p h)
                ])
          | inr t ↦
              simp (u, t, accept_event, settle_event)
                (resolve_deferred-covered k
                  (drain is_input_request (suc (length p.buffered_events))
                    (deliver is_input_request event p))
                  (drain-covered k (suc (length p.buffered_events))
                    (deliver is_input_request event p) (deliver-covered k event p h)))
        ]
      ]

  reject-closed :
      (m : String) (p : Pending E R) → (reject_pending is_input_request m p).outcome ≢ none
  unfolding reject_pending
  reject-closed m p = elim (Option-cases p.outcome) [
    | inl e ↦ simp (e, reject_pending) (λ h. cc h)
    | inr (x, e) ↦ simp (e, reject_pending) (λ h. cc h)
  ]

  resolve-closed : (x : R) (p : Pending E R) → (resolve_pending is_input_request x p).outcome ≢ none
  unfolding resolve_pending
  resolve-closed m p = elim (Option-cases p.outcome) [
    | inl e ↦ simp (e, resolve_pending) (λ h. cc h)
    | inr (x, e) ↦ simp (e, resolve_pending) (λ h. cc h)
  ]

  buffer-covers :
      (sequence bytes : ℕ) (event : E) (p : Pending E R)
      → let q = settle_event is_input_request p (buffer is_input_request sequence event bytes p) in
        q.outcome ≡ none → covered (some sequence) q ≡ true
  buffer-covers sequence bytes event p =
      elim (buffer-cases is_input_request sequence event bytes p) [
        | inl (t, e) ↦
            subst (λ d. d.outcome ≡ none → covered (some sequence) d ≡ true) (sym e)
              (λ _. ground (arith, t))
        | inr (inl e) ↦
            subst (λ d. d.outcome ≡ none → covered (some sequence) d ≡ true) (sym e)
              (λ h. elim (reject-closed overflow p h) [ ])
        | inr (inr e) ↦
            subst (λ d. d.outcome ≡ none → covered (some sequence) d ≡ true) (sym e)
              (λ _. ground (arith, get-put sequence sequence (event, bytes) p.buffered_events))
      ]

  -- An event that comes is covered from then on, unless the request fails.
  pub accept_event-covers :
      (sequence bytes : ℕ) (event : E) (p : Pending E R)
      → let q =
          settle_event is_input_request p (accept_event is_input_request sequence event bytes p) in
        q.outcome ≡ none → covered (some sequence) q ≡ true
  unfolding accept_event settle_event deliver
  accept_event-covers sequence bytes event p o =
      elim (Bool-cases (ltb sequence p.next_event_sequence)) [
        | inl t ↦ simp (t, accept_event, settle_event) refl
        | inr u ↦ elim (Bool-cases (ltb p.next_event_sequence sequence)) [
          | inl t ↦
              let o' : (settle_event is_input_request p
                    (buffer is_input_request sequence event bytes p)).outcome
                  ≡ none =
                simp (u, t, accept_event) at o in
              simp (u, t, accept_event) (buffer-covers sequence bytes event p o')
          | inr t ↦
              simp (u, t, accept_event, settle_event)
                (resolve_deferred-covered (some sequence)
                  (drain is_input_request (suc (length p.buffered_events))
                    (deliver is_input_request event p))
                  (drain-covered (some sequence) (suc (length p.buffered_events))
                    (deliver is_input_request event p) ground (arith, t, u)))
        ]
      ]

  pub finish-covered :
      (k : Option ℕ) (x : R) (n : ℕ) (p : Pending E R)
      → covered k p ≡ true
      → covered k (finish is_input_request x (some n) p) ≡ true
  unfolding finish
  finish-covered k x n p h = elim (Bool-cases (ltb p.next_event_sequence n)) [
    | inl t ↦ simp (t, finish) (put_off k x n p h)
    | inr u ↦ elim (Bool-cases (ltb n p.next_event_sequence)) [
      | inl t ↦
          simp (u, t, finish)
            (reject-covered k "Remote executor sent an inconsistent event count." p h)
      | inr t ↦ simp (u, t, finish) (resolve-covered k x p h)
    ]
  ]
    where
      put_off :
          (k : Option ℕ) (x : R) (n : ℕ) (p : Pending E R)
          → covered k p ≡ true
          → covered k (record p { deferred_result = some x; expected_event_count = some n }) ≡ true
      put_off none x n p h = refl
      put_off (some k) x n p h = h

  -- A result that comes is put off, unless it settles the request.
  pub finish-covers :
      (x : R) (n : ℕ) (p : Pending E R)
      → (finish is_input_request x (some n) p).outcome ≡ none
      → covered none (finish is_input_request x (some n) p) ≡ true
  unfolding finish
  finish-covers x n p o = elim (Bool-cases (ltb p.next_event_sequence n)) [
    | inl t ↦ simp (t, finish) refl
    | inr u ↦ elim (Bool-cases (ltb n p.next_event_sequence)) [
      | inl t ↦
          let o' : (reject_pending is_input_request
                "Remote executor sent an inconsistent event count." p).outcome
              ≡ none =
            simp (u, t, finish) at o in
          elim (reject-closed "Remote executor sent an inconsistent event count." p o') [ ]
      | inr t ↦
          let o' : (resolve_pending is_input_request x p).outcome ≡ none =
            simp (u, t, finish) at o in
          elim (resolve-closed x p o') [ ]
    ]
  ]
