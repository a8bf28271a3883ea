-- ===== src/Execution/Laws.antt =====
-- Delivery of a remote execution's events (src/runtime/session.ts, `acceptRemoteExecutionEvent`).
use jupyter_pair_ext.Base.{
  ℕ, zero, suc, ◌+◌, ◌≤◌, ◌<◌, String, ◌≡◌, refl, sym, subst, inl, inr, Bool, true, ◌||◌, Option,
  none, some, List, [], ◌∷◌, ◌++◌, arith, ltb, Option-cases, nat_eq, string_eq, ok, err, is_some,
  length, get, has, get-remove, length-remove-lt,
}
use jupyter_pair_ext.Execution.{Pending, deliver, unbuffer, drain}

-- The first `n` events of a stream.
unfoldable pub first_events : {E : Type 0} → (ℕ → E) → ℕ → List E
first_events f zero = []
first_events f (suc n) = first_events f n ++ (f n ∷ [])

pub first_events-suc :
    {E : Type 0} → (f : ℕ → E) (n : ℕ) → first_events f (n + 1) ≡ first_events f n ++ (f n ∷ [])
unfolding first_events
first_events-suc f n = let e : n + 1 ≡ suc n = omega arith in rw e refl

-- the only error of a genuine stream
abbrev pub overflow : String
overflow = "Remote Jupyter event replay exceeded its bounded receive queue."

-- What has come: event `k` was delivered or waits in the buffer; or, for `none`, the result was
-- put off.
abbrev pub covered : {E R : Type 0} → Option ℕ → Pending E R → Bool
covered (some k) p = ltb k p.next_event_sequence || has k p.buffered_events
covered none p = is_some p.deferred_result

module _ {E R : Type 0} (executor : String) (f : ℕ → E) (total : ℕ) (r : R) where
  -- The events come from the stream `f`, of which the executor counts `total`, with result `r`.
  -- What holds of the request but, within the loop, for the buffer's next event.
  pub record Queue (p : Pending E R) : Type 0 where
    pub owned : p.executor_id ≡ executor
    pub in_order : p.delivered ≡ first_events f p.next_event_sequence
    pub bounded : p.next_event_sequence ≤ total
    pub genuine : (k : ℕ) (e : E × ℕ) → get k p.buffered_events ≡ some e → (e.0 ≡ f k) × (k < total)
    pub announced :
        (x : R) → p.deferred_result ≡ some x → (x ≡ r) × (p.expected_event_count ≡ some total)
    pub settled : (x : R) → p.outcome ≡ some (ok x) → (x ≡ r) × (p.next_event_sequence ≡ total)
    pub failed : (m : String) → p.outcome ≡ some (err m) → m ≡ overflow

  pub record Inv (p : Pending E R) : Type 0 where
    pub queue : Queue p
    pub waiting : p.outcome ≡ none → get p.next_event_sequence p.buffered_events ≡ none
    pub deferred :
        p.outcome ≡ none → (x : R) → p.deferred_result ≡ some x → p.next_event_sequence < total

module _ {E R : Type 0} (is_input_request : E → Bool) where
  pub drain-none :
      (fuel : ℕ) (p : Pending E R)
      → get p.next_event_sequence p.buffered_events ≡ none
      → drain is_input_request fuel p ≡ p
  unfolding drain
  drain-none zero p e = refl
  drain-none (suc fuel) p e = rw (e, drain) refl

  pub drain-some :
      (fuel : ℕ) (p : Pending E R) (event : E) (bytes : ℕ)
      → get p.next_event_sequence p.buffered_events ≡ some (event, bytes)
      → drain is_input_request (suc fuel) p
        ≡ drain is_input_request fuel
            (deliver is_input_request event (unbuffer is_input_request bytes p))
  unfolding drain
  drain-some fuel p event bytes e = rw (e, drain) refl

module _ {E R : Type 0} (is_input_request : E → Bool) (executor : String) (f : ℕ → E) (total : ℕ)
    (r : R) where
  pub deliver-Queue :
      (event : E) (p : Pending E R)
      → Queue executor f total r p
      → p.outcome ≡ none
      → event ≡ f p.next_event_sequence
      → p.next_event_sequence < total
      → Queue executor f total r (deliver is_input_request event p)
  unfolding deliver
  deliver-Queue event p q o e l = record {
    owned = q.owned;
    in_order = rw (q.in_order, e, first_events-suc) refl;
    bounded = omega (arith, l);
    genuine = q.genuine;
    announced = q.announced;
    settled = λ x h. cc (h, o);
    failed = λ x h. cc (h, o);
  }

  unbuffer-Queue :
      (bytes : ℕ) (p : Pending E R)
      → Queue executor f total r p
      → Queue executor f total r (unbuffer is_input_request bytes p)
  unfolding unbuffer
  unbuffer-Queue bytes p q = record {
    owned = q.owned;
    in_order = q.in_order;
    bounded = q.bounded;
    genuine = λ k e h.
        q.genuine k e (ground (arith, h, get-remove p.next_event_sequence k p.buffered_events));
    announced = q.announced;
    settled = q.settled;
    failed = q.failed;
  }

  abbrev pub Drained : Pending E R → Type 0
  Drained d =
      Queue executor f total r d
      × (d.outcome ≡ none)
      × (get d.next_event_sequence d.buffered_events ≡ none)

  -- A round for each event in the buffer is enough for the loop to end by itself.
  pub drain-Drained :
      (fuel : ℕ) (p : Pending E R)
      → Queue executor f total r p
      → p.outcome ≡ none
      → length p.buffered_events ≤ fuel
      → Drained (drain is_input_request fuel p)
  unfolding deliver unbuffer
  drain-Drained zero p q o l =
      let e : get p.next_event_sequence p.buffered_events ≡ none =
        ground (arith, l, length-remove-lt p.next_event_sequence p.buffered_events) in
      subst Drained (sym (drain-none is_input_request zero p e)) (q, o, e)
  drain-Drained (suc fuel) p q o l =
      elim (Option-cases (get p.next_event_sequence p.buffered_events)) [
        | inl e ↦ subst Drained (sym (drain-none is_input_request (suc fuel) p e)) (q, o, e)
        | inr ((event, bytes), e) ↦
            let (same, below) = q.genuine p.next_event_sequence (event, bytes) e in
            let there : is_some (get p.next_event_sequence p.buffered_events) ≡ true = rw e refl in
            let shorter = length-remove-lt p.next_event_sequence p.buffered_events there in
            subst Drained (sym (drain-some is_input_request fuel p event bytes e)) (
              drain-Drained fuel
                (deliver is_input_request event (unbuffer is_input_request bytes p))
                (deliver-Queue event (unbuffer is_input_request bytes p) (unbuffer-Queue bytes p q)
                  o same below)
                o (omega (arith, l, shorter)))
      ]
