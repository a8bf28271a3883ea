-- ===== src/Execution/Stream.antt =====
-- A remote execution as the requester sees it: the messages of all peers, in the order of their
-- arrival (src/runtime/session.ts, the cases 'executionEvent' and 'executeResult').
use jupyter_pair_ext.Base.{
  ℕ, ◌≤◌, ◌<◌, String, ◌≡◌, refl, sym, ◌∙◌, subst, ◌≢◌, inl, inr, Bool, true, false, not, ◌||◌,
  Option, none, some, List, [], ◌∷◌, arith, leb, Bool-cases, Option-cases, ◌==◌, nat_eq, string_eq,
  Result, is_some, beq_refl, beq_false, get,
}
use jupyter_pair_ext.Base.Js.{Number, whole, max_safe_integer}
use jupyter_pair_ext.Base.Int.{pos}
use jupyter_pair_ext.Execution.{
  Pending, bounded_natural, mark_accepted, accept_event, settle_event, on_execution_event, finish,
  on_execute_result, max_replayed_execution_events,
}
use jupyter_pair_ext.Execution.Laws.{first_events, covered, Inv}
use jupyter_pair_ext.Execution.Delivery.{accept_event-Inv, finish-Inv, mark_accepted-Inv}
use jupyter_pair_ext.Execution.Covered.{
  accept_event-covered, accept_event-covers, finish-covered, finish-covers,
}

pub data Message (E R : Type 0) : Type 0 where
  execution_event : String → Option (E × ℕ) → Option Number → Message E R
  execute_result : String → Option R → Option Number → Message E R

-- the entry that the constructor of `executeRemote` makes
unfoldable pub requested : {E R : Type 0} → String → Pending E R
requested executor = record {
  executor_id = executor;
  accepted = false;
  next_event_sequence = 0;
  buffered_events = [];
  buffered_event_bytes = 0;
  input_request_sequence = none;
  deferred_result = none;
  expected_event_count = none;
  delivered = [];
  outcome = none;
  receipt = false;
}

module _ {E R : Type 0} (is_input_request : E → Bool) where
  unfoldable pub on_message : Message E R → Pending E R → Pending E R
  on_message (execution_event source decoded raw) p =
      on_execution_event is_input_request source decoded raw p
  on_message (execute_result source decoded raw) p =
      on_execute_result is_input_request source decoded raw p

  unfoldable pub on_messages : List (Message E R) → Pending E R → Pending E R
  on_messages [] p = p
  on_messages (m ∷ ms) p = on_messages ms (on_message m p)

module _ {E R : Type 0} (executor : String) (f : ℕ → E) (total : ℕ) (r : R) where
  -- The executor sends its events, as often and in whatever order, with their numbers, and its
  -- result with the count of the events; of the other peers nothing is assumed.
  pub data Genuine : Message E R → Type 0 where
    numbered :
        {s bytes : ℕ}
        → s < total
        → Genuine (execution_event executor (some (f s, bytes)) (some (whole (pos s))))
    counted : Genuine (execute_result executor (some r) (some (whole (pos total))))
    other_event :
        {source : String} {decoded : Option (E × ℕ)} {raw : Option Number}
        → executor ≢ source
        → Genuine (execution_event source decoded raw)
    other_result :
        {source : String} {decoded : Option R} {raw : Option Number}
        → executor ≢ source
        → Genuine (execute_result source decoded raw)

module _ {E R : Type 0} (is_input_request : E → Bool) (executor : String) (f : ℕ → E) (total : ℕ)
    (r : R) (small : total ≤ max_replayed_execution_events) where
  abbrev pub Good : Pending E R → Type 0
  Good p = Inv executor f total r p

  none-some : {A : Type 0} {x : A} → none ≢ some x
  none-some h = cc h

  pub requested-Good : Good (requested executor)
  unfolding requested first_events get
  requested-Good = record {
    queue = record {
      owned = refl;
      in_order = refl;
      bounded = omega arith;
      genuine = λ k e h. elim (none-some h) [ ];
      announced = λ x h. cc h;
      settled = λ x h. cc h;
      failed = λ x h. cc h;
    };
    waiting = λ _. refl;
    deferred = λ _ x h. cc h;
  }

  pub on_execution_event-own :
      (s bytes : ℕ) (p : Pending E R)
      → p.executor_id ≡ executor
      → p.outcome ≡ none
      → s < total
      → let q = mark_accepted is_input_request executor p in
        on_execution_event is_input_request executor (some (f s, bytes)) (some (whole (pos s))) p
        ≡ settle_event is_input_request q (accept_event is_input_request s (f s) bytes q)
  unfolding on_execution_event bounded_natural
  on_execution_event-own s bytes p x o l =
      let e : (p.executor_id == executor) ≡ true = rw x (beq_refl executor) in
      let b : leb s max_safe_integer ≡ true = ground (arith, small, l) in
      simp (o, e, b, on_execution_event, bounded_natural) refl

  pub on_execute_result-own :
      (p : Pending E R)
      → p.executor_id ≡ executor
      → p.outcome ≡ none
      → on_execute_result is_input_request executor (some r) (some (whole (pos total))) p
        ≡ finish is_input_request r (some total) p
  unfolding on_execute_result bounded_natural
  on_execute_result-own p x o =
      let e : (p.executor_id == executor) ≡ true = rw x (beq_refl executor) in
      let b : leb total max_replayed_execution_events ≡ true = ground (arith, small) in
      simp (o, e, b, on_execute_result, bounded_natural) refl

  -- What a message that is taken from `p` leaves.
  abbrev pub Kept : Pending E R → Pending E R → Type 0
  Kept p d = Good d × ((k : Option ℕ) → covered k p ≡ true → covered k d ≡ true)

  pub settled-ignored :
      (m : Message E R) (p : Pending E R) (x : Result String R)
      → p.outcome ≡ some x
      → on_message is_input_request m p ≡ p
  unfolding on_message on_execution_event on_execute_result
  settled-ignored (execution_event source decoded raw) p x o =
      simp (o, on_execution_event, on_message) refl
  settled-ignored (execute_result source decoded raw) p x o =
      simp (o, on_execute_result, on_message) refl

  pub stranger-ignored :
      (p : Pending E R) (source : String)
      → p.executor_id ≡ executor
      → executor ≢ source
      → ((decoded : Option (E × ℕ)) (raw : Option Number)
          → on_execution_event is_input_request source decoded raw p ≡ p)
        × ((decoded : Option R) (raw : Option Number)
            → on_execute_result is_input_request source decoded raw p ≡ p)
  unfolding on_execution_event on_execute_result
  stranger-ignored p source x n =
      let u : (p.executor_id == source) ≡ false =
        beq_false p.executor_id source (λ h. n (sym x ∙ h)) in
      let e : (is_some p.outcome || not (p.executor_id == source)) ≡ true = rw u ground arith in
      (
        λ decoded raw. simp (e, on_execution_event) refl,
        λ decoded raw. simp (e, on_execute_result) refl,
      )

  pub mark_accepted-fields :
      (source : String) (p : Pending E R)
      → let q = mark_accepted is_input_request source p in
        (q.outcome ≡ p.outcome) × ((k : Option ℕ) → covered k p ≡ true → covered k q ≡ true)
  unfolding mark_accepted
  mark_accepted-fields source p = elim (Bool-cases (not (p.executor_id == source) || p.accepted)) [
    | inl t ↦ simp (t, mark_accepted) (refl, λ k h. h)
    | inr t ↦ simp (t, mark_accepted) (refl, λ k h. same k h)
  ]
    where
      same : (k : Option ℕ) → covered k p ≡ true → covered k (record p { accepted = true }) ≡ true
      same none h = h
      same (some k) h = h

  pub on_message-Kept :
      (m : Message E R) (p : Pending E R)
      → Genuine executor f total r m
      → Good p
      → Kept p (on_message is_input_request m p)
  unfolding on_message
  on_message-Kept m p g i = elim (Option-cases p.outcome) [
    | inr (x, o) ↦ subst (Kept p) (sym (settled-ignored m p x o)) (i, λ k h. h)
    | inl o ↦ open_request m p g i o
  ]
    where
      open_request :
          (m : Message E R) (p : Pending E R)
          → Genuine executor f total r m
          → Good p
          → p.outcome ≡ none
          → Kept p (on_message is_input_request m p)
      open_request (execution_event source decoded raw) p (numbered {s} {bytes} l) i o =
          let (same, more) = mark_accepted-fields executor p in
          let q = mark_accepted is_input_request executor p in
          subst (Kept p) (sym (on_execution_event-own s bytes p i.queue.owned o l)) (
            accept_event-Inv is_input_request executor f total r s bytes q
                (mark_accepted-Inv is_input_request executor f total r executor p i) (same ∙ o) l,
            λ k h. accept_event-covered is_input_request k s bytes (f s) q (more k h),
          )
      open_request (execution_event source decoded raw) p (other_event n) i o =
          subst (Kept p) (sym ((stranger-ignored p source i.queue.owned n).0 decoded raw))
            (i, λ k h. h)
      open_request (execute_result source decoded raw) p counted i o =
          subst (Kept p) (sym (on_execute_result-own p i.queue.owned o)) (
            finish-Inv is_input_request executor f total r p i o,
            λ k h. finish-covered is_input_request k r total p h,
          )
      open_request (execute_result source decoded raw) p (other_result n) i o =
          subst (Kept p) (sym ((stranger-ignored p source i.queue.owned n).1 decoded raw))
            (i, λ k h. h)

  pub event-covers :
      (s bytes : ℕ) (p : Pending E R)
      → s < total
      → Good p
      → (on_message is_input_request
          (execution_event executor (some (f s, bytes)) (some (whole (pos s))))
          p).outcome
        ≡ none
      → covered (some s) (
          on_message is_input_request
            (execution_event executor (some (f s, bytes)) (some (whole (pos s))))
            p)
        ≡ true
  unfolding on_message
  event-covers s bytes p l i h = elim (Option-cases p.outcome) [
    | inr (x, o) ↦
        let e =
          settled-ignored (execution_event executor (some (f s, bytes)) (some (whole (pos s)))) p x
            o in
        let h' : p.outcome ≡ none = subst (λ d. d.outcome ≡ none) e h in cc (h', o)
    | inl o ↦
        let q = mark_accepted is_input_request executor p in
        subst (λ d. d.outcome ≡ none → covered (some s) d ≡ true)
          (sym (on_execution_event-own s bytes p i.queue.owned o l))
          (accept_event-covers is_input_request s bytes (f s) q) h
  ]

  pub result-covers :
      (p : Pending E R)
      → Good p
      → (on_message is_input_request
          (execute_result executor (some r) (some (whole (pos total))))
          p).outcome
        ≡ none
      → covered none (
          on_message is_input_request
            (execute_result executor (some r) (some (whole (pos total))))
            p)
        ≡ true
  unfolding on_message
  result-covers p i h = elim (Option-cases p.outcome) [
    | inr (x, o) ↦
        let e =
          settled-ignored (execute_result executor (some r) (some (whole (pos total)))) p x o in
        let h' : p.outcome ≡ none = subst (λ d. d.outcome ≡ none) e h in cc (h', o)
    | inl o ↦
        subst (λ d. d.outcome ≡ none → covered none d ≡ true)
          (sym (on_execute_result-own p i.queue.owned o)) (finish-covers is_input_request r total p)
          h
  ]
