-- ===== src/FileStates/Counter.antt =====
-- The revision counter stays above the versions of all recorded states
-- (src/runtime/session.ts: fileRevisionCounter).
use jupyter_pair_ext.Base.{
  ℕ, ◌+◌, ◌≤◌, max, String, ◌≡◌, refl, sym, ap, ◌∙◌, subst, Bool, true, false, not, ◌&&◌, Option,
  none, some, [], ◌∷◌, ◌++◌, arith, ltb, leb, if◌then◌else◌, nat_eq, string_eq, Result, ok, err,
  length, drop, all, Map, get, put,
}
use jupyter_pair_ext.Base.Int.{ℤ}
use jupyter_pair_ext.Base.Codes.{Text, text_eq}
use jupyter_pair_ext.FileStates.{FileState, next_file_state, set_file_state}
use jupyter_pair_ext.FileStates.Lifecycle.{
  Lifecycle, Refusal, Change, and_then, perform, set_state, with_states, with_counter, make_state,
  assert_no_conflict, materialize_live, apply_deleted_path, apply_effects, keep_live, end_rename,
  check_state, settle_state, store_state, record_state, accept_file_state, make_live_state,
  ensure_live_file_state, bury_each, move_each, follow_state, descendants, rename_file_states,
  max_entries, is_live_as, suppress_delete, is_effective, is_changed, is_superseded,
  max_remote_revision_advance,
}

abbrev pub are_within : ℕ → Map Text FileState → Bool
are_within n states = all (λ (e : Text × FileState). leb e.1.version n) states

within-put :
    (n : ℕ) (path : Text) (state : FileState) (states : Map Text FileState)
    → are_within n states ≡ true
    → state.version ≤ n
    → are_within n (put path state states) ≡ true
unfolding put
within-put n path state [] h l = ground (arith, l)
within-put n path state ((k, v) ∷ states) h l = ground (arith, h, l, within-put n path state states)

pub within-weaken :
    (m n : ℕ) (states : Map Text FileState)
    → m ≤ n
    → are_within m states ≡ true
    → are_within n states ≡ true
within-weaken m n [] l h = refl
within-weaken m n (e ∷ states) l h = ground (arith, h, l, within-weaken m n states)

-- Every recorded version is at most the counter.
abbrev pub Counted : Lifecycle → Type 0
Counted s = are_within s.counter s.states ≡ true

set_file_state-put :
    (path : Text) (state : FileState) (states new : Map Text FileState)
    → set_file_state max_entries path state states ≡ ok new
    → put path state states ≡ new
unfolding set_file_state
set_file_state-put path state states new h = ground (arith, h)

with_states-Counted :
    (r : Result String (Map Text FileState)) (s : Lifecycle)
    → Counted s
    → ((new : Map Text FileState) → r ≡ ok new → are_within s.counter new ≡ true)
    → Counted (with_states r s).1
with_states-Counted (ok new) s h k = k new refl
with_states-Counted (err e) s h k = h

with_states-counter :
    (r : Result String (Map Text FileState)) (s : Lifecycle)
    → (with_states r s).1.counter ≡ s.counter
with_states-counter (ok new) s = refl
with_states-counter (err e) s = refl

Counted-if :
    {A : Type 0} (b : Bool) (x y : Result Refusal A × Lifecycle)
    → Counted x.1
    → Counted y.1
    → Counted (if b then x else y).1
Counted-if true x y h k = h
Counted-if false x y h k = k

and_then-keeps :
    {A B : Type 0} (P : Lifecycle → Type 0) (x : Result Refusal A × Lifecycle) (f : A → Change B)
    → P x.1
    → ((a : A) (s : Lifecycle) → P s → P (f a s).1)
    → P (and_then x f).1
and_then-keeps P (ok a, s) f h k = k a s h
and_then-keeps P (err e, s) f h k = h

module _ (fold : Text → Text) (locale_compare : String → String → ℤ) where
  set_state-Counted :
      (path : Text) (state : FileState) (s : Lifecycle)
      → Counted s
      → state.version ≤ s.counter
      → Counted (set_state fold locale_compare path state s).1
  unfolding set_state
  set_state-Counted path state s h l =
      with_states-Counted (set_file_state max_entries path state s.states) s h (λ new e.
        ap (are_within s.counter) (sym (set_file_state-put path state s.states new e))
        ∙ within-put s.counter path state s.states h l)

  set_state-counter :
      (path : Text) (state : FileState) (s : Lifecycle)
      → (set_state fold locale_compare path state s).1.counter ≡ s.counter
  unfolding set_state
  set_state-counter path state s =
      with_states-counter (set_file_state max_entries path state s.states) s

  assert-same :
      (path : Text) (s : Lifecycle) → (assert_no_conflict fold locale_compare path s).1 ≡ s
  unfolding assert_no_conflict
  assert-same path s = ground arith

  -- the counter and the states that an operation keeps
  record Kept (s t : Lifecycle) : Type 0 where
    counter : t.counter ≡ s.counter
    states : t.states ≡ s.states

  applied-Kept :
      (now : ℕ) (path : Text) (state : FileState) (s : Lifecycle) (deleted : Bool)
      → Kept s (
          if deleted
          then apply_deleted_path fold locale_compare now path s
          else materialize_live fold locale_compare path state s)
  unfolding apply_deleted_path materialize_live perform suppress_delete
  applied-Kept now path state s true = record { counter = refl; states = refl }
  applied-Kept now path state s false = record { counter = refl; states = refl }

  effects-Kept :
      (now : ℕ) (path : Text) (state : FileState) (s : Lifecycle) (applies : Bool)
      → Kept s (if applies then apply_effects fold locale_compare now path state s else s)
  unfolding apply_effects
  effects-Kept now path state s true = applied-Kept now path state s state.deleted
  effects-Kept now path state s false = record { counter = refl; states = refl }

  settle_state-Counted :
      (now : ℕ) (path : Text) (incoming : FileState) (applies propagates : Bool) (s : Lifecycle)
      → are_within (max s.counter incoming.version) s.states ≡ true
      → Counted (settle_state fold locale_compare now path incoming applies propagates s)
  unfolding settle_state perform
  settle_state-Counted now path incoming applies propagates s h =
      let counted = record s { counter = max s.counter incoming.version } in
      let k = effects-Kept now path incoming counted applies in
      ap
        (λ n.
          are_within n
            (if applies
              then apply_effects fold locale_compare now path incoming counted
              else counted).states)
        k.counter
      ∙ ap (are_within (max s.counter incoming.version)) k.states
      ∙ h

  check-same :
      (path : Text) (incoming : FileState) (applies : Bool) (s : Lifecycle)
      → (check_state fold locale_compare path incoming applies s).1 ≡ s
  unfolding check_state
  check-same path incoming applies s = ground (arith, assert-same path s)

  abbrev settling : ℕ → Text → FileState → Bool → Bool → Unit {0} → Change (Unit {0})
  settling now path incoming applies propagates x s =
      (ok tt, settle_state fold locale_compare now path incoming applies propagates s)

  stored-Counted :
      (now : ℕ) (path : Text) (incoming : FileState) (applies propagates : Bool) (s : Lifecycle)
      (r : Result String (Map Text FileState))
      → Counted s
      → ((new : Map Text FileState) → r ≡ ok new → put path incoming s.states ≡ new)
      → Counted (and_then (with_states r s) (settling now path incoming applies propagates)).1
  stored-Counted now path incoming applies propagates s (err e) h k = h
  stored-Counted now path incoming applies propagates s (ok new) h k =
      settle_state-Counted now path incoming applies propagates (record s { states = new })
        (ap (are_within (max s.counter incoming.version)) (sym (k new refl))
          ∙ within-put (max s.counter incoming.version) path incoming s.states
              (within-weaken s.counter (max s.counter incoming.version) s.states omega arith h)
              omega arith)

  record_state-Counted :
      (now : ℕ) (path : Text) (incoming : FileState) (applies propagates : Bool) (s : Lifecycle)
      → Counted s
      → Counted (record_state fold locale_compare now path incoming applies propagates s).1
  unfolding record_state store_state set_state
  record_state-Counted now path incoming applies propagates s h =
      and_then-keeps Counted (check_state fold locale_compare path incoming applies s)
        (λ x. store_state fold locale_compare now path incoming applies propagates)
        (subst Counted (sym (check-same path incoming applies s)) h)
        (λ x t k.
          stored-Counted now path incoming applies propagates t
            (set_file_state max_entries path incoming t.states) k
            (λ new e. set_file_state-put path incoming t.states new e))

  pub accept_file_state-Counted :
      (now : ℕ) (path : Text) (incoming : FileState) (is_local may_edit applies propagates : Bool)
      (s : Lifecycle)
      → Counted s
      → Counted
          (accept_file_state fold locale_compare now path incoming is_local may_edit applies
            propagates s).1
  unfolding accept_file_state
  accept_file_state-Counted now path incoming is_local may_edit applies propagates s h =
      let recorded = record_state fold locale_compare now path incoming applies propagates s in
      let decided : Lifecycle → Result Refusal Bool × Lifecycle =
        λ u. (ok (is_effective fold locale_compare path incoming u), u) in
      let finished =
        and_then-keeps Counted recorded (λ x. decided)
          (record_state-Counted now path incoming applies propagates s h) (λ x u k. k) in
      let allowed =
        Counted-if (not may_edit) (ok false, s) (and_then recorded (λ x. decided)) h finished in
      let changed =
        Counted-if (not (is_changed fold locale_compare (get path s.states) incoming)) (decided s)
          (if not may_edit then (ok false, s) else and_then recorded (λ x. decided)) h allowed in
      let known =
        Counted-if (is_superseded fold locale_compare path incoming s) (ok false, s)
          (if not (is_changed fold locale_compare (get path s.states) incoming)
            then decided s
            else if not may_edit
            then (ok false, s)
            else and_then recorded (λ x. decided))
          h changed in
      Counted-if (not is_local && ltb (s.counter + max_remote_revision_advance) incoming.version)
        (ok false, s)
        (if is_superseded fold locale_compare path incoming s
          then (ok false, s)
          else if not (is_changed fold locale_compare (get path s.states) incoming)
          then decided s
          else if not may_edit
          then (ok false, s)
          else and_then recorded (λ x. decided))
        h known

  -- the end of `ensureLiveFileState`, on the next state
  abbrev setting : Text → FileState → Change FileState
  setting path state s =
      and_then (set_state fold locale_compare path state s) (λ x s₁. (ok state, s₁))

  made-Counted :
      (path : Text) (s : Lifecycle) (r : Result String (ℕ × FileState))
      → Counted s
      → ((c : ℕ) (state : FileState) → r ≡ ok (c, state) → (state.version ≤ c) × (s.counter ≤ c))
      → Counted (and_then (with_counter r s) (setting path)).1
  made-Counted path s (err e) h k = h
  made-Counted path s (ok (c, state)) h k =
      let t = record s { counter = c } in
      let (low, high) = k c state refl in
      and_then-keeps Counted (set_state fold locale_compare path state t) (λ x s₁. (ok state, s₁))
        (set_state-Counted path state t (within-weaken s.counter c s.states high h) low)
        (λ x u m. m)

  ensured-Counted :
      (b : Bool) (o : Option FileState) (made : Result Refusal FileState × Lifecycle)
      (s : Lifecycle)
      → Counted s
      → Counted made.1
      → Counted (keep_live b o made s).1
  ensured-Counted b none made s h k = k
  ensured-Counted true (some exact) made s h k = h
  ensured-Counted false (some exact) made s h k = k

  pub ensure_live_file_state-Counted :
      (local : String) (path : Text) (kind : String) (s : Lifecycle)
      → Counted s
      → Counted (ensure_live_file_state fold locale_compare local path kind s).1
  unfolding ensure_live_file_state make_live_state make_state next_file_state
  ensure_live_file_state-Counted local path kind s h =
      ensured-Counted (is_live_as fold locale_compare kind path s) (get path s.states)
        (make_live_state fold locale_compare local path kind s) s h
        (and_then-keeps Counted (assert_no_conflict fold locale_compare path s)
          (λ x t. and_then (make_state fold locale_compare kind false local t) (setting path))
          (subst Counted (sym (assert-same path s)) h)
          (λ x t k.
            made-Counted path t (next_file_state kind false local t.counter) k
              (λ c state e. ground (arith, e))))

  -- during a rename the counter stays, and all versions are within it
  abbrev pub Held : ℕ → Lifecycle → Type 0
  Held n s = (s.counter ≡ n) × (are_within n s.states ≡ true)

  set_state-Held :
      (n : ℕ) (path : Text) (state : FileState) (s : Lifecycle)
      → state.version ≤ n
      → Held n s
      → Held n (set_state fold locale_compare path state s).1
  set_state-Held n path state s l (c, h) =
      let same = set_state-counter path state s ∙ c in
      (
        same,
        ap (λ m. are_within m (set_state fold locale_compare path state s).1.states) (sym same)
            ∙ set_state-Counted path state s (ap (λ m. are_within m s.states) c ∙ h) omega
                (arith, l, c),
      )

  bury_each-Held :
      (n : ℕ) (from_state : FileState) (below : Map Text FileState) (s : Lifecycle)
      → from_state.version ≤ n
      → are_within n below ≡ true
      → Held n s
      → Held n (bury_each fold locale_compare from_state below s).1
  unfolding bury_each
  bury_each-Held n from_state [] s l k h = h
  bury_each-Held n from_state ((key, state) ∷ rest) s l k h =
      and_then-keeps (Held n)
        (set_state fold locale_compare key (follow_state fold locale_compare state from_state true)
          s)
        (λ x. bury_each fold locale_compare from_state rest)
        (set_state-Held n key (follow_state fold locale_compare state from_state true) s ground
          (arith, l, k) h)
        (λ x t m. bury_each-Held n from_state rest t l ground (arith, k) m)

  assert-Held :
      (n : ℕ) (path : Text) (s : Lifecycle)
      → Held n s
      → Held n (assert_no_conflict fold locale_compare path s).1
  assert-Held n path s h = subst (Held n) (sym (assert-same path s)) h

  move_each-Held :
      (n : ℕ) (from to : Text) (to_state : FileState) (below : Map Text FileState) (s : Lifecycle)
      → to_state.version ≤ n
      → are_within n below ≡ true
      → Held n s
      → Held n (move_each fold locale_compare from to to_state below s).1
  unfolding move_each
  move_each-Held n from to to_state [] s l k h = h
  move_each-Held n from to to_state ((key, state) ∷ rest) s l k h =
      let new_key = to ++ drop (length from) key in
      let moved = follow_state fold locale_compare state to_state state.deleted in
      and_then-keeps (Held n) (assert_no_conflict fold locale_compare new_key s)
        (λ x s₁.
          and_then (set_state fold locale_compare new_key moved s₁)
            (λ y. move_each fold locale_compare from to to_state rest))
        (assert-Held n new_key s h)
        (λ x t m.
          and_then-keeps (Held n) (set_state fold locale_compare new_key moved t)
            (λ y. move_each fold locale_compare from to to_state rest)
            (set_state-Held n new_key moved t ground (arith, l, k) m)
            (λ y u o. move_each-Held n from to to_state rest u l ground (arith, k) o))

  within-descendants :
      (n : ℕ) (from : Text) (states : Map Text FileState)
      → are_within n states ≡ true
      → are_within n (descendants fold locale_compare from states) ≡ true
  unfolding descendants
  within-descendants n from [] h = refl
  within-descendants n from (e ∷ states) h = ground (arith, h, within-descendants n from states)

  end_rename-Held :
      (n : ℕ) (to : Text) (from_state to_state : FileState) (s : Lifecycle)
      → from_state.version ≤ n
      → to_state.version ≤ n
      → Held n s
      → Held n (end_rename fold locale_compare to from_state to_state s).1
  unfolding end_rename
  end_rename-Held n to from_state to_state s l l' h =
      let raise : Change (Unit {0}) = λ u.
        (ok tt, record u { counter = max u.counter (max from_state.version to_state.version) }) in
      and_then-keeps (Held n) (assert_no_conflict fold locale_compare to s)
        (λ x t. and_then (set_state fold locale_compare to to_state t) (λ y. raise))
        (assert-Held n to s h)
        (λ x t m.
          and_then-keeps (Held n) (set_state fold locale_compare to to_state t) (λ y. raise)
            (set_state-Held n to to_state t l' m) (λ y u o. (omega (arith, o.0, l, l'), o.1)))

  pub rename_file_states-Held :
      (n : ℕ) (from to : Text) (from_state to_state : FileState) (s : Lifecycle)
      → from_state.version ≤ n
      → to_state.version ≤ n
      → Held n s
      → Held n (rename_file_states fold locale_compare from to from_state to_state s).1
  unfolding rename_file_states
  rename_file_states-Held n from to from_state to_state s l l' h =
      let below = descendants fold locale_compare from s.states in
      let inside = within-descendants n from s.states h.1 in
      let ending : Change (Unit {0}) = end_rename fold locale_compare to from_state to_state in
      let moving : Change (Unit {0}) =
        λ u. and_then (move_each fold locale_compare from to to_state below u) (λ z. ending) in
      and_then-keeps (Held n) (bury_each fold locale_compare from_state below s)
        (λ x t. and_then (set_state fold locale_compare from from_state t) (λ y. moving))
        (bury_each-Held n from_state below s l inside h)
        (λ x t m.
          and_then-keeps (Held n) (set_state fold locale_compare from from_state t) (λ y. moving)
            (set_state-Held n from from_state t l m)
            (λ y u o.
              and_then-keeps (Held n) (move_each fold locale_compare from to to_state below u)
                (λ z. ending) (move_each-Held n from to to_state below u l' inside o)
                (λ z v q. end_rename-Held n to from_state to_state v l l' q)))
