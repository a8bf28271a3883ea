-- ===== src/FileStates/Newest.antt =====
-- The revision counter stays above the versions of all recorded states, so that a state that a
-- participant makes wins over whatever it has seen (src/runtime/session.ts: fileRevisionCounter).
use jupyter_pair_ext.Base.{
  ℕ, ◌+◌, ◌≤◌, ◌<◌, String, ◌≡◌, refl, ap, ◌∙◌, Bool, true, false, not, some, [], ◌∷◌, arith,
  if◌then◌else◌, nat_eqb_iff, ◌==◌, nat_eq, string_eq, Result, ok, err, Map, get,
}
use jupyter_pair_ext.Base.Int.{ℤ, sub_ℕ, is_positive}
use jupyter_pair_ext.Base.Codes.{Text, text_eq}
use jupyter_pair_ext.FileStates.{
  FileState, is_zero, compare_flags, compare_file_state, next_file_state,
}
use jupyter_pair_ext.FileStates.Lifecycle.{
  Lifecycle, with_counter, make_state, accept_file_state, ensure_live_file_state,
  rename_file_states,
}
use jupyter_pair_ext.FileStates.Counter.{
  are_within, Counted, within-weaken, accept_file_state-Counted, ensure_live_file_state-Counted,
  rename_file_states-Held,
}

module _ (fold : Text → Text) (locale_compare : String → String → ℤ) where
  -- What a session does with the states, whatever the operation returns; the states of a rename
  -- are accepted or made before it, so that their versions are within the counter.
  pub data Step (s : Lifecycle) : Lifecycle → Type 0 where
    accepts :
        (now : ℕ) (path : Text) (incoming : FileState) (is_local may_edit applies propagates : Bool)
        → Step s
            (accept_file_state fold locale_compare now path incoming is_local may_edit applies
              propagates s).1
    ensures :
        (local : String) (path : Text) (kind : String)
        → Step s (ensure_live_file_state fold locale_compare local path kind s).1
    makes :
        (kind : String) (deleted : Bool) (author : String)
        → Step s (make_state fold locale_compare kind deleted author s).1
    renames :
        (from to : Text) (from_state to_state : FileState)
        → from_state.version ≤ s.counter
        → to_state.version ≤ s.counter
        → Step s (rename_file_states fold locale_compare from to from_state to_state s).1

  pub data Reach : Lifecycle → Type 0 where
    initially : (s : Lifecycle) → s.states ≡ [] → Reach s
    later : {s t : Lifecycle} → Reach s → Step s t → Reach t

  make_state-Counted :
      (s : Lifecycle) (r : Result String (ℕ × FileState))
      → Counted s
      → ((c : ℕ) (state : FileState) → r ≡ ok (c, state) → s.counter ≤ c)
      → Counted (with_counter r s).1
  make_state-Counted s (err e) h k = h
  make_state-Counted s (ok (c, state)) h k = within-weaken s.counter c s.states (k c state refl) h

  Reach-Counted : {s : Lifecycle} → Reach s → Counted s
  unfolding make_state next_file_state
  Reach-Counted (initially s e) = ap (are_within s.counter) e
  Reach-Counted (later {s} r (accepts now path incoming is_local may_edit applies propagates)) =
      accept_file_state-Counted fold locale_compare now path incoming is_local may_edit applies
        propagates s (Reach-Counted r)
  Reach-Counted (later {s} r (ensures local path kind)) =
      ensure_live_file_state-Counted fold locale_compare local path kind s (Reach-Counted r)
  Reach-Counted (later {s} r (makes kind deleted author)) =
      make_state-Counted s (next_file_state kind deleted author s.counter) (Reach-Counted r)
        (λ c state e. ground (arith, e))
  Reach-Counted (later {s} r (renames from to from_state to_state l l')) =
      let (c, h) =
        rename_file_states-Held fold locale_compare s.counter from to from_state to_state s l l'
          (refl, Reach-Counted r) in
      ap
        (λ n.
          are_within n
            (rename_file_states fold locale_compare from to from_state to_state s).1.states)
        c
      ∙ h

  within-get :
      (n : ℕ) (path : Text) (state : FileState) (states : Map Text FileState)
      → are_within n states ≡ true
      → get path states ≡ some state
      → state.version ≤ n
  unfolding get
  within-get n path state [] h e = cc e
  within-get n path state ((k, v) ∷ states) h e =
      ground (arith, h, e, within-get n path state states)

  difference-positive : (m n : ℕ) → n < m → is_positive (sub_ℕ m n) ≡ true
  difference-positive m n l = ground (arith, l)

  compare-higher :
      (a b : FileState)
      → b.version < a.version
      → is_positive (compare_file_state locale_compare a b) ≡ true
  unfolding compare_file_state
  compare-higher a b l =
      let apart : (a.version == b.version) ≡ false =
        ground (arith, l, nat_eqb_iff a.version b.version) in
      ap
        (λ z. is_positive (
          if not z
          then sub_ℕ a.version b.version
          else if not (is_zero (locale_compare a.author b.author))
          then locale_compare a.author b.author
          else compare_flags a.deleted b.deleted (locale_compare a.kind b.kind)))
        apart
      ∙ difference-positive a.version b.version l

  -- However a session has accepted, made and renamed file states, with errors or without: the next
  -- state that it makes wins over every state that it has recorded.
  pub next_file_state-newest :
      {s : Lifecycle}
      → Reach s
      → (kind : String) (deleted : Bool) (author : String) (counter : ℕ) (new : FileState)
      → next_file_state kind deleted author s.counter ≡ ok (counter, new)
      → (path : Text) (old : FileState) → get path s.states ≡ some old
      → is_positive (compare_file_state locale_compare new old) ≡ true
  unfolding next_file_state
  next_file_state-newest {s} r kind deleted author counter new h path old e =
      let low = within-get s.counter path old s.states (Reach-Counted r) e in
      let version : new.version ≡ s.counter + 1 = ground (arith, h) in
      compare-higher new old omega (arith, low, version)
