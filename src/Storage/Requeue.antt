-- ===== src/Storage/Requeue.antt =====
-- What `requeue` keeps of a flush that failed (src/core/persistence.ts).
use jupyter_pair_ext.Base.{
  ℕ, max, ◌≡◌, refl, sym, ap, ◌∙◌, subst, ◌⊎◌, inl, inr, Bool, true, false, ◌||◌, Option, none,
  some, List, [], ◌∷◌, ◌++◌, arith, if◌then◌else◌, Bool-cases, nat_eq, string_eq, Result,
  Result-cases, ok, err, is_some, any,
}
use jupyter_pair_ext.Base.Codes.{Text, text_eqb, text_eq, text_eqb_iff}
use jupyter_pair_ext.Storage.{Failure, endless, Adapter}
use jupyter_pair_ext.Storage.State.{
  add, or_endless, follow, resolve_current_path, is_removed, restore, requeue, retry_delay_ms,
}

abbrev pub is_in : Text → List Text → Bool
is_in p xs = any (text_eqb p) xs

pub is_in-append : (p : Text) (xs ys : List Text) → is_in p (xs ++ ys) ≡ (is_in p xs || is_in p ys)
is_in-append p [] ys = refl
is_in-append p (x ∷ xs) ys = ground (arith, is_in-append p xs ys)

pub is_in-add : (p x : Text) (xs : List Text) → is_in p (add x xs) ≡ (is_in p xs || text_eqb p x)
is_in-add p x xs = elim (Bool-cases (text_eqb p x)) [
  | inl e ↦
      let same = (text_eqb_iff p x).0 e in
      let there : is_in p xs ≡ is_in x xs = ap (λ y. is_in y xs) same in
      ground (arith, e, there, is_in-append p xs (x ∷ []))
  | inr n ↦ ground (arith, n, is_in-append p xs (x ∷ []))
]

-- The path is pending with the timer to be armed, or what it stands for is removed.
abbrev pub Waits : ℕ → Adapter → Adapter → Bool → Text → Type 0
Waits fuel a b armed p =
    ((is_in p b.pending ≡ true) × (armed ≡ true))
    ⊎ ((c : Text) × (resolve_current_path fuel a p ≡ ok c) × (is_removed a c ≡ true))

record Restored (fuel : ℕ) (paths : List Text) (restored : Bool) (a b : Adapter) (r : Bool)
    : Type 0 where
  active : b.active ≡ a.active
  monotone : restored ≡ true → r ≡ true
  kept : (p : Text) → is_in p a.pending ≡ true → is_in p b.pending ≡ true
  waits : (p : Text) → is_in p paths ≡ true → Waits fuel a b r p

abbrev pub with_pending : Text → Adapter → Adapter
with_pending path a = record a { pending = add path a.pending }

module _ (fuel : ℕ) (path : Text) (paths : List Text) (restored : Bool) (a : Adapter) where
  pub restore-skip :
      (c : Text)
      → resolve_current_path fuel a path ≡ ok c
      → is_removed a c ≡ true
      → restore fuel (path ∷ paths) restored a ≡ restore fuel paths restored a
  unfolding restore
  restore-skip c f t = simp (f, t, restore) refl

  pub restore-keep :
      (c : Text)
      → resolve_current_path fuel a path ≡ ok c
      → is_removed a c ≡ false
      → restore fuel (path ∷ paths) restored a ≡ restore fuel paths true (with_pending path a)
  unfolding restore
  restore-keep c f t = simp (f, t, restore) refl

  restore-fail :
      (e : Failure)
      → resolve_current_path fuel a path ≡ err e
      → restore fuel (path ∷ paths) restored a ≡ err e
  unfolding restore
  restore-fail e f = simp (f, restore) refl

-- what a path waits for does not depend on what is pending
Waits-pending :
    (fuel : ℕ) (path p : Text) (a b : Adapter) (r : Bool)
    → Waits fuel (with_pending path a) b r p
    → Waits fuel a b r p
unfolding resolve_current_path is_removed
Waits-pending fuel path p a b r (inl k) = inl k
Waits-pending fuel path p a b r (inr k) = inr k

restore-Restored :
    (fuel : ℕ) (paths : List Text) (restored : Bool) (a b : Adapter) (r : Bool)
    → restore fuel paths restored a ≡ ok (r, b)
    → Restored fuel paths restored a b r
unfolding restore
restore-Restored fuel [] restored a b r h =
    let e : (restored ≡ r) × (a ≡ b) = ground (arith, h) in
    subst (λ c. Restored fuel [] restored a c r) e.1
      (record { active = refl; monotone = λ m. sym e.0 ∙ m; kept = λ p m. m; waits = λ p m. cc m })
restore-Restored fuel (path ∷ paths) restored a b r h =
    elim (Result-cases (resolve_current_path fuel a path)) [
      | inr (e, f) ↦ cc (restore-fail fuel path paths restored a e f, h)
      | inl (c, f) ↦ elim (Bool-cases (is_removed a c)) [
        | inl t ↦
            let i =
              restore-Restored fuel paths restored a b r
                (sym (restore-skip fuel path paths restored a c f t) ∙ h) in
            record {
              active = i.active;
              monotone = i.monotone;
              kept = i.kept;
              waits = λ p m. elim (Bool-cases (text_eqb p path)) [
                | inl e ↦
                    inr (c, ap (resolve_current_path fuel a) ((text_eqb_iff p path).0 e) ∙ f, t)
                | inr n ↦ i.waits p ground (arith, m, n)
              ];
            }
        | inr n ↦
            let i =
              restore-Restored fuel paths true (with_pending path a) b r
                (sym (restore-keep fuel path paths restored a c f n) ∙ h) in
            record {
              active = i.active;
              monotone = λ m. i.monotone refl;
              kept = λ p m. i.kept p ground (arith, m, is_in-add p path a.pending);
              waits = λ p m. elim (Bool-cases (text_eqb p path)) [
                | inl e ↦
                    inl (i.kept p ground (arith, e, is_in-add p path a.pending), i.monotone refl)
                | inr n ↦ Waits-pending fuel path p a b r (i.waits p ground (arith, m, n))
              ];
            }
      ]
    ]

abbrev pub armed : ℕ → Bool → Adapter → Adapter
armed debounce r c = if r then record c { timer = some (max debounce retry_delay_ms) } else c

requeue-fail :
    (fuel debounce : ℕ) (paths : List Text) (a : Adapter) (e : Failure)
    → a.active ≡ true
    → restore fuel paths false a ≡ err e
    → requeue fuel debounce paths a ≡ err e
unfolding requeue
requeue-fail fuel debounce paths a e active f = simp (active, f, requeue) refl

pub requeue-ok :
    (fuel debounce : ℕ) (paths : List Text) (a c : Adapter) (r : Bool)
    → a.active ≡ true
    → restore fuel paths false a ≡ ok (r, c)
    → requeue fuel debounce paths a ≡ ok (armed debounce r c)
unfolding requeue
requeue-ok fuel debounce paths a c r active f = simp (active, f, requeue) refl

Waits-armed :
    (fuel debounce : ℕ) (a c : Adapter) (r : Bool) (p : Text)
    → Waits fuel a c r p
    → Waits fuel a (armed debounce r c) (is_some (armed debounce r c).timer) p
Waits-armed fuel debounce a c true p (inl (m, k)) = inl (m, refl)
Waits-armed fuel debounce a c false p (inl (m, k)) = cc k
Waits-armed fuel debounce a c r p (inr k) = inr k

pub ok-injective : {a b : Adapter} → Path (Result Failure Adapter) (ok a) (ok b) → a ≡ b
ok-injective h = cc h

-- After `requeue` every path waits for another flush, or is removed.
pub requeue-Waits :
    (fuel debounce : ℕ) (paths : List Text) (a b : Adapter)
    → a.active ≡ true
    → requeue fuel debounce paths a ≡ ok b
    → (p : Text) → is_in p paths ≡ true
    → Waits fuel a b (is_some b.timer) p
requeue-Waits fuel debounce paths a b active h p m =
    elim (Result-cases (restore fuel paths false a)) [
      | inr (e, f) ↦ cc (requeue-fail fuel debounce paths a e active f, h)
      | inl ((r, c), f) ↦
          let e = ok-injective (sym (requeue-ok fuel debounce paths a c r active f) ∙ h) in
          let i = restore-Restored fuel paths false a c r f in
          subst (λ (d : Adapter). Waits fuel a d (is_some d.timer) p) e
            (Waits-armed fuel debounce a c r p (i.waits p m))
    ]

pub requeue-idle :
    (fuel debounce : ℕ) (paths : List Text) (a : Adapter)
    → a.active ≡ false
    → requeue fuel debounce paths a ≡ ok a
unfolding requeue
requeue-idle fuel debounce paths a idle = simp (idle, requeue) refl

or_endless-failure : (o : Option Text) (e : Failure) → or_endless o ≡ err e → e ≡ endless
or_endless-failure none e h = cc h
or_endless-failure (some q) e h = cc h

-- the one failure of `requeue` is a resolution that does not end
resolve-failure :
    (fuel : ℕ) (a : Adapter) (p : Text) (e : Failure)
    → resolve_current_path fuel a p ≡ err e
    → e ≡ endless
unfolding resolve_current_path
resolve-failure fuel a p e h = or_endless-failure (follow fuel a.redirects [] p) e h

restore-failure :
    (fuel : ℕ) (paths : List Text) (restored : Bool) (a : Adapter) (e : Failure)
    → restore fuel paths restored a ≡ err e
    → e ≡ endless
unfolding restore
restore-failure fuel [] restored a e h = cc h
restore-failure fuel (path ∷ paths) restored a e h =
    elim (Result-cases (resolve_current_path fuel a path)) [
      | inr (e', f) ↦
          let same : e' ≡ e = cc (restore-fail fuel path paths restored a e' f, h) in
          sym same ∙ resolve-failure fuel a path e' f
      | inl (c, f) ↦ elim (Bool-cases (is_removed a c)) [
        | inl t ↦
            restore-failure fuel paths restored a e
              (sym (restore-skip fuel path paths restored a c f t) ∙ h)
        | inr n ↦
            restore-failure fuel paths true (with_pending path a) e
              (sym (restore-keep fuel path paths restored a c f n) ∙ h)
      ]
    ]

pub requeue-endless :
    (fuel debounce : ℕ) (paths : List Text) (a : Adapter) (e : Failure)
    → requeue fuel debounce paths a ≡ err e
    → e ≡ endless
requeue-endless fuel debounce paths a e h = elim (Bool-cases a.active) [
  | inr idle ↦ cc (requeue-idle fuel debounce paths a idle, h)
  | inl active ↦ elim (Result-cases (restore fuel paths false a)) [
    | inl ((r, c), f) ↦ cc (requeue-ok fuel debounce paths a c r active f, h)
    | inr (e', f) ↦
        let same : e' ≡ e = cc (requeue-fail fuel debounce paths a e' active f, h) in
        sym same ∙ restore-failure fuel paths false a e' f
  ]
]
