-- ===== src/Storage/FlushEnds.antt =====
-- A flush ends where the host's actions do: `flushOne` and the loop, `catch` and `finally` of
-- `flush` (src/core/persistence.ts).
use jupyter_pair_ext.Base.{
  ℕ, suc, ◌≡◌, refl, sym, ap, ◌∙◌, subst, inl, inr, Bool, true, false, not, Option, none, some,
  List, [], ◌∷◌, ◌++◌, Bool-cases, Option-cases, nat_eq, string_eq, Result, ok, err, length, Map,
}
use jupyter_pair_ext.Base.Codes.{Text, text_eq}
use jupyter_pair_ext.Storage.{Failure, system, thrown, endless, Bytes, Adapter, World, Action, Host}
use jupyter_pair_ext.Storage.Target.{atomic_write}
use jupyter_pair_ext.Storage.Live.{
  Ended, Live, Live-pure, Live-throw, Live-lift, Live-bind, Live-then, Live-catch, Live-finally,
  Live-when, Live-if, LiveHost, has_ended,
}
use jupyter_pair_ext.Storage.WriteEnds.{atomic_write-Live}
use jupyter_pair_ext.Storage.Redirects.{are_forward, resolve_current_path-settles}
use jupyter_pair_ext.Storage.Requeue.{
  with_pending, restore-skip, restore-keep, armed, requeue-ok, requeue-idle,
}
use jupyter_pair_ext.Storage.State.{resolve_current_path, is_removed, restore, requeue}
use jupyter_pair_ext.Storage.Operations.{
  Progress, current, removed_now, with_backing, report_flushed, serialize_current, write_copies,
  write_unless_removed, write_final, flush_current, flush_one, after_one, flush_each, with_adapter,
  requeue_outstanding, report_if_any, settle, flush_paths,
}

module _ (rs : Map Text Text) (forward : are_forward [] rs ≡ true) where
  abbrev enough : ℕ
  enough = suc (length rs)

  resolve-ends :
      (a : Adapter) (path : Text)
      → a.redirects ≡ rs
      → (c : Text) × (resolve_current_path enough a path ≡ ok c)
  resolve-ends a path e =
      let (c, h, end) = resolve_current_path-settles a path (ap (are_forward []) e ∙ forward) in
      (c, subst (λ l. resolve_current_path (suc (length l)) a path ≡ ok c) e h)

  restore-ends :
      (paths : List Text) (restored : Bool) (a : Adapter)
      → a.redirects ≡ rs
      → (r : Bool) × (b : Adapter) × (restore enough paths restored a ≡ ok (r, b))
        × (b.redirects ≡ rs)
  unfolding restore
  restore-ends [] restored a e = (restored, a, refl, e)
  restore-ends (path ∷ paths) restored a e =
      let (c, f) = resolve-ends a path e in
      elim (Bool-cases (is_removed a c)) [
        | inl t ↦
            let (r, b, h, k) = restore-ends paths restored a e in
            (r, b, restore-skip enough path paths restored a c f t ∙ h, k)
        | inr n ↦
            let (r, b, h, k) = restore-ends paths true (with_pending path a) e in
            (r, b, restore-keep enough path paths restored a c f n ∙ h, k)
      ]

  armed-redirects :
      (debounce : ℕ) (r : Bool) (a : Adapter)
      → a.redirects ≡ rs
      → (armed debounce r a).redirects ≡ rs
  armed-redirects debounce true a e = e
  armed-redirects debounce false a e = e

  requeue-ends :
      (debounce : ℕ) (paths : List Text) (a : Adapter)
      → a.redirects ≡ rs
      → (b : Adapter) × (requeue enough debounce paths a ≡ ok b) × (b.redirects ≡ rs)
  requeue-ends debounce paths a e = elim (Bool-cases a.active) [
    | inr idle ↦ (a, requeue-idle enough debounce paths a idle, e)
    | inl active ↦
        let (r, b, h, k) = restore-ends paths false a e in
        (
          armed debounce r b,
          requeue-ok enough debounce paths a b r active h,
          armed-redirects debounce r b k,
        )
  ]

  module _ {D : Type 0} (host : Host D) (live : LiveHost rs host) (debounce : ℕ) (root : Text) where
    current-Live : (path : Text) → Live rs (current host enough debounce root path)
    unfolding current
    current-Live path = record {
      run = λ w e. let (c, h) = resolve-ends w.adapter path e in (ap has_ended h, e);
    }

    removed_now-Live : (path : Text) → Live rs (removed_now host enough debounce root path)
    unfolding removed_now
    removed_now-Live path = record { run = λ w e. (refl, e) }

    with_backing-Ended :
        (f : Text → Action D (Unit {0}))
        → ((r : Text) → Live rs (f r))
        → (w : World D) → w.adapter.redirects ≡ rs
        → Ended rs (with_backing host enough debounce root f w)
    unfolding with_backing
    with_backing-Ended f h w e = elim (Option-cases w.adapter.backing_root) [
      | inl n ↦ simp (n, with_backing) (refl, e)
      | inr (r, s) ↦ simp (s, with_backing) ((h r).run w e)
    ]

    serialize_current-Live :
        (original path : Text) → Live rs (serialize_current host enough debounce root original path)
    unfolding serialize_current
    serialize_current-Live original path =
        Live-catch _ _ (Live-bind _ _ (live.serialize path) (λ bytes. Live-pure _)) (λ e c.
          Live-bind _ _ (current-Live original) (λ redirected.
            Live-bind _ _ (removed_now-Live redirected) (λ removed.
              Live-if _ _ _ (Live-throw e c)
                (Live-bind _ _ (live.serialize redirected) (λ bytes. Live-pure _)))))

    write_copies-Live :
        (path : Text) (bytes : Bytes) → Live rs (write_copies host enough debounce root path bytes)
    unfolding write_copies
    write_copies-Live path bytes =
        let backing : Live rs
            (with_backing host enough debounce root (λ r. atomic_write host r path bytes)) =
          record { run = with_backing-Ended _ (λ r. atomic_write-Live host live r path bytes) } in
        let working = λ (handled : Bool). Live-when (not handled) _ (
          Live-then _ _ (live.on_working_copy_write path bytes)
            (atomic_write-Live host live root path bytes)) in
        elim (Option-cases host.write_working_copy) [
          | inl n ↦
              simp (n, write_copies)
                (Live-then _ _ backing (Live-bind _ _ (Live-pure false) working))
          | inr (write, s) ↦
              simp (s, write_copies)
                (Live-then _ _ backing
                  (Live-bind _ _ (live.write_working_copy write s path bytes) working))
        ]

    write_unless_removed-Live :
        (bytes : Bytes) (path : Text)
        → Live rs (write_unless_removed host enough debounce root bytes path)
    unfolding write_unless_removed
    write_unless_removed-Live bytes path = Live-bind _ _ (removed_now-Live path) (λ removed.
        Live-if removed _ _ (Live-pure none)
          (Live-then _ _ (write_copies-Live path bytes) (Live-pure (some path))))

    write_final-Live :
        (original : Text) (x : Bytes × Text)
        → Live rs (write_final host enough debounce root original x)
    unfolding write_final
    write_final-Live original (bytes, serialized) =
        Live-bind _ _ (current-Live original) (write_unless_removed-Live bytes)

    flush_current-Live :
        (original path : Text) → Live rs (flush_current host enough debounce root original path)
    unfolding flush_current
    flush_current-Live original path = Live-bind _ _ (removed_now-Live path) (λ removed.
        Live-if removed _ _ (Live-pure none)
          (Live-bind _ _ (serialize_current-Live original path) (write_final-Live original)))

    flush_one-Live : (original : Text) → Live rs (flush_one host enough debounce root original)
    unfolding flush_one
    flush_one-Live original = Live-bind _ _ (current-Live original) (flush_current-Live original)

    -- the loop has ended, with its outcome, and the redirects are as before
    abbrev Looped : Progress × World D → Type 0
    Looped (g, w) = Ended rs (g.outcome, w)

    after_one-Looped :
        (paths : List Text) (rest : List Text → World D → Progress × World D) (fs : List Text)
        (x : Result Failure (Option Text) × World D)
        → Ended rs x
        → ((gs : List Text) (w : World D) → w.adapter.redirects ≡ rs → Looped (rest gs w))
        → Looped (after_one host enough debounce root paths rest fs x)
    unfolding after_one
    after_one-Looped paths rest fs (ok none, w) h k = k fs w h.1
    after_one-Looped paths rest fs (ok (some p), w) h k = k (fs ++ (p ∷ [])) w h.1
    after_one-Looped paths rest fs (err endless, w) h k = h
    after_one-Looped paths rest fs (err (system c), w) h k = h
    after_one-Looped paths rest fs (err (thrown r), w) h k = h

    flush_each-Looped :
        (paths fs : List Text) (w : World D)
        → w.adapter.redirects ≡ rs
        → Looped (flush_each host enough debounce root paths fs w)
    unfolding flush_each
    flush_each-Looped [] fs w e = (refl, e)
    flush_each-Looped (path ∷ paths) fs w e =
        after_one-Looped (path ∷ paths) (flush_each host enough debounce root paths) fs _
          ((flush_one-Live path).run w e) (flush_each-Looped paths)

    requeue_outstanding-Live :
        (paths : List Text) → Live rs (requeue_outstanding host enough debounce root paths)
    unfolding requeue_outstanding
    requeue_outstanding-Live paths = record {
      run = λ w e.
          let (b, h, k) = requeue-ends debounce paths w.adapter e in
          subst (λ q. Ended rs (with_adapter host enough debounce root q w)) (sym h) (refl, k);
    }

    report_if_any-Live : (fs : List Text) → Live rs (report_if_any host enough debounce root fs)
    unfolding report_if_any report_flushed
    report_if_any-Live [] = Live-pure tt
    report_if_any-Live (f ∷ fs) = record { run = λ w e. (refl, e) }

    settle-Live :
        (g : Progress) → has_ended g.outcome ≡ true → Live rs (settle host enough debounce root g)
    unfolding settle
    settle-Live g h =
        Live-finally _ _
          (Live-catch _ _ (Live-lift g.outcome h)
            (λ e c. Live-then _ _ (requeue_outstanding-Live g.outstanding) (Live-throw e c)))
          (report_if_any-Live g.flushed)

    -- Where the target of each redirect is apart from its source and from the sources of the
    -- redirects before it, the host's actions end and no rename runs meanwhile: a flush of any
    -- paths ends, in success or in a failure, with one round of resolution for each redirect and
    -- one more, and the redirects are as before.
    pub flush_paths-ends :
        (paths : List Text) (w : World D)
        → w.adapter.redirects ≡ rs
        → Ended rs (flush_paths host enough debounce root paths w)
    unfolding flush_paths
    flush_paths-ends paths w e =
        let (g, v) = flush_each host enough debounce root paths [] w in
        let looped : Looped (g, v) = flush_each-Looped paths [] w e in
        (settle-Live g looped.0).run v looped.1
