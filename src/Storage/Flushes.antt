-- ===== src/Storage/Flushes.antt =====
-- What a flush does with the paths it was given (src/core/persistence.ts).
use jupyter_pair_ext.Base.{
  ℕ, ◌≡◌, ◌⊎◌, true, false, Option, List, [], ◌∷◌, nat_eq, string_eq, Result, ok, err, is_some,
}
use jupyter_pair_ext.Base.Codes.{Text, text_eq}
use jupyter_pair_ext.Storage.{Failure, World, after, ◌>>◌, throw, recover, finish, Host}
use jupyter_pair_ext.Storage.State.{resolve_current_path, is_removed}
use jupyter_pair_ext.Storage.Operations.{
  Progress, flush_one, flush_each, requeue_outstanding, report_if_any,
}
use jupyter_pair_ext.Storage.Requeue.{is_in}
use jupyter_pair_ext.Storage.Done.{Done}

module _ {D : Type 0} (host : Host D) (fuel debounce : ℕ) (working_root : Text) where
  -- The loop over paths comes to `v` with `rest` left to do.
  pub data Reaches (rest : List Text) (v : World D) : List Text → World D → Type 0 where
    here : Reaches rest v rest v
    there :
        {p : Text} {ps : List Text} {u w : World D} {o : Option Text}
        → flush_one host fuel debounce working_root p u ≡ (ok o, w)
        → Reaches rest v ps w
        → Reaches rest v (p ∷ ps) u

  -- the loop has called `flushOne` with the path, and this is what it has done
  pub record Handled (paths : List Text) (u : World D) (p : Text) (flushed : List Text)
      : Type 0 where
    pub rest : List Text
    pub world : World D
    pub reached : Reaches (p ∷ rest) world paths u
    pub is_done : Done host fuel debounce working_root p world flushed

  -- The loop: each path is done, or is still in the list; and the list is empty unless it failed.
  record Looped (paths : List Text) (before : List Text) (u : World D) (r : Progress) : Type 0 where
    keeps :
        (p : Text) (v : World D)
        → Done host fuel debounce working_root p v before
        → Done host fuel debounce working_root p v r.flushed
    fates :
        (p : Text)
        → is_in p paths ≡ true
        → Handled paths u p r.flushed ⊎ (is_in p r.outstanding ≡ true)
    ended : r.outcome ≡ ok tt → r.outstanding ≡ []

  abbrev loop : List Text → List Text → World D → Progress × World D
  loop = flush_each host fuel debounce working_root

  -- What becomes of a path that was pending when a flush began: by what the loop left (`x`), and
  -- the outcome and the world of the flush. The path was handled by the loop; or the flush failed,
  -- and the path is pending with the timer armed, or its current path was removed when the loop
  -- ended; or the adapter has been stopped.
  pub data Fate (paths : List Text) (u : World D) (x : Progress × World D)
      (r : Result Failure (Unit {0})) (w : World D) (p : Text) : Type 0 where
    done : Handled paths u p x.0.flushed → Fate paths u x r w p
    waits :
        (e : Failure)
        → r ≡ err e
        → is_in p w.adapter.pending ≡ true
        → is_some w.adapter.timer ≡ true
        → Fate paths u x r w p
    given_up :
        (e : Failure) (c : Text)
        → r ≡ err e
        → resolve_current_path fuel x.1.adapter p ≡ ok c
        → is_removed x.1.adapter c ≡ true
        → Fate paths u x r w p
    stopped : w.adapter.active ≡ false → Fate paths u x r w p

  -- the emission at the end keeps the outcome, what is pending, the timer and whether it is active
  abbrev Reported :
      Result Failure (Unit {0}) → World D → Result Failure (Unit {0}) × World D → Type 0
  Reported r u (s, w) =
      (s ≡ r)
      × (w.adapter.pending ≡ u.adapter.pending)
      × (w.adapter.timer ≡ u.adapter.timer)
      × (w.adapter.active ≡ u.adapter.active)

  -- the `catch` of a flush that failed
  abbrev caught : Progress → Failure → World D → Result Failure (Unit {0}) × World D
  caught g e u =
      after (requeue_outstanding host fuel debounce working_root g.outstanding u) (λ x. throw e)

  -- the `try`, `catch` and `finally` around the loop, on its outcome
  abbrev ending :
      Progress → World D → Result Failure (Unit {0}) → Result Failure (Unit {0}) × World D
  ending g u o =
      finish
        (recover (o, u)
          (λ e. requeue_outstanding host fuel debounce working_root g.outstanding >> throw e))
        (report_if_any host fuel debounce working_root g.flushed)
