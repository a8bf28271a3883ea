-- ===== src/ExecutionQueue/Counts.antt =====
-- The counters of the execution queue (src/core/executionQueue.ts).
use jupyter_pair_ext.Base.{
  ℕ, suc, ◌+◌, ◌-◌, ◌≤◌, ◌<◌, String, ◌≡◌, refl, Option, some, List, [], ◌∷◌, ◌++◌, arith,
  if◌then◌else◌, ◌==◌, nat_eq, string_eq, length, length-append, get, put, get-put, get-remove,
}
use jupyter_pair_ext.ExecutionQueue.{QueueLimits, ExecutionQueue, pending_of, enqueue, finish_task}

-- The tasks of a notebook among those that were accepted and have not ended.
unfoldable pub count : String → List (String × ℕ) → ℕ
count key [] = 0
count key ((k, id) ∷ tasks) = let rest = count key tasks in if k == key then suc rest else rest

-- A queue with the tasks that it has accepted and that have not ended.
pub record Work : Type 0 where
  pub queue : ExecutionQueue
  pub tasks : List (String × ℕ)

module _ (limits : QueueLimits) where
  pub data Step (w : Work) : Work → Type 0 where
    accept :
        (key : String) (id : ℕ) (q : ExecutionQueue) (previous : Option ℕ)
        → enqueue limits key id w.queue ≡ some (q, previous)
        → Step w (record { queue = q; tasks = (key, id) ∷ w.tasks })
    finish :
        (key : String) (id : ℕ) (before after : List (String × ℕ))
        → w.tasks ≡ before ++ ((key, id) ∷ after)
        → Step w (record { queue = finish_task key id w.queue; tasks = before ++ after })

  pub data Reach : Work → Type 0 where
    initially :
        Reach
          (record { queue = record { tails = []; pending = []; total_pending = 0 }; tasks = [] })
    later : {v w : Work} → Reach v → Step v w → Reach w

count-append :
    (key : String) (a b : List (String × ℕ)) → count key (a ++ b) ≡ count key a + count key b
unfolding count
count-append key [] b = omega arith
count-append key ((k, id) ∷ a) b = ground (arith, count-append key a b)

count-length : (key : String) (a : List (String × ℕ)) → count key a ≤ length a
unfolding count
count-length key [] = omega arith
count-length key ((k, id) ∷ a) = ground (arith, count-length key a)

count-middle :
    (key k : String) (id : ℕ) (a b : List (String × ℕ))
    → count key (a ++ ((k, id) ∷ b)) ≡ (if k == key then 1 else 0) + count key (a ++ b)
unfolding count
count-middle key k id a b = ground (arith, count-append key a ((k, id) ∷ b), count-append key a b)

length-middle :
    (k : String) (id : ℕ) (a b : List (String × ℕ))
    → length (a ++ ((k, id) ∷ b)) ≡ suc (length (a ++ b))
length-middle k id a b = omega (arith, length-append a ((k, id) ∷ b), length-append a b)

record Inv (limits : QueueLimits) (w : Work) : Type 0 where
  counted : (key : String) → pending_of key w.queue ≡ count key w.tasks
  total : w.queue.total_pending ≡ length w.tasks
  per_bound : (key : String) → count key w.tasks ≤ limits.maximum_per_notebook
  total_bound : length w.tasks ≤ limits.maximum_total

module _ (limits : QueueLimits) where
  accept-Inv :
      (w : Work) (key : String) (id : ℕ) (q : ExecutionQueue) (previous : Option ℕ)
      → Inv limits w
      → enqueue limits key id w.queue ≡ some (q, previous)
      → Inv limits (record { queue = q; tasks = (key, id) ∷ w.tasks })
  unfolding enqueue count
  accept-Inv w key id q previous i h =
      let (room, total_room, counted, total) : (pending_of key w.queue
            < limits.maximum_per_notebook)
          × (w.queue.total_pending < limits.maximum_total)
          × (q.pending ≡ put key (pending_of key w.queue + 1) w.queue.pending)
          × (q.total_pending ≡ w.queue.total_pending + 1) =
        ground (arith, h) in
      record {
        counted = λ k. ground (
          arith,
          counted,
          i.counted k,
          i.counted key,
          string_eq.equal_iff key k,
          get-put key k (pending_of key w.queue + 1) w.queue.pending,
        );
        total = omega (arith, total, i.total);
        per_bound =
            λ k. ground (arith, room, i.counted key, i.per_bound k, string_eq.equal_iff key k);
        total_bound = omega (arith, total_room, i.total);
      }

  finish-Inv :
      (w : Work) (key : String) (id : ℕ) (before after : List (String × ℕ))
      → Inv limits w
      → w.tasks ≡ before ++ ((key, id) ∷ after)
      → Inv limits (record { queue = finish_task key id w.queue; tasks = before ++ after })
  unfolding finish_task
  finish-Inv w key id before after i e = record {
    counted = λ k. ground (
      arith,
      i.counted k,
      i.counted key,
      e,
      count-middle k key id before after,
      count-middle key key id before after,
      string_eq.equal_iff key k,
      get-put key k (pending_of key w.queue - 1) w.queue.pending,
      get-remove key k w.queue.pending,
    );
    total = ground (arith, i.total, e, length-middle key id before after);
    per_bound = λ k. ground (arith, i.per_bound k, e, count-middle k key id before after);
    total_bound = ground (arith, i.total_bound, e, length-middle key id before after);
  }

  Reach-Inv : {w : Work} → Reach limits w → Inv limits w
  unfolding count get
  Reach-Inv initially = record {
    counted = λ k. refl;
    total = refl;
    per_bound = λ k. omega arith;
    total_bound = omega arith;
  }
  Reach-Inv (later {v} before (accept key id q previous h)) =
      accept-Inv v key id q previous (Reach-Inv before) h
  Reach-Inv (later {v} before (finish key id front back e)) =
      finish-Inv v key id front back (Reach-Inv before) e

  -- However tasks are accepted and end, in whatever order: the counters are the numbers of the
  -- tasks that have not ended, of a notebook and in all, and neither exceeds its limit.
  pub enqueue-counts :
      {w : Work}
      → Reach limits w
      → (key : String)
      → (pending_of key w.queue ≡ count key w.tasks)
        × (w.queue.total_pending ≡ length w.tasks)
        × (pending_of key w.queue ≤ limits.maximum_per_notebook)
        × (w.queue.total_pending ≤ limits.maximum_total)
  enqueue-counts {w} r key =
      let i = Reach-Inv r in
      (
        i.counted key,
        i.total,
        omega (arith, i.counted key, i.per_bound key),
        omega (arith, i.total, i.total_bound),
      )
