-- ===== src/ExecutionQueue.antt =====
-- The queue of executions: `PerNotebookExecutionQueue` of src/core/executionQueue.ts. A promise is
-- a number; the callback of `tail.finally` is an operation of its own, which runs once for each
-- task that was accepted.
use jupyter_pair_ext.Base.{
  ℕ, ◌+◌, ◌-◌, String, Bool, ◌&&◌, ◌||◌, Option, none, some, ltb, leb, if◌then◌else◌, ◌==◌, nat_eq,
  string_eq, ◌>>=◌, ◌>>◌, or_else, Map, get, put, remove,
}
pub mod Counts
pub mod Line
pub mod Serial

pub record QueueLimits : Type 0 where
  pub maximum_per_notebook : ℕ
  pub maximum_total : ℕ

pub record ExecutionQueue : Type 0 where
  pub tails : Map String ℕ
  pub pending : Map String ℕ
  pub total_pending : ℕ

-- the test of the constructor
unfoldable pub are_valid_limits : QueueLimits → Bool
are_valid_limits limits =
    leb 1 limits.maximum_per_notebook && leb limits.maximum_per_notebook limits.maximum_total

abbrev pub pending_of : String → ExecutionQueue → ℕ
pending_of key q = or_else (get key q.pending) 0

-- `none` is the rejection; else the queue, and the tail that the task waits for
unfoldable pub enqueue :
    QueueLimits → String → ℕ → ExecutionQueue → Option (ExecutionQueue × Option ℕ)
enqueue limits key tail q =
    if leb limits.maximum_per_notebook (pending_of key q)
      || leb limits.maximum_total q.total_pending
    then none
    else some (
      record {
        tails = put key tail q.tails;
        pending = put key (pending_of key q + 1) q.pending;
        total_pending = q.total_pending + 1;
      },
      get key q.tails,
    )

-- the callback of `tail.finally`
unfoldable pub finish_task : String → ℕ → ExecutionQueue → ExecutionQueue
finish_task key tail q =
    let remaining = or_else (get key q.pending) 1 - 1 in
    record {
      tails = elim (get key q.tails) [
        | none ↦ q.tails
        | some t ↦ if t == tail then remove key q.tails else q.tails
      ];
      pending = if ltb 0 remaining then put key remaining q.pending else remove key q.pending;
      total_pending = q.total_pending - 1;
    }

-- `whenIdle`: the tail to wait for
unfoldable pub when_idle : String → ExecutionQueue → Option ℕ
when_idle key q = get key q.tails
