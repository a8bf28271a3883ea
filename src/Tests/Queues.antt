-- ===== src/Tests/Queues.antt =====
-- The line of an execution queue at concrete inputs.
use jupyter_pair_ext.Base.{refl, none, some, [], ◌∷◌, nat_eq, string_eq, get, put}
use jupyter_pair_ext.ExecutionQueue.{QueueLimits, ExecutionQueue, enqueue, finish_task}
use jupyter_pair_ext.ExecutionQueue.Line.{Task}
use jupyter_pair_ext.ExecutionQueue.Serial.{
  Running, is_settled, Step, accept, finish, Reach, initially, later, Serial, Step-Serial,
}

abbrev two : QueueLimits
two = record { maximum_per_notebook = 2; maximum_total = 3 }

abbrev one_queued : ExecutionQueue
one_queued = record { tails = ("a", 0) ∷ []; pending = ("a", 1) ∷ []; total_pending = 1 }

abbrev two_queued : ExecutionQueue
two_queued = record { tails = ("a", 1) ∷ []; pending = ("a", 2) ∷ []; total_pending = 2 }

abbrev first_task : Task
first_task = record { key = "a"; id = 0; previous = none }

abbrev second_task : Task
second_task = record { key = "a"; id = 1; previous = some 0 }

abbrev both_run : Running
both_run = record { queue = two_queued; tasks = first_task ∷ second_task ∷ []; next = 2 }

both_run-Reach : Reach two both_run
unfolding enqueue get put
both_run-Reach =
    later (later initially (accept "a" one_queued none refl)) (accept "a" two_queued (some 0) refl)

first_ends :
    Step two both_run
      (record { queue = finish_task "a" 0 two_queued; tasks = second_task ∷ []; next = 2 })
unfolding is_settled
first_ends = finish first_task [] (second_task ∷ []) refl refl

Step-Serial_example : Serial (first_task ∷ second_task ∷ []) (second_task ∷ [])
Step-Serial_example = Step-Serial two both_run-Reach first_ends
