-- ===== src/Tests/Executions.antt =====
-- A remote execution (src/runtime/session.ts).
use jupyter_pair_ext.Base.{
  ℕ, zero, suc, String, Bool, false, some, List, [], ◌∷◌, nat_eq, string_eq,
}
use jupyter_pair_ext.Base.Js.{whole}
use jupyter_pair_ext.Base.Int.{pos}
use mathlib.Core.List.{Memᴰ}
use jupyter_pair_ext.Execution.Stream.{Message, execution_event, execute_result}

abbrev outputs : ℕ → String
outputs zero = "one"
outputs (suc n) = "two"

abbrev no_input : String → Bool
no_input event = false

abbrev event_of : String → ℕ → Message String String
event_of source s = execution_event source (some (outputs s, 3)) (some (whole (pos s)))

-- The result overtakes the events, which come in the wrong order, one of them twice; a stranger
-- joins in.
abbrev arrivals : List (Message String String)
arrivals =
    execute_result "gpu" (some "done") (some (whole (pos 2)))
    ∷ event_of "gpu" 1
    ∷ event_of "eve" 0
    ∷ event_of "gpu" 1
    ∷ event_of "gpu" 0
    ∷ []
