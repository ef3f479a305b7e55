-- ===== src/InputQueue/Examples.antt =====
-- A queue of two events.
use cartridge_runtime.Prelude.{◌≡◌, refl, true, false, [], ◌∷◌, ◌++◌, List, arith}
use cartridge_runtime.InputQueue.{
  InputQueue, key, close_requested, new_queue, validate_event, push, pop,
}
use cartridge_runtime.InputQueue.History.{
  Request, pushes, pops, run, taken, given, given-taken, IsQueue, run-IsQueue,
}

abbrev two_slots : InputQueue
two_slots = record { events = []; capacity = 2 }

-- The third push finds the queue full.
abbrev calls : List Request
calls =
    pushes (key 30 true false) ∷ pushes close_requested ∷ pushes (key 30 false false) ∷ pops ∷ []

given-calls : given two_slots calls ≡ key 30 true false ∷ []
unfolding given run push pop validate_event
given-calls = refl

given-taken_example :
    given two_slots calls ++ (run two_slots calls).events
    ≡ two_slots.events ++ taken two_slots calls
given-taken_example = given-taken two_slots calls

run-IsQueue_example : IsQueue (run two_slots calls)
unfolding new_queue
run-IsQueue_example = run-IsQueue 2 two_slots calls refl

two_slots-IsQueue : IsQueue two_slots
two_slots-IsQueue = ground arith
