-- ===== src/InputQueue/History.antt =====
-- Sequences of pushes and pops.
use cartridge_runtime.Prelude.{
  ℕ, ◌≤◌, ◌<◌, ◌≡◌, refl, ap, sym, ◌∙◌, ◌↔◌, inl, inr, false, Option, none, some, List, [], ◌∷◌,
  ◌++◌, arith, length, length-append, All, All-append, Bool-cases, ◌==◌,
}
use mathlib.Core.List.{append-nil, append_assoc}
use cartridge_runtime.Prelude.Results.{Result, ok, err, reject, ◌>>◌, Result-cases}
use cartridge_runtime.InputQueue.{
  InputEvent, MediaError, InputQueue, new_queue, validate_event, push, pop, pop_events, limit,
}

-- A push of an event, or a pop.
pub data Request : Type 0 where
  pushes : InputEvent → Request
  pops : Request

abbrev pub step : InputQueue → Request → InputQueue
step q (pushes event) = (push q event).1
step q pops = (pop q).1

unfoldable pub run : InputQueue → List Request → InputQueue
run q [] = q
run q (r ∷ rs) = run (step q r) rs

-- The events that the queue took, and those that it gave back.
abbrev taken_one : Result MediaError (Unit {0}) → InputEvent → List InputEvent
taken_one (ok u) event = event ∷ []
taken_one (err e) event = []

unfoldable pub taken : InputQueue → List Request → List InputEvent
taken q [] = []
taken q (pushes event ∷ rs) = taken_one (push q event).0 event ++ taken (step q (pushes event)) rs
taken q (pops ∷ rs) = taken (step q pops) rs

abbrev given_one : Option InputEvent → List InputEvent
given_one none = []
given_one (some event) = event ∷ []

unfoldable pub given : InputQueue → List Request → List InputEvent
given q [] = []
given q (pushes event ∷ rs) = given (step q (pushes event)) rs
given q (pops ∷ rs) = given_one (pop q).0 ++ given (step q pops) rs

push-events :
    (q : InputQueue) (event : InputEvent)
    → (push q event).1.events ≡ q.events ++ taken_one (push q event).0 event
unfolding push
push-events q event =
    elim (Result-cases (validate_event event >> reject (length q.events == q.capacity) limit)) [
      | inl (e, c) ↦ simp c (sym (append-nil q.events))
      | inr (u, c) ↦ simp c refl
    ]

pop-events : (q : InputQueue) → given_one (pop q).0 ++ (pop q).1.events ≡ q.events
unfolding pop pop_events
pop-events q = go q.events
  where
    go : (xs : List InputEvent) → given_one (pop_events xs).0 ++ (pop_events xs).1 ≡ xs
    go [] = refl
    go (x ∷ xs) = refl

-- Over any pushes and pops, the events that the queue held and took are, in this order, the events
-- that it gave back and those it holds: nothing is lost, doubled or overtaken.
pub given-taken :
    (q : InputQueue) (rs : List Request) → given q rs ++ (run q rs).events ≡ q.events ++ taken q rs
unfolding given taken run
given-taken q [] = sym (append-nil q.events)
given-taken q (pushes event ∷ rs) =
    given-taken (push q event).1 rs
    ∙ ap (λ es. es ++ taken (push q event).1 rs) (push-events q event)
    ∙ append_assoc q.events (taken_one (push q event).0 event) (taken (push q event).1 rs)
given-taken q (pops ∷ rs) =
    append_assoc (given_one (pop q).0) (given (pop q).1 rs) (run (pop q).1 rs).events
    ∙ ap (λ es. given_one (pop q).0 ++ es) (given-taken (pop q).1 rs)
    ∙ sym (append_assoc (given_one (pop q).0) (pop q).1.events (taken (pop q).1 rs))
    ∙ ap (λ es. es ++ taken (pop q).1 rs) (pop-events q)

pub record IsQueue (q : InputQueue) : Type 0 where
  pub some_room : 1 ≤ q.capacity
  pub bounded : q.capacity ≤ 4096
  pub fits : length q.events ≤ q.capacity
  pub valid : All (λ event. validate_event event ≡ ok tt) q.events

push-IsQueue : (q : InputQueue) (event : InputEvent) → IsQueue q → IsQueue (push q event).1
unfolding push
push-IsQueue q event v = elim (Result-cases (validate_event event)) [
  | inl (e, c) ↦ simp c v
  | inr (u, c) ↦ elim (Bool-cases (length q.events == q.capacity)) [
    | inl full ↦ simp (c, full) v
    | inr free ↦
        simp (c, free)
          (record {
            some_room = v.some_room;
            bounded = v.bounded;
            fits = omega (arith, length-append q.events (event ∷ []), v.fits, room free);
            valid = All-append _ q.events (event ∷ []) v.valid (c, tt);
          })
  ]
]
  where
    room : (length q.events == q.capacity) ≡ false → length q.events < q.capacity
    room free = ground (arith, v.fits)

pop-IsQueue : (q : InputQueue) → IsQueue q → IsQueue (pop q).1
unfolding pop pop_events
pop-IsQueue q v = record {
  some_room = v.some_room;
  bounded = v.bounded;
  fits = (go q.events v.fits v.valid).0;
  valid = (go q.events v.fits v.valid).1;
}
  where
    go :
        (xs : List InputEvent)
        → length xs ≤ q.capacity
        → All (λ event. validate_event event ≡ ok tt) xs
        → (length (pop_events xs).1 ≤ q.capacity)
          × All (λ event. validate_event event ≡ ok tt) (pop_events xs).1
    go [] l a = (l, a)
    go (x ∷ xs) l a = (omega (arith, l), a.1)

run-IsQueue_from : (q : InputQueue) (rs : List Request) → IsQueue q → IsQueue (run q rs)
unfolding run
run-IsQueue_from q [] v = v
run-IsQueue_from q (pushes event ∷ rs) v =
    run-IsQueue_from (push q event).1 rs (push-IsQueue q event v)
run-IsQueue_from q (pops ∷ rs) v = run-IsQueue_from (pop q).1 rs (pop-IsQueue q v)

new_queue-IsQueue : (capacity : ℕ) (q : InputQueue) → new_queue capacity ≡ ok q → IsQueue q
unfolding new_queue
new_queue-IsQueue capacity q h = ground arith

-- A new queue, after any pushes and pops, holds no more events than its capacity, which is from 1 to
-- 4096, and each is one that the checks accept.
pub run-IsQueue :
    (capacity : ℕ) (q : InputQueue) (rs : List Request)
    → new_queue capacity ≡ ok q
    → IsQueue (run q rs)
run-IsQueue capacity q rs h = run-IsQueue_from q rs (new_queue-IsQueue capacity q h)

-- A push on a valid queue is accepted exactly if the event passes the checks and there is room.
pub push_accepts :
    (q : InputQueue) (event : InputEvent)
    → IsQueue q
    → ((push q event).0 ≡ ok tt) ↔ ((validate_event event ≡ ok tt) × (length q.events < q.capacity))
unfolding push
push_accepts q event v = elim (Result-cases (validate_event event)) [
  | inl (e, c) ↦ ground (arith, c)
  | inr (u, c) ↦ elim (Bool-cases (length q.events == q.capacity)) [
    | inl full ↦ ground (arith, c, full)
    | inr free ↦ ground (arith, c, free, v.fits)
  ]
]
