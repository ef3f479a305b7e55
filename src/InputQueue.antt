-- ===== src/InputQueue.antt =====
-- The bounded queue of input events, crates/cartridge-media/src/input.rs. A signed number is its bit
-- pattern.
pub mod History
mod Examples
use cartridge_runtime.Prelude.{
  ℕ, Bool, true, false, ◌||◌, Option, none, some, List, [], ◌∷◌, ◌++◌, ltb, ◌==◌, any, is_empty,
  length, if◌then◌else◌,
}
use cartridge_runtime.Prelude.Text.{Text, len}
use cartridge_runtime.Prelude.Text
use cartridge_runtime.Prelude.Results.{Result, ok, err, reject, ◌>>=◌, ◌>>◌}

abbrev pub max_input_events : ℕ
max_input_events = 4096

abbrev pub max_text_input_bytes : ℕ
max_text_input_bytes = 4096

pub data InputEvent : Type 0 where
  -- code, pressed, repeat
  key : ℕ → Bool → Bool → InputEvent
  pointer_move : ℕ → ℕ → InputEvent
  -- button, pressed
  pointer_button : ℕ → Bool → InputEvent
  pointer_wheel : ℕ → ℕ → InputEvent
  -- controller, axis, value
  controller_axis : ℕ → ℕ → ℕ → InputEvent
  -- controller, button, pressed
  controller_button : ℕ → ℕ → Bool → InputEvent
  text_input : Text → InputEvent
  close_requested : InputEvent

-- The errors, without their messages.
pub data MediaError : Type 0 where
  invalid limit : MediaError

pub record InputQueue : Type 0 where
  pub events : List InputEvent
  pub capacity : ℕ

-- `InputQueue::new`
pub new_queue : ℕ → Result MediaError InputQueue
new_queue capacity = do
  reject (capacity == 0 || ltb max_input_events capacity) limit
  ok (record { events = []; capacity = capacity })

pub validate_event : InputEvent → Result MediaError (Unit {0})
validate_event (text_input value) = do
  reject (ltb max_text_input_bytes (len value)) limit
  reject (any (λ c. c == 0) value) invalid
validate_event _ = ok tt

pub push : InputQueue → InputEvent → Result MediaError (Unit {0}) × InputQueue
push q event = go (do validate_event event; reject (length q.events == q.capacity) limit)
  where
    go : Result MediaError (Unit {0}) → Result MediaError (Unit {0}) × InputQueue
    go (err e) = (err e, q)
    go (ok u) = (ok tt, record q { events = q.events ++ event ∷ [] })

-- `pop_front`
pop_events : List InputEvent → Option InputEvent × List InputEvent
pop_events [] = (none, [])
pop_events (event ∷ events) = (some event, events)

pub pop : InputQueue → Option InputEvent × InputQueue
unfolding pop_events
pop q = let t = pop_events q.events in (t.0, record q { events = t.1 })

pub queue_len : InputQueue → ℕ
queue_len q = length q.events

pub queue_is_empty : InputQueue → Bool
queue_is_empty q = is_empty q.events
