-- ===== src/Rolling/Examples.antt =====
-- Concrete steps of a rolling update from two replicas to two others.
use cartridge_runtime.Prelude.{◌≡◌, refl, true, [], ◌∷◌, arith}
use cartridge_runtime.Prelude.Sets.{contains, keep, range, insert_sorted, sort}
use cartridge_runtime.Prelude.Results.{ok}
use cartridge_runtime.Rolling.{
  RollingObservation, RollingAction, default_policy, validate_policy, is_inconsistent, validate,
  start_action, drain_action, ordered_action, decide, next,
}
use cartridge_runtime.Rolling.Consistent.{HasSets, IsConsistent, validate-IsConsistent}
use cartridge_runtime.Rolling.Starts.{IsStart, next-IsStart}
use cartridge_runtime.Rolling.Drains.{IsDrain, next-IsDrain}
use cartridge_runtime.Rolling.Advance.{advances, next-advances}

abbrev before : RollingObservation
before = record {
  previous_replicas = 2;
  candidate_replicas = 2;
  previous_active = 1 ∷ 2 ∷ [];
  previous_ready = 1 ∷ 2 ∷ [];
  candidate_active = [];
  candidate_ready = [];
  candidate_available = [];
  candidate_terminal = [];
  elapsed_since_progress_ms = 0;
}

abbrev midway : RollingObservation
midway = record before {
  candidate_active = 1 ∷ [];
  candidate_ready = 1 ∷ [];
  candidate_available = 1 ∷ [];
}

abbrev after : RollingObservation
after = record before {
  previous_active = [];
  previous_ready = [];
  candidate_active = 1 ∷ 2 ∷ [];
  candidate_ready = 1 ∷ 2 ∷ [];
  candidate_available = 1 ∷ 2 ∷ [];
}

midway-HasSets : HasSets midway
midway-HasSets = ground arith

after-HasSets : HasSets after
after-HasSets = ground arith

validate-IsConsistent_example : IsConsistent midway default_policy
unfolding validate validate_policy is_inconsistent contains
validate-IsConsistent_example = validate-IsConsistent midway default_policy refl

next-IsStart_example : IsStart before default_policy (1 ∷ [])
unfolding validate validate_policy is_inconsistent contains keep range start_action drain_action
    ordered_action decide next
next-IsStart_example = next-IsStart before default_policy (1 ∷ []) refl

next-IsDrain_example : IsDrain midway default_policy (1 ∷ []) 30_000
unfolding validate validate_policy is_inconsistent contains keep range insert_sorted sort
    start_action drain_action ordered_action decide next
next-IsDrain_example = next-IsDrain midway default_policy (1 ∷ []) 30_000 midway-HasSets refl

next-advances_example :
    (a : RollingAction) × (next midway default_policy ≡ ok a) × (advances a ≡ true)
unfolding validate validate_policy is_inconsistent contains
next-advances_example =
    next-advances midway default_policy midway-HasSets refl refl refl (omega arith)
