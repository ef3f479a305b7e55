-- ===== src/Rolling/Starts.antt =====
-- What `next` starts.
use cartridge_runtime.Prelude.{
  ℕ, ◌+◌, ◌≤◌, ◌<◌, ◌≡◌, ap, false, not, ◌&&◌, some, List, [], ◌∷◌, arith, length, length-take,
  take, All, All-take,
}
use cartridge_runtime.Prelude.Sets.{
  contains, keep, range, From, take-From, keep-From, range-From, All-range,
}
use cartridge_runtime.Prelude.Results.{ok}
use cartridge_runtime.Rolling.{
  RollingUpdatePolicy, RollingObservation, start_candidate, start_action, drain_action, start_count,
  startable, ordered_action, policy_replicas, decide, next,
}
use cartridge_runtime.Rolling.Consistent.{IsOrdinal, validate-IsConsistent, next-decide}

-- An ordinal that may be started: the candidate has it, and it is neither active nor terminal.
pub record IsStartable (o : RollingObservation) (x : ℕ) : Type 0 where
  pub ordinal : IsOrdinal o.candidate_replicas x
  pub idle : contains x o.candidate_active ≡ false
  pub fresh : contains x o.candidate_terminal ≡ false

-- What the code may start.
pub record IsStart (o : RollingObservation) (p : RollingUpdatePolicy) (xs : List ℕ) : Type 0 where
  pub some_ordinal : 0 < length xs
  pub distinct : From 1 xs
  pub startable : All (IsStartable o) xs
  pub surge :
      length o.previous_active + length o.candidate_active + length xs
      ≤ policy_replicas o + p.max_surge
  pub desired : length o.candidate_active + length xs ≤ o.candidate_replicas

keep_startable :
    (o : RollingObservation) (xs : List ℕ)
    → All (IsOrdinal o.candidate_replicas) xs
    → All (IsStartable o) (
        keep (λ x. not (contains x o.candidate_active) && not (contains x o.candidate_terminal)) xs)
unfolding keep
keep_startable o [] a = tt
keep_startable o (x ∷ xs) a = ground (arith, keep_startable o xs a.1)

startable-All : (o : RollingObservation) → All (IsStartable o) (startable o)
startable-All o =
    keep_startable o (range o.candidate_replicas 1) (
      All-range (IsOrdinal o.candidate_replicas) o.candidate_replicas 1 (λ k l u. (l, omega arith)))

drain_no_start :
    (o : RollingObservation) (p : RollingUpdatePolicy) (xs : List ℕ)
    → ¬ (drain_action o p ≡ some (start_candidate xs))
unfolding drain_action
drain_no_start o p xs h = ground arith

start_action_start :
    (o : RollingObservation) (p : RollingUpdatePolicy) (xs : List ℕ)
    → start_action o p ≡ some (start_candidate xs)
    → (xs ≡ take (start_count o p) (startable o)) × (0 < start_count o p) × (0 < length xs)
unfolding start_action
start_action_start o p xs h = ground arith

decide_start :
    (o : RollingObservation) (p : RollingUpdatePolicy) (xs : List ℕ)
    → start_candidate xs ≡ decide o p
    → start_action o p ≡ some (start_candidate xs)
unfolding decide ordered_action
decide_start o p xs h = ground (arith, drain_no_start o p xs)

-- Whatever `next` starts is at least one ordinal, none twice; each is an ordinal of the candidate
-- that is neither active nor terminal; with them the active replicas of both generations stay within
-- the larger generation's replicas plus the surge of the policy, and those of the candidate within
-- its replicas.
pub next-IsStart :
    (o : RollingObservation) (p : RollingUpdatePolicy) (xs : List ℕ)
    → next o p ≡ ok (start_candidate xs)
    → IsStart o p xs
next-IsStart o p xs h =
    let (valid, decided) = next-decide o p (start_candidate xs) h in
    let (taken, some_count, some_ordinal) =
      start_action_start o p xs (decide_start o p xs decided) in
    let counted = length-take (start_count o p) (startable o) in
    record {
      some_ordinal = some_ordinal;
      distinct =
          rw taken (take-From (start_count o p) 1 (startable o) (keep-From _ 1 _ (range-From _ 1)));
      startable =
          rw taken (All-take (IsStartable o) (start_count o p) (startable o) (startable-All o));
      surge = omega (arith, ap length taken, counted, (validate-IsConsistent o p valid).surge);
      desired = omega (arith, ap length taken, counted, some_count);
    }
