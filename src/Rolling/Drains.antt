-- ===== src/Rolling/Drains.antt =====
-- What `next` drains.
use Prim.Native.Nat.{min}
use cartridge_runtime.Prelude.{
  ℕ, ◌+◌, ◌-◌, ◌≤◌, ◌<◌, ◌≡◌, ap, sym, ◌∙◌, true, not, some, List, arith, length, take,
}
use cartridge_runtime.Prelude.Sets.{
  contains, keep, sort, Within, contains-sort, contains-append, contains-keep, contains-take,
  contains-Within, keep_same, length-sort, length-without_take,
}
use cartridge_runtime.Prelude.Results.{ok}
use cartridge_runtime.Rolling.{
  RollingUpdatePolicy, RollingObservation, drain_previous, start_action, drain_action, drainable,
  ready_budget, ordered_action, decide, next,
}
use cartridge_runtime.Rolling.Consistent.{HasSets, validate-IsConsistent, next-decide}

-- The ready replicas of the previous generation that a drain of `xs` leaves.
abbrev pub left_ready : RollingObservation → List ℕ → List ℕ
left_ready o xs = keep (λ x. not (contains x xs)) o.previous_ready

start_no_drain :
    (o : RollingObservation) (p : RollingUpdatePolicy) (xs : List ℕ) (t : ℕ)
    → ¬ (start_action o p ≡ some (drain_previous xs t))
unfolding start_action
start_no_drain o p xs t h = ground arith

decide_drain :
    (o : RollingObservation) (p : RollingUpdatePolicy) (xs : List ℕ) (t : ℕ)
    → drain_previous xs t ≡ decide o p
    → drain_action o p ≡ some (drain_previous xs t)
unfolding decide ordered_action
decide_drain o p xs t h = ground (arith, start_no_drain o p xs t)

drain_action_drain :
    (o : RollingObservation) (p : RollingUpdatePolicy) (xs : List ℕ) (t : ℕ)
    → drain_action o p ≡ some (drain_previous xs t)
    → (xs ≡ sort (drainable o p)) × (t ≡ p.drain_timeout_ms) × (0 < length (drainable o p))
unfolding drain_action
drain_action_drain o p xs t h = ground arith

-- A ready replica is drained only out of the budget.
contains-drained :
    (o : RollingObservation) (p : RollingUpdatePolicy) (x : ℕ)
    → contains x o.previous_ready ≡ true
    → contains x (sort (drainable o p)) ≡ contains x (take (ready_budget o p) o.previous_ready)
contains-drained o p x h =
    contains-sort x (drainable o p)
    ∙ contains-append x (keep (λ x. not (contains x o.previous_ready)) o.previous_active)
        (take (ready_budget o p) o.previous_ready)
    ∙ ground (arith, contains-keep (λ x. not (contains x o.previous_ready)) x o.previous_active)

left_ready_eq :
    (o : RollingObservation) (p : RollingUpdatePolicy)
    → left_ready o (sort (drainable o p))
      ≡ keep (λ x. not (contains x (take (ready_budget o p) o.previous_ready))) o.previous_ready
left_ready_eq o p = keep_same _ _ o.previous_ready (λ k h. ap not (contains-drained o p k h))

-- Every drained ordinal is an active one.
drainable_active :
    (o : RollingObservation) (p : RollingUpdatePolicy) (x : ℕ)
    → Within o.previous_active o.previous_ready
    → contains x (drainable o p) ≡ true
    → contains x o.previous_active ≡ true
drainable_active o p x w h = ground (
  arith,
  contains-append x (keep (λ x. not (contains x o.previous_ready)) o.previous_active)
      (take (ready_budget o p) o.previous_ready),
  contains-keep (λ x. not (contains x o.previous_ready)) x o.previous_active,
  contains-take x (ready_budget o p) o.previous_ready,
  contains-Within x o.previous_active o.previous_ready w,
)

-- What the code may drain.
pub record IsDrain (o : RollingObservation) (p : RollingUpdatePolicy) (xs : List ℕ) (t : ℕ)
    : Type 0 where
  pub timeout : t ≡ p.drain_timeout_ms
  pub some_ordinal : 0 < length xs
  pub active : (x : ℕ) → contains x xs ≡ true → contains x o.previous_active ≡ true
  pub available :
      min
        (length o.previous_ready + length o.candidate_available)
        (o.candidate_replicas - p.max_unavailable)
      ≤ length (left_ready o xs) + length o.candidate_available

-- Whatever `next` drains, on an observation whose sets are in order, is at least one active replica
-- of the previous generation, with the timeout of the policy; and the ready replicas that are left
-- of that generation, with the available candidates, are as many as there were, or as the candidate
-- generation's replicas less the policy's unavailable ones.
pub next-IsDrain :
    (o : RollingObservation) (p : RollingUpdatePolicy) (xs : List ℕ) (t : ℕ)
    → HasSets o
    → next o p ≡ ok (drain_previous xs t)
    → IsDrain o p xs t
next-IsDrain o p xs t s h =
    let (valid, decided) = next-decide o p (drain_previous xs t) h in
    let (drained, timeout, some_ordinal) =
      drain_action_drain o p xs t (decide_drain o p xs t decided) in
    let c = validate-IsConsistent o p valid in
    let count = length-without_take (ready_budget o p) 0 o.previous_ready s.previous_ready in
    record {
      timeout = timeout;
      some_ordinal = rw drained (omega (arith, length-sort (drainable o p), some_ordinal));
      active = λ x e.
          drainable_active o p x c.ready
            (sym (contains-sort x (drainable o p)) ∙ ap (contains x) (sym drained) ∙ e);
      available = rw (drained, left_ready_eq o p) (omega (arith, count));
    }
