-- ===== src/Rollout/Schedule/Capacity.antt =====
-- The room that the scheduler finds for starts.
use cartridge_runtime.Prelude.{
  ℕ, ◌+◌, ◌-◌, ◌≤◌, ◌≡◌, refl, sym, ap, ◌∙◌, ◌⊎◌, inl, inr, ◌||◌, none, some, List, [], ◌∷◌, arith,
  ltb, length,
}
use cartridge_runtime.Prelude.Results.{
  ok, reject, ok_or, >>=-eq-ok, >>-eq-ok, reject-ok, ok_or-ok, ok_injective,
}
use cartridge_runtime.Rolling.{RollingObservation}
use cartridge_runtime.Rollout.Types.{
  RolloutProgress, active_overflow, over_active, max_stack_total_active_replicas,
}
use cartridge_runtime.Rollout.Schedule.{
  add_active, count_active, active_limit, stack_start_capacity,
}

-- The active replicas of both generations, over all instances.
unfoldable pub total_active : List RollingObservation → ℕ
total_active [] = 0
total_active (o ∷ os) = length o.previous_active + length o.candidate_active + total_active os

count_active-none : (os : List RollingObservation) → count_active none os ≡ none
unfolding count_active add_active
count_active-none [] = refl
count_active-none (o ∷ os) = count_active-none os

add_active-cases :
    (t : ℕ) (o : RollingObservation)
    → (add_active (some t) o ≡ none)
      ⊎ (add_active (some t) o ≡ some (t + length o.previous_active + length o.candidate_active))
unfolding add_active
add_active-cases t o = ground arith

count_active-total :
    (t n : ℕ) (os : List RollingObservation)
    → count_active (some t) os ≡ some n
    → n ≡ t + total_active os
unfolding count_active total_active
count_active-total t n [] h = ground (arith, h)
count_active-total t n (o ∷ os) h = elim (add_active-cases t o) [
  | inl c ↦ absurd (cc (c, count_active-none os))
  | inr c ↦ omega (
    arith,
    count_active-total (t + length o.previous_active + length o.candidate_active) n os
        (ap (λ v. count_active v os) (sym c) ∙ h),
  )
]

-- What the start capacity is: the active replicas and it are the limit of the stack.
pub stack_start_capacity_ok :
    (p : RolloutProgress) (os : List RollingObservation) (capacity : ℕ)
    → stack_start_capacity p os ≡ ok capacity
    → (limit : ℕ) × (active_limit p ≡ ok limit)
      × (limit ≤ max_stack_total_active_replicas)
      × (total_active os + capacity ≡ limit)
unfolding stack_start_capacity
stack_start_capacity_ok p os capacity h =
    let (active, counted, h1) = >>=-eq-ok (ok_or (count_active (some 0) os) active_overflow) _ h in
    let (limit, limited, h2) = >>=-eq-ok (active_limit p) _ h1 in
    let (fits, h3) =
      >>-eq-ok (reject (ltb limit active || ltb max_stack_total_active_replicas limit) over_active)
        _ h2 in
    (
      limit,
      limited,
      ground (arith, reject-ok _ _ fits),
      ground (
        arith,
        reject-ok _ _ fits,
        ok_injective (limit - active) capacity _ refl h3,
        count_active-total 0 active os (ok_or-ok _ _ counted),
      ),
    )
