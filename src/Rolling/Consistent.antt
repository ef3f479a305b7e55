-- ===== src/Rolling/Consistent.antt =====
-- What an observation that `validate` accepts satisfies, and the sets that a `BTreeSet` gives.
use cartridge_runtime.Prelude.{
  ℕ, ◌+◌, ◌≤◌, ◌<◌, ◌≡◌, true, false, not, List, [], ◌∷◌, arith, length, any, All,
}
use cartridge_runtime.Prelude.Sets.{IsAscending, Within}
use cartridge_runtime.Prelude.Results.{ok}
use cartridge_runtime.Rolling.{
  RollingUpdatePolicy, RollingObservation, validate, validate_policy, is_inconsistent, is_ordinal,
  is_subset, policy_replicas, decide, next, RollingAction,
}

-- The sets are in ascending order.
pub record HasSets (o : RollingObservation) : Type 0 where
  pub previous_active : IsAscending o.previous_active
  pub previous_ready : IsAscending o.previous_ready
  pub candidate_active : IsAscending o.candidate_active
  pub candidate_ready : IsAscending o.candidate_ready
  pub candidate_available : IsAscending o.candidate_available

abbrev pub IsOrdinal : ℕ → ℕ → Type 0
IsOrdinal replicas x = (1 ≤ x) × (x ≤ replicas)

pub record IsConsistent (o : RollingObservation) (p : RollingUpdatePolicy) : Type 0 where
  pub some_replica : 0 < policy_replicas o
  pub some_slack : 0 < p.max_surge + p.max_unavailable
  pub ready : Within o.previous_active o.previous_ready
  pub candidates : All (IsOrdinal o.candidate_replicas) o.candidate_available
  pub available : Within o.candidate_ready o.candidate_available
  pub candidate_ready : Within o.candidate_active o.candidate_ready
  pub surge : length o.previous_active + length o.candidate_active ≤ policy_replicas o + p.max_surge

is_subset-Within : (ys xs : List ℕ) → is_subset xs ys ≡ true → Within ys xs
is_subset-Within ys [] h = tt
is_subset-Within ys (x ∷ xs) h = (ground arith, is_subset-Within ys xs (ground arith))

ordinals_of_any :
    (n : ℕ) (xs : List ℕ) → any (λ x. not (is_ordinal n x)) xs ≡ false → All (IsOrdinal n) xs
ordinals_of_any n [] h = tt
ordinals_of_any n (x ∷ xs) h = (ground arith, ordinals_of_any n xs (ground arith))

-- Each test of `is_inconsistent` has failed.
record Tests (o : RollingObservation) : Type 0 where
  available : any (λ x. not (is_ordinal o.candidate_replicas x)) o.candidate_available ≡ false
  ready_subset : is_subset o.previous_ready o.previous_active ≡ true
  candidate_subset : is_subset o.candidate_ready o.candidate_active ≡ true
  available_subset : is_subset o.candidate_available o.candidate_ready ≡ true

is_inconsistent-Tests : (o : RollingObservation) → is_inconsistent o ≡ false → Tests o
unfolding is_inconsistent
is_inconsistent-Tests o h = ground arith

validate_tests :
    (o : RollingObservation) (p : RollingUpdatePolicy)
    → validate o p ≡ ok tt
    → (is_inconsistent o ≡ false)
      × (0 < policy_replicas o)
      × (0 < p.max_surge + p.max_unavailable)
      × (length o.previous_active + length o.candidate_active ≤ policy_replicas o + p.max_surge)
unfolding validate validate_policy
validate_tests o p h = ground arith

pub validate-IsConsistent :
    (o : RollingObservation) (p : RollingUpdatePolicy) → validate o p ≡ ok tt → IsConsistent o p
validate-IsConsistent o p h =
    let (consistent, replicas, slack, surge) = validate_tests o p h in
    let t = is_inconsistent-Tests o consistent in
    record {
      some_replica = replicas;
      some_slack = slack;
      ready = is_subset-Within o.previous_active o.previous_ready t.ready_subset;
      candidates = ordinals_of_any o.candidate_replicas o.candidate_available t.available;
      available = is_subset-Within o.candidate_ready o.candidate_available t.available_subset;
      candidate_ready = is_subset-Within o.candidate_active o.candidate_ready t.candidate_subset;
      surge = surge;
    }

-- An answer of `next` comes from `decide`, on a valid observation.
pub next-decide :
    (o : RollingObservation) (p : RollingUpdatePolicy) (a : RollingAction)
    → next o p ≡ ok a
    → (validate o p ≡ ok tt) × (a ≡ decide o p)
unfolding next
next-decide o p a h = ground arith

pub next_valid :
    (o : RollingObservation) (p : RollingUpdatePolicy)
    → validate o p ≡ ok tt
    → next o p ≡ ok (decide o p)
unfolding next
next_valid o p h = rw h
