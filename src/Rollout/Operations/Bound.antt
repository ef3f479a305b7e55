-- ===== src/Rollout/Operations/Bound.antt =====
-- Any sequence of requests: how many starts it can have, and how it ends.
use cartridge_runtime.Prelude.{
  ℕ, ◌+◌, ◌≤◌, ◌<◌, ◌≡◌, refl, ap, ◌∙◌, ◌⊎◌, inl, inr, Bool, true, false, not, Option, none, some,
  List, [], ◌∷◌, arith, is_some_and, length, if◌then◌else◌,
}
use cartridge_runtime.Prelude.Text.{Text, text_eq}
use cartridge_runtime.Prelude.Sets.{keep, range, length-range}
use cartridge_runtime.Prelude.Words.{u16_mod, checked_add}
use cartridge_runtime.Prelude.Results.{
  ok, reject, ok_or, >>=-eq-ok, >>-eq-ok, ok_or-ok, Result-cases,
}
use cartridge_runtime.Supervisor.Types.{max_stack_total_replicas}
use cartridge_runtime.Rollout.Types.{
  RolloutInstanceProgress, RolloutProgress, RolloutExecutionPhase, Result, Encoding, not_sorted,
  identity_invalid, previous_overflow, candidate_overflow, surge_overflow,
}
use cartridge_runtime.Rollout.Validate.{
  validate, bad_identity, computed_sha256, validate_instance, check_instances, text_lt,
}
use cartridge_runtime.Rollout.Operations.{is_rolling, allowed, enable_candidate}
use cartridge_runtime.Rollout.Operations.Idle.{missing, idle}
use cartridge_runtime.Rollout.Operations.Calls.{
  Request, enables, drains, enters, beats, acknowledges, call,
}
use cartridge_runtime.Rollout.Operations.Steps.{call-IsStep, enable_candidate-missing}

-- The progress after requests, each at its time.
unfoldable pub run : Encoding → RolloutProgress → List (ℕ × Request) → RolloutProgress
run e p [] = p
run e p ((now, request) ∷ rest) = run e (call e p now request).1 rest

-- Whether a request to start candidates was answered.
abbrev pub is_start : Request → Result (Unit {0}) → Bool
is_start (enables name ordinals) (ok u) = true
is_start _ _ = false

unfoldable pub enable_calls : Encoding → RolloutProgress → List (ℕ × Request) → ℕ
enable_calls e p [] = 0
enable_calls e p ((now, request) ∷ rest) =
    (if is_start request (call e p now request).0 then 1 else 0)
    + enable_calls e (call e p now request).1 rest

call-missing :
    (e : Encoding) (p : RolloutProgress) (now : ℕ) (request : Request)
    → (if is_start request (call e p now request).0 then 1 else 0)
        + missing (call e p now request).1.instances
      ≤ missing p.instances
unfolding call
call-missing e p now (enables name ordinals) =
    elim (Result-cases (enable_candidate e p name ordinals now).0) [
      | inl (fault, c) ↦ rw c (omega (arith, (call-IsStep e p now (enables name ordinals)).grows))
      | inr (u, c) ↦ rw c (omega (arith, enable_candidate-missing e p name ordinals now c))
    ]
call-missing e p now (drains name ordinals) =
    omega (arith, (call-IsStep e p now (drains name ordinals)).grows)
call-missing e p now (enters next) = omega (arith, (call-IsStep e p now (enters next)).grows)
call-missing e p now beats = omega (arith, (call-IsStep e p now beats).grows)
call-missing e p now (acknowledges previous) =
    omega (arith, (call-IsStep e p now (acknowledges previous)).grows)

run-missing :
    (e : Encoding) (p : RolloutProgress) (requests : List (ℕ × Request))
    → enable_calls e p requests + missing (run e p requests).instances ≤ missing p.instances
unfolding enable_calls run
run-missing e p [] = omega arith
run-missing e p ((now, request) ∷ rest) =
    omega (arith, call-missing e p now request, run-missing e (call e p now request).1 rest)

length-keep : (p : ℕ → Bool) (xs : List ℕ) → length (keep p xs) ≤ length xs
unfolding keep
length-keep p [] = omega arith
length-keep p (x ∷ xs) = ground (arith, length-keep p xs)

length-idle : (replicas : ℕ) (enabled : List ℕ) → length (idle replicas enabled) ≤ replicas
unfolding idle
length-idle replicas enabled =
    omega (arith, length-keep _ (range replicas 1), length-range replicas 1)

checked_add-eq : (m a b c : ℕ) → checked_add m a b ≡ some c → a + b ≡ c
checked_add-eq m a b c h = ground (arith, h)

check_instances-missing :
    (last : Option Text) (previous candidate surge : ℕ) (is : List RolloutInstanceProgress)
    → check_instances last previous candidate surge is ≡ ok tt
    → candidate + missing is ≤ max_stack_total_replicas
unfolding check_instances missing
check_instances-missing last previous candidate surge [] h = ground (arith, h)
check_instances-missing last previous candidate surge (i ∷ is) h =
    let (valid, h1) = >>-eq-ok (validate_instance i) _ h in
    let (sorted, h2) =
      >>-eq-ok (reject (is_some_and last (λ name. not (text_lt name i.name))) not_sorted) _ h1 in
    let (p, fits_p, h3) =
      >>=-eq-ok (ok_or (checked_add u16_mod previous i.previous_replicas) previous_overflow) _ h2 in
    let (c, fits_c, h4) =
      >>=-eq-ok (ok_or (checked_add u16_mod candidate i.candidate_replicas) candidate_overflow) _
        h3 in
    let (s, fits_s, h5) =
      >>=-eq-ok (ok_or (checked_add u16_mod surge i.policy.max_surge) surge_overflow) _ h4 in
    omega (
      arith,
      checked_add-eq u16_mod candidate i.candidate_replicas c (ok_or-ok _ _ fits_c),
      length-idle i.candidate_replicas i.candidate_enabled,
      check_instances-missing (some i.name) p c s is h5,
    )

validate-missing :
    (e : Encoding) (p : RolloutProgress)
    → validate e p ≡ ok tt
    → missing p.instances ≤ max_stack_total_replicas
unfolding validate
validate-missing e p h =
    let (identity, h1) = >>-eq-ok (reject (bad_identity p) identity_invalid) _ h in
    let (digest, computed, h2) = >>=-eq-ok (computed_sha256 e p) _ h1 in
    let (same, h3) =
      >>-eq-ok (reject (not (text_eq digest p.progress_sha256)) identity_invalid) _ h2 in
    omega (arith, check_instances-missing none 0 0 0 p.instances h3)

-- From a valid progress, the requests to start candidates that are answered, in any sequence of
-- requests, are no more than the candidates that were not yet enabled, less those left at the end; so
-- they are at most 256.
pub enable_calls_le :
    (e : Encoding) (p : RolloutProgress) (requests : List (ℕ × Request))
    → validate e p ≡ ok tt
    → (enable_calls e p requests + missing (run e p requests).instances ≤ missing p.instances)
      × (enable_calls e p requests ≤ max_stack_total_replicas)
enable_calls_le e p requests valid =
    let before = run-missing e p requests in
    (before, omega (arith, before, validate-missing e p valid))

-- How far a rollout has settled: rolling or paused, completing, rolling back, ended.
unfoldable pub rank : RolloutExecutionPhase → ℕ
rank RolloutExecutionPhase.rolling = 0
rank RolloutExecutionPhase.paused = 0
rank RolloutExecutionPhase.completing = 1
rank RolloutExecutionPhase.rolling_back = 2
rank RolloutExecutionPhase.completed = 3
rank RolloutExecutionPhase.rolled_back = 3

abbrev pub Settles : RolloutProgress → RolloutProgress → Type 0
Settles p t = (t.instances ≡ p.instances) × ((t.phase ≡ p.phase) ⊎ (rank p.phase < rank t.phase))

allowed-rank : (a b : RolloutExecutionPhase) → 0 < rank a → allowed a b ≡ true → rank a < rank b
unfolding rank allowed
allowed-rank RolloutExecutionPhase.rolling b h k = absurd (omega (arith, h))
allowed-rank RolloutExecutionPhase.paused b h k = absurd (omega (arith, h))
allowed-rank RolloutExecutionPhase.completing RolloutExecutionPhase.rolling h k = cc
allowed-rank RolloutExecutionPhase.completing RolloutExecutionPhase.paused h k = cc
allowed-rank RolloutExecutionPhase.completing RolloutExecutionPhase.completing h k = cc
allowed-rank RolloutExecutionPhase.completing RolloutExecutionPhase.rolling_back h k = omega arith
allowed-rank RolloutExecutionPhase.completing RolloutExecutionPhase.completed h k = omega arith
allowed-rank RolloutExecutionPhase.completing RolloutExecutionPhase.rolled_back h k = cc
allowed-rank RolloutExecutionPhase.rolling_back RolloutExecutionPhase.rolling h k = cc
allowed-rank RolloutExecutionPhase.rolling_back RolloutExecutionPhase.paused h k = cc
allowed-rank RolloutExecutionPhase.rolling_back RolloutExecutionPhase.completing h k = cc
allowed-rank RolloutExecutionPhase.rolling_back RolloutExecutionPhase.rolling_back h k = cc
allowed-rank RolloutExecutionPhase.rolling_back RolloutExecutionPhase.completed h k = cc
allowed-rank RolloutExecutionPhase.rolling_back RolloutExecutionPhase.rolled_back h k = omega arith
allowed-rank RolloutExecutionPhase.completed RolloutExecutionPhase.rolling h k = cc
allowed-rank RolloutExecutionPhase.completed RolloutExecutionPhase.paused h k = cc
allowed-rank RolloutExecutionPhase.completed RolloutExecutionPhase.completing h k = cc
allowed-rank RolloutExecutionPhase.completed RolloutExecutionPhase.rolling_back h k = cc
allowed-rank RolloutExecutionPhase.completed RolloutExecutionPhase.completed h k = cc
allowed-rank RolloutExecutionPhase.completed RolloutExecutionPhase.rolled_back h k = cc
allowed-rank RolloutExecutionPhase.rolled_back RolloutExecutionPhase.rolling h k = cc
allowed-rank RolloutExecutionPhase.rolled_back RolloutExecutionPhase.paused h k = cc
allowed-rank RolloutExecutionPhase.rolled_back RolloutExecutionPhase.completing h k = cc
allowed-rank RolloutExecutionPhase.rolled_back RolloutExecutionPhase.rolling_back h k = cc
allowed-rank RolloutExecutionPhase.rolled_back RolloutExecutionPhase.completed h k = cc
allowed-rank RolloutExecutionPhase.rolled_back RolloutExecutionPhase.rolled_back h k = cc

settled : (a : RolloutExecutionPhase) → 0 < rank a → is_rolling a ≡ false
unfolding rank
settled RolloutExecutionPhase.rolling h = absurd (omega (arith, h))
settled RolloutExecutionPhase.paused h = absurd (omega (arith, h))
settled RolloutExecutionPhase.completing h = refl
settled RolloutExecutionPhase.rolling_back h = refl
settled RolloutExecutionPhase.completed h = refl
settled RolloutExecutionPhase.rolled_back h = refl

Settles-trans : (p q t : RolloutProgress) → Settles p q → Settles q t → Settles p t
Settles-trans p q t (work, inl same) (more_work, inl same_too) =
    (more_work ∙ work, inl (same_too ∙ same))
Settles-trans p q t (work, inl same) (more_work, inr later) =
    (more_work ∙ work, inr (omega (arith, later, ap rank same)))
Settles-trans p q t (work, inr later) (more_work, inl same) =
    (more_work ∙ work, inr (omega (arith, later, ap rank same)))
Settles-trans p q t (work, inr later) (more_work, inr latest) =
    (more_work ∙ work, inr (omega (arith, later, latest)))

call-Settles :
    (e : Encoding) (p : RolloutProgress) (now : ℕ) (request : Request)
    → 0 < rank p.phase
    → Settles p (call e p now request).1
call-Settles e p now request h =
    let step = call-IsStep e p now request in
    (
      step.work (settled p.phase h),
      elim step.phase [
        | inl same ↦ inl same
        | inr may ↦ inr (allowed-rank p.phase (call e p now request).1.phase h may)
      ],
    )

-- Once a rollout completes or rolls back, no sequence of requests changes an instance, and each
-- leaves the phase or takes it further: never back to rolling, nor out of an end.
pub run-Settles :
    (e : Encoding) (p : RolloutProgress) (requests : List (ℕ × Request))
    → 0 < rank p.phase
    → Settles p (run e p requests)
unfolding run
run-Settles e p [] h = (refl, inl refl)
run-Settles e p ((now, request) ∷ rest) h =
    let first = call-Settles e p now request h in
    Settles-trans p (call e p now request).1 (run e (call e p now request).1 rest) first (
      run-Settles e (call e p now request).1 rest
        (elim first.1 [ inl same ↦ rw same h | inr more ↦ omega (arith, more) ]))
