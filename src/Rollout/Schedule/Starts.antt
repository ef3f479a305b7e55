-- ===== src/Rollout/Schedule/Starts.antt =====
-- What `next_action` starts.
use cartridge_runtime.Prelude.{
  ℕ, ◌+◌, ◌≤◌, ◌<◌, ◌≡◌, refl, sym, ap, subst, ◌≢◌, ◌∙◌, ◌⊎◌, inl, inr, Bool, true, false, not,
  ◌&&◌, Option, none, some, List, [], ◌∷◌, arith, ltb, any, length, is_empty, is_some, take,
  length-take, All, All-take, Bool-cases, if◌then◌else◌,
}
use cartridge_runtime.Prelude.Sets.{From, take-From}
use cartridge_runtime.Prelude.Results.{
  ok, err, reject, ◌>>=◌, ◌>>◌, >>=-eq-ok, >>-eq-ok, reject-ok, ok_injective, Result-cases,
}
use cartridge_runtime.Prelude.Results
use cartridge_runtime.Rolling
use cartridge_runtime.Rolling.{RollingObservation, RollingAction, RollingWaitReason, next}
use cartridge_runtime.Rolling.Starts.{IsStartable, next-IsStart}
use cartridge_runtime.Supervisor.Types.{StackRuntimeStatus}
use cartridge_runtime.Rollout.Types.{
  RolloutInstanceProgress, RolloutProgress, RolloutProgressAction, Result, Encoding, not_rolling,
  max_stack_total_active_replicas,
}
use cartridge_runtime.Rollout.Validate.{validate, of_policy}
use cartridge_runtime.Rollout.Operations.{ensure_time, is_rolling, validate_runtime}
use cartridge_runtime.Rollout.Schedule.{
  observations, active_limit, stack_start_capacity, Scan, returns, scanned, scan_action, then_scan,
  scan, conclude, drains_pending, schedule, next_action, at_instance, for_stack, budget_wait,
  get_or_insert,
}
use cartridge_runtime.Rollout.Schedule.Capacity.{total_active, stack_start_capacity_ok}

-- An instance and its observation, at one place of two lists.
abbrev pub Paired :
    RolloutInstanceProgress
    → RollingObservation
    → List RolloutInstanceProgress
    → List RollingObservation
    → Type 0
Paired i o [] os = ⊥
Paired i o (j ∷ js) [] = ⊥
Paired i o (j ∷ js) (q ∷ os) = ((i ≡ j) × (o ≡ q)) ⊎ Paired i o js os

of_policy_ok :
    (r : Results.Result Rolling.Error RollingAction) (d : RollingAction)
    → of_policy r ≡ ok d
    → r ≡ ok d
of_policy_ok (ok a) d h = cc
of_policy_ok (err fault) d h = cc

abbrev NoStart : RolloutProgressAction → Type 0
NoStart a = (xs : List ℕ) → a.action ≢ RollingAction.start_candidate xs

module _ (capacity : ℕ) (P : RolloutInstanceProgress → RollingObservation → Type 0) where
  -- A start of some instance's candidates that its policy decides, cut to the capacity.
  abbrev FromPolicy : RolloutProgressAction → Type 0
  FromPolicy a =
      (xs : List ℕ)
      → a.action ≡ RollingAction.start_candidate xs
      → (i : RolloutInstanceProgress) × (o : RollingObservation) × (ys : List ℕ) × P i o
        × (a.instance_name ≡ some i.name)
        × (next o i.policy ≡ ok (RollingAction.start_candidate ys))
        × (xs ≡ take capacity ys)
        × (is_empty xs ≡ false)

  abbrev AllFromPolicy : Option RolloutProgressAction → Type 0
  AllFromPolicy none = Unit
  AllFromPolicy (some a) = FromPolicy a

  abbrev ScanFromPolicy : Scan → Type 0
  ScanFromPolicy (returns a) = NoStart a
  ScanFromPolicy (scanned a w) = AllFromPolicy a × AllFromPolicy w

  get_or_insert-FromPolicy :
      (o : Option RolloutProgressAction) (a : RolloutProgressAction)
      → AllFromPolicy o
      → FromPolicy a
      → AllFromPolicy (get_or_insert o a)
  get_or_insert-FromPolicy none a h k = k
  get_or_insert-FromPolicy (some b) a h k = h

  scan_action-FromPolicy :
      (i : RolloutInstanceProgress) (o : RollingObservation) (a w : Option RolloutProgressAction)
      (d : RollingAction)
      → P i o
      → next o i.policy ≡ ok d
      → AllFromPolicy a
      → AllFromPolicy w
      → ScanFromPolicy (scan_action capacity i a w d)
  unfolding scan_action
  scan_action-FromPolicy i o a w RollingAction.complete here decided h k = (h, k)
  scan_action-FromPolicy i o a w (RollingAction.rollback reason) here decided h k = λ xs e. cc
  scan_action-FromPolicy i o a w (RollingAction.wait reason) here decided h k =
      (h, get_or_insert-FromPolicy w (at_instance i (RollingAction.wait reason)) k (λ xs e. cc))
  scan_action-FromPolicy i o a w (RollingAction.drain_previous ordinals timeout) here decided h k =
      (
        get_or_insert-FromPolicy a (at_instance i (RollingAction.drain_previous ordinals timeout)) h
            (λ xs e. cc),
        k,
      )
  scan_action-FromPolicy i o a w (RollingAction.start_candidate ys) here decided h k =
      elim (Bool-cases (is_empty (take capacity ys))) [
        | inl b ↦ simp b (h, get_or_insert-FromPolicy w (at_instance i budget_wait) k (λ xs e. cc))
        | inr b ↦ simp b (
          get_or_insert-FromPolicy a
              (at_instance i (RollingAction.start_candidate (take capacity ys))) h
              (λ xs e. (i, o, ys, here, refl, decided, cc, cc)),
          k,
        )
      ]

  abbrev AllPaired : List RolloutInstanceProgress → List RollingObservation → Type 0
  AllPaired is os =
      (i : RolloutInstanceProgress) (o : RollingObservation) → Paired i o is os → P i o

  then_scan-FromPolicy :
      (rest : Option RolloutProgressAction → Option RolloutProgressAction → Result Scan)
      (s found : Scan)
      → ((a w : Option RolloutProgressAction)
          → AllFromPolicy a
          → AllFromPolicy w
          → rest a w ≡ ok found
          → ScanFromPolicy found)
      → ScanFromPolicy s
      → then_scan rest s ≡ ok found
      → ScanFromPolicy found
  then_scan-FromPolicy rest (returns a) found k h e =
      subst ScanFromPolicy (ok_injective (returns a) found _ refl e) h
  then_scan-FromPolicy rest (scanned a w) found k h e = k a w h.0 h.1 e

  scan-FromPolicy :
      (a w : Option RolloutProgressAction) (is : List RolloutInstanceProgress)
      (os : List RollingObservation) (found : Scan)
      → AllPaired is os
      → AllFromPolicy a
      → AllFromPolicy w
      → scan capacity a w is os ≡ ok found
      → ScanFromPolicy found
  unfolding scan
  scan-FromPolicy a w [] os found paired h k e =
      subst ScanFromPolicy (ok_injective (scanned a w) found _ refl e) (h, k)
  scan-FromPolicy a w (i ∷ is) [] found paired h k e =
      subst ScanFromPolicy (ok_injective (scanned a w) found _ refl e) (h, k)
  scan-FromPolicy a w (i ∷ is) (o ∷ os) found paired h k e =
      let (d, decided, e1) = >>=-eq-ok (of_policy (next o i.policy)) _ e in
      then_scan-FromPolicy (λ b v. scan capacity b v is os) (scan_action capacity i a w d) found
        (λ b v. scan-FromPolicy b v is os found (λ j q p. paired j q (inr p)))
        (scan_action-FromPolicy i o a w d (paired i o (inl (refl, refl))) (of_policy_ok _ d decided)
          h k)
        e1

  conclude-FromPolicy :
      (pending : Bool) (s : Scan)
      → ScanFromPolicy s
      → (pending ≡ true → NoStart (conclude pending s)) × FromPolicy (conclude pending s)
  unfolding conclude
  conclude-FromPolicy true (returns a) h = (λ b. h, λ xs e. absurd (h xs e))
  conclude-FromPolicy false (returns a) h = (λ b. h, λ xs e. absurd (h xs e))
  conclude-FromPolicy true (scanned a w) h = (λ b xs e. cc, λ xs e. cc)
  conclude-FromPolicy false (scanned (some a) w) h = (λ b. cc, h.0)
  conclude-FromPolicy false (scanned none (some w)) h = (λ b. cc, h.1)
  conclude-FromPolicy false (scanned none none) h = (λ b. cc, λ xs e. cc)

-- A start for one instance of a rollout, by the observations of all.
pub record IsStackStart (p : RolloutProgress) (os : List RollingObservation)
    (a : RolloutProgressAction) (xs : List ℕ) : Type 0 where
  pub instance_progress : RolloutInstanceProgress
  pub observation : RollingObservation
  pub paired : Paired instance_progress observation p.instances os
  pub named : a.instance_name ≡ some instance_progress.name
  pub some_ordinal : 0 < length xs
  pub distinct : From 1 xs
  pub startable : All (IsStartable observation) xs
  pub limit : ℕ
  pub limited : active_limit p ≡ ok limit
  pub active : total_active os + length xs ≤ limit
  pub bound : limit ≤ max_stack_total_active_replicas
  pub settled : drains_pending p ≡ false

not_empty : (xs : List ℕ) → is_empty xs ≡ false → 0 < length xs
not_empty [] h = cc
not_empty (x ∷ xs) h = omega arith

schedule-IsStackStart :
    (p : RolloutProgress) (previous candidate : Option StackRuntimeStatus) (now : ℕ)
    (a : RolloutProgressAction) (xs : List ℕ)
    → schedule p previous candidate now ≡ ok a
    → a.action ≡ RollingAction.start_candidate xs
    → (os : List RollingObservation) × (observations p previous candidate now p.instances ≡ ok os)
      × IsStackStart p os a xs
unfolding schedule
schedule-IsStackStart p previous candidate now a xs h start =
    let (os, observed, h1) = >>=-eq-ok (observations p previous candidate now p.instances) _ h in
    let (capacity, room, h2) = >>=-eq-ok (stack_start_capacity p os) _ h1 in
    let (found, scanning, h3) = >>=-eq-ok (scan capacity none none p.instances os) _ h2 in
    let concluded = ok_injective (conclude (drains_pending p) found) a _ refl h3 in
    let (pending, policy) =
      conclude-FromPolicy capacity (λ i o. Paired i o p.instances os) (drains_pending p) found
        (scan-FromPolicy capacity (λ i o. Paired i o p.instances os) none none p.instances os found
          (λ i o k. k) tt tt scanning) in
    let (limit, limited, bound, total) = stack_start_capacity_ok p os capacity room in
    let (i, o, ys, paired, named, decided, cut, some_one) =
      policy xs (ap (λ b. b.action) concluded ∙ start) in
    let starting = next-IsStart o i.policy ys decided in
    (
      os,
      observed,
      record {
        instance_progress = i;
        observation = o;
        paired = paired;
        named = ap (λ b. b.instance_name) (sym concluded) ∙ named;
        some_ordinal = not_empty xs some_one;
        distinct = rw cut (take-From capacity 1 ys starting.distinct);
        startable = rw cut (All-take (IsStartable o) capacity ys starting.startable);
        limit = limit;
        limited = limited;
        active = omega (arith, total, ap length cut, length-take capacity ys);
        bound = bound;
        settled = elim (Bool-cases (drains_pending p)) [
          | inl b ↦ absurd (pending b xs (ap (λ q. q.action) concluded ∙ start))
          | inr b ↦ b
        ];
      },
    )

goes_on :
    (waits : Bool) (w a : RolloutProgressAction) (r : Result RolloutProgressAction) (xs : List ℕ)
    → NoStart w
    → (if waits then ok w else r) ≡ ok a
    → a.action ≡ RollingAction.start_candidate xs
    → r ≡ ok a
goes_on true w a r xs idle h start =
    absurd (idle xs (ap (λ b. b.action) (ok_injective w a _ refl h) ∙ start))
goes_on false w a r xs idle h start = h

-- Whatever `next_action` starts, the rollout is rolling and no drain is pending; the start is for an
-- instance of the rollout, of at least one ordinal, none twice, each an ordinal of the candidate that
-- the instance's observation has neither active nor terminal; and with it the active replicas of all
-- instances stay within the limit of the stack, which is at most 320.
pub next_action-IsStackStart :
    (e : Encoding) (p : RolloutProgress) (previous candidate : Option StackRuntimeStatus) (now : ℕ)
    (a : RolloutProgressAction) (xs : List ℕ)
    → next_action e p previous candidate now ≡ ok a
    → a.action ≡ RollingAction.start_candidate xs
    → (is_rolling p.phase ≡ true)
      × (os : List RollingObservation) × (observations p previous candidate now p.instances ≡ ok os)
      × IsStackStart p os a xs
unfolding next_action
next_action-IsStackStart e p previous candidate now a xs h start =
    let (valid, h1) = >>-eq-ok (validate e p) _ h in
    let (on_time, h2) = >>-eq-ok (ensure_time p now) _ h1 in
    let (rolls, h3) = >>-eq-ok (reject (not (is_rolling p.phase)) not_rolling) _ h2 in
    let (old, h4) =
      >>-eq-ok (validate_runtime e p previous p.previous_revision p.previous_generation) _ h3 in
    let (new, h5) =
      >>-eq-ok
        (validate_runtime e p candidate (some p.candidate_revision) (some p.candidate_generation)) _
        h4 in
    let (os, observed, safe) =
      schedule-IsStackStart p previous candidate now a xs
        (goes_on (not (is_some previous) && any (λ i. ltb 0 i.previous_replicas) p.instances)
          (for_stack budget_wait) a _ xs (λ ys e. cc) h5 start)
        start in
    (ground (arith, reject-ok _ _ rolls), os, observed, safe)
