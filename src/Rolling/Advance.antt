-- ===== src/Rolling/Advance.antt =====
-- A rolling update does not stall, and what its end means.
use cartridge_runtime.Prelude.{
  ℕ, ◌+◌, ◌≤◌, ◌<◌, ◌≡◌, ◌≢◌, refl, ap, ◌∙◌, Bool, true, false, not, ◌&&◌, none, some, List, [],
  ◌∷◌, arith, length, length-take, take, All, is_empty, ◌==◌, Bool-cases, Option-cases, ◌⊎◌, inl,
  inr, length-append, ltb, ltb→lt,
}
use cartridge_runtime.Prelude.Sets.{
  contains, keep, range, From, Within, keep-All, keep-From, contains-keep, contains-range,
  range-From, length-range, length-keep-not, length-Within, Within-contains, contains-Within,
  keep_same,
}
use cartridge_runtime.Prelude.Results.{ok}
use cartridge_runtime.Rolling.{
  RollingUpdatePolicy, RollingObservation, RollingAction, complete, drain_previous, start_candidate,
  start_action, drain_action, drainable, ready_budget, start_count, startable, ordered_action,
  decide, next, validate,
}
use cartridge_runtime.Rolling.Consistent.{
  HasSets, IsConsistent, IsOrdinal, validate-IsConsistent, next-decide, next_valid,
}

-- Ordinals that are not in a set of candidates remain while the set is smaller than the candidate.
idle_ordinals :
    (n : ℕ) (xs : List ℕ)
    → From 0 xs
    → n ≤ length (keep (λ x. not (contains x xs)) (range n 1)) + length xs
idle_ordinals n xs s =
    let split = length-keep-not (λ x. contains x xs) (range n 1) in
    let inside =
      length-Within 0 1 xs (keep (λ x. contains x xs) (range n 1)) s
        (keep-From (λ x. contains x xs) 1 (range n 1) (range-From n 1))
        (keep-All (λ x. contains x xs) (range n 1)) in
    omega (arith, split, inside, length-range n 1)

-- An unready active replica, if the active ones outnumber the ready ones.
unready_left :
    (ready active : List ℕ)
    → From 0 ready
    → From 0 active
    → length active ≤ length (keep (λ x. not (contains x ready)) active) + length ready
unready_left ready active s t =
    let split = length-keep-not (λ x. contains x ready) active in
    let inside =
      length-Within 0 0 ready (keep (λ x. contains x ready) active) s
        (keep-From (λ x. contains x ready) 0 active t) (keep-All (λ x. contains x ready) active) in
    omega (arith, split, inside)

same_idle :
    (k : ℕ) (active terminal : List ℕ)
    → terminal ≡ []
    → (not (contains k active) && not (contains k terminal)) ≡ not (contains k active)
unfolding contains
same_idle k active terminal t = ground arith

startable_many :
    (o : RollingObservation)
    → From 0 o.candidate_active
    → o.candidate_terminal ≡ []
    → o.candidate_replicas ≤ length (startable o) + length o.candidate_active
startable_many o s t =
    let same =
      keep_same (λ k. not (contains k o.candidate_active) && not (contains k o.candidate_terminal))
        (λ k. not (contains k o.candidate_active)) (range o.candidate_replicas 1)
        (λ k _. same_idle k o.candidate_active o.candidate_terminal t) in
    omega (arith, ap length same, idle_ordinals o.candidate_replicas o.candidate_active s)

-- With no terminal candidate, something can be started while the count is positive.
start_possible :
    (o : RollingObservation) (p : RollingUpdatePolicy)
    → From 0 o.candidate_active
    → o.candidate_terminal ≡ []
    → 0 < start_count o p
    → start_action o p ≢ none
unfolding start_action
start_possible o p s t c h =
    ground (arith, h, length-take (start_count o p) (startable o), startable_many o s t)

drain_possible :
    (o : RollingObservation) (p : RollingUpdatePolicy)
    → 0 < length o.previous_active
    → 0 < length (drainable o p)
    → drain_action o p ≢ none
unfolding drain_action
drain_possible o p a d h = ground arith

-- While replicas of the previous generation are active, one may be drained or a candidate started.
progress_before :
    (o : RollingObservation) (p : RollingUpdatePolicy)
    → HasSets o
    → IsConsistent o p
    → length o.candidate_available ≡ length o.candidate_active
    → 0 < length o.previous_active
    → start_count o p ≡ 0
    → 0 < length (drainable o p)
progress_before o p s c a l z =
    let parts =
      length-append (keep (λ x. not (contains x o.previous_ready)) o.previous_active)
        (take (ready_budget o p) o.previous_ready) in
    let unready =
      unready_left o.previous_ready o.previous_active s.previous_ready s.previous_active in
    let budget = length-take (ready_budget o p) o.previous_ready in
    omega (arith, parts, unready, budget, c.some_replica, c.some_slack)

-- An action that brings the update forward.
abbrev pub advances : RollingAction → Bool
advances (start_candidate xs) = true
advances (drain_previous xs t) = true
advances complete = true
advances _ = false

start_advances :
    (o : RollingObservation) (p : RollingUpdatePolicy) (a : RollingAction)
    → start_action o p ≡ some a
    → advances a ≡ true
unfolding start_action
start_advances o p a h = ground arith

drain_advances :
    (o : RollingObservation) (p : RollingUpdatePolicy) (a : RollingAction)
    → drain_action o p ≡ some a
    → advances a ≡ true
unfolding drain_action
drain_advances o p a h = ground arith

range-Within : (n : ℕ) (xs : List ℕ) → All (IsOrdinal n) xs → Within (range n 1) xs
range-Within n [] a = tt
range-Within n (x ∷ xs) a = (contains-range x n 1 a.0.0 (omega arith), range-Within n xs a.1)

-- A set of ordinals has at most as many members as there are ordinals.
ordinals_few : (n : ℕ) (xs : List ℕ) → From 0 xs → All (IsOrdinal n) xs → length xs ≤ n
ordinals_few n xs s a =
    let few = length-Within 1 0 (range n 1) xs (range-From n 1) s (range-Within n xs a) in
    omega (arith, few, length-range n 1)

nothing_in_empty : (x : ℕ) (xs : List ℕ) → length xs ≡ 0 → contains x xs ≡ false
unfolding contains
nothing_in_empty x [] h = refl
nothing_in_empty x (y ∷ xs) h = absurd (omega arith)

-- As many ordinals as there are make all of them.
ordinals_all :
    (n x : ℕ) (xs : List ℕ)
    → From 0 xs
    → All (IsOrdinal n) xs
    → length xs ≡ n
    → 1 ≤ x
    → x ≤ n
    → contains x xs ≡ true
ordinals_all n x xs s a e l u =
    let inside =
      length-Within 1 0 (keep (λ k. contains k xs) (range n 1)) xs
        (keep-From (λ k. contains k xs) 1 (range n 1) (range-From n 1)) s
        (Within-contains _ xs λ k c.
          contains-keep (λ k. contains k xs) k (range n 1)
          ∙ ground (arith, c, contains-Within k (range n 1) xs (range-Within n xs a))) in
    let split = length-keep-not (λ k. contains k xs) (range n 1) in
    let outside : length (keep (λ k. not (contains k xs)) (range n 1)) ≡ 0 =
      omega (arith, inside, split, length-range n 1, e) in
    ground (
      arith,
      nothing_in_empty x (keep (λ k. not (contains k xs)) (range n 1)) outside,
      contains-keep (λ k. not (contains k xs)) x (range n 1),
      contains-range x n 1 l (omega arith),
    )

-- The tests of `decide` when it neither advances nor rolls back.
record IsStuck (o : RollingObservation) (p : RollingUpdatePolicy) : Type 0 where
  start : start_action o p ≡ none
  drain : drain_action o p ≡ none
  unfinished :
      (is_empty o.previous_active && length o.candidate_available == o.candidate_replicas) ≡ false

module _ (o : RollingObservation) (p : RollingUpdatePolicy) where
  decide-IsStuck :
      o.candidate_terminal ≡ []
      → o.elapsed_since_progress_ms < p.progress_deadline_ms
      → advances (decide o p) ≡ false
      → IsStuck o p
  unfolding decide ordered_action
  decide-IsStuck t d h = elim (Option-cases (start_action o p)) [
    | inr (a, s) ↦ ground (arith, s, start_advances o p a s, drain_cases)
    | inl s ↦ elim drain_cases [
      | inr (a, e, forward) ↦ ground (arith, s, e, forward)
      | inl e ↦ ground (arith, s, e)
    ]
  ]
    where
      drain_cases :
          (drain_action o p ≡ none)
          ⊎ ((a : RollingAction) × (drain_action o p ≡ some a) × (advances a ≡ true))
      drain_cases = elim (Option-cases (drain_action o p)) [
        | inl e ↦ inl e
        | inr (a, e) ↦ inr (a, e, drain_advances o p a e)
      ]

  no_stall :
      HasSets o
      → IsConsistent o p
      → o.candidate_terminal ≡ []
      → length o.candidate_available ≡ length o.candidate_active
      → ¬ IsStuck o p
  no_stall s c t a k = elim (Bool-cases (ltb 0 (start_count o p))) [
    | inl some_count ↦ start_possible o p s.candidate_active t (ltb→lt _ _ some_count) k.start
    | inr no_count ↦
        let zero_count : start_count o p ≡ 0 = ground arith in
        elim (Bool-cases (ltb 0 (length o.previous_active))) [
          | inl active ↦
              drain_possible o p (ltb→lt _ _ active)
                (progress_before o p s c a (ltb→lt _ _ active) zero_count) k.drain
          | inr idle ↦
              let none_active : o.previous_active ≡ [] = ground arith in
              let few =
                ordinals_few o.candidate_replicas o.candidate_available s.candidate_available
                  c.candidates in
              let open_slots : length o.candidate_available ≢ o.candidate_replicas =
                ground (arith, k.unfinished, none_active) in
              omega (arith, zero_count, ap length none_active, few, open_slots, a)
        ]
  ]

  -- A valid observation whose sets are in order is answered by a start, a drain or the completion of
  -- the update, if no candidate is terminal, every active candidate is available and the deadline
  -- has not passed.
  pub next-advances :
      HasSets o
      → validate o p ≡ ok tt
      → o.candidate_terminal ≡ []
      → length o.candidate_available ≡ length o.candidate_active
      → o.elapsed_since_progress_ms < p.progress_deadline_ms
      → (a : RollingAction) × (next o p ≡ ok a) × (advances a ≡ true)
  next-advances s v t a d = (
    decide o p,
    next_valid o p v,
    elim (Bool-cases (advances (decide o p))) [
      | inl forward ↦ forward
      | inr still ↦ absurd (no_stall s (validate-IsConsistent o p v) t a (decide-IsStuck t d still))
    ],
  )

decide-complete :
    (o : RollingObservation) (p : RollingUpdatePolicy)
    → complete ≡ decide o p
    → (o.previous_active ≡ []) × (length o.candidate_available ≡ o.candidate_replicas)
unfolding decide ordered_action start_action drain_action
decide-complete o p h = ground arith

-- When `next` answers that the update is complete, on an observation whose sets are in order, no
-- replica of the previous generation is active, and every ordinal of the candidate is available.
pub next_complete :
    (o : RollingObservation) (p : RollingUpdatePolicy) (x : ℕ)
    → HasSets o
    → next o p ≡ ok complete
    → 1 ≤ x
    → x ≤ o.candidate_replicas
    → (o.previous_active ≡ []) × (contains x o.candidate_available ≡ true)
next_complete o p x s h l u =
    let (valid, decided) = next-decide o p complete h in
    let (empty, many) = decide-complete o p decided in
    let c = validate-IsConsistent o p valid in
    (
      empty,
      ordinals_all o.candidate_replicas x o.candidate_available s.candidate_available c.candidates
          many l u,
    )
