-- ===== src/Rollout/Operations/Steps.antt =====
-- What a request may change of a progress.
use cartridge_runtime.Prelude.{
  ℕ, ◌≤◌, ◌<◌, ◌≡◌, refl, sym, ap, subst, ◌∙◌, ◌⊎◌, inl, inr, true, false, not, Option, none, some,
  List, [], ◌∷◌, arith, ◌==◌, ==_iff, length, Bool-cases,
}
use cartridge_runtime.Prelude.Text.{Text}
use cartridge_runtime.Prelude.Map.{Map}
use cartridge_runtime.Prelude.Results.{
  ok, err, reject, ◌>>=◌, ◌>>◌, Result-cases, >>-eq-ok, reject-ok,
}
use cartridge_runtime.Supervisor.Types.{ReplicaRuntime, StackRuntimeStatus}
use cartridge_runtime.Rollout.Types.{
  RolloutInstanceProgress, RolloutProgress, RolloutExecutionPhase, Error, Result, Encoding,
  DrainIntent, bad_transition,
}
use cartridge_runtime.Rollout.Validate.{validate}
use cartridge_runtime.Rollout.Operations.{
  mark_progress, ensure_time, ensure_mutable, is_rolling, find, replace, with_instance,
  retain_intents, enabled_instance, enable_candidate, drained_instance, request_previous_drain,
  allowed, set_phase, heartbeat, validate_runtime, end_drains, acknowledge_drained,
  acknowledge_status, extend,
}
use cartridge_runtime.Rollout.Operations.Idle.{missing, idle, idle-extend, missing-replace}
use cartridge_runtime.Rollout.Operations.Calls.{
  Request, enables, drains, enters, beats, acknowledges, call, answer, IsMarked, refresh-IsMarked,
  mark_progress-IsMarked, ensure_mutable_ok, enabled_instance_ok, drained_instance_ok,
}

pub record IsStep (e : Encoding) (p : RolloutProgress) (t : Result (Unit {0}) × RolloutProgress)
    : Type 0 where
  pub phase : (t.1.phase ≡ p.phase) ⊎ (allowed p.phase t.1.phase ≡ true)
  pub work : is_rolling p.phase ≡ false → t.1.instances ≡ p.instances
  pub grows : missing t.1.instances ≤ missing p.instances
  pub time : p.updated_at_ms ≤ t.1.updated_at_ms
  pub sequence : p.action_sequence ≤ t.1.action_sequence
  pub valid : t.0 ≡ ok tt → validate e p ≡ ok tt → validate e t.1 ≡ ok tt

refused-IsStep : (e : Encoding) (p : RolloutProgress) (fault : Error) → IsStep e p (err fault, p)
refused-IsStep e p fault = record {
  phase = inl refl;
  work = λ h. refl;
  grows = omega arith;
  time = omega arith;
  sequence = omega arith;
  valid = λ h. cc;
}

unchanged-IsStep : (e : Encoding) (p : RolloutProgress) → IsStep e p (ok tt, p)
unchanged-IsStep e p = record {
  phase = inl refl;
  work = λ h. refl;
  grows = omega arith;
  time = omega arith;
  sequence = omega arith;
  valid = λ h v. v;
}

-- A change, and then the end of the operation.
record IsChange (p q : RolloutProgress) (now : ℕ) : Type 0 where
  phase : (q.phase ≡ p.phase) ⊎ (allowed p.phase q.phase ≡ true)
  work : is_rolling p.phase ≡ false → q.instances ≡ p.instances
  grows : missing q.instances ≤ missing p.instances
  now_later : p.updated_at_ms ≤ now
  time : p.updated_at_ms ≤ q.updated_at_ms
  sequence : q.action_sequence ≡ p.action_sequence

marked-IsStep :
    (e : Encoding) (p q : RolloutProgress) (now : ℕ) (t : Result (Unit {0}) × RolloutProgress)
    → IsChange p q now
    → IsMarked e q now t
    → IsStep e p t
marked-IsStep e p q now t c m = record {
  phase = rw m.phase c.phase;
  work = λ h. m.instances ∙ c.work h;
  grows = rw m.instances c.grows;
  time = elim m.time [ inl k ↦ omega (arith, k, c.time) | inr k ↦ omega (arith, k, c.now_later) ];
  sequence = omega (arith, m.sequence, c.sequence);
  valid = λ h v. (m.valid h).0;
}

mark_progress-IsStep :
    (e : Encoding) (p q : RolloutProgress) (now : ℕ)
    → IsChange p q now
    → IsStep e p (mark_progress e q now)
mark_progress-IsStep e p q now c =
    marked-IsStep e p q now (mark_progress e q now) c (mark_progress-IsMarked e q now)

-- The instance found, replaced by one with no more idle candidates.
replace-IsChange :
    (p : RolloutProgress) (name : Text) (now : ℕ) (i j : RolloutInstanceProgress)
    → ensure_mutable p now ≡ ok tt
    → find name p.instances ≡ some i
    → length (idle j.candidate_replicas j.candidate_enabled)
      ≤ length (idle i.candidate_replicas i.candidate_enabled)
    → IsChange p (record p { instances = replace name j p.instances }) now
replace-IsChange p name now i j mutable found fewer = record {
  phase = inl refl;
  work = λ h. cc ((ensure_mutable_ok p now mutable).0, h);
  grows = omega (arith, missing-replace name i j p.instances found, fewer);
  now_later = (ensure_mutable_ok p now mutable).1;
  time = omega arith;
  sequence = refl;
}

enable_candidate-IsStep :
    (e : Encoding) (p : RolloutProgress) (name : Text) (ordinals : List ℕ) (now : ℕ)
    → IsStep e p (enable_candidate e p name ordinals now)
unfolding enable_candidate with_instance
enable_candidate-IsStep e p name ordinals now =
    elim (Result-cases (enabled_instance p name ordinals now)) [
      | inl (fault, c) ↦ simp c (refused-IsStep e p fault)
      | inr (j, c) ↦ simp c (
          let (i, mutable, some_one, found, good, made) =
            enabled_instance_ok p name ordinals now j c in
          mark_progress-IsStep e p _ now (
            replace-IsChange p name now i j mutable found (
              subst
                (λ k.
                  length (idle k.candidate_replicas k.candidate_enabled)
                  ≤ length (idle i.candidate_replicas i.candidate_enabled))
                made (omega (arith, idle-extend i ordinals some_one good)))))
    ]

request_previous_drain-IsStep :
    (e : Encoding) (p : RolloutProgress) (name : Text) (ordinals : List ℕ) (now : ℕ)
    → IsStep e p (request_previous_drain e p name ordinals now)
unfolding request_previous_drain with_instance
request_previous_drain-IsStep e p name ordinals now =
    elim (Result-cases (drained_instance p name ordinals now)) [
      | inl (fault, c) ↦ simp c (refused-IsStep e p fault)
      | inr (j, c) ↦ simp c (
          let (i, mutable, found, replicas, enabled) =
            drained_instance_ok p name ordinals now j c in
          mark_progress-IsStep e p _ now
            (replace-IsChange p name now i j mutable found (rw (replicas, enabled) (omega arith))))
    ]

ensure_time_ok : (p : RolloutProgress) (now : ℕ) → ensure_time p now ≡ ok tt → p.updated_at_ms ≤ now
unfolding ensure_time
ensure_time_ok p now h = ground (arith, h)

set_phase-IsStep :
    (e : Encoding) (p : RolloutProgress) (next : RolloutExecutionPhase) (now : ℕ)
    → IsStep e p (set_phase e p next now)
unfolding set_phase
set_phase-IsStep e p next now =
    elim (Result-cases (do ensure_time p now; reject (not (allowed p.phase next)) bad_transition)) [
      | inl (fault, c) ↦ simp c (refused-IsStep e p fault)
      | inr (u, c) ↦ simp c (
          let (on_time, may) = >>-eq-ok (ensure_time p now) _ c in
          mark_progress-IsStep e p (record p { phase = next }) now
            (record {
              phase = inr (ground (arith, reject-ok _ _ may));
              work = λ h. refl;
              grows = omega arith;
              now_later = ensure_time_ok p now on_time;
              time = omega arith;
              sequence = refl;
            }))
    ]

heartbeat-IsStep : (e : Encoding) (p : RolloutProgress) (now : ℕ) → IsStep e p (heartbeat e p now)
unfolding heartbeat
heartbeat-IsStep e p now = elim (Result-cases (ensure_time p now)) [
  | inl (fault, c) ↦ simp c (refused-IsStep e p fault)
  | inr (u, c) ↦ simp c (
      marked-IsStep e p (record p { updated_at_ms = now }) now _
        (record {
          phase = inl refl;
          work = λ h. refl;
          grows = omega arith;
          now_later = ensure_time_ok p now c;
          time = ensure_time_ok p now c;
          sequence = refl;
        })
        (refresh-IsMarked e (record p { updated_at_ms = now })))
]

missing-end_drains :
    (rs : List ReplicaRuntime) (is : List RolloutInstanceProgress)
    → missing (end_drains rs is).0 ≡ missing is
unfolding missing end_drains
missing-end_drains rs [] = refl
missing-end_drains rs (i ∷ is) = omega (arith, missing-end_drains rs is)

retain_intents-none :
    (rs : List ReplicaRuntime) (name : Text) (draining : Map ℕ DrainIntent)
    → (retain_intents rs name draining).1 ≡ 0
    → (retain_intents rs name draining).0 ≡ draining
unfolding retain_intents
retain_intents-none rs name [] h = refl
retain_intents-none rs name ((ordinal, intent) ∷ draining) h =
    ground (arith, h, retain_intents-none rs name draining)

end_drains-none :
    (rs : List ReplicaRuntime) (is : List RolloutInstanceProgress)
    → (end_drains rs is).1 ≡ 0
    → (end_drains rs is).0 ≡ is
unfolding end_drains
end_drains-none rs [] h = refl
end_drains-none rs (i ∷ is) h =
    rw
      (
        retain_intents-none rs i.name i.previous_draining (omega (arith, h)),
        end_drains-none rs is (omega (arith, h)),
      )
      refl

answer-IsStep :
    (e : Encoding) (p : RolloutProgress) (n : ℕ) (t : Result (Unit {0}) × RolloutProgress)
    → IsStep e p t
    → IsStep e p (answer ((t.0 >>= λ u. ok n), t.1))
answer-IsStep e p n (ok u, q) s = s
answer-IsStep e p n (err fault, q) s = s

acknowledge_status-IsStep :
    (e : Encoding) (p : RolloutProgress) (status : StackRuntimeStatus) (now : ℕ)
    → ensure_mutable p now ≡ ok tt
    → IsStep e p (answer (acknowledge_status e p status now))
unfolding acknowledge_status
acknowledge_status-IsStep e p status now mutable = elim (Bool-cases (removed == 0)) [
  | inl b ↦ simp b (
      subst (λ q. IsStep e p (ok tt, q))
        (ap (λ is. record p { instances = is })
          (sym (end_drains-none status.replicas p.instances ((==_iff removed 0).0 b))))
        (unchanged-IsStep e p))
  | inr b ↦ simp b (
      answer-IsStep e p removed _ (
        mark_progress-IsStep e p (record p { instances = left }) now
          (record {
            phase = inl refl;
            work = λ h. cc ((ensure_mutable_ok p now mutable).0, h);
            grows = omega (arith, missing-end_drains status.replicas p.instances);
            now_later = (ensure_mutable_ok p now mutable).1;
            time = omega arith;
            sequence = refl;
          })))
]
  where
    left : List RolloutInstanceProgress
    left = (end_drains status.replicas p.instances).0

    removed : ℕ
    removed = (end_drains status.replicas p.instances).1

acknowledge_drained-IsStep :
    (e : Encoding) (p : RolloutProgress) (previous : Option StackRuntimeStatus) (now : ℕ)
    → IsStep e p (answer (acknowledge_drained e p previous now))
unfolding acknowledge_drained
acknowledge_drained-IsStep e p none now =
    elim (Result-cases (do
      ensure_mutable p now
      validate_runtime e p none p.previous_revision p.previous_generation)) [
        | inl (fault, c) ↦ simp c (refused-IsStep e p fault)
        | inr (u, c) ↦ simp c (unchanged-IsStep e p)
      ]
acknowledge_drained-IsStep e p (some status) now =
    elim (Result-cases (do
      ensure_mutable p now
      validate_runtime e p (some status) p.previous_revision p.previous_generation)) [
        | inl (fault, c) ↦ simp c (refused-IsStep e p fault)
        | inr (u, c) ↦
            simp c
              (acknowledge_status-IsStep e p status now (>>-eq-ok (ensure_mutable p now) _ c).0)
      ]

-- Whatever a request answers, it leaves the phase or takes it along an allowed transition, changes
-- instances only while the rollout rolls, adds no idle candidate, and lowers neither the time nor the
-- sequence; when it answers, a valid progress stays valid.
pub call-IsStep :
    (e : Encoding) (p : RolloutProgress) (now : ℕ) (request : Request)
    → IsStep e p (call e p now request)
unfolding call
call-IsStep e p now (enables name ordinals) = enable_candidate-IsStep e p name ordinals now
call-IsStep e p now (drains name ordinals) = request_previous_drain-IsStep e p name ordinals now
call-IsStep e p now (enters next) = set_phase-IsStep e p next now
call-IsStep e p now beats = heartbeat-IsStep e p now
call-IsStep e p now (acknowledges previous) = acknowledge_drained-IsStep e p previous now

-- A start that is answered leaves fewer idle candidates.
pub enable_candidate-missing :
    (e : Encoding) (p : RolloutProgress) (name : Text) (ordinals : List ℕ) (now : ℕ)
    → (enable_candidate e p name ordinals now).0 ≡ ok tt
    → missing (enable_candidate e p name ordinals now).1.instances < missing p.instances
unfolding enable_candidate with_instance
enable_candidate-missing e p name ordinals now =
    elim (Result-cases (enabled_instance p name ordinals now)) [
      | inl (fault, c) ↦ simp c (λ h. absurd cc)
      | inr (j, c) ↦ simp c λ h.
          let (i, mutable, some_one, found, good, made) =
            enabled_instance_ok p name ordinals now j c in
          rw
            (mark_progress-IsMarked e (record p { instances = replace name j p.instances })
              now).instances
            (subst (λ k. missing (replace name k p.instances) < missing p.instances) made
              (omega (
                arith,
                missing-replace name i
                    (record i { candidate_enabled = extend i.candidate_enabled ordinals })
                    p.instances found,
                idle-extend i ordinals some_one good,
              )))
    ]
