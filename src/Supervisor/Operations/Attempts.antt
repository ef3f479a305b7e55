-- ===== src/Supervisor/Operations/Attempts.antt =====
-- How often a replica starts: the budget of restarts over any calls.
use cartridge_runtime.Prelude.{
  ℕ, ◌+◌, ◌≤◌, ◌≡◌, ◌↔◌, refl, sym, ap, ◌∙◌, subst, ◌⊎◌, inl, inr, Bool, true, false, Option, none,
  some, List, [], ◌∷◌, arith, ltb, if◌then◌else◌, Bool-cases,
}
use cartridge_runtime.Prelude.Text.{Text, text_eq_iff}
use cartridge_runtime.Prelude.Results.{ok, err}
use cartridge_runtime.Supervisor.Types.{
  ReplicaId, ReplicaRuntime, ReplicaProbeRuntime, StackRuntimeStatus, ProbeSignalKind, Error,
  Result, Hashing,
}
use cartridge_runtime.Supervisor.Validate.{id_eq, attempts_allowed}
use cartridge_runtime.Supervisor.Operations.{
  find, replace, finish, with_replica, on_replica, begin_start, mark_running, mark_probe_signal,
  mark_probe_timeout, mark_exit, mark_drained, recover, recover_interrupted, heartbeat, start_step,
  running_step, signal_step, signal_probe, signal_kind, failed_probe, put_probe, timeout_step,
  timeout_probe, exit_step, drain_step, finish_replica,
}
use cartridge_runtime.Supervisor.Operations.Calls.{
  Request, begins, marks_running, signals, times_out, exits, drains, recovers, beats, answer, call,
  finish_rule, on_replica_rule,
}

abbrev attempt_of : Option ReplicaRuntime → ℕ
attempt_of none = 0
attempt_of (some r) = r.attempt

abbrev max_restarts_of : Option ReplicaRuntime → ℕ
max_restarts_of none = 0
max_restarts_of (some r) = r.max_restarts

-- What a step with `k` starts does to a replica.
abbrev Keeps : ReplicaRuntime → ReplicaRuntime → ℕ → Type 0
Keeps r q k =
    (q.id ≡ r.id)
    × (q.max_restarts ≡ r.max_restarts)
    × (r.attempt + k ≤ q.attempt)
    × ((q.attempt ≤ r.attempt) ⊎ (q.attempt ≤ attempts_allowed r.max_restarts))

abbrev Progress : Option ReplicaRuntime → Option ReplicaRuntime → ℕ → Type 0
Progress o p k =
    (max_restarts_of p ≡ max_restarts_of o)
    × (attempt_of o + k ≤ attempt_of p)
    × ((attempt_of p ≤ attempt_of o) ⊎ (attempt_of p ≤ attempts_allowed (max_restarts_of o)))

pub id_eq_iff : (a b : ReplicaId) → (id_eq a b ≡ true) ↔ (a ≡ b)
unfolding id_eq
id_eq_iff a b = ground (arith, text_eq_iff a.instance_name b.instance_name)

Progress-refl : (o : Option ReplicaRuntime) → Progress o o 0
Progress-refl o = ground arith

start_step-Keeps :
    (run : Text) (now : ℕ) (r : ReplicaRuntime) (a : ℕ)
    → (start_step run now r).0 ≡ ok a
    → Keeps r (start_step run now r).1 1
unfolding start_step
start_step-Keeps run now r a h = ground arith

start_step_failed :
    (run : Text) (now : ℕ) (r : ReplicaRuntime) (e : Error)
    → (start_step run now r).0 ≡ err e
    → (start_step run now r).1 ≡ r
unfolding start_step
start_step_failed run now r e h = ground arith

running_step-Keeps : (run : Text) (r : ReplicaRuntime) → Keeps r (running_step run r).1 0
unfolding running_step
running_step-Keeps run r = ground arith

failed_probe_kept :
    (r : ReplicaRuntime) (p : ReplicaProbeRuntime) → Keeps r (put_probe r (failed_probe p)).1 0
unfolding put_probe
failed_probe_kept r p = ground arith

timeout_step-Keeps : (run : Text) (r : ReplicaRuntime) → Keeps r (timeout_step run r).1 0
unfolding timeout_step timeout_probe
timeout_step-Keeps run r = ground (arith, failed_probe_kept r)

signal_step-Keeps :
    (run : Text) (sequence : ℕ) (kind : ProbeSignalKind) (now : ℕ) (r : ReplicaRuntime)
    → Keeps r (signal_step run sequence kind now r).1 0
unfolding signal_step signal_probe signal_kind
signal_step-Keeps run sequence kind now r = ground (arith, failed_probe_kept r)

exit_step-Keeps :
    (h : Hashing) (run : Text) (success : Bool) (code : Option ℕ) (detail : Text) (now : ℕ)
    (r : ReplicaRuntime)
    → Keeps r (exit_step h run success code detail now r).1 0
unfolding exit_step finish_replica
exit_step-Keeps h run success code detail now r = ground arith

drain_step-Keeps :
    (run : Option Text) (now : ℕ) (r : ReplicaRuntime) → Keeps r (drain_step run now r).1 0
unfolding drain_step
drain_step-Keeps run now r = ground arith

-- The starts of `j` in a request on `id` that makes `k` of them.
abbrev at : Bool → ℕ → ℕ
at b k = if b then k else 0

replace-Progress :
    (id j : ReplicaId) (r q : ReplicaRuntime) (k : ℕ) (rs : List ReplicaRuntime)
    → find id rs ≡ some r
    → Keeps r q k
    → Progress (find j rs) (find j (replace id q rs)) (at (id_eq id j) k)
unfolding find replace
replace-Progress id j r q k [] f kept = cc
replace-Progress id j r q k (x ∷ rs) f kept = elim (Bool-cases (id_eq x.id id)) [
  | inl here ↦
      let same : x ≡ r = ground (arith, here, f) in
      let id_same : x.id ≡ id = (id_eq_iff x.id id).0 here in
      ground
        (arith, here, same, kept, id_same, ap (λ i. id_eq i j) id_same, ap (λ i. id_eq i j) kept.0)
  | inr later ↦
      ground (
        arith,
        later,
        replace-Progress id j r q k rs (ground (arith, later, f)) kept,
        earlier later,
      )
]
  where
    earlier : id_eq x.id id ≡ false → id_eq x.id j ≡ true → id_eq id j ≡ false
    earlier n e = elim (Bool-cases (id_eq id j)) [
      | inr d ↦ d
      | inl s ↦ absurd (
          ground
            (arith, n, (id_eq_iff x.id id).1 ((id_eq_iff x.id j).0 e ∙ sym ((id_eq_iff id j).0 s))))
    ]

recover-Progress :
    (h : Hashing) (now : ℕ) (j : ReplicaId) (rs : List ReplicaRuntime)
    → Progress (find j rs) (find j (recover h now rs).1) 0
unfolding find recover finish_replica
recover-Progress h now j [] = ground arith
recover-Progress h now j (r ∷ rs) = ground (arith, recover-Progress h now j rs)

-- Whether a request with its answer started `j`.
abbrev pub started : ReplicaId → Request → Result (Unit {0}) → ℕ
started j (begins id run) (ok u) = at (id_eq id j) 1
started j _ _ = 0

weaken : (o p : Option ReplicaRuntime) (k : ℕ) → Progress o p k → Progress o p 0
weaken o p k g = (g.0, omega (arith, g.1), g.2)

replace_kept :
    (id j : ReplicaId) (r q : ReplicaRuntime) (rs : List ReplicaRuntime)
    → find id rs ≡ some r
    → Keeps r q 0
    → Progress (find j rs) (find j (replace id q rs)) 0
replace_kept id j r q rs f kept =
    weaken (find j rs) (find j (replace id q rs)) (at (id_eq id j) 0)
      (replace-Progress id j r q 0 rs f kept)

-- An operation with a step that keeps what it must makes progress.
step-Progress {ℓ} :
    {A : Type ℓ} (h : Hashing) (s : StackRuntimeStatus) (id j : ReplicaId) (now : ℕ) (bad : Bool)
    (e : Error) (step : ReplicaRuntime → Result A × ReplicaRuntime)
    → ((r : ReplicaRuntime) → Keeps r (step r).1 0)
    → Progress (find j s.replicas) (find j (on_replica h s id now bad e step).1.replicas) 0
unfolding with_replica
step-Progress h s id j now bad e step kept =
    on_replica_rule h (λ t. Progress (find j s.replicas) (find j t.1.replicas) 0) s id now step
      (λ e. Progress-refl (find j s.replicas))
      (λ r e f d. replace_kept id j r (step r).1 s.replicas f (kept r))
      (λ r a t b f d same time valid.
        subst (λ rs. Progress (find j s.replicas) (find j rs) 0) (sym same)
          (replace_kept id j r (step r).1 s.replicas f (kept r)))
      bad e

answer_state {ℓ} : {A : Type ℓ} (r : Result A × StackRuntimeStatus) → (answer r).1 ≡ r.1
answer_state (ok a, s) = refl
answer_state (err e, s) = refl

begun :
    (j id : ReplicaId) (run : Text) (o p : Option ReplicaRuntime) (b : Result ℕ)
    (t : StackRuntimeStatus)
    → Progress o p (at (id_eq id j) 1)
    → Progress o p (started j (begins id run) (answer (b, t)).0)
begun j id run o p (ok a) t g = g
begun j id run o p (err e) t g = weaken o p _ g

begin_start-Progress :
    (h : Hashing) (s : StackRuntimeStatus) (id j : ReplicaId) (run : Text) (now : ℕ)
    → Progress
        (find j s.replicas)
        (find j (begin_start h s id run now).1.replicas)
        (started j (begins id run) (answer (begin_start h s id run now)).0)
unfolding begin_start with_replica
begin_start-Progress h s id j run now =
    on_replica_rule h
      (λ t.
        Progress (find j s.replicas) (find j t.1.replicas) (started j (begins id run) (answer t).0))
      s id now (start_step run now) (λ e. Progress-refl (find j s.replicas))
      (λ r e f d.
        subst (λ q. Progress (find j s.replicas) (find j (replace id q s.replicas)) 0)
          (sym (start_step_failed run now r e d))
          (replace_kept id j r r s.replicas f (ground arith)))
      (λ r a t b f d same time valid. begun j id run (find j s.replicas) (find j t.replicas) b t (
        subst (λ rs. Progress (find j s.replicas) (find j rs) (at (id_eq id j) 1)) (sym same)
          (replace-Progress id j r (start_step run now r).1 1 s.replicas f
            (start_step-Keeps run now r a d))))
      _ _

finish-Progress {ℓ} :
    {A : Type ℓ} (h : Hashing) (s t : StackRuntimeStatus) (j : ReplicaId) (now : ℕ) (a : A)
    → Progress (find j s.replicas) (find j t.replicas) 0
    → Progress (find j s.replicas) (find j (finish h t now a).1.replicas) 0
finish-Progress h s t j now a g =
    finish_rule h (λ u. Progress (find j s.replicas) (find j u.1.replicas) 0) t now a
      λ u b same time valid. subst (λ rs. Progress (find j s.replicas) (find j rs) 0) (sym same) g

recover_interrupted-Progress :
    (h : Hashing) (s : StackRuntimeStatus) (j : ReplicaId) (now : ℕ)
    → Progress (find j s.replicas) (find j (recover_interrupted h s now).1.replicas) 0
unfolding recover_interrupted
recover_interrupted-Progress h s j now =
    let moved =
      finish-Progress h s (record s { replicas = (recover h now s.replicas).1 }) j now
        (recover h now s.replicas).0 (recover-Progress h now j s.replicas) in
    elim (Bool-cases (ltb now s.observed_at_ms)) [
      | inl early ↦ simp early (Progress-refl (find j s.replicas))
      | inr late ↦ elim (Bool-cases (ltb 0 (recover h now s.replicas).0)) [
        | inl found ↦ simp (late, found) moved
        | inr nothing ↦ simp (late, nothing) (Progress-refl (find j s.replicas))
      ]
    ]

heartbeat-Progress :
    (h : Hashing) (s : StackRuntimeStatus) (j : ReplicaId) (now : ℕ)
    → Progress (find j s.replicas) (find j (heartbeat h s now).1.replicas) 0
unfolding heartbeat
heartbeat-Progress h s j now = elim (Bool-cases (ltb now s.observed_at_ms)) [
  | inl early ↦ simp early (Progress-refl (find j s.replicas))
  | inr late ↦
      simp late (finish-Progress {0} {A = Unit} h s s j now tt (Progress-refl (find j s.replicas)))
]

call-Progress :
    (h : Hashing) (s : StackRuntimeStatus) (now : ℕ) (q : Request) (j : ReplicaId)
    → Progress
        (find j s.replicas)
        (find j (call h s now q).1.replicas)
        (started j q (call h s now q).0)
unfolding call mark_running mark_probe_signal mark_probe_timeout mark_exit mark_drained
call-Progress h s now (begins id run) j = rw answer_state (begin_start-Progress h s id j run now)
call-Progress h s now (marks_running id run) j =
    rw answer_state (step-Progress h s id j now _ _ (running_step run) (running_step-Keeps run))
call-Progress h s now (signals id run sequence kind) j = rw answer_state (
    step-Progress h s id j now _ _ (signal_step run sequence kind now)
      (signal_step-Keeps run sequence kind now))
call-Progress h s now (times_out id run) j =
    rw answer_state (step-Progress h s id j now _ _ (timeout_step run) (timeout_step-Keeps run))
call-Progress h s now (exits id run success code detail) j = rw answer_state (
    step-Progress h s id j now _ _ (exit_step h run success code detail now)
      (exit_step-Keeps h run success code detail now))
call-Progress h s now (drains id run) j =
    rw answer_state (step-Progress h s id j now _ _ (drain_step run now) (drain_step-Keeps run now))
call-Progress h s now recovers j = rw answer_state (recover_interrupted-Progress h s j now)
call-Progress h s now beats j = rw answer_state (heartbeat-Progress h s j now)

-- Requests at their times, one after the other, and how many of them started `j`.
unfoldable pub run_calls : Hashing → StackRuntimeStatus → List (ℕ × Request) → StackRuntimeStatus
run_calls h s [] = s
run_calls h s ((now, q) ∷ qs) = run_calls h (call h s now q).1 qs

unfoldable pub starts : Hashing → ReplicaId → StackRuntimeStatus → List (ℕ × Request) → ℕ
starts h j s [] = 0
starts h j s ((now, q) ∷ qs) = started j q (call h s now q).0 + starts h j (call h s now q).1 qs

Progress-trans :
    (o p u : Option ReplicaRuntime) (k l : ℕ)
    → Progress o p k
    → Progress p u l
    → Progress o u (k + l)
Progress-trans o p u k l a b = ground (arith, a, b)

run_calls-Progress :
    (h : Hashing) (j : ReplicaId) (s : StackRuntimeStatus) (qs : List (ℕ × Request))
    → Progress (find j s.replicas) (find j (run_calls h s qs).replicas) (starts h j s qs)
unfolding run_calls starts
run_calls-Progress h j s [] = Progress-refl (find j s.replicas)
run_calls-Progress h j s ((now, q) ∷ qs) =
    Progress-trans (find j s.replicas) (find j (call h s now q).1.replicas)
      (find j (run_calls h (call h s now q).1 qs).replicas) (started j q (call h s now q).0)
      (starts h j (call h s now q).1 qs) (call-Progress h s now q j)
      (run_calls-Progress h j (call h s now q).1 qs)

-- Over any operations at any times, failing ones among them, a replica that has not started before
-- starts at most once more than its restarts allow.
pub starts_le :
    (h : Hashing) (j : ReplicaId) (r : ReplicaRuntime) (s : StackRuntimeStatus)
    (qs : List (ℕ × Request))
    → find j s.replicas ≡ some r
    → r.attempt ≡ 0
    → starts h j s qs ≤ attempts_allowed r.max_restarts
starts_le h j r s qs f z = ground (arith, f, run_calls-Progress h j s qs)
