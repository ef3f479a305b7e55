-- ===== src/Supervisor/Operations/Outcomes.antt =====
-- What the answers of the operations mean.
use cartridge_runtime.Prelude.{
  ℕ, ◌+◌, ◌≤◌, ◌<◌, ◌≡◌, refl, sym, ap, ◌∙◌, subst, Bool, true, false, Option, none, some, List, [],
  ◌∷◌, arith, any,
}
use cartridge_runtime.Prelude.Text.{Text}
use cartridge_runtime.Prelude.Results.{ok, err}
use cartridge_runtime.Supervisor.Types.{
  ReplicaId, ReplicaPhase, ReplicaRuntime, StackRuntimeStatus, ProbeSignalKind, Error, Result,
  Hashing, stale_start, stale_signal, stale_timeout, stale_exit,
}
use cartridge_runtime.Supervisor.Names.{is_digest}
use cartridge_runtime.Supervisor.Validate.{id_eq, attempts_allowed}
use cartridge_runtime.Supervisor.Operations.{
  find, replace, with_replica, on_replica, begin_start, mark_running, mark_probe_signal,
  mark_probe_timeout, mark_exit, start_step, running_step, signal_step, timeout_step, exit_step,
  eligible_starts, eligible_ids, is_eligible, is_due, may_start, runs,
}
use cartridge_runtime.Supervisor.Operations.Calls.{
  Request, begins, marks_running, signals, times_out, exits, drains, recovers, beats, answer, call,
  on_replica_rule,
}

-- A replica put back where it was found changes nothing.
replace-find :
    (id : ReplicaId) (r : ReplicaRuntime) (rs : List ReplicaRuntime)
    → find id rs ≡ some r
    → replace id r rs ≡ rs
unfolding find replace
replace-find id r [] f = cc
replace-find id r (q ∷ rs) f = ground (arith, f, replace-find id r rs)

-- The run that a report is about.
abbrev pub reports : Request → Option (ReplicaId × Text)
reports (marks_running id run) = some (id, run)
reports (signals id run sequence kind) = some (id, run)
reports (times_out id run) = some (id, run)
reports (exits id run success code detail) = some (id, run)
reports _ = none

abbrev Refused {ℓ} : {A : Type ℓ} → StackRuntimeStatus → Result A × StackRuntimeStatus → Type ℓ
Refused s t = ((e : Error) × (t.0 ≡ err e)) × (t.1 ≡ s)

answer-Refused {ℓ} :
    {A : Type ℓ} (s : StackRuntimeStatus) (t : Result A × StackRuntimeStatus)
    → Refused s t
    → Refused s (answer t)
answer-Refused s (ok a, u) ((e, j), k) = cc
answer-Refused s (err x, u) ((e, j), k) = ((x, refl), k)

on_replica-Refused {ℓ} :
    {A : Type ℓ} (h : Hashing) (s : StackRuntimeStatus) (id : ReplicaId) (now : ℕ) (bad : Bool)
    (e x : Error) (step : ReplicaRuntime → Result A × ReplicaRuntime) (r : ReplicaRuntime)
    → find id s.replicas ≡ some r
    → step r ≡ (err x, r)
    → Refused s (on_replica h s id now bad e step)
unfolding with_replica
on_replica-Refused {A = A} h s id now bad e x step r f d =
    on_replica_rule h (Refused s) s id now step (λ e. ((e, refl), refl))
      (λ q y g k. ((y, refl), put_back q g))
      (λ q a t b g k same time valid. absurd (no_answer q a g k)) bad e
  where
    found_again : (q : ReplicaRuntime) → find id s.replicas ≡ some q → step q ≡ (err x, r)
    found_again q g =
        let q_r : q ≡ r = ground (arith, f, g) in subst (λ y. step y ≡ (err x, r)) (sym q_r) d

    put_back : (q : ReplicaRuntime) → find id s.replicas ≡ some q → with_replica s id (step q).1 ≡ s
    put_back q g =
        ap (λ rs. record s { replicas = rs })
          (ap (λ y. replace id y.1 s.replicas) (found_again q g) ∙ replace-find id r s.replicas f)

    no_answer : (q : ReplicaRuntime) (a : A) → find id s.replicas ≡ some q → (step q).0 ≡ ok a → ⊥
    no_answer q a g k = let d = found_again q g in cc

running_step_stale :
    (run : Text) (r : ReplicaRuntime)
    → runs run r.run_id ≡ false
    → running_step run r ≡ (err stale_start, r)
unfolding running_step
running_step_stale run r n = ground (arith, n)

signal_step_stale :
    (run : Text) (sequence : ℕ) (kind : ProbeSignalKind) (now : ℕ) (r : ReplicaRuntime)
    → runs run r.run_id ≡ false
    → signal_step run sequence kind now r ≡ (err stale_signal, r)
unfolding signal_step
signal_step_stale run sequence kind now r n = ground (arith, n)

timeout_step_stale :
    (run : Text) (r : ReplicaRuntime)
    → runs run r.run_id ≡ false
    → timeout_step run r ≡ (err stale_timeout, r)
unfolding timeout_step
timeout_step_stale run r n = ground (arith, n)

exit_step_stale :
    (h : Hashing) (run : Text) (success : Bool) (code : Option ℕ) (detail : Text) (now : ℕ)
    (r : ReplicaRuntime)
    → runs run r.run_id ≡ false
    → exit_step h run success code detail now r ≡ (err stale_exit, r)
unfolding exit_step
exit_step_stale h run success code detail now r n = ground (arith, n)

named_found :
    {i id : ReplicaId} {x run : Text} {r : ReplicaRuntime} (s : StackRuntimeStatus)
    → ◌≡◌ {A = Option (ReplicaId × Text)} (some (i, x)) (some (id, run))
    → find id s.replicas ≡ some r
    → find i s.replicas ≡ some r
named_found s w f = ground (arith, w, f)

named_run :
    {i id : ReplicaId} {x run : Text} (r : ReplicaRuntime)
    → ◌≡◌ {A = Option (ReplicaId × Text)} (some (i, x)) (some (id, run))
    → runs run r.run_id ≡ false
    → runs x r.run_id ≡ false
named_run r w n = ground (arith, w, n)

-- A report on a replica by another run than its own is answered by an error, and the status stays.
pub stale_report_refused :
    (h : Hashing) (s : StackRuntimeStatus) (now : ℕ) (q : Request) (id : ReplicaId) (run : Text)
    (r : ReplicaRuntime)
    → reports q ≡ some (id, run)
    → find id s.replicas ≡ some r
    → runs run r.run_id ≡ false
    → ((e : Error) × ((call h s now q).0 ≡ err e)) × ((call h s now q).1 ≡ s)
unfolding call mark_running mark_probe_signal mark_probe_timeout mark_exit
stale_report_refused h s now (marks_running i x) id run r w f n =
    answer-Refused s (mark_running h s i x now) (
      on_replica-Refused h s i now _ _ stale_start (running_step x) r (named_found s w f)
        (running_step_stale x r (named_run r w n)))
stale_report_refused h s now (signals i x sequence kind) id run r w f n =
    answer-Refused s (mark_probe_signal h s i x sequence kind now) (
      on_replica-Refused h s i now _ _ stale_signal (signal_step x sequence kind now) r
        (named_found s w f) (signal_step_stale x sequence kind now r (named_run r w n)))
stale_report_refused h s now (times_out i x) id run r w f n =
    answer-Refused s (mark_probe_timeout h s i x now) (
      on_replica-Refused h s i now _ _ stale_timeout (timeout_step x) r (named_found s w f)
        (timeout_step_stale x r (named_run r w n)))
stale_report_refused h s now (exits i x success code detail) id run r w f n =
    answer-Refused s (mark_exit h s i x success code detail now) (
      on_replica-Refused h s i now _ _ stale_exit (exit_step h x success code detail now) r
        (named_found s w f) (exit_step_stale h x success code detail now r (named_run r w n)))
stale_report_refused h s now (begins i x) id run r w f n = cc
stale_report_refused h s now (drains i x) id run r w f n = cc
stale_report_refused h s now recovers id run r w f n = cc
stale_report_refused h s now beats id run r w f n = cc

-- The replica once its run has begun.
pub record HasBegun (run : Text) (r q : ReplicaRuntime) : Type 0 where
  pub id : q.id ≡ r.id
  pub phase : q.phase ≡ ReplicaPhase.starting
  pub run_id : q.run_id ≡ some run
  pub attempt : q.attempt ≡ r.attempt + 1
  pub left : r.attempt < attempts_allowed r.max_restarts

-- The two tests of the phase agree.
may_start-is_due :
    (now : ℕ) (p : ReplicaPhase) (next : Option ℕ) → may_start now p next ≡ is_due now p next
unfolding may_start
may_start-is_due now ReplicaPhase.pending next = refl
may_start-is_due now ReplicaPhase.backoff next = refl
may_start-is_due now ReplicaPhase.starting next = refl
may_start-is_due now ReplicaPhase.running next = refl
may_start-is_due now ReplicaPhase.succeeded next = refl
may_start-is_due now ReplicaPhase.failed next = refl
may_start-is_due now ReplicaPhase.exhausted next = refl
may_start-is_due now ReplicaPhase.stopped next = refl

start_step_eligible :
    (run : Text) (now : ℕ) (r : ReplicaRuntime) (a : ℕ)
    → (start_step run now r).0 ≡ ok a
    → (is_eligible now r ≡ true) × HasBegun run r (start_step run now r).1
unfolding start_step is_eligible
start_step_eligible run now r a h = (
  ground (arith, h, may_start-is_due now r.phase r.next_start_at_ms),
  record {
    id = ground (arith, h);
    phase = ground (arith, h);
    run_id = ground (arith, h);
    attempt = ground (arith, h);
    left = ground (arith, h);
  },
)

find-replace :
    (id : ReplicaId) (r q : ReplicaRuntime) (rs : List ReplicaRuntime)
    → find id rs ≡ some r
    → q.id ≡ r.id
    → find id (replace id q rs) ≡ some q
unfolding find replace
find-replace id r q [] f e = cc
find-replace id r q (x ∷ rs) f e = ground (arith, f, e, find-replace id r q rs)

eligible_found :
    (now : ℕ) (id : ReplicaId) (r : ReplicaRuntime) (rs : List ReplicaRuntime)
    → find id rs ≡ some r
    → is_eligible now r ≡ true
    → any (λ j. id_eq j id) (eligible_ids now rs) ≡ true
unfolding find eligible_ids
eligible_found now id r [] f e = cc
eligible_found now id r (q ∷ rs) f e = ground (arith, f, e, eligible_found now id r rs)

on_replica_passed {ℓ} :
    {A : Type ℓ} (h : Hashing) (s : StackRuntimeStatus) (id : ReplicaId) (now : ℕ) (bad : Bool)
    (e : Error) (step : ReplicaRuntime → Result A × ReplicaRuntime) (a : A)
    → (on_replica h s id now bad e step).0 ≡ ok a
    → bad ≡ false
unfolding on_replica
on_replica_passed h s id now true e step a k = cc
on_replica_passed h s id now false e step a k = refl

-- The replica that an operation with an answer has found, and what it has put in its place.
on_replica_found {ℓ} :
    {A : Type ℓ} (h : Hashing) (s : StackRuntimeStatus) (id : ReplicaId) (now : ℕ) (bad : Bool)
    (e : Error) (step : ReplicaRuntime → Result A × ReplicaRuntime) (a : A)
    → (on_replica h s id now bad e step).0 ≡ ok a
    → (r : ReplicaRuntime) × (find id s.replicas ≡ some r)
      × ((b : A) × ((step r).0 ≡ ok b))
      × ((on_replica h s id now bad e step).1.replicas ≡ replace id (step r).1 s.replicas)
on_replica_found {A = A} h s id now bad e step a =
    on_replica_rule h
      (λ t.
        t.0 ≡ ok a
        → (r : ReplicaRuntime) × (find id s.replicas ≡ some r)
          × ((b : A) × ((step r).0 ≡ ok b))
          × (t.1.replicas ≡ replace id (step r).1 s.replicas))
      s id now step (λ e k. cc) (λ r e f d k. cc)
      (λ r b t c f d same time valid k. (r, f, (b, d), same)) bad e

-- When `begin_start` answers, the replica was one that `eligible_starts` lists and had an attempt left
-- among those that its restarts allow; it now starts under the given run, with one attempt more; the
-- run has a digest for its name, and the time has not gone back.
pub begin_start_eligible :
    (h : Hashing) (s : StackRuntimeStatus) (id : ReplicaId) (run : Text) (now a : ℕ)
    → (begin_start h s id run now).0 ≡ ok a
    → (any (λ j. id_eq j id) (eligible_starts s now) ≡ true)
      × ((r : ReplicaRuntime) × (find id s.replicas ≡ some r)
          × ((q : ReplicaRuntime) × (find id (begin_start h s id run now).1.replicas ≡ some q)
              × HasBegun run r q))
      × (is_digest run ≡ true)
      × (s.observed_at_ms ≤ now)
unfolding begin_start eligible_starts
begin_start_eligible h s id run now a k =
    let (r, f, (b, d), done) = on_replica_found h s id now _ _ (start_step run now) a k in
    let passed = on_replica_passed h s id now _ _ (start_step run now) a k in
    let (due, begun) = start_step_eligible run now r b d in
    let q = (start_step run now r).1 in
    (
      eligible_found now id r s.replicas f due,
      (r, f, (q, ap (find id) done ∙ find-replace id r q s.replicas f begun.id, begun)),
      ground (arith, passed),
      ground (arith, passed),
    )
