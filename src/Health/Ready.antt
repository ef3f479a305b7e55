-- ===== src/Health/Ready.antt =====
-- What a ready report says.
use cartridge_runtime.Prelude.{
  ℕ, ◌<◌, ◌≡◌, refl, inl, inr, Bool, true, false, Option, none, some, [], All, arith, ◌==◌, not,
  ◌&&◌, ◌||◌, ltb, leb, length, if◌then◌else◌, subst, sym,
}
use cartridge_runtime.Prelude.Text.{text_eq}
use cartridge_runtime.Prelude.Words.{u16_mod}
use cartridge_runtime.Supervisor.Validate
use cartridge_runtime.Prelude.Results.{ok, reject, Result-cases, >>=-eq-ok, >>-eq-ok, ok_injective}
use cartridge_runtime.Supervisor.Types.{StackRuntimeStatus, Hashing}
use cartridge_runtime.Health.{
  StackStatus, StackHealthReport, StackHealthState, ReportDigest, validate, refresh,
  computed_sha256, validate_stack_status, ready, first_report, add_runtime, state_matches_counts,
  from_status, waiting, failures, successful, count_replicas, of_runtime, is_applied,
  derived_applied_state, time_invalid, desired_overflow, other_generation, total_overflow,
}
use cartridge_runtime.Health.Counts.{IsCalm, serving, count_replicas-Counted}

-- Nothing failed or waits, and every replica that is wanted runs or has succeeded.
pub record IsReady (r : StackHealthReport) : Type 0 where
  pub none_failed : failures r ≡ 0
  pub none_waiting : waiting r ≡ 0
  pub none_unhealthy : r.probe_unhealthy ≡ 0
  pub none_probing : r.probe_waiting ≡ 0
  pub all_there : successful r ≡ r.desired_replicas

matches-IsReady :
    (r : StackHealthReport) → state_matches_counts r ≡ true → ready r.state ≡ true → IsReady r
unfolding state_matches_counts ready
matches-IsReady r m e = ground arith

validate-matches :
    (digest : ReportDigest) (r : StackHealthReport)
    → validate digest r ≡ ok tt
    → state_matches_counts r ≡ true
unfolding validate
validate-matches digest r h = ground arith

refresh-validate :
    (digest : ReportDigest) (r q : StackHealthReport)
    → refresh digest r ≡ ok q
    → validate digest q ≡ ok tt
unfolding refresh
refresh-validate digest r q h = ground arith

-- A report that `from_status` gives passes the checks of a report.
pub from_status_valid :
    (h : Hashing) (digest : ReportDigest) (s : StackStatus) (runtime : Option StackRuntimeStatus)
    (now : ℕ) (r : StackHealthReport)
    → from_status h digest s runtime now ≡ ok r
    → validate digest r ≡ ok tt
unfolding from_status
from_status_valid h digest s runtime now r e =
    elim (Result-cases (add_runtime h s now runtime (first_report s runtime now))) [
      | inl (x, c) ↦ absurd (ground (arith, e, c))
      | inr (q, c) ↦ refresh-validate digest q r (ground (arith, e, c))
    ]

-- What the report says of its counters stands in the counters before its digest and its state.
refresh-IsReady :
    (digest : ReportDigest) (a r : StackHealthReport)
    → refresh digest a ≡ ok r
    → ready r.state ≡ true
    → IsReady a × (ready a.state ≡ true)
unfolding refresh
refresh-IsReady digest a r h e =
    let (c, f, h1) = >>=-eq-ok (computed_sha256 digest (record a { report_sha256 = [] })) _ h in
    let (v, h2) = >>-eq-ok (validate digest (record a { report_sha256 = c })) _ h1 in
    let same = ok_injective (record a { report_sha256 = c }) r _ refl h2 in
    let go = subst (λ x. ready x.state ≡ true) (sym same) e in
    let there =
      matches-IsReady (record a { report_sha256 = c })
        (validate-matches digest (record a { report_sha256 = c }) v) go in
    (
      record {
        none_failed = there.none_failed;
        none_waiting = there.none_waiting;
        none_unhealthy = there.none_unhealthy;
        none_probing = there.none_probing;
        all_there = there.all_there;
      },
      go,
    )

-- A report without a runtime status is not ready.
first_report-ready : (s : StackStatus) (now : ℕ) → ready (first_report s none now).state ≡ true → ⊥
unfolding first_report ready
first_report-ready s now e = ground (arith, e)

-- The state that the counters give is set after they are counted.
of_counted :
    (b : Bool) (c a : StackHealthReport) (derived : StackHealthState)
    → (if b then record c { state = derived } else c) ≡ a
    → IsReady a
    → IsReady c
of_counted true c a derived h i =
    let there = subst IsReady (sym h) i in
    record {
      none_failed = there.none_failed;
      none_waiting = there.none_waiting;
      none_unhealthy = there.none_unhealthy;
      none_probing = there.none_probing;
      all_there = there.all_there;
    }
of_counted false c a derived h i = subst IsReady (sym h) i

-- The report before its digest.
from_status-report :
    (h : Hashing) (digest : ReportDigest) (s : StackStatus) (runtime : Option StackRuntimeStatus)
    (now : ℕ) (r : StackHealthReport)
    → from_status h digest s runtime now ≡ ok r
    → (a : StackHealthReport) × (add_runtime h s now runtime (first_report s runtime now) ≡ ok a)
      × (refresh digest a ≡ ok r)
unfolding from_status
from_status-report h digest s runtime now r e =
    let (valid, e1) = >>-eq-ok (validate_stack_status s) _ e in
    let (timed, e2) = >>-eq-ok (reject (now == 0) time_invalid) _ e1 in
    let (few, e3) = >>-eq-ok (reject (leb u16_mod s.desired_replicas) desired_overflow) _ e2 in
    >>=-eq-ok (add_runtime h s now runtime (first_report s runtime now)) _ e3

add_runtime-none :
    (h : Hashing) (s : StackStatus) (now : ℕ) (r a : StackHealthReport)
    → add_runtime h s now none r ≡ ok a
    → a ≡ r
unfolding add_runtime
add_runtime-none h s now r a e = sym (ok_injective r a _ refl e)

-- A report of a status has counted its replicas.
add_runtime-Counted :
    (h : Hashing) (s : StackStatus) (now : ℕ) (t : StackRuntimeStatus) (r a : StackHealthReport)
    → add_runtime h s now (some t) r ≡ ok a
    → IsReady a
    → (c : StackHealthReport) × (count_replicas t.replicas
          (record r { replicas_total = length t.replicas })
        ≡ ok c)
      × IsReady c
unfolding add_runtime
add_runtime-Counted h s now t r a e i =
    let (valid, e1) = >>-eq-ok (of_runtime (Validate.validate h t)) _ e in
    let (own, e2) =
      >>-eq-ok
        (reject
          (not (text_eq t.stack s.stack)
            || not (t.revision == s.revision)
            || not (text_eq t.generation s.event_sha256))
          other_generation)
        _ e1 in
    let (few, e3) = >>-eq-ok (reject (leb u16_mod (length t.replicas)) total_overflow) _ e2 in
    let (c, counted, e4) =
      >>=-eq-ok (count_replicas t.replicas (record r { replicas_total = length t.replicas })) _
        e3 in
    (
      c,
      counted,
      of_counted (is_applied s.state && ltb 0 r.desired_replicas) c a
          (derived_applied_state c now t.observed_at_ms) (ok_injective _ a _ refl e4) i,
    )

-- The runtime status has a replica of its own for all that the stack wants.
abbrev pub AreReady : Option StackRuntimeStatus → ℕ → Type 0
AreReady none desired = ⊥
AreReady (some t) desired = All IsCalm t.replicas × (serving t.replicas ≡ desired)

-- When a report that `from_status` gives is ready, there is a runtime status; each of its replicas runs,
-- has succeeded or is stopped, and has no probe or a ready one; and the replicas that run or have
-- succeeded are as many as the stack wants.
pub from_status_ready :
    (h : Hashing) (digest : ReportDigest) (s : StackStatus) (runtime : Option StackRuntimeStatus)
    (now : ℕ) (r : StackHealthReport)
    → from_status h digest s runtime now ≡ ok r
    → ready r.state ≡ true
    → AreReady runtime s.desired_replicas
unfolding first_report
from_status_ready h digest s none now r e y =
    let (a, made, e1) = from_status-report h digest s none now r e in
    let (i, go) = refresh-IsReady digest a r e1 y in
    first_report-ready s now
      (subst (λ x. ready x.state ≡ true) (add_runtime-none h s now _ a made) go)
from_status_ready h digest s (some t) now r e y =
    let (a, made, e1) = from_status-report h digest s (some t) now r e in
    let (i, go) = refresh-IsReady digest a r e1 y in
    let (c, counted, j) = add_runtime-Counted h s now t (first_report s (some t) now) a made i in
    let (calm, all) = count_replicas-Counted t.replicas _ c counted (record {
      none_failed = j.none_failed;
      none_waiting = j.none_waiting;
      none_unhealthy = j.none_unhealthy;
      none_probing = j.none_probing;
    }) in
    (calm, omega (arith, all.more, all.wanted, j.all_there))

-- A report of a ready state is refused while a probe still waits for its first signal.
pub waiting_probe_refused :
    (digest : ReportDigest) (r : StackHealthReport)
    → 0 < r.probe_waiting
    → ready r.state ≡ true
    → ¬ (validate digest r ≡ ok tt)
waiting_probe_refused digest r w e v =
    omega (arith, w, (matches-IsReady r (validate-matches digest r v) e).none_probing)
