-- ===== src/Health/Counts.antt =====
-- What the counters of a report say of the replicas that it has counted.
use cartridge_runtime.Prelude.{
  ℕ, ◌+◌, ◌≡◌, ◌⊎◌, refl, inl, inr, Bool, true, false, Option, none, some, List, [], ◌∷◌, All,
  arith, if◌then◌else◌, subst, sym, ap, ◌∙◌,
}
use cartridge_runtime.Prelude.Results.{ok, >>=-eq-ok, ok_injective}
use cartridge_runtime.Supervisor.Types.{
  ReplicaPhase, ProbePhase, ReplicaProbeRuntime, ReplicaRuntime,
}
use cartridge_runtime.Health.{
  StackHealthReport, waiting, failures, successful, count_phase, count_probe, count_probe_phase,
  count_replicas,
}

-- The replica runs, has succeeded or is stopped.
abbrev pub IsCalmPhase : ReplicaPhase → Type 0
IsCalmPhase p =
    (p ≡ ReplicaPhase.running) ⊎ ((p ≡ ReplicaPhase.succeeded) ⊎ (p ≡ ReplicaPhase.stopped))

-- The replica has no probe, or its probe is ready.
abbrev pub IsCalmProbe : Option ReplicaProbeRuntime → Type 0
IsCalmProbe none = Unit
IsCalmProbe (some p) = p.phase ≡ ProbePhase.ready

abbrev pub IsCalm : ReplicaRuntime → Type 0
IsCalm q = IsCalmPhase q.phase × IsCalmProbe q.probe

-- Whether the replica does what is wanted of it.
abbrev pub serves : ReplicaPhase → Bool
serves ReplicaPhase.running = true
serves ReplicaPhase.succeeded = true
serves _ = false

-- How many replicas of a list run or have succeeded.
abbrev pub serving : List ReplicaRuntime → ℕ
serving [] = 0
serving (q ∷ qs) = (if serves q.phase then 1 else 0) + serving qs

-- The counters of a report that show nothing to wait for and nothing wrong.
pub record IsQuiet (r : StackHealthReport) : Type 0 where
  pub none_failed : failures r ≡ 0
  pub none_waiting : waiting r ≡ 0
  pub none_unhealthy : r.probe_unhealthy ≡ 0
  pub none_probing : r.probe_waiting ≡ 0

-- From a first report to one that has counted more.
pub record Counted (a b : StackHealthReport) (n : ℕ) : Type 0 where
  pub quiet : IsQuiet a
  pub more : successful b ≡ n + successful a
  pub wanted : b.desired_replicas ≡ a.desired_replicas

count_phase-Counted :
    (p : ReplicaPhase) (a b : StackHealthReport)
    → count_phase p a ≡ ok b
    → IsQuiet b
    → IsCalmPhase p × Counted a b (if serves p then 1 else 0)
unfolding count_phase
count_phase-Counted p a b h q = (
  phase p h,
  record {
    quiet = record {
      none_failed = ground (arith, h, q.none_failed);
      none_waiting = ground (arith, h, q.none_waiting);
      none_unhealthy = ground (arith, h, q.none_unhealthy);
      none_probing = ground (arith, h, q.none_probing);
    };
    more = ground (arith, h, q.none_failed);
    wanted = ground (arith, h);
  },
)
  where
    phase : (p : ReplicaPhase) → count_phase p a ≡ ok b → IsCalmPhase p
    phase ReplicaPhase.pending e = absurd (ground (arith, e, q.none_waiting))
    phase ReplicaPhase.starting e = absurd (ground (arith, e, q.none_waiting))
    phase ReplicaPhase.running e = inl refl
    phase ReplicaPhase.backoff e = absurd (ground (arith, e, q.none_waiting))
    phase ReplicaPhase.succeeded e = inr (inl refl)
    phase ReplicaPhase.failed e = absurd (ground (arith, e, q.none_failed))
    phase ReplicaPhase.exhausted e = absurd (ground (arith, e, q.none_failed))
    phase ReplicaPhase.stopped e = inr (inr refl)

count_probe-Counted :
    (p : Option ReplicaProbeRuntime) (a b : StackHealthReport)
    → count_probe p a ≡ ok b
    → IsQuiet b
    → IsCalmProbe p × Counted a b 0
unfolding count_probe count_probe_phase
count_probe-Counted p a b h q = (
  probe p h,
  record {
    quiet = record {
      none_failed = ground (arith, h, q.none_failed);
      none_waiting = ground (arith, h, q.none_waiting);
      none_unhealthy = ground (arith, h, q.none_unhealthy);
      none_probing = ground (arith, h, q.none_probing);
    };
    more = ground (arith, h);
    wanted = ground (arith, h);
  },
)
  where
    phase : (p : ProbePhase) → count_probe_phase p a ≡ ok b → p ≡ ProbePhase.ready
    phase ProbePhase.waiting e = absurd (ground (arith, e, q.none_probing))
    phase ProbePhase.ready e = refl
    phase ProbePhase.unhealthy e = absurd (ground (arith, e, q.none_unhealthy))

    probe : (p : Option ReplicaProbeRuntime) → count_probe p a ≡ ok b → IsCalmProbe p
    probe none e = tt
    probe (some p) e = phase p.phase e

pub count_replicas-Counted :
    (qs : List ReplicaRuntime) (a b : StackHealthReport)
    → count_replicas qs a ≡ ok b
    → IsQuiet b
    → All IsCalm qs × Counted a b (serving qs)
unfolding count_replicas
count_replicas-Counted [] a b h q =
    let same = ok_injective a b _ refl h in
    (
      tt,
      record {
        quiet = subst IsQuiet (sym same) q;
        more = omega (arith, ap successful same);
        wanted = ap (λ r. r.desired_replicas) (sym same);
      },
    )
count_replicas-Counted (x ∷ qs) a b h q =
    let (phased, f, h1) = >>=-eq-ok (count_phase x.phase a) _ h in
    let (probed, g, h2) = >>=-eq-ok (count_probe x.probe phased) _ h1 in
    let (calm, after) = count_replicas-Counted qs probed b h2 q in
    let (probe, middle) = count_probe-Counted x.probe phased probed g after.quiet in
    let (phase, before) = count_phase-Counted x.phase a phased f middle.quiet in
    (
      ((phase, probe), calm),
      record {
        quiet = before.quiet;
        more = omega (arith, after.more, middle.more, before.more);
        wanted = after.wanted ∙ middle.wanted ∙ before.wanted;
      },
    )
