-- ===== src/Rollout/Observe.antt =====
-- What the scheduler observes of an instance, crates/cartridge-engine/src/rollout_progress.rs.
use Prim.Native.Nat.{max}
use cartridge_runtime.Prelude.{
  ℕ, ◌-◌, Bool, true, false, not, ◌&&◌, Option, none, some, List, [], ◌∷◌, leb, ◌==◌, if◌then◌else◌,
}
use cartridge_runtime.Prelude.Text.{text_eq}
use cartridge_runtime.Prelude.Sets.{contains, keep}
use cartridge_runtime.Prelude.Results.{ok, err, ok_or, ◌>>=◌}
use cartridge_runtime.Rolling.{RollingObservation}
use cartridge_runtime.Supervisor.Types.{
  ReplicaPhase, ReplicaProbeRuntime, ReplicaRuntime, StackRuntimeStatus,
}
use cartridge_runtime.Supervisor.Validate.{is_running, is_ready}
use cartridge_runtime.Rollout.Types.{
  RolloutInstanceProgress, RolloutProgress, Result, unauthorized, no_ready_time,
  rollout_stability_window_ms,
}
use cartridge_runtime.Rollout.Operations.{insert_member}

abbrev pub probe_ready : Option ReplicaProbeRuntime → Bool
probe_ready none = true
probe_ready (some probe) = is_ready probe.phase

unfoldable pub replica_ready : ReplicaRuntime → Bool
replica_ready r = probe_ready r.probe

-- `matches!(phase, Pending | Starting | Running | Backoff)`
abbrev pub is_live : ReplicaPhase → Bool
is_live ReplicaPhase.pending = true
is_live ReplicaPhase.starting = true
is_live ReplicaPhase.running = true
is_live ReplicaPhase.backoff = true
is_live _ = false

-- `matches!(phase, Starting | Running | Backoff | Succeeded)`
abbrev pub has_run : ReplicaPhase → Bool
has_run ReplicaPhase.starting = true
has_run ReplicaPhase.running = true
has_run ReplicaPhase.backoff = true
has_run ReplicaPhase.succeeded = true
has_run _ = false

unfoldable pub observe_previous : RollingObservation → ReplicaRuntime → RollingObservation
unfolding replica_ready
observe_previous o r = record o {
  previous_active =
      if is_live r.phase then insert_member r.id.ordinal o.previous_active else o.previous_active;
  previous_ready =
      if is_running r.phase && replica_ready r
      then insert_member r.id.ordinal o.previous_ready
      else o.previous_ready;
}

-- The first loop, over the previous generation.
unfoldable pub observe_all_previous :
    RolloutInstanceProgress → RollingObservation → List ReplicaRuntime → RollingObservation
unfolding observe_previous
observe_all_previous i o [] = o
observe_all_previous i o (r ∷ rs) =
    let named = text_eq r.id.instance_name i.name in
    observe_all_previous i (if named then observe_previous o r else o) rs

-- `probe.ready_at_ms`, or else `started_at_ms`.
abbrev pub ready_time : ReplicaRuntime → Option ℕ
ready_time r = go r.probe
  where
    go : Option ReplicaProbeRuntime → Option ℕ
    go none = r.started_at_ms
    go (some probe) = elim probe.ready_at_ms [ none ↦ r.started_at_ms | some t ↦ some t ]

unfoldable pub observe_ready :
    RolloutInstanceProgress → ℕ → RollingObservation → ReplicaRuntime → Result RollingObservation
observe_ready i now o r = do
  ready_at ← ok_or (ready_time r) no_ready_time
  ok (record o {
    candidate_ready = insert_member r.id.ordinal o.candidate_ready;
    candidate_available =
        if leb (max i.policy.min_ready_ms rollout_stability_window_ms) (now - ready_at)
        then insert_member r.id.ordinal o.candidate_available
        else o.candidate_available;
  })

-- An enabled replica of the candidate, by its phase.
unfoldable pub observe_enabled :
    RolloutInstanceProgress → ℕ → RollingObservation → ReplicaRuntime → Result RollingObservation
unfolding replica_ready observe_ready
observe_enabled i now o r = go r.phase
  where
    gone : Result RollingObservation
    gone = ok (record o {
      candidate_active = keep (λ x. not (x == r.id.ordinal)) o.candidate_active;
      candidate_terminal = insert_member r.id.ordinal o.candidate_terminal;
    })

    go : ReplicaPhase → Result RollingObservation
    go ReplicaPhase.failed = gone
    go ReplicaPhase.exhausted = gone
    go ReplicaPhase.stopped = gone
    go ReplicaPhase.succeeded = ok (record o {
      candidate_ready = insert_member r.id.ordinal o.candidate_ready;
      candidate_available = insert_member r.id.ordinal o.candidate_available;
    })
    go ReplicaPhase.running = if replica_ready r then observe_ready i now o r else ok o
    go ReplicaPhase.pending = ok o
    go ReplicaPhase.starting = ok o
    go ReplicaPhase.backoff = ok o

unfoldable pub observe_candidate :
    RolloutInstanceProgress → ℕ → RollingObservation → ReplicaRuntime → Result RollingObservation
unfolding observe_enabled
observe_candidate i now o r =
    if contains r.id.ordinal i.candidate_enabled
    then observe_enabled i now o r
    else if has_run r.phase
    then err unauthorized
    else ok o

-- The second loop, over the candidate.
unfoldable pub observe_all_candidate :
    RolloutInstanceProgress
    → ℕ
    → RollingObservation
    → List ReplicaRuntime
    → Result RollingObservation
unfolding observe_candidate
observe_all_candidate i now o [] = ok o
observe_all_candidate i now o (r ∷ rs) = do
  next ← (if text_eq r.id.instance_name i.name then observe_candidate i now o r else ok o)
  observe_all_candidate i now next rs

-- `if let Some(status)`, with its replicas.
abbrev pub replicas_of : Option StackRuntimeStatus → List ReplicaRuntime
replicas_of none = []
replicas_of (some s) = s.replicas

-- The observation that `instance_observation` starts from.
unfoldable pub first_observation :
    RolloutProgress → RolloutInstanceProgress → ℕ → RollingObservation
first_observation p i now = record {
  previous_replicas = i.previous_replicas;
  candidate_replicas = i.candidate_replicas;
  previous_active = [];
  previous_ready = [];
  candidate_active = i.candidate_enabled;
  candidate_ready = [];
  candidate_available = [];
  candidate_terminal = [];
  elapsed_since_progress_ms = now - p.last_progress_at_ms;
}

unfoldable pub instance_observation :
    RolloutProgress
    → Option StackRuntimeStatus
    → Option StackRuntimeStatus
    → ℕ
    → RolloutInstanceProgress
    → Result RollingObservation
unfolding observe_all_previous observe_all_candidate first_observation
instance_observation p previous candidate now i =
    observe_all_candidate i now
      (observe_all_previous i (first_observation p i now) (replicas_of previous))
      (replicas_of candidate)
