-- ===== src/Supervisor/Validate.antt =====
-- The checks of a replica and of a status in crates/cartridge-engine/src/supervisor.rs.
use cartridge_runtime.Prelude.{
  ℕ, ◌+◌, ◌%◌, Bool, true, false, not, ◌&&◌, ◌||◌, Option, none, some, List, [], ◌∷◌, ltb, leb,
  ◌==◌, any, length, is_some, is_some_and,
}
use Prim.Native.Nat.{compare, Ordering}
use cartridge_runtime.Prelude.Text.{Text, text_eq, text_cmp}
use cartridge_runtime.Prelude.Text
use cartridge_runtime.Prelude.Words.{u16_mod}
use cartridge_runtime.Prelude.Results.{ok, reject, ok_or, ◌>>=◌, ◌>>◌}
use cartridge_runtime.Supervisor.Names.{valid_name, valid_text, is_digest}
use cartridge_runtime.Supervisor.Types.{
  ReplicaId, ReplicaPhase, ProbePhase, ReplicaProbeRuntime, ReplicaRuntime, StackRuntimeStatus,
  DesiredState, RestartPolicy, Result, Hashing, identity_invalid, replica_invalid, not_sorted,
  phase_fields, probe_state, not_encoded, max_stack_total_replicas, max_stack_restarts,
  max_probe_failure_threshold, supervisor_status_format_version,
  legacy_supervisor_status_format_version,
}

abbrev pub is_none {ℓ} : {A : Type ℓ} → Option A → Bool
is_none o = not (is_some o)

-- `max_restarts + 1`, an `u16`.
abbrev pub attempts_allowed : ℕ → ℕ
attempts_allowed max_restarts = (max_restarts + 1) % u16_mod

-- `zip` of two options, and a test of the pair.
abbrev pub both : Option ℕ → Option ℕ → (ℕ → ℕ → Bool) → Bool
both none b p = false
both (some a) none p = false
both (some a) (some b) p = p a b

-- `matches!(phase, Starting | Running)`
abbrev pub is_active : ReplicaPhase → Bool
is_active ReplicaPhase.starting = true
is_active ReplicaPhase.running = true
is_active _ = false

abbrev pub is_backoff : ReplicaPhase → Bool
is_backoff ReplicaPhase.backoff = true
is_backoff _ = false

abbrev pub is_pending : ReplicaPhase → Bool
is_pending ReplicaPhase.pending = true
is_pending _ = false

abbrev pub is_stopped : ReplicaPhase → Bool
is_stopped ReplicaPhase.stopped = true
is_stopped _ = false

abbrev pub is_running : ReplicaPhase → Bool
is_running ReplicaPhase.running = true
is_running _ = false

abbrev pub is_starting : ReplicaPhase → Bool
is_starting ReplicaPhase.starting = true
is_starting _ = false

abbrev pub is_terminal : ReplicaPhase → Bool
is_terminal ReplicaPhase.succeeded = true
is_terminal ReplicaPhase.failed = true
is_terminal ReplicaPhase.exhausted = true
is_terminal _ = false

abbrev pub is_ready : ProbePhase → Bool
is_ready ProbePhase.ready = true
is_ready _ = false

abbrev pub is_waiting : ProbePhase → Bool
is_waiting ProbePhase.waiting = true
is_waiting _ = false

abbrev pub is_unhealthy : ProbePhase → Bool
is_unhealthy ProbePhase.unhealthy = true
is_unhealthy _ = false

abbrev pub wants_running : DesiredState → Bool
wants_running DesiredState.running = true
wants_running DesiredState.stopped = false

-- `drained by rollout`
abbrev pub drained_detail : Text
drained_detail = Text.text "drained by rollout"

-- `policy_phase_is_valid`
abbrev pub policy_phase : ReplicaPhase → RestartPolicy → Bool
policy_phase ReplicaPhase.backoff RestartPolicy.never = false
policy_phase ReplicaPhase.exhausted RestartPolicy.never = false
policy_phase ReplicaPhase.succeeded RestartPolicy.always = false
policy_phase ReplicaPhase.failed RestartPolicy.on_failure = false
policy_phase ReplicaPhase.failed RestartPolicy.always = false
policy_phase _ _ = true

unfoldable pub is_pristine : ReplicaProbeRuntime → Bool
is_pristine p =
    p.last_sequence == 0
    && is_none p.last_signal_at_ms
    && is_none p.ready_at_ms
    && p.consecutive_failures == 0
    && is_waiting p.phase

unfoldable pub validate_probe_runtime : ReplicaProbeRuntime → ReplicaPhase → Result (Unit {0})
unfolding is_pristine
validate_probe_runtime p replica_phase =
    reject
      ((not (is_pristine p) && not (ltb 0 p.last_sequence && is_some p.last_signal_at_ms))
        || ltb max_probe_failure_threshold p.consecutive_failures
        || (is_ready p.phase && not (p.consecutive_failures == 0))
        || (is_ready p.phase && is_none p.ready_at_ms)
        || (not (is_ready p.phase) && is_some p.ready_at_ms)
        || (is_unhealthy p.phase && p.consecutive_failures == 0)
        || both p.ready_at_ms p.last_signal_at_ms (λ ready signal. ltb signal ready)
        || (is_running replica_phase && is_waiting p.phase)
        || (is_starting replica_phase && is_ready p.phase))
      probe_state

unfoldable pub planned_stopped : ReplicaRuntime → Bool
planned_stopped r =
    is_stopped r.phase
    && not (wants_running r.desired)
    && r.attempt == 0
    && is_none r.run_id
    && is_none r.started_at_ms
    && is_none r.finished_at_ms
    && is_none r.next_start_at_ms
    && is_none r.last_exit_code
    && is_none r.detail

-- `==` of two truth values.
abbrev same : Bool → Bool → Bool
same true b = b
same false b = not b

unfoldable pub drained : ReplicaRuntime → Bool
drained r =
    is_stopped r.phase
    && wants_running r.desired
    && is_none r.run_id
    && is_some r.finished_at_ms
    && is_none r.next_start_at_ms
    && is_none r.last_exit_code
    && is_some_and r.detail (λ d. text_eq d drained_detail)
    && same (r.attempt == 0) (is_none r.started_at_ms)

-- The fields of an active replica that do not fit its phase; so with the other phases.
unfoldable pub active_misfit : ReplicaRuntime → Bool
active_misfit r =
    r.attempt == 0
    || not (is_some_and r.run_id is_digest)
    || is_none r.started_at_ms
    || is_some r.finished_at_ms
    || is_some r.next_start_at_ms
    || is_some r.last_exit_code
    || is_some r.detail

unfoldable pub backoff_misfit : ReplicaRuntime → Bool
backoff_misfit r =
    r.attempt == 0
    || is_some r.run_id
    || is_none r.started_at_ms
    || is_none r.finished_at_ms
    || is_none r.next_start_at_ms
    || is_none r.detail

unfoldable pub pending_misfit : ReplicaRuntime → Bool
pending_misfit r =
    not (r.attempt == 0)
    || is_some r.run_id
    || is_some r.started_at_ms
    || is_some r.finished_at_ms
    || is_some r.next_start_at_ms
    || is_some r.last_exit_code
    || is_some r.detail

unfoldable pub terminal_misfit : ReplicaRuntime → Bool
terminal_misfit r =
    r.attempt == 0
    || is_none r.started_at_ms
    || is_none r.finished_at_ms
    || is_some r.next_start_at_ms
    || is_none r.detail

unfoldable pub misfit : ReplicaRuntime → Bool
misfit r =
    (is_active r.phase && active_misfit r)
    || (is_backoff r.phase && backoff_misfit r)
    || (is_pending r.phase && pending_misfit r)
    || (is_stopped r.phase && not (planned_stopped r) && not (drained r))
    || (not (wants_running r.desired) && not (planned_stopped r))
    || (is_terminal r.phase && terminal_misfit r)
    || (not (is_active r.phase)
        && not (is_backoff r.phase)
        && not (is_pending r.phase)
        && is_some r.run_id)
    || not (policy_phase r.phase r.restart)
    || both r.finished_at_ms r.started_at_ms (λ finished started. ltb finished started)
    || both r.next_start_at_ms r.finished_at_ms (λ next finished. leb next finished)

-- The first test of `validate_replica`.
unfoldable pub bad_replica : ReplicaRuntime → Bool
bad_replica r =
    not (valid_name r.id.instance_name)
    || r.id.ordinal == 0
    || ltb max_stack_restarts r.max_restarts
    || ltb (attempts_allowed r.max_restarts) r.attempt
    || is_some_and r.detail (λ d. not (valid_text d 512 false))

unfoldable pub check_probe : Option ReplicaProbeRuntime → ReplicaPhase → Result (Unit {0})
check_probe none phase = ok tt
check_probe (some p) phase = validate_probe_runtime p phase

unfoldable pub validate_replica : ReplicaRuntime → Result (Unit {0})
validate_replica r = do
  reject (bad_replica r) replica_invalid
  check_probe r.probe r.phase
  reject (misfit r) phase_fields

-- The derived order of `ReplicaId`: by name, then by ordinal.
abbrev then_compare : Ordering → ℕ → ℕ → Ordering
then_compare Ordering.lt a b = Ordering.lt
then_compare Ordering.eq a b = compare a b
then_compare Ordering.gt a b = Ordering.gt

unfoldable pub id_cmp : ReplicaId → ReplicaId → Ordering
id_cmp a b = then_compare (text_cmp a.instance_name b.instance_name) a.ordinal b.ordinal

unfoldable pub id_lt : ReplicaId → ReplicaId → Bool
unfolding id_cmp
id_lt a b = elim (id_cmp a b) [ Ordering.lt ↦ true | _ ↦ false ]

unfoldable pub id_eq : ReplicaId → ReplicaId → Bool
id_eq a b = text_eq a.instance_name b.instance_name && a.ordinal == b.ordinal

-- The loop of `validate`, after the replica `previous`. `seen` holds the ids of those before.
unfoldable pub check_replicas :
    Option ReplicaId → List ReplicaId → List ReplicaRuntime → Result (Unit {0})
check_replicas previous seen [] = ok tt
check_replicas previous seen (r ∷ rs) = do
  validate_replica r
  reject (is_some_and previous (λ p. not (id_lt p r.id)) || any (id_eq r.id) seen) not_sorted
  check_replicas (some r.id) (r.id ∷ seen) rs

-- The tests of `validate` before the digest.
unfoldable pub bad_identity : StackRuntimeStatus → Bool
bad_identity s =
    not (
      s.format_version == legacy_supervisor_status_format_version
      || s.format_version == supervisor_status_format_version)
    || (s.format_version == legacy_supervisor_status_format_version
        && any (λ r. is_some r.probe) s.replicas)
    || not (valid_name s.stack)
    || s.revision == 0
    || not (is_digest s.generation)
    || s.observed_at_ms == 0
    || ltb max_stack_total_replicas (length s.replicas)
    || not (is_digest s.status_sha256)

-- `computed_sha256`: the digest of the status with no digest in it.
unfoldable pub computed_sha256 : Hashing → StackRuntimeStatus → Result Text
computed_sha256 h s = ok_or (h.status_digest (record s { status_sha256 = [] })) not_encoded

unfoldable pub validate : Hashing → StackRuntimeStatus → Result (Unit {0})
validate h s = do
  reject (bad_identity s) identity_invalid
  digest ← computed_sha256 h s
  reject (not (text_eq digest s.status_sha256)) identity_invalid
  check_replicas none [] s.replicas
