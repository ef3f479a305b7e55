-- ===== src/Supervisor/Change.antt =====
-- How an operation of crates/cartridge-engine/src/supervisor.rs changes a status: the end of a run, the
-- digest, the replica it looks for, and the checks at its end.
use cartridge_runtime.Prelude.{
  ℕ, ◌+◌, ◌-◌, ◌*◌, ◌/◌, ◌%◌, ◌^◌, Bool, true, false, not, ◌&&◌, Option, none, some, List, [], ◌∷◌,
  ltb, if◌then◌else◌,
}
use Prim.Native.Nat.{min}
use cartridge_runtime.Prelude.Text.{Text}
use cartridge_runtime.Prelude.Words.{saturating_add}
use cartridge_runtime.Prelude.Results.{ok, err, ◌>>=◌}
use cartridge_runtime.Supervisor.Types.{
  ReplicaId, ReplicaPhase, ReplicaRuntime, StackRuntimeStatus, RestartPolicy, Error, Result,
  Hashing, unknown_replica, min_restart_backoff_ms, max_restart_backoff_ms,
}
use cartridge_runtime.Supervisor.Validate.{validate, computed_sha256, id_eq, attempts_allowed}

-- `base` of `restart_backoff_ms`; `saturating_mul` by at most 2^7 stays below 2^64.
unfoldable pub backoff_base : ℕ → ℕ
backoff_base attempt = min (min_restart_backoff_ms * 2 ^ min (attempt - 1) 7) max_restart_backoff_ms

unfoldable pub restart_backoff_ms : Hashing → ReplicaId → ℕ → ℕ
restart_backoff_ms h id attempt =
    min
      (saturating_add (backoff_base attempt)
        (h.start_word id attempt % (backoff_base attempt / 4 + 1)))
      max_restart_backoff_ms

-- Whether the policy restarts a replica that ended so.
unfoldable pub wants_restart : RestartPolicy → Bool → Bool
wants_restart RestartPolicy.never success = false
wants_restart RestartPolicy.on_failure success = not success
wants_restart RestartPolicy.always success = true

unfoldable pub final_phase : Bool → Bool → ReplicaPhase
final_phase true success = ReplicaPhase.exhausted
final_phase false true = ReplicaPhase.succeeded
final_phase false false = ReplicaPhase.failed

unfoldable pub finish_replica :
    Hashing → ReplicaRuntime → Bool → Option ℕ → Text → ℕ → ReplicaRuntime
unfolding wants_restart final_phase
finish_replica h r success exit_code detail now =
    let restart = wants_restart r.restart success in
    let again = restart && ltb r.attempt (attempts_allowed r.max_restarts) in
    record r {
      run_id = none;
      finished_at_ms = some now;
      last_exit_code = exit_code;
      detail = some detail;
      phase = if again then ReplicaPhase.backoff else final_phase restart success;
      next_start_at_ms =
          if again then some (saturating_add now (restart_backoff_ms h r.id r.attempt)) else none;
    }

unfoldable pub refresh : Hashing → StackRuntimeStatus → Result (Unit {0}) × StackRuntimeStatus
refresh h s = go (computed_sha256 h s)
  where
    go : Result Text → Result (Unit {0}) × StackRuntimeStatus
    go (err e) = (err e, record s { status_sha256 = [] })
    go (ok digest) =
        (validate h (record s { status_sha256 = digest }), record s { status_sha256 = digest })

-- `find` by the id, and the list with the replica found replaced.
unfoldable pub find : ReplicaId → List ReplicaRuntime → Option ReplicaRuntime
find id [] = none
find id (r ∷ rs) = let rest = find id rs in if id_eq r.id id then some r else rest

unfoldable pub replace : ReplicaId → ReplicaRuntime → List ReplicaRuntime → List ReplicaRuntime
replace id r [] = []
replace id r (q ∷ rs) = let rest = replace id r rs in if id_eq q.id id then r ∷ rs else q ∷ rest

-- The end of an operation: the time, the digest and the checks, then the answer.
unfoldable pub finish {ℓ} :
    {A : Type ℓ} → Hashing → StackRuntimeStatus → ℕ → A → Result A × StackRuntimeStatus
unfolding refresh
finish h s now a =
    let t = refresh h (record s { observed_at_ms = now }) in ((t.0 >>= λ u. ok a), t.1)

unfoldable pub with_replica : StackRuntimeStatus → ReplicaId → ReplicaRuntime → StackRuntimeStatus
unfolding replace
with_replica s id r = record s { replicas = replace id r s.replicas }

-- What an operation does with the replica that it found: its answer, or its error, and the replica
-- as it leaves it.
unfoldable pub settle {ℓ} :
    {A : Type ℓ}
    → Hashing
    → StackRuntimeStatus
    → ReplicaId
    → ℕ
    → Result A × ReplicaRuntime
    → Result A × StackRuntimeStatus
unfolding with_replica finish
settle h s id now (err e, r) = (err e, with_replica s id r)
settle h s id now (ok a, r) = finish h (with_replica s id r) now a

unfoldable pub on_found {ℓ} :
    {A : Type ℓ}
    → Hashing
    → StackRuntimeStatus
    → ReplicaId
    → ℕ
    → (ReplicaRuntime → Result A × ReplicaRuntime)
    → Option ReplicaRuntime
    → Result A × StackRuntimeStatus
unfolding settle
on_found h s id now step none = (err unknown_replica, s)
on_found h s id now step (some r) = settle h s id now (step r)

-- An operation on one replica, after its first check.
unfoldable pub on_replica {ℓ} :
    {A : Type ℓ}
    → Hashing
    → StackRuntimeStatus
    → ReplicaId
    → ℕ
    → Bool
    → Error
    → (ReplicaRuntime → Result A × ReplicaRuntime)
    → Result A × StackRuntimeStatus
unfolding find on_found
on_replica h s id now bad e step =
    if bad then (err e, s) else on_found h s id now step (find id s.replicas)
