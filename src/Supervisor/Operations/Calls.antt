-- ===== src/Supervisor/Operations/Calls.antt =====
-- The operations on a status as one type of requests, and the rules for statements about them.
use cartridge_runtime.Prelude.{
  ℕ, ◌≡◌, refl, sym, ap, ◌∙◌, subst, inl, inr, Bool, true, false, Option, none, some,
}
use cartridge_runtime.Prelude.Text.{Text}
use cartridge_runtime.Prelude.Results.{ok, err, ◌>>=◌, Result-cases}
use cartridge_runtime.Supervisor.Types.{
  ReplicaId, ReplicaRuntime, StackRuntimeStatus, ProbeSignalKind, Error, Result, Hashing,
  unknown_replica,
}
use cartridge_runtime.Supervisor.Validate.{validate, computed_sha256}
use cartridge_runtime.Supervisor.Operations.{
  find, replace, refresh, finish, with_replica, settle, on_found, on_replica, begin_start,
  mark_running, mark_probe_signal, mark_probe_timeout, mark_exit, mark_drained, recover_interrupted,
  heartbeat,
}

pub data Request : Type 0 where
  begins : ReplicaId → Text → Request
  marks_running : ReplicaId → Text → Request
  signals : ReplicaId → Text → ℕ → ProbeSignalKind → Request
  times_out : ReplicaId → Text → Request
  exits : ReplicaId → Text → Bool → Option ℕ → Text → Request
  drains : ReplicaId → Option Text → Request
  recovers : Request
  beats : Request

abbrev pub answer {ℓ} :
    {A : Type ℓ} → Result A × StackRuntimeStatus → Result (Unit {0}) × StackRuntimeStatus
answer (ok a, s) = (ok tt, s)
answer (err e, s) = (err e, s)

-- A request at a time.
unfoldable pub call :
    Hashing → StackRuntimeStatus → ℕ → Request → Result (Unit {0}) × StackRuntimeStatus
call h s now (begins id run) = answer (begin_start h s id run now)
call h s now (marks_running id run) = answer (mark_running h s id run now)
call h s now (signals id run sequence kind) =
    answer (mark_probe_signal h s id run sequence kind now)
call h s now (times_out id run) = answer (mark_probe_timeout h s id run now)
call h s now (exits id run success code detail) =
    answer (mark_exit h s id run success code detail now)
call h s now (drains id run) = answer (mark_drained h s id run now)
call h s now recovers = answer (recover_interrupted h s now)
call h s now beats = answer (heartbeat h s now)

then_ok {ℓ} :
    {A : Type ℓ} (m : Result (Unit {0})) (a : A) {d : A} → (m >>= λ u. ok a) ≡ ok d → m ≡ ok tt
then_ok (ok u) a j = refl
then_ok (err e) a j = cc

-- The end of an operation keeps the replicas, and answers only if the checks pass.
module _ {ℓ κ} {A : Type ℓ} (h : Hashing) (P : Result A × StackRuntimeStatus → Type κ) where
  pub finish_rule :
      (s : StackRuntimeStatus) (now : ℕ) (a : A)
      → ((t : StackRuntimeStatus) (b : Result A)
          → t.replicas ≡ s.replicas
          → t.observed_at_ms ≡ now
          → ((c : A) → b ≡ ok c → validate h t ≡ ok tt)
          → P (b, t))
      → P (finish h s now a)
  unfolding finish refresh
  finish_rule s now a k =
      elim (Result-cases (computed_sha256 h (record s { observed_at_ms = now }))) [
        | inl (e, c) ↦ simp c (k _ _ refl refl (λ d j. cc))
        | inr (digest, c) ↦ simp c (k _ _ refl refl (λ d j. then_ok _ a j))
      ]

  module _ (s : StackRuntimeStatus) (id : ReplicaId) (now : ℕ)
      (step : ReplicaRuntime → Result A × ReplicaRuntime) (refused : (e : Error) → P (err e, s))
      (failed : (r : ReplicaRuntime) (e : Error)
        → find id s.replicas ≡ some r
        → (step r).0 ≡ err e
        → P (err e, with_replica s id (step r).1))
      (worked : (r : ReplicaRuntime) (a : A) (t : StackRuntimeStatus) (b : Result A)
        → find id s.replicas ≡ some r
        → (step r).0 ≡ ok a
        → t.replicas ≡ replace id (step r).1 s.replicas
        → t.observed_at_ms ≡ now
        → ((c : A) → b ≡ ok c → validate h t ≡ ok tt)
        → P (b, t)) where
    settled :
        (r : ReplicaRuntime) (t : Result A × ReplicaRuntime)
        → find id s.replicas ≡ some r
        → step r ≡ t
        → P (settle h s id now t)
    unfolding settle with_replica
    settled r (err e, q) f d =
        subst (λ x. P (err e, with_replica s id x)) (ap (λ x. x.1) d)
          (failed r e f (ap (λ x. x.0) d))
    settled r (ok a, q) f d = finish_rule (with_replica s id q) now a λ t b same time valid.
        worked r a t b f (ap (λ x. x.0) d)
          (same ∙ ap (λ x. replace id x s.replicas) (sym (ap (λ x. x.1) d))) time valid

    found : (o : Option ReplicaRuntime) → find id s.replicas ≡ o → P (on_found h s id now step o)
    unfolding on_found
    found none f = refused unknown_replica
    found (some r) f = settled r (step r) f refl

    -- An operation on a replica refuses and leaves the status, fails in its step, or does it.
    pub on_replica_rule : (bad : Bool) (e : Error) → P (on_replica h s id now bad e step)
    unfolding on_replica
    on_replica_rule true e = refused e
    on_replica_rule false e = found (find id s.replicas) refl
