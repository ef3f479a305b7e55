-- ===== src/Rollout/Validate.antt =====
-- The checks of a progress in crates/cartridge-engine/src/rollout_progress.rs.
use Prim.Native.Nat.{max, Ordering}
use cartridge_runtime.Prelude.{
  ℕ, Bool, true, false, not, ◌||◌, Option, none, some, List, [], ◌∷◌, ltb, ◌==◌, any, length,
  is_some_and,
}
use cartridge_runtime.Prelude.Text.{Text, text_eq, text_cmp}
use cartridge_runtime.Prelude.Map.{Map}
use cartridge_runtime.Prelude.Words.{u16_mod, checked_add}
use cartridge_runtime.Prelude.Results.{ok, err, reject, ok_or, ◌>>=◌, ◌>>◌}
use cartridge_runtime.Prelude.Results
use cartridge_runtime.Rolling.{max_stack_replicas, validate_policy}
use cartridge_runtime.Rolling
use cartridge_runtime.Supervisor.Names.{valid_name, is_digest}
use cartridge_runtime.Supervisor.Types.{max_stack_instances, max_stack_total_replicas}
use cartridge_runtime.Rollout.Types.{
  DrainIntent, RolloutInstanceProgress, RolloutProgress, Error, Result, Encoding, identity_invalid,
  not_sorted, previous_overflow, candidate_overflow, surge_overflow, over_aggregate, not_encoded,
  progress_too_large, instance_invalid, ordinals_invalid, engine_rollout_progress_format_version,
  max_rollout_progress_bytes, max_stack_total_surge_replicas,
}

-- `?` on a result of the rolling policy.
abbrev pub of_policy {ℓ} : {A : Type ℓ} → Results.Result Rolling.Error A → Result A
of_policy (ok a) = ok a
of_policy (err e) = err (Error.policy e)

unfoldable pub bad_intents : ℕ → Map ℕ DrainIntent → Bool
bad_intents replicas draining =
    any
      (λ entry.
        entry.0 == 0
        || ltb replicas entry.0
        || entry.1.requested_at_ms == 0
        || ltb entry.1.deadline_at_ms entry.1.requested_at_ms)
      draining

-- `RolloutInstanceProgress::validate`
unfoldable pub validate_instance : RolloutInstanceProgress → Result (Unit {0})
unfolding bad_intents
validate_instance i = do
  reject
      (not (valid_name i.name)
        || max i.previous_replicas i.candidate_replicas == 0
        || ltb max_stack_replicas i.previous_replicas
        || ltb max_stack_replicas i.candidate_replicas)
      instance_invalid
  of_policy (validate_policy i.policy (max i.previous_replicas i.candidate_replicas))
  reject
      (any (λ ordinal. ordinal == 0 || ltb i.candidate_replicas ordinal) i.candidate_enabled
        || bad_intents i.previous_replicas i.previous_draining)
      ordinals_invalid

abbrev pub text_lt : Text → Text → Bool
text_lt a b = elim (text_cmp a b) [ Ordering.lt ↦ true | _ ↦ false ]

-- The loop of `validate`, from the last name and the three totals, and the test after it.
unfoldable pub check_instances :
    Option Text → ℕ → ℕ → ℕ → List RolloutInstanceProgress → Result (Unit {0})
check_instances last previous candidate surge [] =
    reject
      (ltb max_stack_total_replicas previous
        || ltb max_stack_total_replicas candidate
        || ltb max_stack_total_surge_replicas surge)
      over_aggregate
check_instances last previous candidate surge (i ∷ is) = do
  validate_instance i
  reject (is_some_and last (λ name. not (text_lt name i.name))) not_sorted
  previous_total ← ok_or (checked_add u16_mod previous i.previous_replicas) previous_overflow
  candidate_total ← ok_or (checked_add u16_mod candidate i.candidate_replicas) candidate_overflow
  surge_total ← ok_or (checked_add u16_mod surge i.policy.max_surge) surge_overflow
  check_instances (some i.name) previous_total candidate_total surge_total is

-- `(None, None) | (Some(1..), Some(_))`
abbrev pub paired : Option ℕ → Option Text → Bool
paired none none = true
paired none (some generation) = false
paired (some revision) none = false
paired (some revision) (some generation) = ltb 0 revision

-- The tests of `validate` before the digest.
unfoldable pub bad_identity : RolloutProgress → Bool
bad_identity p =
    not (p.format_version == engine_rollout_progress_format_version)
    || not (is_digest p.rollout_id)
    || not (valid_name p.stack)
    || not (paired p.previous_revision p.previous_generation)
    || is_some_and p.previous_generation (λ generation. not (is_digest generation))
    || p.candidate_revision == 0
    || not (is_digest p.candidate_generation)
    || p.started_at_ms == 0
    || ltb p.updated_at_ms p.started_at_ms
    || ltb p.last_progress_at_ms p.started_at_ms
    || ltb p.updated_at_ms p.last_progress_at_ms
    || ltb max_stack_instances (length p.instances)
    || not (is_digest p.progress_sha256)

unfoldable pub computed_sha256 : Encoding → RolloutProgress → Result Text
computed_sha256 e p = do
  bytes ← ok_or (e.encode (record p { progress_sha256 = [] })) not_encoded
  reject (ltb max_rollout_progress_bytes (length bytes)) progress_too_large
  ok (e.sha256 bytes)

unfoldable pub validate : Encoding → RolloutProgress → Result (Unit {0})
unfolding bad_identity
validate e p = do
  reject (bad_identity p) identity_invalid
  digest ← computed_sha256 e p
  reject (not (text_eq digest p.progress_sha256)) identity_invalid
  check_instances none 0 0 0 p.instances
