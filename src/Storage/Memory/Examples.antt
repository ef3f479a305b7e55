-- ===== src/Storage/Memory/Examples.antt =====
-- Concrete runs of the in-memory backend.
use cartridge_runtime.Prelude.{◌≡◌, refl, true, ◌&&◌, none, some, List, [], ◌∷◌, arith, ◌==◌}
use cartridge_runtime.Prelude.Text.{Text, Bytes, bytes, len, text_cmp, text_eq, text_ord}
use cartridge_runtime.Prelude.Text
use cartridge_runtime.Prelude.Map
use cartridge_runtime.Prelude.Map.{Map}
use cartridge_runtime.Prelude.Results.{ok}
use cartridge_runtime.Storage.Types.{StorageLimits, StorageMutation, MemoryStorage, Namespace, new}
use cartridge_runtime.Storage.Validate.{
  validate_namespace, validate_key, validate_limits, sum_values, validate_entry_limits, contains,
  check_mutation, check_mutations, validate_mutations, value_len, validate_compare_exchange,
}
use cartridge_runtime.Storage.Mutations.{
  opt_eq, tally, write_one, write_all, apply_mutations, mutations_change, next_revision, Applied,
}
use cartridge_runtime.Storage.Mutations.Accounting.{IsApplied, apply_mutations-IsApplied}
use cartridge_runtime.Storage.Memory.{
  get, put, prepare, delete, compare_exchange, apply_batch, transact, view,
}
use cartridge_runtime.Storage.Memory.Requests.{
  Request, prepares, puts, deletes, exchanges, batches, call, run, transacted,
}
use cartridge_runtime.Storage.Memory.Valid.{AllValid}
use cartridge_runtime.Storage.Memory.Histories.{run-AllValid, run_same_revision}
use cartridge_runtime.Storage.Memory.Snapshots.{
  load_namespace, snapshot_state, snapshot_state-load_namespace,
}
use cartridge_runtime.Storage.Memory.Effects.{effect, lookup}
use cartridge_runtime.Storage.Memory.Refinement.{get_after_call}
use cartridge_runtime.Storage.Memory.Answers.{compare_exchange_applied}

abbrev app : Text
app = Text.text "app"

abbrev key_a : Text
key_a = Text.text "a"

abbrev key_b : Text
key_b = Text.text "b/c"

abbrev small : StorageLimits
small = record { max_bytes = 6; max_keys = 2; max_value_bytes = 4 }

abbrev first_calls : List Request
first_calls = prepares app 1 small ∷ puts app key_a (1 ∷ 2 ∷ []) small ∷ []

abbrev started : MemoryStorage
started = run new first_calls

started-AllValid : AllValid started
started-AllValid = run-AllValid first_calls

abbrev change_both : List StorageMutation
change_both =
    record { key = key_a; value = none }
    ∷ record { key = key_b; value = some (7 ∷ 8 ∷ 9 ∷ []) }
    ∷ []

started_namespace :
    view started app
    ≡ record { state_schema = 1; revision = 1; entries = (key_a, 1 ∷ 2 ∷ []) ∷ []; bytes = 2 }
unfolding view run call prepare put delete compare_exchange apply_batch get transact
    validate_namespace validate_key validate_limits validate_entry_limits sum_values contains
    check_mutation check_mutations validate_mutations validate_compare_exchange value_len opt_eq
    tally write_one write_all apply_mutations mutations_change next_revision Text.bytes Text.len
    text_cmp text_eq Map.get Map.insert Map.remove
started_namespace = refl

run-AllValid_example : AllValid started
run-AllValid_example = run-AllValid first_calls

-- A batch that takes `a` away and brings `b/c`, then a value over the quota.
abbrev later_calls : List Request
later_calls = batches app 1 change_both small ∷ puts app key_a (1 ∷ 2 ∷ 3 ∷ 4 ∷ []) small ∷ []

later_namespace :
    view (run started later_calls) app
    ≡ record { state_schema = 1; revision = 2; entries = (key_b, 7 ∷ 8 ∷ 9 ∷ []) ∷ []; bytes = 3 }
unfolding view run call prepare put delete compare_exchange apply_batch get transact
    validate_namespace validate_key validate_limits validate_entry_limits sum_values contains
    check_mutation check_mutations validate_mutations validate_compare_exchange value_len opt_eq
    tally write_one write_all apply_mutations mutations_change next_revision Text.bytes Text.len
    text_cmp text_eq Map.get Map.insert Map.remove
later_namespace = refl

-- A value over the quota, an exchange against an old revision and a delete of nothing.
abbrev idle_calls : List Request
idle_calls =
    puts app key_b (1 ∷ 2 ∷ 3 ∷ 4 ∷ 5 ∷ []) small
    ∷ exchanges app 0 key_a none none small
    ∷ deletes app key_b
    ∷ []

run_same_revision_example : (view (run started idle_calls) app).entries ≡ (view started app).entries
unfolding view run call prepare put delete compare_exchange apply_batch get transact
    validate_namespace validate_key validate_limits validate_entry_limits sum_values contains
    check_mutation check_mutations validate_mutations validate_compare_exchange value_len opt_eq
    tally write_one write_all apply_mutations mutations_change next_revision Text.bytes Text.len
    text_cmp text_eq Map.get Map.insert Map.remove
run_same_revision_example = run_same_revision started idle_calls app started-AllValid refl

get_after_call_example :
    get (call started (batches app 1 change_both small)).1 app key_b
    ≡ ok (
        effect
          (batches app 1 change_both small)
          (transacted (record { applied = true; revision = 2 }))
          app
          key_b
          none)
unfolding view run call prepare put delete compare_exchange apply_batch get transact
    validate_namespace validate_key validate_limits validate_entry_limits sum_values contains
    check_mutation check_mutations validate_mutations validate_compare_exchange value_len opt_eq
    tally write_one write_all apply_mutations mutations_change next_revision Text.bytes Text.len
    text_cmp text_eq Map.get Map.insert Map.remove
get_after_call_example =
    get_after_call started (batches app 1 change_both small)
      (transacted (record { applied = true; revision = 2 })) app key_b none started-AllValid refl
      refl

-- The effect there is the value of the batch.
effect_of_batch :
    effect
      (batches app 1 change_both small)
      (transacted (record { applied = true; revision = 2 }))
      app
      key_b
      none
    ≡ some (7 ∷ 8 ∷ 9 ∷ [])
unfolding view run call prepare put delete compare_exchange apply_batch get transact
    validate_namespace validate_key validate_limits validate_entry_limits sum_values contains
    check_mutation check_mutations validate_mutations validate_compare_exchange value_len opt_eq
    tally write_one write_all apply_mutations mutations_change next_revision Text.bytes Text.len
    text_cmp text_eq Map.get Map.insert Map.remove
effect_of_batch = refl

compare_exchange_applied_example :
    (true
      ≡ ((view started app).revision == 1 && opt_eq (lookup started app key_a) (some (1 ∷ 2 ∷ []))))
    × (2
        ≡ (view
            (compare_exchange started app 1 key_a (some (1 ∷ 2 ∷ [])) none small).1
            app).revision)
unfolding view run call prepare put delete compare_exchange apply_batch get transact
    validate_namespace validate_key validate_limits validate_entry_limits sum_values contains
    check_mutation check_mutations validate_mutations validate_compare_exchange value_len opt_eq
    tally write_one write_all apply_mutations mutations_change next_revision Text.bytes Text.len
    text_cmp text_eq Map.get Map.insert Map.remove
compare_exchange_applied_example =
    compare_exchange_applied started app 1 key_a (some (1 ∷ 2 ∷ [])) none small
      (record { applied = true; revision = 2 }) started-AllValid refl

abbrev both_applied : Applied
both_applied = record {
  entries = (key_b, 7 ∷ 8 ∷ 9 ∷ []) ∷ [];
  usage = record { bytes = 3; keys = 1 };
  changed = true;
}

apply_mutations-IsApplied_example :
    IsApplied
      ((key_a, 1 ∷ 2 ∷ []) ∷ [])
      (record { bytes = 2; keys = 1 })
      change_both
      small
      both_applied
unfolding view run call prepare put delete compare_exchange apply_batch get transact
    validate_namespace validate_key validate_limits validate_entry_limits sum_values contains
    check_mutation check_mutations validate_mutations validate_compare_exchange value_len opt_eq
    tally write_one write_all apply_mutations mutations_change next_revision Text.bytes Text.len
    text_cmp text_eq Map.get Map.insert Map.remove
apply_mutations-IsApplied_example =
    apply_mutations-IsApplied ((key_a, 1 ∷ 2 ∷ []) ∷ []) (record { bytes = 2; keys = 1 })
      change_both small both_applied tt (refl, (refl, tt)) refl refl (omega arith) refl

abbrev one_entry : Namespace
one_entry = record { state_schema = 1; revision = 1; entries = (key_a, 1 ∷ 2 ∷ []) ∷ []; bytes = 2 }

abbrev other_entry : Namespace
other_entry = record {
  state_schema = 1;
  revision = 2;
  entries = (key_b, 7 ∷ 8 ∷ 9 ∷ []) ∷ [];
  bytes = 3;
}

abbrev saved : Map Text Bytes
saved = (key_a, 5 ∷ []) ∷ (key_b, 6 ∷ 7 ∷ []) ∷ []

snapshot_state-load_namespace_example :
    snapshot_state (load_namespace started app 1 9 saved small).1 app small ≡ ok (9, saved)
unfolding view run call prepare put validate_namespace validate_key validate_limits
    validate_entry_limits sum_values value_len opt_eq next_revision Text.bytes Text.len text_cmp
    text_eq Map.get Map.insert load_namespace
snapshot_state-load_namespace_example =
    snapshot_state-load_namespace started app 1 9 saved small refl
