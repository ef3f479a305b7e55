-- ===== src/Storage/Validate/Keys.antt =====
-- The keys of a transaction that passes its checks differ.
use cartridge_runtime.Prelude.{ℕ, ◌≡◌, false, List, [], ◌∷◌, arith, inl, inr}
use cartridge_runtime.Prelude.Text.{Text}
use cartridge_runtime.Prelude.Results.{ok, Result-cases, >>=-eq-ok}
use cartridge_runtime.Storage.Types.{StorageLimits, StorageMutation}
use cartridge_runtime.Storage.Validate.{
  contains, check_mutation, check_mutations, validate_mutations,
}

-- No key stands in `seen` or twice.
abbrev pub Distinct : List Text → List StorageMutation → Type 0
Distinct seen [] = Unit
Distinct seen (m ∷ ms) = (contains m.key seen ≡ false) × Distinct (m.key ∷ seen) ms

check_mutation_fresh :
    (limits : StorageLimits) (seen : List Text) (input x : ℕ) (m : StorageMutation)
    → check_mutation limits seen input m ≡ ok x
    → contains m.key seen ≡ false
unfolding check_mutation
check_mutation_fresh limits seen input x m h = ground arith

check_mutations-Distinct :
    (limits : StorageLimits) (seen : List Text) (input x : ℕ) (ms : List StorageMutation)
    → check_mutations limits seen input ms ≡ ok x
    → Distinct seen ms
unfolding check_mutations
check_mutations-Distinct limits seen input x [] h = tt
check_mutations-Distinct limits seen input x (m ∷ ms) h =
    let (next, first, rest) = >>=-eq-ok (check_mutation limits seen input m) _ h in
    (
      check_mutation_fresh limits seen input next m first,
      check_mutations-Distinct limits (m.key ∷ seen) next x ms rest,
    )

pub validate_mutations-Distinct :
    (ms : List StorageMutation) (limits : StorageLimits)
    → validate_mutations ms limits ≡ ok tt
    → Distinct [] ms
unfolding validate_mutations
validate_mutations-Distinct ms limits h = elim (Result-cases (check_mutations limits [] 0 ms)) [
  | inl (e, c) ↦ ground arith
  | inr (x, c) ↦ check_mutations-Distinct limits [] 0 x ms c
]
