-- ===== src/Rollout/Operations/Idle.antt =====
-- The candidates that were never enabled, counted.
use cartridge_runtime.Prelude.{
  ℕ, ◌+◌, ◌≤◌, ◌<◌, ◌≡◌, refl, true, false, not, ◌||◌, some, List, [], ◌∷◌, arith, ◌==◌, is_empty,
  length,
}
use cartridge_runtime.Prelude.Text.{Text}
use cartridge_runtime.Prelude.Sets.{contains, keep, range, contains-range}
use cartridge_runtime.Rollout.Types.{RolloutInstanceProgress}
use cartridge_runtime.Rollout.Operations.{find, replace, insert_member, extend, bad_start}

-- The ordinals of the candidate that are not in the set.
unfoldable pub idle : ℕ → List ℕ → List ℕ
idle replicas enabled = keep (λ x. not (contains x enabled)) (range replicas 1)

unfoldable pub missing : List RolloutInstanceProgress → ℕ
missing [] = 0
missing (i ∷ is) = length (idle i.candidate_replicas i.candidate_enabled) + missing is

contains-insert_member :
    (k a : ℕ) (xs : List ℕ) → contains k (insert_member a xs) ≡ (k == a || contains k xs)
unfolding contains insert_member
contains-insert_member k a [] = refl
contains-insert_member k a (x ∷ xs) = ground (arith, contains-insert_member k a xs)

contains-extend :
    (k : ℕ) (set xs : List ℕ) → contains k (extend set xs) ≡ (contains k set || contains k xs)
unfolding contains extend
contains-extend k set [] = ground arith
contains-extend k set (x ∷ xs) =
    ground (arith, contains-extend k (insert_member x set) xs, contains-insert_member k x set)

length-keep-le :
    (set more xs : List ℕ)
    → length (keep (λ x. not (contains x (extend set more))) xs)
      ≤ length (keep (λ x. not (contains x set)) xs)
unfolding keep
length-keep-le set more [] = omega arith
length-keep-le set more (x ∷ xs) =
    ground (arith, contains-extend x set more, length-keep-le set more xs)

length-keep-lt :
    (k : ℕ) (set more xs : List ℕ)
    → contains k set ≡ false
    → contains k more ≡ true
    → contains k xs ≡ true
    → length (keep (λ x. not (contains x (extend set more))) xs)
      < length (keep (λ x. not (contains x set)) xs)
unfolding keep contains
length-keep-lt k set more [] out come here = cc
length-keep-lt k set more (x ∷ xs) out come here = ground (
  arith,
  contains-extend x set more,
  length-keep-lt k set more xs out come,
  length-keep-le set more xs,
)

-- Ordinals that pass the test of `enable_candidate` leave fewer idle ones.
pub idle-extend :
    (i : RolloutInstanceProgress) (ordinals : List ℕ)
    → is_empty ordinals ≡ false
    → bad_start i ordinals ≡ false
    → length (idle i.candidate_replicas (extend i.candidate_enabled ordinals))
      < length (idle i.candidate_replicas i.candidate_enabled)
unfolding idle bad_start contains
idle-extend i [] some_one good = cc
idle-extend i (x ∷ xs) some_one good =
    length-keep-lt x i.candidate_enabled (x ∷ xs) (range i.candidate_replicas 1)
      (ground (arith, good)) (ground arith)
      (contains-range x i.candidate_replicas 1 (ground (arith, good)) (ground (arith, good)))

pub missing-replace :
    (name : Text) (i j : RolloutInstanceProgress) (is : List RolloutInstanceProgress)
    → find name is ≡ some i
    → missing (replace name j is) + length (idle i.candidate_replicas i.candidate_enabled)
      ≡ missing is + length (idle j.candidate_replicas j.candidate_enabled)
unfolding missing find replace
missing-replace name i j [] f = cc
missing-replace name i j (q ∷ is) f = ground (arith, f, missing-replace name i j is)
