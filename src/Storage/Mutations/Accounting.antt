-- ===== src/Storage/Mutations/Accounting.antt =====
-- The counters of `apply_mutations` against the entries that its second loop writes.
use mathlib.Core.Option.{Option}
use cartridge_runtime.Prelude.{
  ℕ, ◌+◌, ◌≤◌, ◌<◌, ◌≡◌, refl, true, false, ◌||◌, none, some, List, [], ◌∷◌, arith, if◌then◌else◌,
  length, All, Bool-cases, inl, inr,
}
use cartridge_runtime.Prelude.Text.{Text, Bytes, text_eq, text_eq_iff, text_ord}
use cartridge_runtime.Prelude.Map
use cartridge_runtime.Prelude.Map.{
  Map, IsSorted, same_key, get-insert, get-remove, IsSorted-insert, IsSorted-remove,
}
use cartridge_runtime.Prelude.Map.Size.{
  total, size_of, count_of, total-insert, total-remove, length-insert, length-remove,
}
use cartridge_runtime.Prelude.Words.{u64_mod}
use cartridge_runtime.Prelude.Results.{ok, >>=-eq-ok}
use cartridge_runtime.Storage.Types.{StorageLimits, StorageUsage, StorageMutation}
use cartridge_runtime.Storage.Validate.{contains}
use cartridge_runtime.Storage.Validate.Keys.{Distinct}
use cartridge_runtime.Storage.Mutations.{
  opt_eq, opt_eq_iff, Tally, no_tally, Applied, tally, tally_one, write_one, write_all,
  apply_counted, apply_mutations, mutations_change,
}

-- The bytes of all values.
abbrev pub total_bytes : Map Text Bytes → ℕ
total_bytes = total length

module _ (k : Text) where
  pub total-write_one :
      (v : Option Bytes) (m : Map Text Bytes)
      → IsSorted m
      → total_bytes (write_one k v m) + size_of length (Map.get k m)
        ≡ total_bytes m + size_of length v
  unfolding write_one
  total-write_one none m s = omega (arith, total-remove length k m)
  total-write_one (some v) m s = omega (arith, total-insert length k v m s)

  pub length-write_one :
      (v : Option Bytes) (m : Map Text Bytes)
      → IsSorted m
      → length (write_one k v m) + count_of (Map.get k m) ≡ length m + count_of v
  unfolding write_one
  length-write_one none m s = omega (arith, length-remove k m)
  length-write_one (some v) m s = omega (arith, length-insert k v m s)

  pub write_one-IsSorted :
      (v : Option Bytes) (m : Map Text Bytes) → IsSorted m → IsSorted (write_one k v m)
  unfolding write_one
  write_one-IsSorted none m s = IsSorted-remove k m s
  write_one-IsSorted (some v) m s = IsSorted-insert k v m s

  pub get-write_one :
      (j : Text) (v : Option Bytes) (m : Map Text Bytes)
      → IsSorted m
      → Map.get j (write_one k v m) ≡ (if same_key j k then v else Map.get j m)
  unfolding write_one
  get-write_one j none m s = get-remove k j m s
  get-write_one j (some v) m s = get-insert k j v m

-- Two maps give the keys of the mutations the same values.
abbrev AgreeOn : Map Text Bytes → Map Text Bytes → List StorageMutation → Type 0
AgreeOn e f = All (λ m. Map.get m.key e ≡ Map.get m.key f)

ne_of_seen :
    (k j : Text) (seen : List Text)
    → contains k seen ≡ true
    → contains j seen ≡ false
    → same_key j k ≡ false
unfolding contains text_eq
ne_of_seen k j seen h n = elim (Bool-cases (same_key j k)) [
  | inr e ↦ e
  | inl e ↦ ground (arith, h, n, text_ord.cmp_eq j k)
]

seen_more : (k j : Text) (seen : List Text) → contains k seen ≡ true → contains k (j ∷ seen) ≡ true
unfolding contains
seen_more k j seen h = ground arith

seen_first : (k : Text) (seen : List Text) → contains k (k ∷ seen) ≡ true
unfolding contains
seen_first k seen = ground (arith, text_eq_iff k k)

-- A write of a key that was seen leaves the agreement on the keys still to come.
AgreeOn-write :
    (k : Text) (v : Option Bytes) (e f : Map Text Bytes) (seen : List Text)
    (ms : List StorageMutation)
    → IsSorted f
    → contains k seen ≡ true
    → Distinct seen ms
    → AgreeOn e f ms
    → AgreeOn e (write_one k v f) ms
AgreeOn-write k v e f seen [] s h d a = tt
AgreeOn-write k v e f seen (m ∷ ms) s h d a = (
  rw (get-write_one k m.key v f s, ne_of_seen k m.key seen h d.0) a.0,
  AgreeOn-write k v e f (m.key ∷ seen) ms s (seen_more k m.key seen h) d.1 a.1,
)

-- What one step of the count adds to the counters.
record Counts (t u : Tally) (current value : Option Bytes) : Type 0 where
  removed : u.removed_bytes ≡ t.removed_bytes + size_of length current
  added : u.added_bytes ≡ t.added_bytes + size_of length value
  keys :
      u.added_keys + t.removed_keys + count_of current
      ≡ u.removed_keys + t.added_keys + count_of value
  changed : u.changed ≡ true

tally_one-Counts :
    (limits : StorageLimits) (t u : Tally) (current value : Option Bytes)
    → opt_eq current value ≡ false
    → tally_one limits t current value ≡ ok u
    → Counts t u current value
unfolding tally_one opt_eq
tally_one-Counts limits t u none none n h = ground arith
tally_one-Counts limits t u none (some v) n h = ground arith
tally_one-Counts limits t u (some c) none n h = ground arith
tally_one-Counts limits t u (some c) (some v) n h = ground arith

-- From counters `t` to counters `u` while `f` turns into `g`.
record Balance (t u : Tally) (f g : Map Text Bytes) : Type 0 where
  pub by_bytes :
      total_bytes g + u.removed_bytes + t.added_bytes
      ≡ total_bytes f + u.added_bytes + t.removed_bytes
  pub by_keys : length g + u.removed_keys + t.added_keys ≡ length f + u.added_keys + t.removed_keys

module _ (limits : StorageLimits) (e : Map Text Bytes) where
  tally-Balance :
      (t u : Tally) (f : Map Text Bytes) (seen : List Text) (ms : List StorageMutation)
      → IsSorted f
      → Distinct seen ms
      → AgreeOn e f ms
      → tally limits e t ms ≡ ok u
      → Balance t u f (write_all ms f)
  unfolding tally write_all
  tally-Balance t u f seen [] s d a h = ground arith
  tally-Balance t u f seen (m ∷ ms) s d a h = elim (Bool-cases (opt_eq (Map.get m.key e) m.value)) [
    | inl same ↦
        let r : Balance t u f' (write_all ms f') =
          tally-Balance t u f' (m.key ∷ seen) ms sorted d.1 agree (rw (same, tally) at h) in
        let w : Map.get m.key e ≡ m.value = (opt_eq_iff _ _).0 same in
        ground (arith, r, w, a.0, bytes, keys)
    | inr differs ↦
        let (t', one, rest) =
          >>=-eq-ok (tally_one limits t (Map.get m.key e) m.value) _ (rw (differs, tally) at h) in
        let r : Balance t' u f' (write_all ms f') =
          tally-Balance t' u f' (m.key ∷ seen) ms sorted d.1 agree rest in
        ground (arith, r, tally_one-Counts limits t t' _ _ differs one, a.0, bytes, keys)
  ]
    where
      f' : Map Text Bytes
      f' = write_one m.key m.value f

      sorted : IsSorted f'
      sorted = write_one-IsSorted m.key m.value f s

      agree : AgreeOn e f' ms
      agree = AgreeOn-write m.key m.value e f (m.key ∷ seen) ms s (seen_first m.key seen) d.1 a.1

      bytes :
          total_bytes f' + size_of length (Map.get m.key f) ≡ total_bytes f + size_of length m.value
      bytes = total-write_one m.key m.value f s

      keys : length f' + count_of (Map.get m.key f) ≡ length f + count_of m.value
      keys = length-write_one m.key m.value f s

  pub tally-changed :
      (t u : Tally) (ms : List StorageMutation)
      → tally limits e t ms ≡ ok u
      → u.changed ≡ (t.changed || mutations_change e ms)
  unfolding tally mutations_change
  tally-changed t u [] h = ground arith
  tally-changed t u (m ∷ ms) h = elim (Bool-cases (opt_eq (Map.get m.key e) m.value)) [
    | inl same ↦ rw same (tally-changed t u ms (rw (same, tally) at h))
    | inr differs ↦
        let (t', one, rest) =
          >>=-eq-ok (tally_one limits t (Map.get m.key e) m.value) _ (rw (differs, tally) at h) in
        ground (arith, tally-changed t' u ms rest, tally_one-Counts limits t t' _ _ differs one)
  ]

module _ (limits : StorageLimits) (e : Map Text Bytes) where
  tally_idle :
      (t u : Tally) (ms : List StorageMutation)
      → mutations_change e ms ≡ false
      → tally limits e t ms ≡ ok u
      → u ≡ t
  unfolding tally mutations_change
  tally_idle t u [] n h = ground arith
  tally_idle t u (m ∷ ms) n h = elim (Bool-cases (opt_eq (Map.get m.key e) m.value)) [
    | inl same ↦ tally_idle t u ms (ground arith) (rw (same, tally) at h)
    | inr differs ↦ ground arith
  ]

AgreeOn-refl : (e : Map Text Bytes) (ms : List StorageMutation) → AgreeOn e e ms
AgreeOn-refl e [] = tt
AgreeOn-refl e (m ∷ ms) = (refl, AgreeOn-refl e ms)

pub write_all-IsSorted :
    (ms : List StorageMutation) (f : Map Text Bytes) → IsSorted f → IsSorted (write_all ms f)
unfolding write_all
write_all-IsSorted [] f s = s
write_all-IsSorted (m ∷ ms) f s =
    write_all-IsSorted ms (write_one m.key m.value f) (write_one-IsSorted m.key m.value f s)

-- What a successful `apply_mutations` returns.
pub record IsApplied (e : Map Text Bytes) (usage : StorageUsage) (ms : List StorageMutation)
    (limits : StorageLimits) (r : Applied) : Type 0 where
  pub changed : r.changed ≡ mutations_change e ms
  pub entries : r.entries ≡ (if mutations_change e ms then write_all ms e else e)
  pub bytes : r.usage.bytes ≡ total_bytes r.entries
  pub keys : r.usage.keys ≡ length r.entries
  pub sorted : IsSorted r.entries
  pub bytes_fit : r.usage.bytes ≤ limits.max_bytes
  pub keys_fit : r.usage.keys ≤ limits.max_keys
  pub word : r.usage.bytes < u64_mod

module _ (e : Map Text Bytes) (usage : StorageUsage) (ms : List StorageMutation)
    (limits : StorageLimits) (r : Applied) (s : IsSorted e) (d : Distinct [] ms)
    (b : usage.bytes ≡ total_bytes e) (k : usage.keys ≡ length e) (w : usage.bytes < u64_mod) where
  apply_counted-IsApplied :
      (u : Tally)
      → Balance no_tally u e (write_all ms e)
      → u.changed ≡ mutations_change e ms
      → (mutations_change e ms ≡ false → u ≡ no_tally)
      → IsSorted (write_all ms e)
      → apply_counted e usage ms limits u ≡ ok r
      → IsApplied e usage ms limits r
  unfolding apply_counted
  apply_counted-IsApplied u balance changed idle sorted h =
      elim (Bool-cases (mutations_change e ms)) [
        | inl c ↦ ground arith
        | inr n ↦ ground (arith, idle n)
      ]

  -- On entries in order, with their usage and mutations of distinct keys, an `apply_mutations` that
  -- succeeds leaves the entries written in order if a mutation changes something, and the same
  -- entries if none does; the usage that it counts from the one before is the usage of the entries
  -- it leaves, which are in order, and is within both limits.
  pub apply_mutations-IsApplied :
      apply_mutations e usage ms limits ≡ ok r → IsApplied e usage ms limits r
  unfolding apply_mutations
  apply_mutations-IsApplied h =
      let (u, counted, rest) = >>=-eq-ok (tally limits e no_tally ms) _ h in
      apply_counted-IsApplied u
        (tally-Balance limits e no_tally u e [] ms s d (AgreeOn-refl e ms) counted)
        (tally-changed limits e no_tally u ms counted)
        (λ n. tally_idle limits e no_tally u ms n counted) (write_all-IsSorted ms e s) rest
