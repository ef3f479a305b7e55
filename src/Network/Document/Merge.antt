-- ===== src/Network/Document/Merge.antt =====
-- Documents against the operations that they have applied: one `apply`, and a `merge`.
use cartridge_runtime.Prelude.{
  ◌+◌, ◌-◌, ◌≤◌, ◌≡◌, refl, sym, ap, subst, ◌∙◌, inl, inr, Bool, true, false, Option, none, some,
  List, [], ◌∷◌, arith, if◌then◌else◌, Bool-cases, Option-cases,
}
use cartridge_runtime.Prelude.Text.{Text, text_eq, text_eq_iff, text_ord}
use cartridge_runtime.Prelude.Map
use cartridge_runtime.Prelude.Map.{
  Map, get-insert, same_key, same_key-eq, same_key_refl, IsSorted, IsSorted-insert,
}
use cartridge_runtime.Prelude.Map.Size.{total, size_of, total-insert, total-remove}
use cartridge_runtime.Prelude.Results.{ok, err, Result-cases}
use cartridge_runtime.Network.Limits.{Error, max_document_bytes}
use cartridge_runtime.Network.Document.{
  DocumentOperation, SharedDocument, Identify, replaces, is_seen, write, apply_new, apply,
  record_seen, value_bytes, entry_bytes, merge_entries,
}
use cartridge_runtime.Network.Document.Latest.{
  Among, IsLatest, IsLatest-again, IsLatest-other, IsLatest-replaced, IsLatest-kept,
}

-- The operations of a document's entries.
abbrev pub entries_of : Map Text DocumentOperation → List DocumentOperation
entries_of [] = []
entries_of ((k, o) ∷ m) = o ∷ entries_of m

-- A document against the operations that it has applied.
pub record Holds (identify : Identify) (d : SharedDocument) (ops : List DocumentOperation)
    : Type 0 where
  pub latest : (k : Text) → IsLatest k ops (Map.get k d.entries)
  pub known :
      (i : Text)
      → is_seen i d.seen ≡ true
      → (o : DocumentOperation) × Among o ops × (identify o ≡ some i)
  pub entered : (o : DocumentOperation) → Among o (entries_of d.entries) → Among o ops

-- The bytes counted are those of the values, within the quota.
pub record IsCounted (d : SharedDocument) : Type 0 where
  pub sorted : IsSorted d.entries
  pub counted : d.bytes ≡ total value_bytes d.entries
  pub bounded : d.bytes ≤ max_document_bytes

-- Operations with one identity are one operation.
abbrev pub Distinct : Identify → List DocumentOperation → Type 0
Distinct identify ops =
    (o p : DocumentOperation) → Among o ops → Among p ops → identify o ≡ identify p → o ≡ p

-- What a successful `apply` does with an operation of identity `i`.
data Outcome (d : SharedDocument) (o : DocumentOperation) (i : Text) (e : SharedDocument) (b : Bool)
    : Type 0 where
  known_already : is_seen i d.seen ≡ true → e ≡ d → b ≡ false → Outcome d o i e b
  replaced :
      replaces (Map.get o.key d.entries) o ≡ true
      → e.entries ≡ Map.insert o.key o d.entries
      → e.seen ≡ i ∷ d.seen
      → b ≡ true
      → e.bytes ≡ (d.bytes - entry_bytes (Map.get o.key d.entries)) + value_bytes o
      → e.bytes ≤ max_document_bytes
      → Outcome d o i e b
  superseded :
      replaces (Map.get o.key d.entries) o ≡ false
      → e.entries ≡ d.entries
      → e.seen ≡ i ∷ d.seen
      → b ≡ false
      → e.bytes ≡ d.bytes
      → Outcome d o i e b

apply-Outcome :
    (identify : Identify) (d e : SharedDocument) (o : DocumentOperation) (b : Bool)
    → apply identify d o ≡ ok (e, b)
    → (i : Text) × (identify o ≡ some i) × Outcome d o i e b
unfolding apply apply_new write record_seen
apply-Outcome identify d e o b h = elim (Option-cases (identify o)) [
  | inl n ↦ absurd (ground (arith, h, n))
  | inr (i, f) ↦ (
    i,
    f,
    elim (Bool-cases (is_seen i d.seen)) [
      | inl s ↦ known_already s (ground (arith, h, f, s)) (ground (arith, h, f, s))
      | inr s ↦ elim (Bool-cases (replaces (Map.get o.key d.entries) o)) [
        | inl r ↦
            replaced r (ground (arith, h, f, s, r)) (ground (arith, h, f, s, r))
              (ground (arith, h, f, s, r)) (ground (arith, h, f, s, r)) (ground (arith, h, f, s, r))
        | inr r ↦
            superseded r (ground (arith, h, f, s, r)) (ground (arith, h, f, s, r))
              (ground (arith, h, f, s, r)) (ground (arith, h, f, s, r))
      ]
    ],
  )
]

apply-IsLatest :
    (d e : SharedDocument) (o : DocumentOperation) (ops : List DocumentOperation) (k : Text)
    → replaces (Map.get o.key d.entries) o ≡ true
    → e.entries ≡ Map.insert o.key o d.entries
    → IsLatest k ops (Map.get k d.entries)
    → IsLatest k (o ∷ ops) (Map.get k e.entries)
apply-IsLatest d e o ops k r same l =
    subst (λ m. IsLatest k (o ∷ ops) (Map.get k m)) (sym same)
      (subst (IsLatest k (o ∷ ops)) (sym (get-insert o.key k o d.entries))
        (pick (same_key k o.key) refl))
  where
    pick :
        (b : Bool)
        → same_key k o.key ≡ b
        → IsLatest k (o ∷ ops) (if b then some o else Map.get k d.entries)
    pick true c =
        let keys = same_key-eq k o.key c in
        IsLatest-replaced k o ops (Map.get k d.entries) (sym keys)
          (subst (λ j. replaces (Map.get j d.entries) o ≡ true) (sym keys) r) l
    pick false c =
        IsLatest-other k o ops (Map.get k d.entries)
          (λ f. absurd (ground (arith, c, f, same_key_refl k))) l

superseded-IsLatest :
    (d : SharedDocument) (o : DocumentOperation) (ops : List DocumentOperation) (k : Text)
    → replaces (Map.get o.key d.entries) o ≡ false
    → IsLatest k ops (Map.get k d.entries)
    → IsLatest k (o ∷ ops) (Map.get k d.entries)
superseded-IsLatest d o ops k r l = pick (same_key k o.key) refl
  where
    pick : (b : Bool) → same_key k o.key ≡ b → IsLatest k (o ∷ ops) (Map.get k d.entries)
    pick true c =
        IsLatest-kept k o ops (Map.get k d.entries)
          (subst (λ j. replaces (Map.get j d.entries) o ≡ false) (sym (same_key-eq k o.key c)) r) l
    pick false c =
        IsLatest-other k o ops (Map.get k d.entries)
          (λ f. absurd (ground (arith, c, f, same_key_refl k))) l

seen_known :
    (identify : Identify) (o : DocumentOperation) (ops : List DocumentOperation) (i : Text)
    (js ks : List Text)
    → identify o ≡ some i
    → ks ≡ i ∷ js
    → ((j : Text)
        → is_seen j js ≡ true
        → (p : DocumentOperation) × Among p ops × (identify p ≡ some j))
    → (j : Text) → is_seen j ks ≡ true
    → (p : DocumentOperation) × Among p (o ∷ ops) × (identify p ≡ some j)
unfolding is_seen
seen_known identify o ops i js ks f same known j s = elim (Bool-cases (text_eq j i)) [
  | inl e ↦ (o, inl refl, f ∙ ap some (sym ((text_eq_iff j i).0 e)))
  | inr n ↦ let (p, m, g) = known j (ground (arith, s, same, n)) in (p, inr m, g)
]

entries_of-insert :
    (k : Text) (o q : DocumentOperation) (m : Map Text DocumentOperation)
    → Among q (entries_of (Map.insert k o m))
    → Among q (o ∷ entries_of m)
unfolding Map.insert
entries_of-insert k o q [] a = a
entries_of-insert k o q ((j, p) ∷ m) a = ground (arith, a, entries_of-insert k o q m)

-- After a successful operation the document holds it too.
pub apply-Holds :
    (identify : Identify) (d e : SharedDocument) (o : DocumentOperation) (b : Bool)
    (ops : List DocumentOperation)
    → Distinct identify (o ∷ ops)
    → Holds identify d ops
    → apply identify d o ≡ ok (e, b)
    → Holds identify e (o ∷ ops)
apply-Holds identify d e o b ops one v h =
    let (i, f, outcome) = apply-Outcome identify d e o b h in go i f outcome
  where
    go : (i : Text) → identify o ≡ some i → Outcome d o i e b → Holds identify e (o ∷ ops)
    go i f (known_already s same _) =
        let (p, m, g) = v.known i s in
        let p_o : p ≡ o = one p o (inr m) (inl refl) (g ∙ sym f) in
        let again = subst (λ q. Among q ops) p_o m in
        subst (λ x. Holds identify x (o ∷ ops)) (sym same)
          (record {
            latest = λ k. IsLatest-again k o ops (Map.get k d.entries) again (v.latest k);
            known = λ j t. let (q, n, w) = v.known j t in (q, inr n, w);
            entered = λ q a. inr (v.entered q a);
          })
    go i f (replaced r same seen _ _ _) = record {
      latest = λ k. apply-IsLatest d e o ops k r same (v.latest k);
      known = seen_known identify o ops i d.seen e.seen f seen v.known;
      entered = λ q a.
          elim (entries_of-insert o.key o q d.entries
            (subst (λ m. Among q (entries_of m)) same a)) [
              | inl x ↦ inl x
              | inr x ↦ inr (v.entered q x)
            ];
    }
    go i f (superseded r same seen _ _) = record {
      latest = λ k.
          subst (λ m. IsLatest k (o ∷ ops) (Map.get k m)) (sym same)
            (superseded-IsLatest d o ops k r (v.latest k));
      known = seen_known identify o ops i d.seen e.seen f seen v.known;
      entered = λ q a. inr (v.entered q (subst (λ m. Among q (entries_of m)) same a));
    }

pub apply-IsCounted :
    (identify : Identify) (d e : SharedDocument) (o : DocumentOperation) (b : Bool)
    → IsCounted d
    → apply identify d o ≡ ok (e, b)
    → IsCounted e
apply-IsCounted identify d e o b v h =
    let (i, f, outcome) = apply-Outcome identify d e o b h in go outcome
  where
    sizes : (x : Option DocumentOperation) → size_of value_bytes x ≡ entry_bytes x
    sizes none = refl
    sizes (some p) = refl

    go : {i : Text} → Outcome d o i e b → IsCounted e
    go (known_already s same _) = subst IsCounted (sym same) v
    go (replaced r same seen _ bytes bound) = record {
      sorted = subst IsSorted (sym same) (IsSorted-insert o.key o d.entries v.sorted);
      counted =
          bytes
          ∙ omega (
            arith,
            v.counted,
            total-insert value_bytes o.key o d.entries v.sorted,
            total-remove value_bytes o.key d.entries,
            sizes (Map.get o.key d.entries),
            ap (total value_bytes) same,
          );
      bounded = bound;
    }
    go (superseded r same seen _ bytes) = record {
      sorted = subst IsSorted (sym same) v.sorted;
      counted = omega (arith, bytes, v.counted, ap (total value_bytes) same);
      bounded = omega (arith, bytes, v.bounded);
    }

-- Those of a merge go on top, the last one first.
abbrev pub merged : Map Text DocumentOperation → List DocumentOperation → List DocumentOperation
merged [] ops = ops
merged ((k, o) ∷ m) ops = merged m (o ∷ ops)

pub Among-merged :
    (q : DocumentOperation) (m : Map Text DocumentOperation) (ops : List DocumentOperation)
    → Among q ops
    → Among q (merged m ops)
Among-merged q [] ops a = a
Among-merged q ((k, o) ∷ m) ops a = Among-merged q m (o ∷ ops) (inr a)

merge_entries_step :
    (identify : Identify) (d e : SharedDocument) (k : Text) (o : DocumentOperation) (b : Bool)
    (m : Map Text DocumentOperation)
    → apply identify d o ≡ ok (e, b)
    → merge_entries identify d ((k, o) ∷ m) ≡ merge_entries identify e m
unfolding merge_entries
merge_entries_step identify d e k o b m c = rw (merge_entries, c) refl

merge_entries_stop :
    (identify : Identify) (d : SharedDocument) (k : Text) (o : DocumentOperation) (x : Error)
    (m : Map Text DocumentOperation)
    → apply identify d o ≡ err x
    → merge_entries identify d ((k, o) ∷ m) ≡ (err x, d)
unfolding merge_entries
merge_entries_stop identify d k o x m c = rw (merge_entries, c) refl

pub merge_entries-Holds :
    (identify : Identify) (d : SharedDocument) (m : Map Text DocumentOperation)
    (ops : List DocumentOperation)
    → Distinct identify (merged m ops)
    → Holds identify d ops
    → (merge_entries identify d m).0 ≡ ok tt
    → Holds identify (merge_entries identify d m).1 (merged m ops)
unfolding merge_entries
merge_entries-Holds identify d [] ops one v = λ h. v
merge_entries-Holds identify d ((k, o) ∷ m) ops one v = elim (Result-cases (apply identify d o)) [
  | inl (e, c) ↦ rw (merge_entries_stop identify d k o e m c) (λ h. cc)
  | inr ((e, b), c) ↦ rw (merge_entries_step identify d e k o b m c) (
      merge_entries-Holds identify e m (o ∷ ops) one (
        apply-Holds identify d e o b ops
          (λ x y p q. one x y (Among-merged x m (o ∷ ops) p) (Among-merged y m (o ∷ ops) q)) v c))
]
