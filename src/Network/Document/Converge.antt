-- ===== src/Network/Document/Converge.antt =====
-- The entries of documents that have applied or merged the same operations.
use cartridge_runtime.Prelude.{
  ◌≡◌, ◌≢◌, refl, sym, ap, subst, ◌∙◌, ◌⊎◌, inl, inr, Option, none, some, List, [], ◌∷◌, ◌++◌,
  arith, Bool-cases,
}
use cartridge_runtime.Prelude.Text.{Text, text_eq, text_ord}
use cartridge_runtime.Prelude.Map
use cartridge_runtime.Prelude.Map.{Map, same_key, same_key-eq}
use cartridge_runtime.Prelude.Results.{ok, ◌>>=◌, >>=-eq-ok}
use cartridge_runtime.Network.Limits.{Result}
use cartridge_runtime.Network.Document.{
  DocumentOperation, SharedDocument, Identify, is_seen, apply, new_document, merge, merge_entries,
}
use cartridge_runtime.Network.Document.Latest.{
  Among, IsLatest, IsNotLater, IsNotLater-antisym, IsNotLater-trans,
}
use cartridge_runtime.Network.Document.Merge.{
  Holds, IsCounted, Distinct, entries_of, merged, merge_entries-Holds, apply-Holds, apply-IsCounted,
  Among-merged,
}

-- Operations on one key with one clock and one peer are one operation.
abbrev pub Stamped : List DocumentOperation → Type 0
Stamped ops =
    (o p : DocumentOperation)
    → Among o ops
    → Among p ops
    → o.key ≡ p.key
    → o.clock ≡ p.clock
    → o.peer_id ≡ p.peer_id
    → o ≡ p

-- The operations of the one list are among the other.
abbrev pub Included : List DocumentOperation → List DocumentOperation → Type 0
Included xs ys = (o : DocumentOperation) → Among o xs → Among o ys

IsLatest-unique :
    (k : Text) (xs ys : List DocumentOperation) (x y : Option DocumentOperation)
    → Stamped xs
    → Included xs ys
    → Included ys xs
    → IsLatest k xs x
    → IsLatest k ys y
    → x ≡ y
IsLatest-unique k xs ys none none t i j l m = refl
IsLatest-unique k xs ys none (some w) t i j l m = absurd (l w (j w m.0) m.1)
IsLatest-unique k xs ys (some w) none t i j l m = absurd (m w (i w l.0) l.1)
IsLatest-unique k xs ys (some v) (some w) t i j (a, e, late) (b, f, later) =
    let (clocks, peers) = IsNotLater-antisym v w (late w (j w b) f) (later v (i v a) e) in
    ap some (t v w a (j w b) (e ∙ sym f) clocks peers)

Among-left :
    (o : DocumentOperation) (xs ys : List DocumentOperation) → Among o xs → Among o (xs ++ ys)
Among-left o (p ∷ xs) ys (inl e) = inl e
Among-left o (p ∷ xs) ys (inr a) = inr (Among-left o xs ys a)
Among-left o [] ys a = absurd a

Among-right :
    (o : DocumentOperation) (xs ys : List DocumentOperation) → Among o ys → Among o (xs ++ ys)
Among-right o [] ys a = a
Among-right o (p ∷ xs) ys a = inr (Among-right o xs ys a)

Among-append :
    (o : DocumentOperation) (xs ys : List DocumentOperation)
    → Among o (xs ++ ys)
    → Among o xs ⊎ Among o ys
Among-append o [] ys a = inr a
Among-append o (p ∷ xs) ys (inl e) = inl (inl e)
Among-append o (p ∷ xs) ys (inr a) = elim (Among-append o xs ys a) [
  | inl b ↦ inl (inr b)
  | inr b ↦ inr b
]

Among-of_merged :
    (o : DocumentOperation) (m : Map Text DocumentOperation) (ops : List DocumentOperation)
    → Among o (merged m ops)
    → Among o (entries_of m) ⊎ Among o ops
Among-of_merged o [] ops a = inr a
Among-of_merged o ((k, p) ∷ m) ops a = elim (Among-of_merged o m (p ∷ ops) a) [
  | inl b ↦ inl (inr b)
  | inr (inl e) ↦ inl (inl e)
  | inr (inr b) ↦ inr b
]

entries_of-merged :
    (o : DocumentOperation) (m : Map Text DocumentOperation) (ops : List DocumentOperation)
    → Among o (entries_of m)
    → Among o (merged m ops)
entries_of-merged o ((k, p) ∷ m) ops (inl e) = Among-merged o m (p ∷ ops) (inl e)
entries_of-merged o ((k, p) ∷ m) ops (inr a) = entries_of-merged o m (p ∷ ops) a
entries_of-merged o [] ops a = absurd a

get-Among :
    (k : Text) (o : DocumentOperation) (m : Map Text DocumentOperation)
    → Map.get k m ≡ some o
    → Among o (entries_of m)
unfolding Map.get
get-Among k o [] h = cc
get-Among k o ((j, p) ∷ m) h = ground (arith, h, get-Among k o m)

-- A document has an entry for each operation that it has applied, and not an earlier one.
entry_for :
    (identify : Identify) (b : SharedDocument) (k : Text) (ys : List DocumentOperation)
    (o : DocumentOperation)
    → Holds identify b ys
    → Among o ys
    → o.key ≡ k
    → (v : DocumentOperation) × Among v (entries_of b.entries) × (v.key ≡ k) × IsNotLater o v
entry_for identify b k ys o h a e = go (Map.get k b.entries) refl
  where
    go :
        (x : Option DocumentOperation)
        → Map.get k b.entries ≡ x
        → (v : DocumentOperation) × Among v (entries_of b.entries) × (v.key ≡ k) × IsNotLater o v
    go none f = absurd (subst (IsLatest k ys) f (h.latest k) o a e)
    go (some v) f =
        let (m, g, late) = subst (IsLatest k ys) f (h.latest k) in
        (v, get-Among k v b.entries f, g, late o a e)

-- What is latest of a document's operations and another's entries is latest of all operations.
IsLatest-merged :
    (identify : Identify) (b : SharedDocument) (k : Text) (xs ys : List DocumentOperation)
    (x : Option DocumentOperation)
    → Holds identify b ys
    → IsLatest k (merged b.entries xs) x
    → IsLatest k (xs ++ ys) x
IsLatest-merged identify b k xs ys none h l = never
  where
    never : (o : DocumentOperation) → Among o (xs ++ ys) → o.key ≢ k
    never o a e = elim (Among-append o xs ys a) [
      | inl c ↦ l o (Among-merged o b.entries xs c) e
      | inr c ↦
          let (v, n, f, _) = entry_for identify b k ys o h c e in
          l v (entries_of-merged v b.entries xs n) f
    ]
IsLatest-merged identify b k xs ys (some w) h (m, e, late) = (there, e, after)
  where
    there : Among w (xs ++ ys)
    there = elim (Among-of_merged w b.entries xs m) [
      | inl c ↦ Among-right w xs ys (h.entered w c)
      | inr c ↦ Among-left w xs ys c
    ]

    after : (o : DocumentOperation) → Among o (xs ++ ys) → o.key ≡ k → IsNotLater o w
    after o a f = elim (Among-append o xs ys a) [
      | inl c ↦ late o (Among-merged o b.entries xs c) f
      | inr c ↦
          let (v, n, g, g_o) = entry_for identify b k ys o h c f in
          IsNotLater-trans w v o (late v (entries_of-merged v b.entries xs n) g) g_o
    ]

-- After a merge the entry of each key is the latest of all the operations that the two documents had
-- applied.
merge-IsLatest :
    (identify : Identify) (a b : SharedDocument) (xs ys : List DocumentOperation) (k : Text)
    → Distinct identify (xs ++ ys)
    → Holds identify a xs
    → Holds identify b ys
    → (merge identify a b).0 ≡ ok tt
    → IsLatest k (xs ++ ys) (Map.get k (merge identify a b).1.entries)
unfolding merge
merge-IsLatest identify a b xs ys k one h j =
    elim (Bool-cases (text_eq a.document_id b.document_id)) [
      | inr n ↦ simp n (λ c. cc)
      | inl e ↦ simp e (λ c.
          IsLatest-merged identify b k xs ys
            (Map.get k (merge_entries identify a b.entries).1.entries) j
            ((merge_entries-Holds identify a b.entries xs distinct h c).latest k))
    ]
  where
    inside : (o : DocumentOperation) → Among o (merged b.entries xs) → Among o (xs ++ ys)
    inside o m = elim (Among-of_merged o b.entries xs m) [
      | inl c ↦ Among-right o xs ys (j.entered o c)
      | inr c ↦ Among-left o xs ys c
    ]

    distinct : Distinct identify (merged b.entries xs)
    distinct o p m n = one o p (inside o m) (inside p n)

swapped : (xs ys : List DocumentOperation) → Included (xs ++ ys) (ys ++ xs)
swapped xs ys o a = elim (Among-append o xs ys a) [
  | inl c ↦ Among-right o ys xs c
  | inr c ↦ Among-left o ys xs c
]

swapped-Distinct :
    (identify : Identify) (xs ys : List DocumentOperation)
    → Distinct identify (xs ++ ys)
    → Distinct identify (ys ++ xs)
swapped-Distinct identify xs ys one o p m n = one o p (swapped ys xs o m) (swapped ys xs p n)

-- Two documents that hold the operations they applied, merged into each other, have the same entry for
-- every key, if both merges succeed,
-- operations with one identity are one operation, and so are those on one key with one clock and one
-- peer.
pub merge_converges :
    (identify : Identify) (a b : SharedDocument) (xs ys : List DocumentOperation) (k : Text)
    → Distinct identify (xs ++ ys)
    → Stamped (xs ++ ys)
    → Holds identify a xs
    → Holds identify b ys
    → (merge identify a b).0 ≡ ok tt
    → (merge identify b a).0 ≡ ok tt
    → Map.get k (merge identify a b).1.entries ≡ Map.get k (merge identify b a).1.entries
merge_converges identify a b xs ys k one stamps h j c d =
    IsLatest-unique k (xs ++ ys) (ys ++ xs) _ _ stamps (swapped xs ys) (swapped ys xs)
      (merge-IsLatest identify a b xs ys k one h j c)
      (merge-IsLatest identify b a ys xs k (swapped-Distinct identify xs ys one) j h d)

-- Operations applied one after the other, the first of the list last.
unfoldable pub apply_all :
    Identify → SharedDocument → List DocumentOperation → Result SharedDocument
apply_all identify d [] = ok d
apply_all identify d (o ∷ ops) = do
  before ← apply_all identify d ops
  after ← apply identify before o
  ok after.0

empty_document : Text → SharedDocument
empty_document id = record { document_id = id; entries = []; seen = []; bytes = 0 }

new_document_empty :
    (id : Text) (d : SharedDocument) → new_document id ≡ ok d → d ≡ empty_document id
unfolding new_document empty_document
new_document_empty id d h = ground (arith, h)

empty_document-Holds :
    (identify : Identify) (id : Text)
    → Holds identify (empty_document id) [] × IsCounted (empty_document id)
unfolding empty_document is_seen Map.get
empty_document-Holds identify id = (
  record { latest = λ k o a. absurd a; known = λ i s. cc; entered = λ o a. a },
  record { sorted = tt; counted = refl; bounded = omega arith },
)

-- If operations with one identity are one operation, a new document that has applied operations has
-- for each key the latest of them, the one of the highest clock and, among those, of the last peer, and
-- no entry for a key that none of them writes; and it counts the bytes of the values that it has,
-- within the quota.
pub apply_all-Holds :
    (identify : Identify) (id : Text) (d e : SharedDocument) (ops : List DocumentOperation)
    → Distinct identify ops
    → new_document id ≡ ok d
    → apply_all identify d ops ≡ ok e
    → Holds identify e ops × IsCounted e
unfolding apply_all
apply_all-Holds identify id d e [] one n h =
    let same : e ≡ empty_document id = ground (arith, h, new_document_empty id d n) in
    subst (λ x. Holds identify x [] × IsCounted x) (sym same) (empty_document-Holds identify id)
apply_all-Holds identify id d e (o ∷ ops) one n h =
    let (before, c, rest) = >>=-eq-ok (apply_all identify d ops) _ h in
    let ((after, b), applied, last) = >>=-eq-ok (apply identify before o) _ rest in
    let (v, w) =
      apply_all-Holds identify id d before ops (λ x y p q. one x y (inr p) (inr q)) n c in
    let same : after ≡ e = ground (arith, last) in
    subst (λ x. Holds identify x (o ∷ ops) × IsCounted x) same
      (
        apply-Holds identify before after o b ops one v applied,
        apply-IsCounted identify before after o b w applied,
      )

-- Two new documents that have applied the same operations, in whatever order and however often, have
-- the same entry for every key, if operations with one identity are one operation, and so are those on
-- one key with one clock and one peer.
pub apply_all_converges :
    (identify : Identify) (id : Text) (d a b : SharedDocument) (xs ys : List DocumentOperation)
    (k : Text)
    → Distinct identify xs
    → Stamped xs
    → Included xs ys
    → Included ys xs
    → new_document id ≡ ok d
    → apply_all identify d xs ≡ ok a
    → apply_all identify d ys ≡ ok b
    → Map.get k a.entries ≡ Map.get k b.entries
apply_all_converges identify id d a b xs ys k one stamps i j n h g =
    IsLatest-unique k xs ys _ _ stamps i j ((apply_all-Holds identify id d a xs one n h).0.latest k)
      ((apply_all-Holds identify id d b ys (λ o p c e. one o p (j o c) (j p e)) n g).0.latest k)
