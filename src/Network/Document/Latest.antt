-- ===== src/Network/Document/Latest.antt =====
-- The last write of each key, as a reference for the document.
use cartridge_runtime.Prelude.{
  ◌<◌, ◌≡◌, ◌≢◌, refl, sym, ap, subst, ◌∙◌, ◌⊎◌, inl, inr, true, false, Option, none, some, List,
  [], ◌∷◌, arith, ltb, Bool-cases,
}
use Prim.Native.Nat.{Ordering}
use cartridge_runtime.Prelude.Text.{
  Text, text_cmp, text_eq, text_eq_iff, text_cmp_eq, text_cmp_refl, text_cmp-flip, text_cmp_trans,
  text_ord,
}
use cartridge_runtime.Network.Document.{DocumentOperation, earlier, replaces}

-- A member of a list of operations.
abbrev pub Among : DocumentOperation → List DocumentOperation → Type 0
Among o [] = ⊥
Among o (p ∷ ps) = (o ≡ p) ⊎ Among o ps

-- The clock of the one is lower, or they have one clock and its peer is the same or comes before, byte
-- for byte.
abbrev pub IsNotLater : DocumentOperation → DocumentOperation → Type 0
IsNotLater o w =
    (o.clock < w.clock)
    ⊎ ((o.clock ≡ w.clock)
        × ((o.peer_id ≡ w.peer_id) ⊎ (text_cmp o.peer_id w.peer_id ≡ Ordering.lt)))

-- No operation on the key is later than the entry, which is one of them; without an entry there is
-- no operation on the key.
abbrev pub IsLatest : Text → List DocumentOperation → Option DocumentOperation → Type 0
IsLatest k ops none = (o : DocumentOperation) → Among o ops → o.key ≢ k
IsLatest k ops (some w) =
    Among w ops × (w.key ≡ k) × ((o : DocumentOperation) → Among o ops → o.key ≡ k → IsNotLater o w)

earlier_trans :
    (a b c : DocumentOperation) → earlier a b ≡ true → earlier b c ≡ true → earlier a c ≡ true
unfolding earlier
earlier_trans a b c h k = ground (
  arith,
  text_cmp_trans a.peer_id b.peer_id c.peer_id,
  text_cmp_eq a.peer_id b.peer_id,
  text_cmp_eq b.peer_id c.peer_id,
)

-- Neither is earlier: the stamps are one.
earlier_total :
    (a b : DocumentOperation)
    → earlier a b ≡ false
    → earlier b a ≡ false
    → (a.clock ≡ b.clock) × (a.peer_id ≡ b.peer_id)
unfolding earlier
earlier_total a b h k =
    ground (arith, text_cmp_eq a.peer_id b.peer_id, text_cmp-flip a.peer_id b.peer_id)

earlier_mono :
    (a b c : DocumentOperation) → earlier a b ≡ true → earlier a c ≡ false → earlier b c ≡ false
earlier_mono a b c h k = elim (Bool-cases (earlier b c)) [
  | inr n ↦ n
  | inl y ↦ absurd (ground (arith, k, earlier_trans a b c h y))
]

-- What is not later than `b` is not later than what is later than `b` or has its stamp.
earlier_between :
    (a b c : DocumentOperation) → earlier a b ≡ false → earlier b c ≡ false → earlier a c ≡ false
unfolding earlier
earlier_between a b c h k = ground (
  arith,
  text_cmp_trans a.peer_id c.peer_id b.peer_id,
  text_cmp-flip b.peer_id c.peer_id,
  text_cmp-flip a.peer_id b.peer_id,
  text_cmp_eq b.peer_id c.peer_id,
  text_cmp_eq a.peer_id b.peer_id,
)

-- What an operation is not earlier than is not later than it.
pub earlier-IsNotLater : (w o : DocumentOperation) → earlier w o ≡ false → IsNotLater o w
unfolding earlier
earlier-IsNotLater w o h = elim (Bool-cases (ltb o.clock w.clock)) [
  | inl low ↦ inl (ground (arith, low))
  | inr high ↦
      let same : o.clock ≡ w.clock = ground (arith, h, high) in
      elim (Bool-cases (text_eq o.peer_id w.peer_id)) [
        | inl e ↦ inr (same, inl ((text_eq_iff o.peer_id w.peer_id).0 e))
        | inr n ↦ inr (same, inr (peers same n))
      ]
]
  where
    peers :
        o.clock ≡ w.clock
        → text_eq o.peer_id w.peer_id ≡ false
        → text_cmp o.peer_id w.peer_id ≡ Ordering.lt
    peers same n = ground (
      arith,
      h,
      same,
      n,
      text_cmp-flip w.peer_id o.peer_id,
      (text_eq_iff o.peer_id w.peer_id).1,
      text_cmp_eq o.peer_id w.peer_id,
    )

pub IsNotLater-earlier : (w o : DocumentOperation) → IsNotLater o w → earlier w o ≡ false
unfolding earlier
IsNotLater-earlier w o (inl low) = ground (arith, low)
IsNotLater-earlier w o (inr (same, inl e)) = ground (arith, same, e, text_cmp_refl o.peer_id)
IsNotLater-earlier w o (inr (same, inr h)) =
    ground (arith, same, h, text_cmp-flip o.peer_id w.peer_id)

-- Neither is later: the stamps are one.
pub IsNotLater-antisym :
    (a b : DocumentOperation)
    → IsNotLater b a
    → IsNotLater a b
    → (a.clock ≡ b.clock) × (a.peer_id ≡ b.peer_id)
IsNotLater-antisym a b h k = earlier_total a b (IsNotLater-earlier a b h) (IsNotLater-earlier b a k)

pub IsNotLater-trans :
    (a b c : DocumentOperation) → IsNotLater b a → IsNotLater c b → IsNotLater c a
IsNotLater-trans a b c h k =
    earlier-IsNotLater a c
      (earlier_between a b c (IsNotLater-earlier a b h) (IsNotLater-earlier b c k))

pub IsLatest-again :
    (k : Text) (o : DocumentOperation) (ops : List DocumentOperation) (x : Option DocumentOperation)
    → Among o ops
    → IsLatest k ops x
    → IsLatest k (o ∷ ops) x
IsLatest-again k o ops none a l = after
  where
    after : (p : DocumentOperation) → Among p (o ∷ ops) → p.key ≢ k
    after p (inl e) = l p (subst (λ q. Among q ops) (sym e) a)
    after p (inr m) = l p m
IsLatest-again k o ops (some w) a (m, e, late) = (inr m, e, after)
  where
    after : (p : DocumentOperation) → Among p (o ∷ ops) → p.key ≡ k → IsNotLater p w
    after p (inl e) = late p (subst (λ q. Among q ops) (sym e) a)
    after p (inr m) = late p m

pub IsLatest-other :
    (k : Text) (o : DocumentOperation) (ops : List DocumentOperation) (x : Option DocumentOperation)
    → o.key ≢ k
    → IsLatest k ops x
    → IsLatest k (o ∷ ops) x
IsLatest-other k o ops none n l = after
  where
    after : (p : DocumentOperation) → Among p (o ∷ ops) → p.key ≢ k
    after p (inl e) = λ h. n (sym (ap (λ q. q.key) e) ∙ h)
    after p (inr m) = l p m
IsLatest-other k o ops (some w) n (m, e, late) = (inr m, e, after)
  where
    after : (p : DocumentOperation) → Among p (o ∷ ops) → p.key ≡ k → IsNotLater p w
    after p (inl e) h = absurd (n (sym (ap (λ q. q.key) e) ∙ h))
    after p (inr m) h = late p m h

pub IsLatest-replaced :
    (k : Text) (o : DocumentOperation) (ops : List DocumentOperation) (x : Option DocumentOperation)
    → o.key ≡ k
    → replaces x o ≡ true
    → IsLatest k ops x
    → IsLatest k (o ∷ ops) (some o)
unfolding replaces
IsLatest-replaced k o ops none e r l = (inl refl, e, after)
  where
    after : (p : DocumentOperation) → Among p (o ∷ ops) → p.key ≡ k → IsNotLater p o
    after p (inl e) h = subst (λ q. IsNotLater q o) (sym e) (inr (refl, inl refl))
    after p (inr m) h = absurd (l p m h)
IsLatest-replaced k o ops (some w) e r (m, f, late) = (inl refl, e, after)
  where
    after : (p : DocumentOperation) → Among p (o ∷ ops) → p.key ≡ k → IsNotLater p o
    after p (inl e) h = subst (λ q. IsNotLater q o) (sym e) (inr (refl, inl refl))
    after p (inr m) h =
        earlier-IsNotLater o p (earlier_mono w o p r (IsNotLater-earlier w p (late p m h)))

pub IsLatest-kept :
    (k : Text) (o : DocumentOperation) (ops : List DocumentOperation) (x : Option DocumentOperation)
    → replaces x o ≡ false
    → IsLatest k ops x
    → IsLatest k (o ∷ ops) x
unfolding replaces
IsLatest-kept k o ops none r l = cc
IsLatest-kept k o ops (some w) r (m, f, late) = (inr m, f, after)
  where
    after : (p : DocumentOperation) → Among p (o ∷ ops) → p.key ≡ k → IsNotLater p w
    after p (inl e) h = subst (λ q. IsNotLater q w) (sym e) (earlier-IsNotLater w o r)
    after p (inr m) h = late p m h
