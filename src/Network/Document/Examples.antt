-- ===== src/Network/Document/Examples.antt =====
-- Two peers that write one key.
use cartridge_runtime.Prelude.{◌≡◌, refl, sym, ap, ◌∙◌, ◌⊎◌, inl, inr, arith, some, [], ◌∷◌}
use cartridge_runtime.Prelude.Text.{Text, text_eq, text_cmp, text_ord}
use cartridge_runtime.Prelude.Text
use cartridge_runtime.Prelude.Map
use cartridge_runtime.Network.Document.{
  DocumentOperation, SharedDocument, Identify, validate_token, validate_operation, earlier,
  replaces, is_seen, write, record_seen, apply_new, apply, merge_entries, merge, new_document,
}
use cartridge_runtime.Network.Document.Latest.{Among}
use cartridge_runtime.Network.Document.Merge.{Holds, IsCounted, Distinct}
use cartridge_runtime.Network.Document.Converge.{
  Stamped, Included, apply_all, apply_all-Holds, apply_all_converges, merge_converges,
}

-- Every operation's identity is its clock.
abbrev identify : Identify
identify = λ o. some (o.clock ∷ [])

abbrev notes : Text
notes = Text.text "notes"

abbrev title : Text
title = Text.text "title"

abbrev first : DocumentOperation
first = record {
  document_id = notes;
  key = title;
  value = some (7 ∷ []);
  clock = 1;
  peer_id = Text.text "a";
}

abbrev second : DocumentOperation
second = record {
  document_id = notes;
  key = title;
  value = some (8 ∷ 9 ∷ []);
  clock = 2;
  peer_id = Text.text "b";
}

abbrev fresh : SharedDocument
fresh = record { document_id = notes; entries = []; seen = []; bytes = 0 }

abbrev holds_of : DocumentOperation → SharedDocument
holds_of o = record {
  document_id = notes;
  entries = (title, o) ∷ [];
  seen = (o.clock ∷ []) ∷ [];
  bytes = 0;
}

abbrev left : SharedDocument
left = record (holds_of first) { bytes = 1 }

abbrev right : SharedDocument
right = record (holds_of second) { bytes = 2 }

-- Both operations, in either order.
abbrev in_order : SharedDocument
in_order = record right { seen = (2 ∷ []) ∷ (1 ∷ []) ∷ [] }

abbrev out_of_order : SharedDocument
out_of_order = record right { seen = (1 ∷ []) ∷ (2 ∷ []) ∷ [] }

one-Distinct : (o : DocumentOperation) → Distinct identify (o ∷ [])
one-Distinct o p q (inl e) (inl f) h = e ∙ sym f
one-Distinct o p q (inl e) (inr n) h = absurd n
one-Distinct o p q (inr m) n h = absurd m

first-or-second :
    (o : DocumentOperation) → Among o (first ∷ second ∷ []) → (o ≡ first) ⊎ (o ≡ second)
first-or-second o (inl e) = inl e
first-or-second o (inr (inl e)) = inr e
first-or-second o (inr (inr m)) = absurd m

-- The clock tells the two operations apart.
same_clock :
    (o p : DocumentOperation)
    → Among o (first ∷ second ∷ [])
    → Among p (first ∷ second ∷ [])
    → o.clock ≡ p.clock
    → o ≡ p
same_clock o p m n h = go (first-or-second o m) (first-or-second p n)
  where
    go : (o ≡ first) ⊎ (o ≡ second) → (p ≡ first) ⊎ (p ≡ second) → o ≡ p
    go (inl e) (inl f) = e ∙ sym f
    go (inr e) (inr f) = e ∙ sym f
    go (inl e) (inr f) = absurd (omega (arith, h, ap (λ q. q.clock) e, ap (λ q. q.clock) f))
    go (inr e) (inl f) = absurd (omega (arith, h, ap (λ q. q.clock) e, ap (λ q. q.clock) f))

two-Distinct : Distinct identify (first ∷ second ∷ [])
two-Distinct o p m n h = same_clock o p m n cc

two-Stamped : Stamped (first ∷ second ∷ [])
two-Stamped o p m n k c q = same_clock o p m n c

swapped : Included (first ∷ second ∷ []) (second ∷ first ∷ [])
swapped o m = elim (first-or-second o m) [ inl e ↦ inr (inl e) | inr e ↦ inl e ]

swapped_back : Included (second ∷ first ∷ []) (first ∷ second ∷ [])
swapped_back o (inl e) = inr (inl e)
swapped_back o (inr (inl e)) = inl e
swapped_back o (inr (inr m)) = absurd m

left-Holds : Holds identify left (first ∷ []) × IsCounted left
unfolding new_document validate_token apply_all apply apply_new validate_operation write record_seen
    replaces earlier is_seen Map.get Map.insert Text.len text_cmp text_eq
left-Holds = apply_all-Holds identify notes fresh left (first ∷ []) (one-Distinct first) refl refl

right-Holds : Holds identify right (second ∷ []) × IsCounted right
unfolding new_document validate_token apply_all apply apply_new validate_operation write record_seen
    replaces earlier is_seen Map.get Map.insert Text.len text_cmp text_eq
right-Holds =
    apply_all-Holds identify notes fresh right (second ∷ []) (one-Distinct second) refl refl

apply_all-Holds_example : Holds identify right (second ∷ []) × IsCounted right
unfolding new_document validate_token apply_all apply apply_new validate_operation write record_seen
    replaces earlier is_seen Map.get Map.insert Text.len text_cmp text_eq
apply_all-Holds_example =
    apply_all-Holds identify notes fresh right (second ∷ []) (one-Distinct second) refl refl

merge_converges_example :
    Map.get title (merge identify left right).1.entries
    ≡ Map.get title (merge identify right left).1.entries
unfolding merge merge_entries validate_token apply apply_new validate_operation write record_seen
    replaces earlier is_seen Map.get Map.insert Text.len text_cmp text_eq
merge_converges_example =
    merge_converges identify left right (first ∷ []) (second ∷ []) title two-Distinct two-Stamped
      left-Holds.0 right-Holds.0 refl refl

apply_all_converges_example : Map.get title out_of_order.entries ≡ Map.get title in_order.entries
unfolding new_document validate_token apply_all apply apply_new validate_operation write record_seen
    replaces earlier is_seen Map.get Map.insert Text.len text_cmp text_eq
apply_all_converges_example =
    apply_all_converges identify notes fresh out_of_order in_order (first ∷ second ∷ [])
      (second ∷ first ∷ []) title two-Distinct two-Stamped swapped swapped_back refl refl refl
