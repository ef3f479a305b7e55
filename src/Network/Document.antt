-- ===== src/Network/Document.antt =====
-- The shared document of crates/cartridge-network/src/lib.rs: for each key the last write, by clock
-- and then by peer. An operation's identity, the hexadecimal SHA-256 of its JSON, is third-party; the
-- encoder may refuse.
pub mod Latest
pub mod Merge
pub mod Converge
mod Examples
use cartridge_runtime.Prelude.{
  ℕ, ◌+◌, ◌-◌, Bool, true, false, not, ◌&&◌, ◌||◌, Option, none, some, List, [], ◌∷◌, ltb, leb,
  ◌==◌, length, any, is_empty, is_some_and, if◌then◌else◌,
}
use Prim.Native.Nat.{Ordering}
use cartridge_runtime.Prelude.Text.{Text, Bytes, text_eq, text_cmp, text_ord, len}
use cartridge_runtime.Prelude.Ascii.{is_control}
use cartridge_runtime.Prelude.Map
use cartridge_runtime.Prelude.Map.{Map}
use cartridge_runtime.Prelude.Words.{checked_add, u64_mod}
use cartridge_runtime.Prelude.Results.{ok, err, reject, ok_or, ◌>>=◌, ◌>>◌}
use cartridge_runtime.Network.Limits.{
  Error, Result, token_invalid, other_document, value_too_large, operation_limit, byte_overflow,
  byte_quota, not_encoded, max_message_bytes, max_document_operations, max_document_bytes,
}

pub record DocumentOperation : Type 0 where
  pub document_id : Text
  pub key : Text
  pub value : Option Bytes
  pub clock : ℕ
  pub peer_id : Text

pub record SharedDocument : Type 0 where
  pub document_id : Text
  pub entries : Map Text DocumentOperation
  pub seen : List Text
  pub bytes : ℕ

-- `operation_id`
abbrev pub Identify : Type 0
Identify = DocumentOperation → Option Text

pub validate_token : Text → ℕ → Result (Unit {0})
validate_token value limit =
    reject (is_empty value || ltb limit (len value) || any is_control value) token_invalid

pub new_document : Text → Result SharedDocument
new_document id = do
  validate_token id 128
  ok (record { document_id = id; entries = []; seen = []; bytes = 0 })

pub validate_operation : DocumentOperation → Text → Result (Unit {0})
validate_operation o id = do
  reject (not (text_eq o.document_id id)) other_document
  validate_token o.key 1024
  validate_token o.peer_id 128
  reject (is_some_and o.value (λ bytes. ltb max_message_bytes (length bytes))) value_too_large

-- The bytes that an operation's value takes.
abbrev pub value_bytes : DocumentOperation → ℕ
value_bytes o = elim o.value [ none ↦ 0 | some bytes ↦ length bytes ]

abbrev pub entry_bytes : Option DocumentOperation → ℕ
entry_bytes none = 0
entry_bytes (some o) = value_bytes o

-- `(a.clock, &a.peer_id) < (b.clock, &b.peer_id)`
abbrev text_lt : Text → Text → Bool
text_lt s t = elim (text_cmp s t) [ Ordering.lt ↦ true | _ ↦ false ]

unfoldable pub earlier : DocumentOperation → DocumentOperation → Bool
earlier a b = ltb a.clock b.clock || (a.clock == b.clock && text_lt a.peer_id b.peer_id)

-- `is_none_or`: the operation replaces what its key has.
pub replaces : Option DocumentOperation → DocumentOperation → Bool
unfolding earlier
replaces none o = true
replaces (some current) o = earlier current o

-- A member of the set of identities, and the set with one more. The order of the set shows nowhere.
unfoldable pub is_seen : Text → List Text → Bool
is_seen i [] = false
is_seen i (j ∷ js) = text_eq i j || is_seen i js

-- `apply` with its identity, on a document that has room for one more.
pub write : SharedDocument → DocumentOperation → Result SharedDocument
write d o = do
  next ←
      ok_or (checked_add u64_mod (d.bytes - entry_bytes (Map.get o.key d.entries)) (value_bytes o))
        byte_overflow
  reject (ltb max_document_bytes next) byte_quota
  ok (record d { entries = Map.insert o.key o d.entries; bytes = next })

pub record_seen : Text → SharedDocument → SharedDocument
record_seen i d = record d { seen = i ∷ d.seen }

pub apply_new : SharedDocument → DocumentOperation → Text → Result (SharedDocument × Bool)
unfolding replaces write record_seen
apply_new d o i =
    if replaces (Map.get o.key d.entries) o
    then (do written ← write d o; ok (record_seen i written, true))
    else ok (record_seen i d, false)

-- The document after an operation, and whether it replaced an entry. An error comes before any change.
pub apply : Identify → SharedDocument → DocumentOperation → Result (SharedDocument × Bool)
unfolding apply_new
apply identify d o = do
  validate_operation o d.document_id
  i ← ok_or (identify o) not_encoded
  if is_seen i d.seen then ok (d, false) else (do
    reject (leb max_document_operations (length d.seen)) operation_limit
    apply_new d o i)

-- The loop of `merge`: what an operation has done stays when a later one fails.
pub merge_entries :
    Identify → SharedDocument → Map Text DocumentOperation → Result (Unit {0}) × SharedDocument
merge_entries identify d [] = (ok tt, d)
merge_entries identify d ((k, o) ∷ m) = elim (apply identify d o) [
  | err e ↦ (err e, d)
  | ok (d', b) ↦ merge_entries identify d' m
]

pub merge : Identify → SharedDocument → SharedDocument → Result (Unit {0}) × SharedDocument
unfolding merge_entries
merge identify d other =
    if not (text_eq d.document_id other.document_id)
    then (err other_document, d)
    else merge_entries identify d other.entries

pub read : SharedDocument → Text → Option Bytes
read d key = elim (Map.get key d.entries) [ none ↦ none | some o ↦ o.value ]
