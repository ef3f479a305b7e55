-- ===== src/Network/Session.antt =====
-- Peers, sessions and sealed messages, crates/cartridge-network/src/lib.rs. The hash, the curve, the
-- cipher and the hexadecimal are third-party, and a random nonce is an argument.
pub mod Keys
pub mod Messages
mod Examples
use Prim.Native.Nat.{Ordering}
use cartridge_runtime.Prelude.{
  ℕ, zero, suc, ◌+◌, ◌/◌, ◌%◌, Bool, true, false, not, ◌||◌, Option, none, some, List, [], ◌∷◌,
  ◌++◌, ltb, leb, ◌==◌, length, any, all,
}
use cartridge_runtime.Prelude.Text.{Text, Bytes, text_eq, text_cmp, len}
use cartridge_runtime.Prelude.Text
use cartridge_runtime.Prelude.Ascii.{is_control}
use cartridge_runtime.Prelude.Words.{checked_add, u64_mod}
use cartridge_runtime.Prelude.Results.{ok, err, reject, ok_or, ◌>>=◌, ◌>>◌}
use cartridge_runtime.Network.Limits.{
  Error, Result, peer_key, peer_mismatch, shared_secret, message_too_large, encryption_failed,
  send_overflow, message_identity, nonce_invalid, ciphertext_invalid, ciphertext_too_large,
  authentication_failed, receive_overflow, discovery_invalid, max_message_bytes,
}

-- What the third-party crates compute: the SHA-256, the scalar multiplication and its base point, the
-- sealing and opening by key, nonce and associated data, and the hexadecimal of bytes.
pub record Crypto : Type 0 where
  pub sha256 : Bytes → Bytes
  pub x25519 : Bytes → Bytes → Bytes
  pub base_point : Bytes
  pub encrypt : Bytes → Bytes → Bytes → Bytes → Option Bytes
  pub decrypt : Bytes → Bytes → Bytes → Bytes → Option Bytes
  pub hex_encode : Bytes → Text
  pub hex_decode : Text → Option Bytes

pub record PeerIdentity : Type 0 where
  pub secret : Bytes
  pub public : Bytes

pub record PeerPublic : Type 0 where
  pub peer_id : Text
  pub public_key : Text

pub record PeerSession : Type 0 where
  pub local_peer_id : Text
  pub remote_peer_id : Text
  pub key : Bytes
  pub send_sequence : ℕ
  pub receive_sequence : ℕ

pub record EncryptedMessage : Type 0 where
  pub sender : Text
  pub recipient : Text
  pub sequence : ℕ
  pub nonce : Text
  pub ciphertext : Text

pub record DiscoveryRecord : Type 0 where
  pub peer : PeerPublic
  pub route_token : Text
  pub expires_at_ms : ℕ

-- `peer_id`
unfoldable pub id_of : Crypto → Bytes → Text
id_of c public = c.hex_encode (c.sha256 public)

-- `decode_array::<N>`, with its error.
unfoldable pub decode_array : Crypto → ℕ → Error → Text → Result Bytes
decode_array c n fault value = do
  bytes ← ok_or (c.hex_decode value) fault
  reject (not (length bytes == n)) fault
  ok bytes

-- `PeerIdentity::generate`, of the random secret.
unfoldable pub generate : Crypto → Bytes → PeerIdentity
generate c secret = record { secret = secret; public = c.x25519 secret c.base_point }

-- `PeerIdentity::public`
unfoldable pub public_of : Crypto → PeerIdentity → PeerPublic
unfolding id_of
public_of c i = record { peer_id = id_of c i.public; public_key = c.hex_encode i.public }

-- `PeerPublic::validate`
unfoldable pub validate_public : Crypto → PeerPublic → Result (Unit {0})
unfolding decode_array id_of
validate_public c p = do
  public ← decode_array c 32 peer_key p.public_key
  reject (not (text_eq (id_of c public) p.peer_id)) peer_mismatch

-- `peers.sort_unstable()` and the two updates of the digest.
unfoldable pub sorted_peers : Bytes → Bytes → Bytes
sorted_peers p q = elim (text_cmp p q) [ Ordering.gt ↦ q ++ p | _ ↦ p ++ q ]

abbrev pub session_label : Bytes
session_label = Text.text "cartridge-peer-session-v1"

unfoldable pub session_key : Crypto → Bytes → Bytes → Bytes → Bytes
unfolding sorted_peers
session_key c shared p q = c.sha256 (session_label ++ shared ++ sorted_peers p q)

-- `[0; 32]`
abbrev pub is_zero : Bytes → Bool
is_zero = all (λ b. b == 0)

unfoldable pub session : Crypto → PeerIdentity → PeerPublic → Result PeerSession
unfolding validate_public decode_array session_key id_of
session c i remote = do
  validate_public c remote
  remote_public ← decode_array c 32 peer_key remote.public_key
  reject (is_zero (c.x25519 i.secret remote_public)) shared_secret
  ok (record {
    local_peer_id = id_of c i.public;
    remote_peer_id = remote.peer_id;
    key = session_key c (c.x25519 i.secret remote_public) i.public remote_public;
    send_sequence = 0;
    receive_sequence = 0;
  })

-- `to_le_bytes`, of so many bytes.
unfoldable pub le_bytes : ℕ → ℕ → Bytes
le_bytes zero n = []
le_bytes (suc k) n = n % 256 ∷ le_bytes k (n / 256)

unfoldable pub message_aad : Text → Text → ℕ → Bytes
unfolding le_bytes
message_aad sender recipient sequence =
    Text.bytes sender ++ 0 ∷ Text.bytes recipient ++ le_bytes 8 sequence

-- `seal` until the sequence moves on.
unfoldable pub sealed_message : Crypto → PeerSession → Bytes → Bytes → Result EncryptedMessage
unfolding message_aad
sealed_message c s nonce plaintext = do
  reject (ltb max_message_bytes (length plaintext)) message_too_large
  reject (not (length nonce == 24)) nonce_invalid
  ciphertext ←
      ok_or
        (c.encrypt s.key nonce (message_aad s.local_peer_id s.remote_peer_id s.send_sequence)
          plaintext)
        encryption_failed
  ok (record {
    sender = s.local_peer_id;
    recipient = s.remote_peer_id;
    sequence = s.send_sequence;
    nonce = c.hex_encode nonce;
    ciphertext = c.hex_encode ciphertext;
  })

-- The message and the session after it; an error leaves the session.
unfoldable pub seal : Crypto → PeerSession → Bytes → Bytes → Result (EncryptedMessage × PeerSession)
unfolding sealed_message
seal c s nonce plaintext = do
  message ← sealed_message c s nonce plaintext
  next ← ok_or (checked_add u64_mod s.send_sequence 1) send_overflow
  ok (message, record s { send_sequence = next })

-- `open` until the sequence moves on.
unfoldable pub opened_message : Crypto → PeerSession → EncryptedMessage → Result Bytes
unfolding decode_array message_aad
opened_message c s m = do
  reject
      (not (text_eq m.sender s.remote_peer_id)
        || not (text_eq m.recipient s.local_peer_id)
        || not (m.sequence == s.receive_sequence))
      message_identity
  nonce ← decode_array c 24 nonce_invalid m.nonce
  ciphertext ← ok_or (c.hex_decode m.ciphertext) ciphertext_invalid
  reject (ltb (max_message_bytes + 32) (length ciphertext)) ciphertext_too_large
  ok_or (c.decrypt s.key nonce (message_aad m.sender m.recipient m.sequence) ciphertext)
      authentication_failed

unfoldable pub open_message : Crypto → PeerSession → EncryptedMessage → Result (Bytes × PeerSession)
unfolding opened_message
open_message c s m = do
  plaintext ← opened_message c s m
  next ← ok_or (checked_add u64_mod s.receive_sequence 1) receive_overflow
  ok (plaintext, record s { receive_sequence = next })

-- `DiscoveryRecord::validate`
unfoldable pub validate_discovery : Crypto → DiscoveryRecord → ℕ → Result (Unit {0})
unfolding validate_public
validate_discovery c d now = do
  validate_public c d.peer
  reject
      (ltb (len d.route_token) 32
        || ltb 512 (len d.route_token)
        || any is_control d.route_token
        || leb d.expires_at_ms now)
      discovery_invalid
