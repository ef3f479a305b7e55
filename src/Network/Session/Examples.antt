-- ===== src/Network/Session/Examples.antt =====
-- Two peers with a curve of sums, a cipher that adds a tag of zeros, and hexadecimal by identity.
use cartridge_runtime.Prelude.{
  ℕ, ◌+◌, ◌≡◌, refl, ap, some, List, [], ◌∷◌, ◌++◌, arith, length, length-append, drop,
}
use cartridge_runtime.Prelude.Text.{Bytes}
use cartridge_runtime.Prelude.Text
use cartridge_runtime.Prelude.Sets.{range}
use cartridge_runtime.Prelude.Results.{ok, ◌>>=◌}
use cartridge_runtime.Network.Session.{
  Crypto, PeerSession, EncryptedMessage, generate, public_of, session,
}
use cartridge_runtime.Network.Session.Keys.{IsAgreement, exchange-session}
use cartridge_runtime.Network.Session.Messages.{
  IsSealing, exchange, opened_sequences, opened_sequences_consecutive,
}

-- A point of 32 bytes, the first of them the sum.
head : Bytes → ℕ
head [] = 0
head (b ∷ bs) = b

point : ℕ → Bytes
point n =
    n ∷ 0 ∷ 0 ∷ 0 ∷ 0 ∷ 0 ∷ 0 ∷ 0 ∷ 0 ∷ 0 ∷ 0 ∷ 0 ∷ 0 ∷ 0 ∷ 0 ∷ 0 ∷ 0 ∷ 0 ∷ 0 ∷ 0 ∷ 0 ∷ 0 ∷ 0 ∷ 0
    ∷ 0 ∷ 0 ∷ 0 ∷ 0 ∷ 0 ∷ 0 ∷ 0 ∷ 0 ∷ []

abbrev tag : Bytes
tag = 0 ∷ 0 ∷ 0 ∷ 0 ∷ 0 ∷ 0 ∷ 0 ∷ 0 ∷ 0 ∷ 0 ∷ 0 ∷ 0 ∷ 0 ∷ 0 ∷ 0 ∷ 0 ∷ []

abbrev crypto : Crypto
crypto = record {
  sha256 = λ bytes. bytes;
  x25519 = λ a p. point (head a + head p);
  base_point = 9 ∷ [];
  encrypt = λ key nonce aad plaintext. some (tag ++ plaintext);
  decrypt = λ key nonce aad ciphertext. some (drop 16 ciphertext);
  hex_encode = λ bytes. bytes;
  hex_decode = λ value. some value;
}

crypto-IsAgreement : IsAgreement crypto
unfolding head point
crypto-IsAgreement = record {
  commutes = λ a b. ap point (omega arith);
  points = λ a p. refl;
  hex = λ bytes. refl;
}

crypto-IsSealing : IsSealing crypto
crypto-IsSealing = record {
  seals = λ key nonce aad plaintext n l.
      (tag ++ plaintext, refl, omega (arith, length-append tag plaintext));
  opens = λ key nonce aad plaintext ciphertext e. cc;
  hex = λ bytes. refl;
}

abbrev right : PeerSession
right = record {
  local_peer_id = Text.text "right";
  remote_peer_id = Text.text "left";
  key = 5 ∷ [];
  send_sequence = 0;
  receive_sequence = 0;
}

abbrev nonce : Bytes
nonce =
    1 ∷ 1 ∷ 1 ∷ 1 ∷ 1 ∷ 1 ∷ 1 ∷ 1 ∷ 1 ∷ 1 ∷ 1 ∷ 1 ∷ 1 ∷ 1 ∷ 1 ∷ 1 ∷ 1 ∷ 1 ∷ 1 ∷ 1 ∷ 1 ∷ 1 ∷ 1 ∷ 1
    ∷ []

exchange-session_example :
    (do
      s ← session crypto (generate crypto (1 ∷ [])) (public_of crypto (generate crypto (2 ∷ [])))
      t ← session crypto (generate crypto (2 ∷ [])) (public_of crypto (generate crypto (1 ∷ [])))
      exchange crypto s t ((nonce, 1 ∷ 2 ∷ []) ∷ (nonce, 3 ∷ []) ∷ []))
    ≡ ok ((1 ∷ 2 ∷ []) ∷ (3 ∷ []) ∷ [])
unfolding head point
exchange-session_example =
    exchange-session crypto (1 ∷ []) (2 ∷ []) ((nonce, 1 ∷ 2 ∷ []) ∷ (nonce, 3 ∷ []) ∷ [])
      crypto-IsAgreement crypto-IsSealing refl ((refl, omega arith), ((refl, omega arith), tt))
      (omega arith)

abbrev message : ℕ → EncryptedMessage
message n = record {
  sender = Text.text "left";
  recipient = Text.text "right";
  sequence = n;
  nonce = nonce;
  ciphertext = tag;
}

abbrev replayed : List EncryptedMessage
replayed = message 0 ∷ message 0 ∷ message 2 ∷ message 1 ∷ []

opened_sequences_consecutive_example :
    opened_sequences crypto right replayed
    ≡ range (length (opened_sequences crypto right replayed)) 0
opened_sequences_consecutive_example = opened_sequences_consecutive crypto right replayed
