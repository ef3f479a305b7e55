-- ===== src/Network/Session/Messages.antt =====
-- Messages sealed one after the other, and messages opened one after the other.
use cartridge_runtime.Prelude.{
  ℕ, ◌+◌, ◌≤◌, ◌<◌, ◌≡◌, refl, sym, ap, ◌∙◌, inl, inr, true, false, not, ◌||◌, some, List, [], ◌∷◌,
  arith, ltb, ◌==◌, ==_iff, length, map, All,
}
use cartridge_runtime.Prelude.Text.{Bytes, text_eq, text_eq_iff}
use cartridge_runtime.Prelude.Sets.{range}
use cartridge_runtime.Prelude.Words.{checked_add, u64_mod}
use cartridge_runtime.Prelude.Results.{
  ok, err, reject, ok_or, ◌>>=◌, >>=-eq-ok, >>-eq-ok, reject-ok, ok_or-ok, ok_injective,
  Result-cases,
}
use cartridge_runtime.Network.Limits.{Result, message_identity, receive_overflow, max_message_bytes}
use cartridge_runtime.Network.Session.{
  Crypto, PeerSession, EncryptedMessage, decode_array, message_aad, sealed_message, seal,
  opened_message, open_message,
}

-- The sequence numbers of the messages that a session opens, whatever messages it gets.
unfoldable pub opened_sequences : Crypto → PeerSession → List EncryptedMessage → List ℕ
opened_sequences c s [] = []
opened_sequences c s (m ∷ ms) = elim (open_message c s m) [
  | ok (plaintext, t) ↦ m.sequence ∷ opened_sequences c t ms
  | err fault ↦ opened_sequences c s ms
]

open_message_ok :
    (c : Crypto) (s t : PeerSession) (m : EncryptedMessage) (plaintext : Bytes)
    → open_message c s m ≡ ok (plaintext, t)
    → (m.sequence ≡ s.receive_sequence) × (t.receive_sequence ≡ s.receive_sequence + 1)
unfolding open_message opened_message
open_message_ok c s t m plaintext h =
    let (p, opened, h1) = >>=-eq-ok (opened_message c s m) _ h in
    let (next, fits, h2) =
      >>=-eq-ok (ok_or (checked_add u64_mod s.receive_sequence 1) receive_overflow) _ h1 in
    let (fine, rest) =
      >>-eq-ok
        (reject
          (not (text_eq m.sender s.remote_peer_id)
            || not (text_eq m.recipient s.local_peer_id)
            || not (m.sequence == s.receive_sequence))
          message_identity)
        _ opened in
    let same =
      ap (λ q. q.1.receive_sequence)
        (ok_injective (p, record s { receive_sequence = next }) (plaintext, t) _ refl h2) in
    (ground (arith, reject-ok _ _ fine), ground (arith, sym same, ok_or-ok _ _ fits))

opened_sequences_step :
    (c : Crypto) (s t : PeerSession) (m : EncryptedMessage) (ms : List EncryptedMessage)
    (plaintext : Bytes)
    → open_message c s m ≡ ok (plaintext, t)
    → opened_sequences c s (m ∷ ms) ≡ m.sequence ∷ opened_sequences c t ms
unfolding opened_sequences
opened_sequences_step c s t m ms plaintext e = rw (opened_sequences, e) refl

-- Whatever messages a session gets, in whatever order and however often, those that it opens have
-- consecutive sequence numbers, from the one that it expects: none twice, none skipped.
pub opened_sequences_consecutive :
    (c : Crypto) (s : PeerSession) (ms : List EncryptedMessage)
    → opened_sequences c s ms ≡ range (length (opened_sequences c s ms)) s.receive_sequence
unfolding opened_sequences range
opened_sequences_consecutive c s [] = refl
opened_sequences_consecutive c s (m ∷ ms) = elim (Result-cases (open_message c s m)) [
  | inl (fault, e) ↦ rw (opened_sequences, e) (opened_sequences_consecutive c s ms)
  | inr ((plaintext, t), e) ↦
      let (now, later) = open_message_ok c s t m plaintext e in
      let rest : opened_sequences c t ms
          ≡ range (length (opened_sequences c t ms)) (s.receive_sequence + 1) =
        opened_sequences_consecutive c t ms
        ∙ ap (λ n. range (length (opened_sequences c t ms)) n) later in
      rw (opened_sequences_step c s t m ms plaintext e, now)
        (ap (λ ns. s.receive_sequence ∷ ns) rest)
]

-- What the protocol relies on: sealing succeeds within the limit and adds a tag of 16 bytes, opening
-- undoes it, and so with the hexadecimal.
pub record IsSealing (c : Crypto) : Type 0 where
  pub seals :
      (key nonce aad plaintext : Bytes)
      → length nonce ≡ 24
      → length plaintext ≤ max_message_bytes
      → (ciphertext : Bytes) × (c.encrypt key nonce aad plaintext ≡ some ciphertext)
        × (length ciphertext ≡ length plaintext + 16)
  pub opens :
      (key nonce aad plaintext ciphertext : Bytes)
      → c.encrypt key nonce aad plaintext ≡ some ciphertext
      → c.decrypt key nonce aad ciphertext ≡ some plaintext
  pub hex : (bytes : Bytes) → c.hex_decode (c.hex_encode bytes) ≡ some bytes

-- One session opens what the other seals next.
pub record IsMatched (s t : PeerSession) : Type 0 where
  pub sender : s.local_peer_id ≡ t.remote_peer_id
  pub recipient : s.remote_peer_id ≡ t.local_peer_id
  pub key : s.key ≡ t.key
  pub sequence : s.send_sequence ≡ t.receive_sequence

-- Each plaintext, with its nonce, sealed by the one and opened by the other.
unfoldable pub exchange :
    Crypto → PeerSession → PeerSession → List (Bytes × Bytes) → Result (List Bytes)
exchange c s t [] = ok []
exchange c s t ((nonce, plaintext) ∷ rest) = do
  sealed ← seal c s nonce plaintext
  opened ← open_message c t sealed.0
  others ← exchange c sealed.1 opened.1 rest
  ok (opened.0 ∷ others)

abbrev pub Sendable : Bytes × Bytes → Type 0
Sendable (nonce, plaintext) = (length nonce ≡ 24) × (length plaintext ≤ max_message_bytes)

abbrev after_sending : PeerSession → PeerSession
after_sending s = record s { send_sequence = s.send_sequence + 1 }

abbrev after_receiving : PeerSession → PeerSession
after_receiving t = record t { receive_sequence = t.receive_sequence + 1 }

checked_add_fits : (n : ℕ) → n + 1 < u64_mod → checked_add u64_mod n 1 ≡ some (n + 1)
checked_add_fits n l = ground (arith, l)

seal_ok :
    (c : Crypto) (s : PeerSession) (nonce plaintext ciphertext : Bytes)
    → length nonce ≡ 24
    → length plaintext ≤ max_message_bytes
    → s.send_sequence + 1 < u64_mod
    → c.encrypt s.key nonce (message_aad s.local_peer_id s.remote_peer_id s.send_sequence) plaintext
      ≡ some ciphertext
    → seal c s nonce plaintext
      ≡ ok (
        record {
          sender = s.local_peer_id;
          recipient = s.remote_peer_id;
          sequence = s.send_sequence;
          nonce = c.hex_encode nonce;
          ciphertext = c.hex_encode ciphertext;
        },
        after_sending s,
      )
unfolding seal sealed_message
seal_ok c s nonce plaintext ciphertext n l fits e =
    rw (fits_limit, long_nonce, e, checked_add_fits s.send_sequence fits) refl
  where
    fits_limit : ltb max_message_bytes (length plaintext) ≡ false
    fits_limit = ground (arith, l)

    long_nonce : (length nonce == 24) ≡ true
    long_nonce = ground (arith, n)

open_message_fine :
    (c : Crypto) (t : PeerSession) (m : EncryptedMessage) (nonce plaintext ciphertext : Bytes)
    → m.sender ≡ t.remote_peer_id
    → m.recipient ≡ t.local_peer_id
    → m.sequence ≡ t.receive_sequence
    → c.hex_decode m.nonce ≡ some nonce
    → length nonce ≡ 24
    → c.hex_decode m.ciphertext ≡ some ciphertext
    → length ciphertext ≤ max_message_bytes + 32
    → c.decrypt t.key nonce (message_aad m.sender m.recipient m.sequence) ciphertext
      ≡ some plaintext
    → t.receive_sequence + 1 < u64_mod
    → open_message c t m ≡ ok (plaintext, after_receiving t)
unfolding open_message opened_message decode_array
open_message_fine c t m nonce plaintext ciphertext from to at n long d l e fits =
    rw
      (
        (text_eq_iff m.sender t.remote_peer_id).1 from,
        (text_eq_iff m.recipient t.local_peer_id).1 to,
        (==_iff m.sequence t.receive_sequence).1 at,
        n,
        long_nonce,
        d,
        fits_limit,
        e,
        checked_add_fits t.receive_sequence fits,
      )
      refl
  where
    fits_limit : ltb (max_message_bytes + 32) (length ciphertext) ≡ false
    fits_limit = ground (arith, l)

    long_nonce : (length nonce == 24) ≡ true
    long_nonce = ground (arith, long)

exchange_step :
    (c : Crypto) (s t : PeerSession) (nonce plaintext : Bytes) (rest : List (Bytes × Bytes))
    → IsSealing c
    → IsMatched s t
    → Sendable (nonce, plaintext)
    → s.send_sequence + 1 < u64_mod
    → exchange c s t ((nonce, plaintext) ∷ rest) ≡ (
        exchange c (after_sending s) (after_receiving t) rest >>= λ others. ok (plaintext ∷ others))
unfolding exchange
exchange_step c s t nonce plaintext rest good matched (n, l) fits =
    let (ciphertext, e, long) =
      good.seals s.key nonce (message_aad s.local_peer_id s.remote_peer_id s.send_sequence)
        plaintext n l in
    let decrypted : c.decrypt t.key nonce
          (message_aad s.local_peer_id s.remote_peer_id s.send_sequence) ciphertext
        ≡ some plaintext =
      ap
        (λ k.
          c.decrypt k nonce (message_aad s.local_peer_id s.remote_peer_id s.send_sequence)
            ciphertext)
        (sym matched.key)
      ∙ good.opens s.key nonce (message_aad s.local_peer_id s.remote_peer_id s.send_sequence)
          plaintext ciphertext e in
    let opened =
      open_message_fine c t
        (record {
          sender = s.local_peer_id;
          recipient = s.remote_peer_id;
          sequence = s.send_sequence;
          nonce = c.hex_encode nonce;
          ciphertext = c.hex_encode ciphertext;
        })
        nonce plaintext ciphertext matched.sender matched.recipient matched.sequence
        (good.hex nonce) n (good.hex ciphertext) (omega (arith, long, l)) decrypted
        (omega (arith, fits, matched.sequence)) in
    rw (seal_ok c s nonce plaintext ciphertext n l fits e, opened) refl

-- Matched sessions: whatever the one seals, within the size limit and while its sequence numbers last,
-- the other opens, in order.
pub exchange_ok :
    (c : Crypto) (s t : PeerSession) (items : List (Bytes × Bytes))
    → IsSealing c
    → IsMatched s t
    → All Sendable items
    → s.send_sequence + length items < u64_mod
    → exchange c s t items ≡ ok (map (λ item. item.1) items)
unfolding exchange
exchange_ok c s t [] good matched fine fits = refl
exchange_ok c s t ((nonce, plaintext) ∷ rest) good matched fine fits =
    exchange_step c s t nonce plaintext rest good matched fine.0 (omega (arith, fits))
    ∙ ap (λ r. r >>= λ others. ok (plaintext ∷ others))
        (exchange_ok c (after_sending s) (after_receiving t) rest good
          (record {
            sender = matched.sender;
            recipient = matched.recipient;
            key = matched.key;
            sequence = ap (λ n. n + 1) matched.sequence;
          })
          fine.1 (omega (arith, fits)))
