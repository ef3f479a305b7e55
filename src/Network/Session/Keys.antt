-- ===== src/Network/Session/Keys.antt =====
-- The sessions that two identities make of each other.
use cartridge_runtime.Prelude.{
  ◌≡◌, refl, sym, ap, ◌∙◌, false, some, List, ◌++◌, arith, length, map, All, ◌<◌,
}
use cartridge_runtime.Prelude.Text.{Bytes, text_eq_iff, text_cmp_eq, text_cmp-flip}
use cartridge_runtime.Prelude.Results.{ok, ◌>>=◌, ok_injective}
use cartridge_runtime.Prelude.Words.{u64_mod}
use cartridge_runtime.Network.Limits.{peer_key}
use cartridge_runtime.Network.Session.{
  Crypto, PeerSession, id_of, decode_array, generate, public_of, validate_public, sorted_peers,
  session_key, is_zero, session, session_label,
}
use cartridge_runtime.Network.Session.Messages.{
  IsMatched, IsSealing, Sendable, exchange, exchange_ok,
}

-- What the agreement relies on: the curve's multiplications commute on the base point, its points
-- have 32 bytes, and the hexadecimal comes back.
pub record IsAgreement (c : Crypto) : Type 0 where
  pub commutes :
      (a b : Bytes) → c.x25519 a (c.x25519 b c.base_point) ≡ c.x25519 b (c.x25519 a c.base_point)
  pub points : (a p : Bytes) → length (c.x25519 a p) ≡ 32
  pub hex : (bytes : Bytes) → c.hex_decode (c.hex_encode bytes) ≡ some bytes

sorted_peers_comm : (p q : Bytes) → sorted_peers p q ≡ sorted_peers q p
unfolding sorted_peers
sorted_peers_comm p q = ground (arith, text_cmp-flip p q, text_cmp_eq p q)

session_key_comm :
    (c : Crypto) (shared p q : Bytes) → session_key c shared p q ≡ session_key c shared q p
unfolding session_key
session_key_comm c shared p q =
    ap (λ peers. c.sha256 (session_label ++ shared ++ peers)) (sorted_peers_comm p q)

decode_public :
    (c : Crypto) (b : Bytes)
    → IsAgreement c
    → decode_array c 32 peer_key (c.hex_encode (c.x25519 b c.base_point))
      ≡ ok (c.x25519 b c.base_point)
unfolding decode_array
decode_public c b good = rw (good.hex (c.x25519 b c.base_point), good.points b c.base_point) refl

session_ok :
    (c : Crypto) (a b : Bytes)
    → IsAgreement c
    → is_zero (c.x25519 a (c.x25519 b c.base_point)) ≡ false
    → session c (generate c a) (public_of c (generate c b))
      ≡ ok (record {
        local_peer_id = id_of c (c.x25519 a c.base_point);
        remote_peer_id = id_of c (c.x25519 b c.base_point);
        key =
            session_key c
              (c.x25519 a (c.x25519 b c.base_point))
              (c.x25519 a c.base_point)
              (c.x25519 b c.base_point);
        send_sequence = 0;
        receive_sequence = 0;
      })
unfolding session generate public_of validate_public
session_ok c a b good shared =
    rw
      (
        decode_public c b good,
        (text_eq_iff (id_of c (c.x25519 b c.base_point)) (id_of c (c.x25519 b c.base_point))).1
            refl,
        shared,
      )
      refl

-- Two identities that hold each other's public half agree: each makes a session, unless the curve
-- gives the shared secret zero, and the sessions have one key and fit each other.
pub session-IsMatched :
    (c : Crypto) (a b : Bytes)
    → IsAgreement c
    → is_zero (c.x25519 a (c.x25519 b c.base_point)) ≡ false
    → (s : PeerSession) × (t : PeerSession) × (session c (generate c a) (public_of c (generate c b))
        ≡ ok s)
      × (session c (generate c b) (public_of c (generate c a)) ≡ ok t)
      × IsMatched s t
      × IsMatched t s
session-IsMatched c a b good shared =
    let same = good.commutes a b in
    let keys : session_key c (c.x25519 a (c.x25519 b c.base_point)) (c.x25519 a c.base_point)
          (c.x25519 b c.base_point)
        ≡ session_key c (c.x25519 b (c.x25519 a c.base_point)) (c.x25519 b c.base_point)
            (c.x25519 a c.base_point) =
      ap (λ z. session_key c z (c.x25519 a c.base_point) (c.x25519 b c.base_point)) same
      ∙ session_key_comm c _ (c.x25519 a c.base_point) (c.x25519 b c.base_point) in
    (
      _,
      _,
      session_ok c a b good shared,
      session_ok c b a good (ap is_zero (sym same) ∙ shared),
      record { sender = refl; recipient = refl; key = keys; sequence = refl },
      record { sender = refl; recipient = refl; key = sym keys; sequence = refl },
    )

-- A new session sends from the sequence number 0.
session_number :
    (c : Crypto) (a b : Bytes) (s : PeerSession)
    → IsAgreement c
    → is_zero (c.x25519 a (c.x25519 b c.base_point)) ≡ false
    → session c (generate c a) (public_of c (generate c b)) ≡ ok s
    → s.send_sequence ≡ 0
session_number c a b s good shared made =
    ap (λ t. t.send_sequence)
      (ok_injective s _ (session c (generate c a) (public_of c (generate c b))) made
        (session_ok c a b good shared))

-- Two identities that hold each other's public half make sessions, unless the curve gives the shared
-- secret zero, and whatever the one then seals, within the size limit, with nonces of 24 bytes and while
-- its sequence numbers last, the other opens, in order, if the curve, the cipher and the hexadecimal do what they document.
pub exchange-session :
    (c : Crypto) (a b : Bytes) (items : List (Bytes × Bytes))
    → IsAgreement c
    → IsSealing c
    → is_zero (c.x25519 a (c.x25519 b c.base_point)) ≡ false
    → All Sendable items
    → length items < u64_mod
    → (do
      s ← session c (generate c a) (public_of c (generate c b))
      t ← session c (generate c b) (public_of c (generate c a))
      exchange c s t items)
      ≡ ok (map (λ item. item.1) items)
exchange-session c a b items good sealing shared fine fits =
    let (s, t, made, met, matched, back) = session-IsMatched c a b good shared in
    rw (made, met)
      (exchange_ok c s t items sealing matched fine
        (omega (arith, fits, session_number c a b s good shared made)))
