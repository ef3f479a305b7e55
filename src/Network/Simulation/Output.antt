-- ===== src/Network/Simulation/Output.antt =====
-- What a simulation puts out.
use cartridge_runtime.Prelude.{
  ℕ, ◌+◌, ◌≤◌, ◌<◌, ◌≡◌, refl, ap, subst, inl, inr, ◌⊎◌, Bool, true, false, ◌||◌, List, [], ◌∷◌,
  ◌++◌, arith, ltb, leb, length, length-append, Bool-cases, if◌then◌else◌,
}
use cartridge_runtime.Prelude.Text.{Bytes}
use cartridge_runtime.Prelude.Results.{ok, reject, >>=-eq-ok, >>-eq-ok, reject-ok, ok_injective}
use cartridge_runtime.Network.Limits.{
  Result, simulation_limits, packet_count, packet_too_large, max_simulated_packets,
  max_message_bytes,
}
use cartridge_runtime.Network.Simulation.{
  SimulationConfig, SimulatedPacket, before, insert_packet, sort_packets, simulate_from, simulate,
  deliver, next_state,
}

-- The one packet is delivered before the other, or with it and its sequence is not above.
abbrev pub IsNotAfter : SimulatedPacket → SimulatedPacket → Type 0
IsNotAfter p q =
    (p.deliver_at_ms < q.deliver_at_ms)
    ⊎ ((p.deliver_at_ms ≡ q.deliver_at_ms) × (p.sequence ≤ q.sequence))

-- The packet comes before, or with, the first of the list.
abbrev pub Heads : SimulatedPacket → List SimulatedPacket → Type 0
Heads p [] = Unit
Heads p (q ∷ qs) = IsNotAfter p q

-- Each packet comes before, or with, the next.
abbrev pub IsOrdered : List SimulatedPacket → Type 0
IsOrdered [] = Unit
IsOrdered (p ∷ ps) = Heads p ps × IsOrdered ps

before-IsNotAfter : (p q : SimulatedPacket) → before p q ≡ true → IsNotAfter p q
unfolding before
before-IsNotAfter p q h = elim (Bool-cases (ltb p.deliver_at_ms q.deliver_at_ms)) [
  | inl sooner ↦ inl (ground (arith, sooner))
  | inr other ↦ inr (ground (arith, h, other), ground (arith, h, other))
]

before_total : (p q : SimulatedPacket) → before p q ≡ false → IsNotAfter q p
unfolding before
before_total p q h = elim (Bool-cases (ltb q.deliver_at_ms p.deliver_at_ms)) [
  | inl sooner ↦ inl (ground (arith, sooner))
  | inr other ↦ inr (ground (arith, h, other), ground (arith, h, other))
]

insert_packet-Heads :
    (q p : SimulatedPacket) (ps : List SimulatedPacket)
    → IsNotAfter q p
    → Heads q ps
    → Heads q (insert_packet p ps)
unfolding insert_packet
insert_packet-Heads q p [] e h = e
insert_packet-Heads q p (r ∷ ps) e h = elim (Bool-cases (before p r)) [
  | inl b ↦ rw (insert_packet, b) e
  | inr b ↦ rw (insert_packet, b) h
]

insert_packet-IsOrdered :
    (p : SimulatedPacket) (ps : List SimulatedPacket)
    → IsOrdered ps
    → IsOrdered (insert_packet p ps)
unfolding insert_packet
insert_packet-IsOrdered p [] h = (tt, tt)
insert_packet-IsOrdered p (q ∷ ps) h = elim (Bool-cases (before p q)) [
  | inl b ↦ rw (insert_packet, b) (before-IsNotAfter p q b, h)
  | inr b ↦
      rw (insert_packet, b)
        (insert_packet-Heads q p ps (before_total p q b) h.0, insert_packet-IsOrdered p ps h.1)
]

sort_packets-IsOrdered : (ps : List SimulatedPacket) → IsOrdered (sort_packets ps)
unfolding sort_packets
sort_packets-IsOrdered [] = tt
sort_packets-IsOrdered (p ∷ ps) =
    insert_packet-IsOrdered p (sort_packets ps) (sort_packets-IsOrdered ps)

length-insert_packet :
    (p : SimulatedPacket) (ps : List SimulatedPacket) → length (insert_packet p ps) ≡ length ps + 1
unfolding insert_packet
length-insert_packet p [] = omega arith
length-insert_packet p (q ∷ ps) = ground (arith, length-insert_packet p ps)

length-sort_packets : (ps : List SimulatedPacket) → length (sort_packets ps) ≡ length ps
unfolding sort_packets
length-sort_packets [] = refl
length-sort_packets (p ∷ ps) =
    omega (arith, length-insert_packet p (sort_packets ps), length-sort_packets ps)

either :
    (b : Bool) (x y r : Result (List SimulatedPacket))
    → (if b then x else y) ≡ r
    → (x ≡ r) ⊎ (y ≡ r)
either true x y r h = inl h
either false x y r h = inr h

-- The output of the loop stays within the limit, and adds at most one packet for each.
length-simulate_from :
    (config : SimulationConfig) (state : ℕ) (output : List SimulatedPacket)
    (packets : List (ℕ × Bytes)) (found : List SimulatedPacket)
    → length output ≤ max_simulated_packets
    → simulate_from config state output packets ≡ ok found
    → (length found ≤ max_simulated_packets) × (length found ≤ length output + length packets)
unfolding simulate_from
length-simulate_from config state output [] found l h = ground (arith, l, h)
length-simulate_from config state output ((sequence, payload) ∷ packets) found l h =
    let (room, h1) =
      >>-eq-ok (reject (leb max_simulated_packets (length output)) packet_count) _ h in
    let (small, h2) =
      >>-eq-ok (reject (ltb max_message_bytes (length payload)) packet_too_large) _ h1 in
    let (after, packet) = deliver config (next_state state) sequence payload in
    elim (either _ _ _ (ok found) h2) [
      | inl lost ↦
          let (small_enough, few) =
            length-simulate_from config (next_state state) output packets found l lost in
          (small_enough, omega (arith, few))
      | inr kept ↦
          let (small_enough, few) =
            length-simulate_from config after (output ++ packet ∷ []) packets found
              (ground (arith, reject-ok _ _ room, length-append output (packet ∷ []))) kept in
          (small_enough, omega (arith, few, length-append output (packet ∷ [])))
    ]

-- What `simulate` puts out is in the order of delivery, and, where that is the same, of sequence; it
-- has no more packets than it got, and at most 100,000.
pub simulate-IsOrdered :
    (config : SimulationConfig) (packets : List (ℕ × Bytes)) (found : List SimulatedPacket)
    → simulate config packets ≡ ok found
    → IsOrdered found × (length found ≤ max_simulated_packets) × (length found ≤ length packets)
unfolding simulate
simulate-IsOrdered config packets found h =
    let (fine, h1) =
      >>-eq-ok
        (reject
          (ltb 60_000 config.base_latency_ms
            || ltb 60_000 config.jitter_ms
            || ltb 1_000_000 config.loss_per_million
            || ltb 1_000_000 config.reorder_per_million)
          simulation_limits)
        _ h in
    let (output, ran, h2) = >>=-eq-ok (simulate_from config config.seed [] packets) _ h1 in
    let sorted = ok_injective (sort_packets output) found _ refl h2 in
    let (few, fewer) =
      length-simulate_from config config.seed [] packets output (omega arith) ran in
    (
      subst IsOrdered sorted (sort_packets-IsOrdered output),
      omega (arith, few, length-sort_packets output, ap length sorted),
      omega (arith, fewer, length-sort_packets output, ap length sorted),
    )
