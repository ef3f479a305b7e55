-- ===== src/Network/Simulation.antt =====
-- The simulated network of crates/cartridge-network/src/lib.rs: latency, jitter, loss and reordering
-- from a linear congruential generator.
pub mod Output
mod Examples
use Prim.Native.Nat.{min}
use cartridge_runtime.Prelude.{
  ℕ, ◌+◌, ◌-◌, ◌*◌, ◌/◌, ◌%◌, ◌^◌, Bool, ◌&&◌, ◌||◌, List, [], ◌∷◌, ◌++◌, ltb, leb, ◌==◌, length,
  if◌then◌else◌,
}
use cartridge_runtime.Prelude.Text.{Bytes}
use cartridge_runtime.Prelude.Words.{u64_mod}
use cartridge_runtime.Prelude.Results.{ok, reject, ◌>>=◌, ◌>>◌}
use cartridge_runtime.Network.Limits.{
  Result, simulation_limits, packet_count, packet_too_large, max_simulated_packets,
  max_message_bytes,
}

pub record SimulationConfig : Type 0 where
  pub base_latency_ms : ℕ
  pub jitter_ms : ℕ
  pub loss_per_million : ℕ
  pub reorder_per_million : ℕ
  pub seed : ℕ

pub record SimulatedPacket : Type 0 where
  pub sequence : ℕ
  pub deliver_at_ms : ℕ
  pub payload : Bytes

-- `random_u32`: the next state, and the upper half of it.
unfoldable pub next_state : ℕ → ℕ
next_state state =
    (state * 6_364_136_223_846_793_005 % u64_mod + 1_442_695_040_888_963_407) % u64_mod

unfoldable pub upper_half : ℕ → ℕ
upper_half state = state / 2 ^ 32

-- `saturating_mul(2).saturating_add(1)` on `u32`.
unfoldable pub spread : ℕ → ℕ
spread jitter_ms = min (min (jitter_ms * 2) (2 ^ 32 - 1) + 1) (2 ^ 32 - 1)

-- The generator after the jitter, and the jitter.
unfoldable pub draw_jitter : ℕ → ℕ → ℕ × ℕ
unfolding next_state upper_half
draw_jitter jitter_ms state =
    if spread jitter_ms == 0
    then (state, 0)
    else (next_state state, upper_half (next_state state) % spread jitter_ms)

unfoldable pub latency : SimulationConfig → ℕ → ℕ
latency config jitter = min (config.base_latency_ms + jitter) (2 ^ 32 - 1) - config.jitter_ms

-- A packet that is not lost, when the generator is at `state`: the generator after it, and the packet.
unfoldable pub deliver : SimulationConfig → ℕ → ℕ → Bytes → ℕ × SimulatedPacket
unfolding draw_jitter latency
deliver config state sequence payload =
    let (drawn, jitter) = draw_jitter config.jitter_ms state in
    let reorder = ltb (upper_half (next_state drawn) % 1_000_000) config.reorder_per_million in
    (
      next_state drawn,
      record {
        sequence = sequence;
        deliver_at_ms =
            latency config jitter - (if reorder then min config.base_latency_ms 10 else 0);
        payload = payload;
      },
    )

-- The loop of `simulate`, from the generator and the output so far.
unfoldable pub simulate_from :
    SimulationConfig → ℕ → List SimulatedPacket → List (ℕ × Bytes) → Result (List SimulatedPacket)
unfolding deliver
simulate_from config state output [] = ok output
simulate_from config state output ((sequence, payload) ∷ packets) = do
  reject (leb max_simulated_packets (length output)) packet_count
  reject (ltb max_message_bytes (length payload)) packet_too_large
  (let lost = simulate_from config (next_state state) output packets in
      let (after, packet) = deliver config (next_state state) sequence payload in
      let kept = simulate_from config after (output ++ packet ∷ []) packets in
      if ltb (upper_half (next_state state) % 1_000_000) config.loss_per_million
      then lost
      else kept)

-- `sort_by_key` of the delivery with the sequence, which is stable.
unfoldable pub before : SimulatedPacket → SimulatedPacket → Bool
before p q =
    ltb p.deliver_at_ms q.deliver_at_ms
    || (p.deliver_at_ms == q.deliver_at_ms && leb p.sequence q.sequence)

unfoldable pub insert_packet : SimulatedPacket → List SimulatedPacket → List SimulatedPacket
unfolding before
insert_packet p [] = p ∷ []
insert_packet p (q ∷ qs) =
    let rest = insert_packet p qs in if before p q then p ∷ q ∷ qs else q ∷ rest

unfoldable pub sort_packets : List SimulatedPacket → List SimulatedPacket
unfolding insert_packet
sort_packets [] = []
sort_packets (p ∷ ps) = insert_packet p (sort_packets ps)

unfoldable pub simulate : SimulationConfig → List (ℕ × Bytes) → Result (List SimulatedPacket)
unfolding simulate_from sort_packets
simulate config packets = do
  reject
      (ltb 60_000 config.base_latency_ms
        || ltb 60_000 config.jitter_ms
        || ltb 1_000_000 config.loss_per_million
        || ltb 1_000_000 config.reorder_per_million)
      simulation_limits
  output ← simulate_from config config.seed [] packets
  ok (sort_packets output)
