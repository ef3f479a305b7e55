-- ===== src/Network/Simulation/Examples.antt =====
-- Two packets through a network without loss.
use cartridge_runtime.Prelude.{ℕ, ◌≤◌, refl, List, [], ◌∷◌, length}
use cartridge_runtime.Prelude.Text.{Bytes}
use cartridge_runtime.Network.Limits.{max_simulated_packets}
use cartridge_runtime.Network.Simulation.{
  SimulationConfig, SimulatedPacket, next_state, upper_half, spread, draw_jitter, latency, deliver,
  simulate_from, before, insert_packet, sort_packets, simulate,
}
use cartridge_runtime.Network.Simulation.Output.{IsOrdered, simulate-IsOrdered}

abbrev config : SimulationConfig
config = record {
  base_latency_ms = 40;
  jitter_ms = 0;
  loss_per_million = 0;
  reorder_per_million = 0;
  seed = 7;
}

abbrev packets : List (ℕ × Bytes)
packets = (2, 1 ∷ []) ∷ (1, 5 ∷ 6 ∷ []) ∷ []

abbrev delivered : List SimulatedPacket
delivered =
    record { sequence = 1; deliver_at_ms = 40; payload = 5 ∷ 6 ∷ [] }
    ∷ record { sequence = 2; deliver_at_ms = 40; payload = 1 ∷ [] }
    ∷ []

simulate-IsOrdered_example :
    IsOrdered delivered
    × (length delivered ≤ max_simulated_packets)
    × (length delivered ≤ length packets)
unfolding simulate simulate_from deliver latency draw_jitter spread next_state upper_half before
    insert_packet sort_packets
simulate-IsOrdered_example = simulate-IsOrdered config packets delivered refl
