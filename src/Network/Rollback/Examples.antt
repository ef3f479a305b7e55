-- ===== src/Network/Rollback/Examples.antt =====
-- A window that gets one datagram twice and one that is too old.
use cartridge_runtime.Prelude.{ℕ, ◌≤◌, refl, List, [], ◌∷◌, arith}
use cartridge_runtime.Network.Rollback.{RollbackDatagram, RollbackWindow, new_window}
use cartridge_runtime.Network.Rollback.Once.{accepted, accepted_le}

abbrev datagram : ℕ → ℕ → RollbackDatagram
datagram tick sequence = record { tick = tick; sequence = sequence; payload = 1 ∷ 2 ∷ [] }

abbrev opened : RollbackWindow
opened = record { newest_tick = 0; max_rollback_ticks = 8; seen = [] }

abbrev datagrams : List RollbackDatagram
datagrams = datagram 5 1 ∷ datagram 5 1 ∷ datagram 20 2 ∷ datagram 5 1 ∷ []

accepted_le_example : accepted opened datagrams 5 1 ≤ 1
unfolding new_window
accepted_le_example = accepted_le 8 opened datagrams 5 1 refl (ground arith)
