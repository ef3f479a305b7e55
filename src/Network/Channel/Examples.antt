-- ===== src/Network/Channel/Examples.antt =====
-- A channel of two messages and four bytes.
use cartridge_runtime.Prelude.{refl, List, [], ◌∷◌}
use cartridge_runtime.Network.Channel.{MessageChannel, new_channel}
use cartridge_runtime.Network.Channel.Order.{Call, sends, receives, calls, fresh, Fifo, calls-Fifo}

abbrev opened : MessageChannel
opened = record { queue = []; max_messages = 2; max_bytes = 4; bytes = 0 }

abbrev traffic : List Call
traffic =
    sends (1 ∷ 2 ∷ [])
    ∷ sends (3 ∷ 4 ∷ 5 ∷ [])
    ∷ sends (6 ∷ [])
    ∷ receives
    ∷ receives
    ∷ receives
    ∷ []

calls-Fifo_example : Fifo (calls (fresh opened) traffic)
unfolding new_channel
calls-Fifo_example = calls-Fifo 2 4 opened refl traffic
