-- ===== src/Network/Channel.antt =====
-- `MessageChannel`, crates/cartridge-network/src/lib.rs.
pub mod Order
mod Examples
use cartridge_runtime.Prelude.{
  ℕ, ◌+◌, ◌-◌, ◌%◌, Bool, ◌||◌, Option, some, none, List, [], ◌∷◌, ◌++◌, ltb, leb, ◌==◌, length,
}
use cartridge_runtime.Prelude.Text.{Bytes}
use cartridge_runtime.Prelude.Words.{saturating_add, u64_mod}
use cartridge_runtime.Prelude.Results.{ok, err, reject, ◌>>◌}
use cartridge_runtime.Network.Limits.{
  Result, channel_limits, channel_quota, max_asset_bytes, max_channel_messages, max_message_bytes,
}

pub record MessageChannel : Type 0 where
  pub queue : List Bytes
  pub max_messages : ℕ
  pub max_bytes : ℕ
  pub bytes : ℕ

unfoldable pub new_channel : ℕ → ℕ → Result MessageChannel
new_channel max_messages max_bytes = do
  reject
      (max_messages == 0
        || ltb max_channel_messages max_messages
        || max_bytes == 0
        || ltb max_asset_bytes max_bytes)
      channel_limits
  ok record { queue = []; max_messages = max_messages; max_bytes = max_bytes; bytes = 0 }

unfoldable pub send : MessageChannel → Bytes → Result MessageChannel
send c value = do
  reject
      (ltb max_message_bytes (length value)
        || leb c.max_messages (length c.queue)
        || ltb c.max_bytes (saturating_add c.bytes (length value)))
      channel_quota
  ok (record c { queue = c.queue ++ value ∷ []; bytes = c.bytes + length value })

-- `-=` on `usize`, which wraps around.
unfoldable pub receive : MessageChannel → Option Bytes × MessageChannel
receive c = elim c.queue [
  | [] ↦ (none, c)
  | value ∷ rest ↦
      (some value, record c { queue = rest; bytes = (c.bytes + u64_mod - length value) % u64_mod })
]
