-- ===== src/Network/Rollback.antt =====
-- The rollback window of crates/cartridge-network/src/lib.rs, which drops datagrams that are too old
-- or that it has seen.
pub mod Once
mod Examples
use cartridge_runtime.Prelude.{
  ℕ, ◌-◌, Bool, true, false, ◌&&◌, ◌||◌, List, [], ◌∷◌, ltb, leb, ◌==◌, length, if◌then◌else◌, any,
}
use Prim.Native.Nat.{max}
use cartridge_runtime.Prelude.Text.{Bytes}
use cartridge_runtime.Prelude.Words.{saturating_add}
use cartridge_runtime.Prelude.Sets.{keep}
use cartridge_runtime.Prelude.Results.{ok, err, reject, ◌>>=◌, ◌>>◌}
use cartridge_runtime.Network.Limits.{
  Result, window_invalid, datagram_too_large, window_full, max_message_bytes,
  max_rollback_datagrams,
}

pub record RollbackDatagram : Type 0 where
  pub tick : ℕ
  pub sequence : ℕ
  pub payload : Bytes

-- `seen` holds ticks with sequence numbers; the order of the set shows nowhere.
pub record RollbackWindow : Type 0 where
  pub newest_tick : ℕ
  pub max_rollback_ticks : ℕ
  pub seen : List (ℕ × ℕ)

pub new_window : ℕ → Result RollbackWindow
new_window max_rollback_ticks = do
  reject (max_rollback_ticks == 0 || ltb 10_000 max_rollback_ticks) window_invalid
  ok (record { newest_tick = 0; max_rollback_ticks = max_rollback_ticks; seen = [] })

unfoldable pub is_seen : ℕ → ℕ → List (ℕ × ℕ) → Bool
is_seen tick sequence [] = false
is_seen tick sequence ((t, n) ∷ seen) = (tick == t && sequence == n) || is_seen tick sequence seen

-- The window as it stands once the datagram's tick is counted: older members are gone.
pub advance : RollbackWindow → ℕ → RollbackWindow
advance w tick =
    let newest = max w.newest_tick tick in
    record w {
      newest_tick = newest;
      seen = keep (λ p. leb (newest - w.max_rollback_ticks) p.0) w.seen;
    }

pub accept_advanced : RollbackWindow → ℕ → ℕ → Result Bool × RollbackWindow
accept_advanced w tick sequence =
    if leb max_rollback_datagrams (length w.seen)
    then (err window_full, w)
    else if is_seen tick sequence w.seen
    then (ok false, w)
    else (ok true, record w { seen = (tick, sequence) ∷ w.seen })

pub accept : RollbackWindow → RollbackDatagram → Result Bool × RollbackWindow
unfolding advance accept_advanced
accept w packet =
    if ltb max_message_bytes (length packet.payload)
    then (err datagram_too_large, w)
    else if ltb (saturating_add packet.tick w.max_rollback_ticks) w.newest_tick
    then (ok false, w)
    else accept_advanced (advance w packet.tick) packet.tick packet.sequence
