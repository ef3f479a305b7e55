-- ===== src/Manifest/Limits.antt =====
-- The limits of a run, crates/cartridge-core/src/manifest.rs.
pub mod Ceiling
use Prim.Native.Nat.{min}
use cartridge_runtime.Prelude.{
  ℕ, ◌*◌, ◌≤◌, Bool, not, ◌&&◌, ◌||◌, ltb, leb, ◌==◌, ◌≡◌, Bool-cases, arith,
}
use cartridge_runtime.Prelude.Results.{ok, reject, ◌>>◌, >>-eq-ok, reject-ok}
use cartridge_runtime.Manifest.Types.{
  RuntimeLimits, Result, bad_limits, max_fuel, max_memory_bytes, max_storage_bytes,
  max_storage_keys, max_storage_value_bytes, max_timeout_ms, max_graphics_pixels,
  max_graphics_commands, max_audio_nodes, max_audio_events, max_audio_frames,
}

abbrev pub maximum : RuntimeLimits
maximum = record {
  fuel = max_fuel;
  memory_bytes = max_memory_bytes;
  timeout_ms = max_timeout_ms;
  storage_bytes = max_storage_bytes;
  storage_keys = max_storage_keys;
  storage_value_bytes = max_storage_value_bytes;
  graphics_pixels = max_graphics_pixels;
  graphics_commands = max_graphics_commands;
  audio_nodes = max_audio_nodes;
  audio_events = max_audio_events;
  audio_frames = max_audio_frames;
}

-- `RuntimeLimits::default()`
abbrev pub default_limits : RuntimeLimits
default_limits = record {
  fuel = 10_000_000;
  memory_bytes = 64 * 1024 * 1024;
  timeout_ms = 30_000;
  storage_bytes = 1024 * 1024;
  storage_keys = 1024;
  storage_value_bytes = 256 * 1024;
  graphics_pixels = 2 * 1024 * 1024;
  graphics_commands = 8192;
  audio_nodes = 64;
  audio_events = 16_384;
  audio_frames = 480_000;
}

-- `(low..=high).contains(&value)`
abbrev pub within : ℕ → ℕ → ℕ → Bool
within low high value = leb low value && leb value high

-- `RuntimeLimits::validate`
unfoldable pub validate_limits : RuntimeLimits → Result (Unit {0})
validate_limits l = do
  reject (not (within 1 max_fuel l.fuel)) bad_limits
  reject (not (within (1024 * 1024) max_memory_bytes l.memory_bytes)) bad_limits
  reject (not (within 1 max_timeout_ms l.timeout_ms)) bad_limits
  reject (not (within 1 max_storage_bytes l.storage_bytes)) bad_limits
  reject (not (within 1 max_storage_keys l.storage_keys)) bad_limits
  reject
      (l.storage_value_bytes == 0
        || ltb l.storage_bytes l.storage_value_bytes
        || ltb max_storage_value_bytes l.storage_value_bytes)
      bad_limits
  reject (not (within 1 max_graphics_pixels l.graphics_pixels)) bad_limits
  reject (not (within 1 max_graphics_commands l.graphics_commands)) bad_limits
  reject (not (within 1 max_audio_nodes l.audio_nodes)) bad_limits
  reject (not (within 1 max_audio_events l.audio_events)) bad_limits
  reject (not (within 1 max_audio_frames l.audio_frames)) bad_limits

unfoldable pub constrained_by : RuntimeLimits → RuntimeLimits → RuntimeLimits
constrained_by l ceiling = record {
  fuel = min l.fuel ceiling.fuel;
  memory_bytes = min l.memory_bytes ceiling.memory_bytes;
  timeout_ms = min l.timeout_ms ceiling.timeout_ms;
  storage_bytes = min l.storage_bytes ceiling.storage_bytes;
  storage_keys = min l.storage_keys ceiling.storage_keys;
  storage_value_bytes =
      min (min l.storage_value_bytes ceiling.storage_value_bytes)
        (min l.storage_bytes ceiling.storage_bytes);
  graphics_pixels = min l.graphics_pixels ceiling.graphics_pixels;
  graphics_commands = min l.graphics_commands ceiling.graphics_commands;
  audio_nodes = min l.audio_nodes ceiling.audio_nodes;
  audio_events = min l.audio_events ceiling.audio_events;
  audio_frames = min l.audio_frames ceiling.audio_frames;
}

-- No budget of the one is above that of the other.
abbrev pub AtMost : RuntimeLimits → RuntimeLimits → Type 0
AtMost l m =
    (l.fuel ≤ m.fuel)
    × (l.memory_bytes ≤ m.memory_bytes)
    × (l.timeout_ms ≤ m.timeout_ms)
    × (l.storage_bytes ≤ m.storage_bytes)
    × (l.storage_keys ≤ m.storage_keys)
    × (l.storage_value_bytes ≤ m.storage_value_bytes)
    × (l.graphics_pixels ≤ m.graphics_pixels)
    × (l.graphics_commands ≤ m.graphics_commands)
    × (l.audio_nodes ≤ m.audio_nodes)
    × (l.audio_events ≤ m.audio_events)
    × (l.audio_frames ≤ m.audio_frames)
