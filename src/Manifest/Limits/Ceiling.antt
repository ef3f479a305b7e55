-- ===== src/Manifest/Limits/Ceiling.antt =====
-- What limits come to under a ceiling.
use Prim.Native.Nat.{min}
use cartridge_runtime.Prelude.{ℕ, ◌*◌, ◌≤◌, not, ◌||◌, ltb, ◌==◌, ◌≡◌, ◌↔◌, refl, arith}
use cartridge_runtime.Prelude.Results.{ok, reject, >>-eq-ok}
use cartridge_runtime.Manifest.Types.{
  RuntimeLimits, Error, bad_limits, max_fuel, max_memory_bytes, max_storage_bytes, max_storage_keys,
  max_storage_value_bytes, max_timeout_ms, max_graphics_pixels, max_graphics_commands,
  max_audio_nodes, max_audio_events, max_audio_frames,
}
use cartridge_runtime.Manifest.Limits.{within, validate_limits, constrained_by, AtMost}

abbrev Within : ℕ → ℕ → ℕ → Type 0
Within low high x = (low ≤ x) × (x ≤ high)

within_iff :
    (low high x : ℕ)
    → (reject {E = Error} (not (within low high x)) bad_limits ≡ ok tt) ↔ Within low high x
within_iff low high x = ground arith

values_iff :
    (x bytes : ℕ)
    → (reject {E = Error} (x == 0 || ltb bytes x || ltb max_storage_value_bytes x) bad_limits
        ≡ ok tt)
      ↔ Within 1 bytes x × (x ≤ max_storage_value_bytes)
values_iff x bytes = ground arith

-- What `validate_limits` tests.
abbrev IsBounded : RuntimeLimits → Type 0
IsBounded l =
    Within 1 max_fuel l.fuel
    × Within (1024 * 1024) max_memory_bytes l.memory_bytes
    × Within 1 max_timeout_ms l.timeout_ms
    × Within 1 max_storage_bytes l.storage_bytes
    × Within 1 max_storage_keys l.storage_keys
    × (Within 1 l.storage_bytes l.storage_value_bytes
        × (l.storage_value_bytes ≤ max_storage_value_bytes))
    × Within 1 max_graphics_pixels l.graphics_pixels
    × Within 1 max_graphics_commands l.graphics_commands
    × Within 1 max_audio_nodes l.audio_nodes
    × Within 1 max_audio_events l.audio_events
    × Within 1 max_audio_frames l.audio_frames

validate_limits-IsBounded : (l : RuntimeLimits) → validate_limits l ≡ ok tt → IsBounded l
unfolding validate_limits
validate_limits-IsBounded l h =
    let (a, h1) = >>-eq-ok (reject (not (within 1 max_fuel l.fuel)) bad_limits) _ h in
    let (b, h2) =
      >>-eq-ok (reject (not (within (1024 * 1024) max_memory_bytes l.memory_bytes)) bad_limits) _
        h1 in
    let (c, h3) = >>-eq-ok (reject (not (within 1 max_timeout_ms l.timeout_ms)) bad_limits) _ h2 in
    let (d, h4) =
      >>-eq-ok (reject (not (within 1 max_storage_bytes l.storage_bytes)) bad_limits) _ h3 in
    let (e, h5) =
      >>-eq-ok (reject (not (within 1 max_storage_keys l.storage_keys)) bad_limits) _ h4 in
    let (f, h6) =
      >>-eq-ok
        (reject
          (l.storage_value_bytes == 0
            || ltb l.storage_bytes l.storage_value_bytes
            || ltb max_storage_value_bytes l.storage_value_bytes)
          bad_limits)
        _ h5 in
    let (g, h7) =
      >>-eq-ok (reject (not (within 1 max_graphics_pixels l.graphics_pixels)) bad_limits) _ h6 in
    let (i, h8) =
      >>-eq-ok (reject (not (within 1 max_graphics_commands l.graphics_commands)) bad_limits) _
        h7 in
    let (j, h9) =
      >>-eq-ok (reject (not (within 1 max_audio_nodes l.audio_nodes)) bad_limits) _ h8 in
    let (k, m) =
      >>-eq-ok (reject (not (within 1 max_audio_events l.audio_events)) bad_limits) _ h9 in
    (
      (within_iff _ _ _).0 a,
      (within_iff _ _ _).0 b,
      (within_iff _ _ _).0 c,
      (within_iff _ _ _).0 d,
      (within_iff _ _ _).0 e,
      (values_iff _ _).0 f,
      (within_iff _ _ _).0 g,
      (within_iff _ _ _).0 i,
      (within_iff _ _ _).0 j,
      (within_iff _ _ _).0 k,
      (within_iff _ _ _).0 m,
    )

IsBounded-valid : (l : RuntimeLimits) → IsBounded l → validate_limits l ≡ ok tt
unfolding validate_limits
IsBounded-valid l (a, b, c, d, e, f, g, i, j, k, m) =
    rw
      (
        (within_iff 1 max_fuel l.fuel).1 a,
        (within_iff (1024 * 1024) max_memory_bytes l.memory_bytes).1 b,
        (within_iff 1 max_timeout_ms l.timeout_ms).1 c,
        (within_iff 1 max_storage_bytes l.storage_bytes).1 d,
        (within_iff 1 max_storage_keys l.storage_keys).1 e,
        (values_iff l.storage_value_bytes l.storage_bytes).1 f,
        (within_iff 1 max_graphics_pixels l.graphics_pixels).1 g,
        (within_iff 1 max_graphics_commands l.graphics_commands).1 i,
        (within_iff 1 max_audio_nodes l.audio_nodes).1 j,
        (within_iff 1 max_audio_events l.audio_events).1 k,
        (within_iff 1 max_audio_frames l.audio_frames).1 m,
      )
      refl

least : (low high x y : ℕ) → Within low high x → Within low high y → Within low high (min x y)
least low high x y h k = (omega arith, omega arith)

least_value :
    (v w a b : ℕ)
    → (Within 1 a v × (v ≤ max_storage_value_bytes))
    → (Within 1 b w × (w ≤ max_storage_value_bytes))
    → (Within 1 (min a b) (min (min v w) (min a b))
        × (min (min v w) (min a b) ≤ max_storage_value_bytes))
least_value v w a b h k = ((omega arith, omega arith), omega arith)

IsBounded-constrained_by :
    (l ceiling : RuntimeLimits)
    → IsBounded l
    → IsBounded ceiling
    → IsBounded (constrained_by l ceiling)
unfolding constrained_by
IsBounded-constrained_by l ceiling (a, b, c, d, e, f, g, i, j, k, m)
      (p, q, r, s, t, u, v, w, x, y, z) =
    (
      least _ _ _ _ a p,
      least _ _ _ _ b q,
      least _ _ _ _ c r,
      least _ _ _ _ d s,
      least _ _ _ _ e t,
      least_value _ _ _ _ f u,
      least _ _ _ _ g v,
      least _ _ _ _ i w,
      least _ _ _ _ j x,
      least _ _ _ _ k y,
      least _ _ _ _ m z,
    )

AtMost-constrained_by :
    (l ceiling m : RuntimeLimits)
    → validate_limits m ≡ ok tt
    → AtMost m l
    → AtMost m ceiling
    → AtMost m (constrained_by l ceiling)
unfolding constrained_by
AtMost-constrained_by l ceiling m v a b =
    let values : Within 1 m.storage_bytes m.storage_value_bytes =
      (validate_limits-IsBounded m v).5.0 in
    ground arith

below_both :
    (l ceiling : RuntimeLimits)
    → AtMost (constrained_by l ceiling) l × AtMost (constrained_by l ceiling) ceiling
unfolding constrained_by
below_both l ceiling = (ground arith, ground arith)

-- Valid limits and a valid ceiling constrain to valid limits, which are at most both, and valid limits
-- that are at most both are at most these.
pub constrained_by_greatest :
    (l ceiling m : RuntimeLimits)
    → validate_limits l ≡ ok tt
    → validate_limits ceiling ≡ ok tt
    → validate_limits m ≡ ok tt
    → AtMost m l
    → AtMost m ceiling
    → (validate_limits (constrained_by l ceiling) ≡ ok tt)
      × (AtMost (constrained_by l ceiling) l × AtMost (constrained_by l ceiling) ceiling)
      × AtMost m (constrained_by l ceiling)
constrained_by_greatest l ceiling m h k v a b = (
  IsBounded-valid (constrained_by l ceiling) (
      IsBounded-constrained_by l ceiling (validate_limits-IsBounded l h)
        (validate_limits-IsBounded ceiling k)),
  below_both l ceiling,
  AtMost-constrained_by l ceiling m v a b,
)
