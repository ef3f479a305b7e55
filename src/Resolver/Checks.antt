-- ===== src/Resolver/Checks.antt =====
-- The checks of ids, aliases and texts in crates/cartridge-core/src/resolver.rs.
pub mod Alias
use cartridge_runtime.Prelude.{
  ℕ, Bool, true, false, not, ◌&&◌, ◌||◌, List, ltb, leb, all, any, is_empty, is_some, length,
}
use cartridge_runtime.Prelude.Text.{Text, len}
use cartridge_runtime.Prelude.Text
use cartridge_runtime.Prelude.Ascii.{starts_with_char, ends_with_char, is_control}
use cartridge_runtime.Prelude.Strings.{split}
use cartridge_runtime.Prelude.Results.{Result, ok, err}
use cartridge_runtime.Supervisor.Names.{is_whitespace}
use cartridge_runtime.Manifest.Types.{Crates}
use cartridge_runtime.Manifest.Names.{is_name_byte, is_segment, validate_interface}

unfoldable pub is_cartridge_id : Text → Bool
is_cartridge_id value =
    leb (len value) 128 && leb 3 (length (split b'.' value)) && all is_segment (split b'.' value)

unfoldable pub is_alias : Text → Bool
is_alias value =
    not (is_empty value)
    && leb (len value) 48
    && all is_name_byte (Text.bytes value)
    && not (starts_with_char b'-' value)
    && not (ends_with_char b'-' value)

-- A text trims to the empty one if all of it is white space.
unfoldable pub is_bounded_text : Text → ℕ → Bool → Bool
is_bounded_text value maximum allow_empty =
    (allow_empty || not (all is_whitespace value))
    && leb (length value) maximum
    && not (any is_control value)

abbrev pub is_ok {ℓ κ} : {E : Type ℓ} {T : Type κ} → Result E T → Bool
is_ok (ok value) = true
is_ok (err fault) = false

module _ {V R : Type 0} (crates : Crates V R) where
  -- The tests of a list of interfaces, which locks, graphs and grants share.
  unfoldable pub bad_interfaces : List Text → Bool
  bad_interfaces interfaces =
      is_empty interfaces
      || ltb 64 (length interfaces)
      || any (λ i. not (is_bounded_text i 256 false) || not (is_ok (validate_interface crates i)))
          interfaces

  -- `is_bounded_text(version, 64, false)` and a version that parses.
  unfoldable pub bad_version : Text → Bool
  bad_version version =
      not (is_bounded_text version 64 false) || not (is_some (crates.parse version))
