-- ===== src/Manifest/Names.antt =====
-- The names and texts of a manifest, crates/cartridge-core/src/manifest.rs, and the relative paths of
-- crates/cartridge-core/src/lib.rs.
use cartridge_runtime.Prelude.{
  ℕ, Bool, not, ◌&&◌, ◌||◌, ltb, ◌==◌, all, any, is_empty, is_some, length,
}
use cartridge_runtime.Prelude.Text.{Text, len, text_eq}
use cartridge_runtime.Prelude.Text
use cartridge_runtime.Prelude.Ascii.{
  is_ascii_lowercase, is_ascii_digit, starts_with_char, ends_with_char, is_control,
}
use cartridge_runtime.Prelude.Strings.{split, split_once, rsplit_once, join}
use cartridge_runtime.Prelude.Sets.{contains}
use cartridge_runtime.Prelude.Results.{ok, reject, ok_or, ◌>>=◌, ◌>>◌}
use cartridge_runtime.Supervisor.Names.{is_whitespace}
use cartridge_runtime.Manifest.Types.{
  Crates, Result, bad_id, bad_alias, bad_text, bad_interface, bad_capability, bad_path,
}

-- Lower-case letters, digits and dashes.
abbrev pub is_name_byte : ℕ → Bool
is_name_byte b = is_ascii_lowercase b || is_ascii_digit b || b == b'-'

abbrev pub has_outer_dash : Text → Bool
has_outer_dash value = starts_with_char b'-' value || ends_with_char b'-' value

-- A segment of a cartridge's id.
unfoldable pub is_segment : Text → Bool
is_segment segment =
    not (is_empty segment)
    && all is_name_byte (Text.bytes segment)
    && not (starts_with_char b'-' segment)
    && not (ends_with_char b'-' segment)

unfoldable pub validate_id : Text → Result (Unit {0})
unfolding is_segment
validate_id id = do
  reject (ltb 128 (len id) || ltb (length (split b'.' id)) 3) bad_id
  reject (not (all is_segment (split b'.' id))) bad_id

unfoldable pub validate_alias : Text → Result (Unit {0})
validate_alias value =
    reject
      (is_empty value
        || ltb 48 (len value)
        || not (all is_name_byte (Text.bytes value))
        || starts_with_char b'-' value
        || ends_with_char b'-' value)
      bad_alias

-- A text trims to the empty one if all of it is white space.
unfoldable pub validate_human_text : Text → ℕ → Bool → Result (Unit {0})
validate_human_text value maximum allow_empty =
    reject
      ((not allow_empty && all is_whitespace value)
        || ltb maximum (length value)
        || any is_control value)
      bad_text

unfoldable pub validate_wit_name : Text → Result (Unit {0})
validate_wit_name name =
    reject
      (is_empty name
        || ltb 64 (len name)
        || not (all is_name_byte (Text.bytes name))
        || has_outer_dash name)
      bad_interface

unfoldable pub validate_capability_name : Text → Result (Unit {0})
validate_capability_name value =
    reject (is_empty value || ltb 64 (len value) || not (all is_name_byte (Text.bytes value)))
      bad_capability

unfoldable pub is_sha256 : Text → Bool
is_sha256 value =
    len value == 64
    && all (λ b. is_ascii_digit b || (ltb 64 b && ltb b 71) || (ltb 96 b && ltb b 103))
        (Text.bytes value)

abbrev pub unsafe_part : Text → Bool
unsafe_part part =
    is_empty part
    || text_eq part (Text.text ".")
    || text_eq part (Text.text "..")
    || contains b':' part

unfoldable pub normalize_relative_path : Text → Result Text
normalize_relative_path path = do
  reject
      (is_empty path
        || starts_with_char b'/' path
        || starts_with_char b'\\' path
        || contains b'\\' path)
      bad_path
  reject (any unsafe_part (split b'/' path)) bad_path
  ok (join (Text.text "/") (split b'/' path))

module _ {V R : Type 0} (crates : Crates V R) where
  unfoldable pub validate_interface : Text → Result (Unit {0})
  unfolding validate_wit_name
  validate_interface value = do
    (path, version) ← ok_or (rsplit_once b'@' value) bad_interface
    reject (not (is_some (crates.parse version))) bad_interface
    (package_path, name) ← ok_or (split_once b'/' path) bad_interface
    (namespace, package_name) ← ok_or (split_once b':' package_path) bad_interface
    validate_wit_name namespace
    validate_wit_name package_name
    validate_wit_name name
