-- ===== src/Supervisor/Names.antt =====
-- The checks of names, texts and digests in crates/cartridge-engine/src/lib.rs.
use cartridge_runtime.Prelude.{ℕ, Bool, not, ◌&&◌, ◌||◌, leb, ◌==◌, all, any, is_empty, length}
use cartridge_runtime.Prelude.Text.{Text, len}
use cartridge_runtime.Prelude.Text
use cartridge_runtime.Prelude.Ascii.{
  is_ascii_lowercase, is_ascii_digit, starts_with_char, ends_with_char, is_control,
}

unfoldable pub valid_name : Text → Bool
valid_name value =
    not (is_empty value)
    && leb (len value) 64
    && all (λ b. is_ascii_lowercase b || is_ascii_digit b || b == b'-') (Text.bytes value)
    && not (starts_with_char b'-' value)
    && not (ends_with_char b'-' value)

-- `char::is_whitespace`, the property White_Space of Unicode.
unfoldable pub is_whitespace : ℕ → Bool
is_whitespace c =
    (leb 9 c && leb c 13)
    || c == 32
    || c == 133
    || c == 160
    || c == 5760
    || (leb 8192 c && leb c 8202)
    || c == 8232
    || c == 8233
    || c == 8239
    || c == 8287
    || c == 12288

-- A text trims to the empty one if all of it is white space.
unfoldable pub valid_text : Text → ℕ → Bool → Bool
unfolding is_whitespace
valid_text value maximum allow_empty =
    (allow_empty || not (all is_whitespace value))
    && leb (length value) maximum
    && not (any is_control value)

unfoldable pub is_digest : Text → Bool
is_digest value =
    len value == 64 && all (λ b. is_ascii_digit b || (leb b'a' b && leb b b'f')) (Text.bytes value)
