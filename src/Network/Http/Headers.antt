-- ===== src/Network/Http/Headers.antt =====
-- The checks of header maps, hosts and paths, crates/cartridge-network/src/lib.rs.
use cartridge_runtime.Prelude.{
  ℕ, ◌+◌, Bool, not, ◌&&◌, ◌||◌, Option, none, some, List, [], ◌∷◌, ltb, ◌==◌, length, any, all,
  is_empty, is_some_and, if◌then◌else◌,
}
use cartridge_runtime.Prelude.Text.{Text, text_eq, len}
use cartridge_runtime.Prelude.Text
use cartridge_runtime.Prelude.Ascii.{
  is_ascii_alphanumeric, is_control, starts_with_char, ends_with_char,
}
use cartridge_runtime.Prelude.Strings.{
  to_ascii_lowercase, eq_ignore_ascii_case, strip_prefix, starts_with, contains_text, split,
}
use cartridge_runtime.Prelude.Sets.{contains}
use cartridge_runtime.Prelude.Map.{Map}
use cartridge_runtime.Prelude.Words.{checked_add, u64_mod}
use cartridge_runtime.Prelude.Results.{reject, ok_or, ◌>>=◌, ◌>>◌}
use cartridge_runtime.Network.Limits.{
  Result, header_count, header_invalid, header_duplicate, header_forbidden, header_overflow,
  header_bytes, max_http_headers, max_http_header_bytes, max_service_path_bytes,
}

-- A byte of a header's name.
unfoldable pub name_byte : ℕ → Bool
name_byte b = is_ascii_alphanumeric b || contains b (Text.text "!#$%&'*+-.^_`|~")

unfoldable pub bad_header : Text → Text → Bool
unfolding name_byte
bad_header name value =
    is_empty name
    || ltb 256 (len name)
    || not (all name_byte (Text.bytes name))
    || any (λ c. c == 13 || c == 10 || c == 0) value

unfoldable pub is_forbidden : Text → Bool
is_forbidden lower = any (text_eq lower) (
    Text.text "connection"
    ∷ Text.text "proxy-authorization"
    ∷ Text.text "proxy-authenticate"
    ∷ Text.text "transfer-encoding"
    ∷ Text.text "upgrade"
    ∷ Text.text "host"
    ∷ Text.text "content-length"
    ∷ [])

-- The loop of `validate_headers`, from the lower names and the bytes so far.
unfoldable pub check_headers : List Text → ℕ → Map Text Text → Result (Unit {0})
unfolding bad_header is_forbidden
check_headers normalized bytes [] = reject (ltb max_http_header_bytes bytes) header_bytes
check_headers normalized bytes ((name, value) ∷ rest) = do
  reject (bad_header name value) header_invalid
  reject (any (text_eq (to_ascii_lowercase name)) normalized) header_duplicate
  reject (is_forbidden (to_ascii_lowercase name)) header_forbidden
  total ← ok_or (checked_add u64_mod bytes (len name + len value)) header_overflow
  check_headers (to_ascii_lowercase name ∷ normalized) total rest

unfoldable pub validate_headers : Map Text Text → Result (Unit {0})
unfolding check_headers
validate_headers headers = do
  reject (ltb max_http_headers (length headers)) header_count
  check_headers [] 0 headers

-- `split('?').next()`
abbrev pub first_part : List Text → Option Text
first_part [] = none
first_part (p ∷ ps) = some p

unfoldable pub valid_service_path : Text → Bool
valid_service_path path =
    not (
      is_empty path
      || ltb max_service_path_bytes (len path)
      || not (starts_with_char b'/' path)
      || starts_with (Text.text "//") path
      || contains b'\\' path
      || contains b'#' path
      || any is_control path)
    && not (
        contains_text (Text.text "%2e") (to_ascii_lowercase path)
        || contains_text (Text.text "%2f") (to_ascii_lowercase path)
        || contains_text (Text.text "%5c") (to_ascii_lowercase path))
    && is_some_and (first_part (split b'?' path)) (λ value.
      all (λ part. not (text_eq part (Text.text ".")) && not (text_eq part (Text.text "..")))
        (split b'/' value))

unfoldable pub path_prefix_matches : Text → Text → Bool
path_prefix_matches prefix path =
    text_eq prefix (Text.text "/")
    || text_eq path prefix
    || is_some_and (strip_prefix prefix path)
        (λ rest. ends_with_char b'/' prefix || starts_with_char b'/' rest)

unfoldable pub default_port : Text → Option ℕ
default_port scheme =
    if text_eq scheme (Text.text "https")
    then some 443
    else if text_eq scheme (Text.text "http")
    then some 80
    else none

unfoldable pub is_loopback_host : Text → Bool
is_loopback_host host =
    eq_ignore_ascii_case host (Text.text "localhost")
    || text_eq host (Text.text "127.0.0.1")
    || text_eq host (Text.text "[::1]")
    || text_eq host (Text.text "::1")
