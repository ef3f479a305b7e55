-- ===== src/Network/Http/Service.antt =====
-- Requests to a service and its responses, crates/cartridge-network/src/lib.rs.
use cartridge_runtime.Prelude.{ℕ, not, ◌&&◌, ◌||◌, ltb, leb, ◌==◌, length, all}
use cartridge_runtime.Prelude.Text.{Text, Bytes, len}
use cartridge_runtime.Prelude.Text
use cartridge_runtime.Prelude.Ascii.{is_ascii_digit}
use cartridge_runtime.Prelude.Map.{Map}
use cartridge_runtime.Prelude.Results.{reject, ◌>>◌}
use cartridge_runtime.Network.Limits.{
  Result, service_identity, service_limits, max_service_request_bytes, max_service_response_bytes,
}
use cartridge_runtime.Network.Http.Headers.{validate_headers, valid_service_path}
use cartridge_runtime.Network.Http.Policy.{HttpMethod}

pub record ServiceRequest : Type 0 where
  pub id : Text
  pub method : HttpMethod
  pub path : Text
  pub headers : Map Text Text
  pub body : Bytes

pub record ServiceResponse : Type 0 where
  pub status : ℕ
  pub headers : Map Text Text
  pub body : Bytes

unfoldable pub validate_service_request : ServiceRequest → Result (Unit {0})
validate_service_request r = do
  reject
      (not (len r.id == 64)
        || not (all (λ b. is_ascii_digit b || (leb b'a' b && leb b b'f')) (Text.bytes r.id)))
      service_identity
  reject (not (valid_service_path r.path) || ltb max_service_request_bytes (length r.body))
      service_limits
  validate_headers r.headers

unfoldable pub validate_service_response : ServiceResponse → Result (Unit {0})
validate_service_response r = do
  reject
      (not (leb 100 r.status && leb r.status 599) || ltb max_service_response_bytes (length r.body))
      service_limits
  validate_headers r.headers
