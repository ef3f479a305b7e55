-- ===== src/Network/Limits.antt =====
-- The limits of crates/cartridge-network/src/lib.rs, and its errors without their messages.
use cartridge_runtime.Prelude.{ℕ, ◌*◌}
use cartridge_runtime.Prelude.Results

abbrev pub network_format_version : ℕ
network_format_version = 1

abbrev pub max_http_request_bytes : ℕ
max_http_request_bytes = 1024 * 1024

abbrev pub max_http_response_bytes : ℕ
max_http_response_bytes = 4 * 1024 * 1024

abbrev pub max_http_headers : ℕ
max_http_headers = 128

abbrev pub max_http_header_bytes : ℕ
max_http_header_bytes = 64 * 1024

abbrev pub max_service_request_bytes : ℕ
max_service_request_bytes = 256 * 1024

abbrev pub max_service_response_bytes : ℕ
max_service_response_bytes = 256 * 1024

abbrev pub max_service_path_bytes : ℕ
max_service_path_bytes = 8192

abbrev pub max_http_scopes : ℕ
max_http_scopes = 128

abbrev pub max_fixtures : ℕ
max_fixtures = 4096

abbrev pub max_channel_messages : ℕ
max_channel_messages = 4096

abbrev pub max_message_bytes : ℕ
max_message_bytes = 1024 * 1024

abbrev pub max_document_operations : ℕ
max_document_operations = 100_000

abbrev pub max_document_bytes : ℕ
max_document_bytes = 16 * 1024 * 1024

abbrev pub max_asset_bytes : ℕ
max_asset_bytes = 128 * 1024 * 1024

abbrev pub asset_chunk_bytes : ℕ
asset_chunk_bytes = 64 * 1024

abbrev pub max_simulated_packets : ℕ
max_simulated_packets = 100_000

abbrev pub max_rollback_datagrams : ℕ
max_rollback_datagrams = 65_536

pub data Error : Type 0 where
  scope_scheme scope_plain scope_host scope_prefix scope_methods policy_limits url_invalid : Error
  url_credentials out_of_scope response_too_large response_status request_too_large : Error
  header_count header_invalid header_duplicate header_forbidden header_overflow header_bytes : Error
  service_identity service_limits fixtures_invalid no_fixture fixture_limit : Error
  peer_key peer_mismatch shared_secret message_too_large encryption_failed send_overflow : Error
  message_identity nonce_invalid ciphertext_invalid ciphertext_too_large authentication_failed :
      Error
  receive_overflow discovery_invalid channel_limits channel_quota token_invalid : Error
  other_document value_too_large operation_limit byte_overflow byte_quota not_encoded : Error
  asset_too_large chunk_invalid asset_identity simulation_limits packet_count packet_too_large :
      Error
  window_invalid datagram_too_large window_full : Error

abbrev pub Result {ℓ} : Type ℓ → Type ℓ
Result A = Results.Result Error A
