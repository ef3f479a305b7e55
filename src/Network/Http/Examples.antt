-- ===== src/Network/Http/Examples.antt =====
-- A request to a service on the same machine, and its recorded response.
use cartridge_runtime.Prelude.{◌≡◌, refl, false, none, some, [], ◌∷◌, if◌then◌else◌}
use cartridge_runtime.Prelude.Text.{Text, text_eq, text_cmp, text_ord}
use cartridge_runtime.Prelude.Text
use cartridge_runtime.Prelude.Ascii.{starts_with_char, ends_with_char}
use cartridge_runtime.Prelude.Strings.{
  lower_char, to_ascii_lowercase, eq_ignore_ascii_case, strip_prefix, starts_with, contains_text,
}
use cartridge_runtime.Prelude.Sets.{contains}
use cartridge_runtime.Prelude.Map
use cartridge_runtime.Prelude.Results.{ok, ◌>>=◌}
use cartridge_runtime.Network.Http.Headers.{
  validate_headers, check_headers, bad_header, is_forbidden, name_byte, path_prefix_matches,
  default_port, is_loopback_host,
}
use cartridge_runtime.Network.Http.Policy.{
  HttpMethod, HttpPolicy, HttpRequest, HttpResponse, Url, Web, authorize, validate_scope,
  validate_scopes, validate_policy, validate_request, validate_response, permits, fingerprint,
}
use cartridge_runtime.Network.Http.Policy.Authorized.{IsAuthorized, authorize-IsAuthorized}
use cartridge_runtime.Network.Http.Fixtures.{
  HttpFixtures, new_fixtures, bad_document, check_room, insert, send, replay,
}
use cartridge_runtime.Network.Http.Fixtures.Replay.{replay-insert}

abbrev local : Url
local = record {
  scheme = Text.text "http";
  username = [];
  password = none;
  fragment = none;
  host_str = some (Text.text "LOCALHOST");
  port_or_known_default = some 80;
  path = Text.text "/api/v1";
}

-- Every URL has the parts of `local`; a request's fingerprint is its body.
abbrev web : Web
web = record { parse = λ t. some local; encode = λ r. some r.body; digest = λ b. b }

abbrev policy : HttpPolicy
policy = record {
  scopes =
      record {
        scheme = Text.text "http";
        host = Text.text "localhost";
        port = none;
        path_prefix = Text.text "/api";
        methods = HttpMethod.get ∷ [];
      }
      ∷ [];
  max_request_bytes = 1_024;
  max_response_bytes = 1_024;
  max_redirects = 0;
}

abbrev request : HttpRequest
request = record {
  method = HttpMethod.get;
  url = Text.text "http://LOCALHOST/api/v1";
  headers = (Text.text "Accept", Text.text "*/*") ∷ [];
  body = [];
}

abbrev other : HttpRequest
other = record request { body = 1 ∷ [] }

abbrev response : HttpResponse
response = record { status = 200; headers = []; body = 7 ∷ 7 ∷ [] }

abbrev recorded : HttpFixtures
recorded = record { format_version = 1; responses = ([], response) ∷ [] }

authorize-IsAuthorized_example : IsAuthorized policy request local
unfolding authorize validate_policy validate_scopes validate_scope validate_request validate_headers
    check_headers bad_header is_forbidden name_byte permits path_prefix_matches default_port
    is_loopback_host lower_char to_ascii_lowercase eq_ignore_ascii_case strip_prefix starts_with
    contains_text starts_with_char ends_with_char contains text_eq text_cmp Text.bytes Text.len
authorize-IsAuthorized_example = authorize-IsAuthorized web policy request local refl

replay-insert_example :
    (bad_document recorded ≡ false)
    × (replay web recorded policy request ≡ ok response)
    × (send web recorded other ≡ (do
      mine ← fingerprint web other
      print ← fingerprint web request
      if text_eq mine print then ok response else send web new_fixtures other))
unfolding insert check_room fingerprint validate_response authorize validate_policy validate_scopes
    validate_scope validate_request validate_headers check_headers bad_header is_forbidden name_byte
    permits path_prefix_matches default_port is_loopback_host lower_char to_ascii_lowercase
    eq_ignore_ascii_case strip_prefix starts_with contains_text starts_with_char ends_with_char
    contains text_eq text_cmp Text.bytes Text.len Map.get Map.insert
replay-insert_example =
    replay-insert web new_fixtures recorded policy request other response tt refl refl
