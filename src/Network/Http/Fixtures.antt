-- ===== src/Network/Http/Fixtures.antt =====
-- Recorded responses, `HttpFixtures` of crates/cartridge-network/src/lib.rs.
pub mod Replay
use cartridge_runtime.Prelude.{
  ℕ, Bool, not, ◌&&◌, ◌||◌, Option, none, some, [], ltb, leb, ◌==◌, length, is_some, if◌then◌else◌,
}
use cartridge_runtime.Prelude.Text.{Text, text_ord}
use cartridge_runtime.Prelude.Map
use cartridge_runtime.Prelude.Map.{Map}
use cartridge_runtime.Prelude.Results.{ok, err, reject, ok_or, ◌>>=◌, ◌>>◌}
use cartridge_runtime.Network.Limits.{
  Result, fixtures_invalid, no_fixture, fixture_limit, max_fixtures, network_format_version,
}
use cartridge_runtime.Network.Http.Policy.{
  HttpPolicy, HttpRequest, HttpResponse, Web, authorize, validate_response, fingerprint,
}

pub record HttpFixtures : Type 0 where
  pub format_version : ℕ
  pub responses : Map Text HttpResponse

abbrev pub new_fixtures : HttpFixtures
new_fixtures = record { format_version = network_format_version; responses = [] }

abbrev pub bad_document : HttpFixtures → Bool
bad_document f =
    not (f.format_version == network_format_version) || ltb max_fixtures (length f.responses)

-- `HttpTransport::send` on fixtures.
unfoldable pub send : Web → HttpFixtures → HttpRequest → Result HttpResponse
send w f r = do
  reject (bad_document f) fixtures_invalid
  print ← fingerprint w r
  ok_or (Map.get print f.responses) no_fixture

-- The second test of `insert`, which takes the fingerprint only of a full document.
unfoldable pub check_room : Web → HttpFixtures → HttpRequest → Result (Unit {0})
check_room w f r =
    if leb max_fixtures (length f.responses)
    then (do
      print ← fingerprint w r
      reject (not (is_some (Map.get print f.responses))) fixture_limit)
    else ok tt

unfoldable pub insert :
    Web → HttpFixtures → HttpPolicy → HttpRequest → HttpResponse → Result HttpFixtures
unfolding check_room
insert w f p r response = do
  url ← authorize w p r
  validate_response p response
  check_room w f r
  print ← fingerprint w r
  ok (record f { responses = Map.insert print response f.responses })

unfoldable pub replay : Web → HttpFixtures → HttpPolicy → HttpRequest → Result HttpResponse
replay w f p r = do
  reject (bad_document f) fixtures_invalid
  url ← authorize w p r
  print ← fingerprint w r
  response ← ok_or (Map.get print f.responses) no_fixture
  validate_response p response
  ok response
