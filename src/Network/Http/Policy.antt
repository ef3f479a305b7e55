-- ===== src/Network/Http/Policy.antt =====
-- Requests, responses, scopes and the policy, crates/cartridge-network/src/lib.rs. Parsed URLs, JSON
-- and the hash are third-party.
pub mod Authorized
use cartridge_runtime.Prelude.{
  ℕ, Bool, true, false, not, ◌&&◌, ◌||◌, Option, none, some, List, [], ◌∷◌, ltb, leb, ◌==◌, length,
  any, is_empty, is_some, is_some_and,
}
use cartridge_runtime.Prelude.Text.{Text, Bytes, text_eq, len}
use cartridge_runtime.Prelude.Text
use cartridge_runtime.Prelude.Ascii.{is_control, starts_with_char}
use cartridge_runtime.Prelude.Strings.{eq_ignore_ascii_case, contains_text}
use cartridge_runtime.Prelude.Sets.{contains}
use cartridge_runtime.Prelude.Map.{Map}
use cartridge_runtime.Prelude.Results.{ok, reject, ok_or, ◌>>=◌, ◌>>◌}
use cartridge_runtime.Network.Limits.{
  Result, scope_scheme, scope_plain, scope_host, scope_prefix, scope_methods, policy_limits,
  url_invalid, url_credentials, out_of_scope, response_too_large, response_status,
  request_too_large, not_encoded, max_http_request_bytes, max_http_response_bytes, max_http_scopes,
}
use cartridge_runtime.Network.Http.Headers.{
  validate_headers, path_prefix_matches, default_port, is_loopback_host,
}

pub data HttpMethod : Type 0 where
  get head post put patch delete : HttpMethod

pub record HttpScope : Type 0 where
  pub scheme : Text
  pub host : Text
  pub port : Option ℕ
  pub path_prefix : Text
  pub methods : List HttpMethod

pub record HttpPolicy : Type 0 where
  pub scopes : List HttpScope
  pub max_request_bytes : ℕ
  pub max_response_bytes : ℕ
  pub max_redirects : ℕ

pub record HttpRequest : Type 0 where
  pub method : HttpMethod
  pub url : Text
  pub headers : Map Text Text
  pub body : Bytes

pub record HttpResponse : Type 0 where
  pub status : ℕ
  pub headers : Map Text Text
  pub body : Bytes

-- What the accessors of a third-party `Url` answer.
pub record Url : Type 0 where
  pub scheme : Text
  pub username : Text
  pub password : Option Text
  pub fragment : Option Text
  pub host_str : Option Text
  pub port_or_known_default : Option ℕ
  pub path : Text

-- What third-party code computes: the parts of a URL, which may not parse, the JSON of a request,
-- which the encoder may refuse, and the hexadecimal SHA-256 of bytes.
pub record Web : Type 0 where
  pub parse : Text → Option Url
  pub encode : HttpRequest → Option Bytes
  pub digest : Bytes → Text

-- The place of a method in its enumeration.
abbrev pub place : HttpMethod → ℕ
place HttpMethod.get = 0
place HttpMethod.head = 1
place HttpMethod.post = 2
place HttpMethod.put = 3
place HttpMethod.patch = 4
place HttpMethod.delete = 5

abbrev pub has_method : HttpMethod → List HttpMethod → Bool
has_method method = any (λ m. place m == place method)

unfoldable pub validate_scope : HttpScope → Result (Unit {0})
validate_scope s = do
  reject (not (text_eq s.scheme (Text.text "https")) && not (text_eq s.scheme (Text.text "http")))
      scope_scheme
  reject (text_eq s.scheme (Text.text "http") && not (is_loopback_host s.host)) scope_plain
  reject
      (is_empty s.host
        || ltb 253 (len s.host)
        || contains b'/' s.host
        || contains b'@' s.host
        || any is_control s.host)
      scope_host
  reject
      (not (starts_with_char b'/' s.path_prefix)
        || contains_text (Text.text "..") s.path_prefix
        || ltb 2048 (len s.path_prefix))
      scope_prefix
  reject (is_empty s.methods) scope_methods

-- `==` of two optional ports.
abbrev pub same_port : Option ℕ → Option ℕ → Bool
same_port none none = true
same_port none (some b) = false
same_port (some a) none = false
same_port (some a) (some b) = a == b

-- `self.port.or_else(|| default_port(&self.scheme))`
abbrev pub scope_port : HttpScope → Option ℕ
scope_port s = elim s.port [ none ↦ default_port s.scheme | some port ↦ some port ]

unfoldable pub permits : HttpScope → HttpMethod → Url → Bool
permits s method url =
    has_method method s.methods
    && text_eq url.scheme s.scheme
    && is_some_and url.host_str (λ host. eq_ignore_ascii_case host s.host)
    && same_port url.port_or_known_default (scope_port s)
    && path_prefix_matches s.path_prefix url.path

-- `HttpPolicy::default()`
abbrev pub default_policy : HttpPolicy
default_policy = record {
  scopes = [];
  max_request_bytes = max_http_request_bytes;
  max_response_bytes = max_http_response_bytes;
  max_redirects = 0;
}

unfoldable pub validate_scopes : List HttpScope → Result (Unit {0})
unfolding validate_scope
validate_scopes [] = ok tt
validate_scopes (s ∷ ss) = do validate_scope s; validate_scopes ss

unfoldable pub validate_policy : HttpPolicy → Result (Unit {0})
unfolding validate_scopes
validate_policy p = do
  reject
      (ltb max_http_scopes (length p.scopes)
        || p.max_request_bytes == 0
        || ltb max_http_request_bytes p.max_request_bytes
        || p.max_response_bytes == 0
        || ltb max_http_response_bytes p.max_response_bytes
        || ltb 10 p.max_redirects)
      policy_limits
  validate_scopes p.scopes

unfoldable pub validate_request : HttpRequest → ℕ → Result (Unit {0})
validate_request r max_body = do
  reject (ltb 8192 (len r.url) || ltb max_body (length r.body)) request_too_large
  validate_headers r.headers

unfoldable pub authorize : Web → HttpPolicy → HttpRequest → Result Url
unfolding validate_policy validate_request permits
authorize w p r = do
  validate_policy p
  validate_request r p.max_request_bytes
  url ← ok_or (w.parse r.url) url_invalid
  reject (not (is_empty url.username) || is_some url.password || is_some url.fragment)
      url_credentials
  reject (not (any (λ s. permits s r.method url) p.scopes)) out_of_scope
  ok url

unfoldable pub validate_response : HttpPolicy → HttpResponse → Result (Unit {0})
validate_response p r = do
  reject (ltb p.max_response_bytes (length r.body)) response_too_large
  reject (not (leb 100 r.status && leb r.status 599)) response_status
  validate_headers r.headers

unfoldable pub fingerprint : Web → HttpRequest → Result Text
unfolding validate_request
fingerprint w r = do
  validate_request r max_http_request_bytes
  bytes ← ok_or (w.encode r) not_encoded
  ok (w.digest bytes)
