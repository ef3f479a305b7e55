-- ===== src/Network/Http/Policy/Authorized.antt =====
-- What an authorized request may reach.
use cartridge_runtime.Prelude.{
  ℕ, ◌≤◌, ◌≡◌, refl, ap, sym, subst, ◌∙◌, ◌⊎◌, inl, inr, Bool, true, false, not, ◌&&◌, ◌||◌, Option,
  none, some, List, [], ◌∷◌, arith, ltb, any, all, length, is_empty, is_some, Bool-cases,
  Option-cases,
}
use cartridge_runtime.Prelude.Text.{Text, text_cmp, text_eq, text_eq_iff, len}
use cartridge_runtime.Prelude.Text
use cartridge_runtime.Prelude.Strings.{
  eq_ignore_ascii_case, eq_ignore_ascii_case-eq, eq_ignore_ascii_case_trans, is_letter,
}
use cartridge_runtime.Prelude.Results.{
  ok, reject, ok_or, >>=-eq-ok, >>-eq-ok, reject-ok, ok_injective,
}
use cartridge_runtime.Network.Limits.{
  scope_scheme, scope_plain, request_too_large, url_invalid, url_credentials, out_of_scope,
}
use cartridge_runtime.Network.Http.Headers.{default_port, is_loopback_host, path_prefix_matches}
use cartridge_runtime.Network.Http.Policy.{
  HttpMethod, HttpScope, HttpPolicy, HttpRequest, Url, Web, has_method, validate_scope, same_port,
  scope_port, permits, validate_scopes, validate_policy, validate_request, authorize,
}

abbrev pub Member : HttpScope → List HttpScope → Type 0
Member s [] = ⊥
Member s (t ∷ ts) = (s ≡ t) ⊎ Member s ts

-- The port that a scope reaches: its own, else 443 of https and 80 of http.
abbrev pub IsPortOf : HttpScope → Option ℕ → Type 0
IsPortOf s port =
    ((n : ℕ) → s.port ≡ some n → port ≡ some n)
    × (s.port ≡ none → s.scheme ≡ Text.text "https" → port ≡ some 443)
    × (s.port ≡ none → s.scheme ≡ Text.text "http" → port ≡ some 80)

-- An authorized URL.
pub record IsAuthorized (p : HttpPolicy) (r : HttpRequest) (url : Url) : Type 0 where
  pub scope : HttpScope
  pub declared : Member scope p.scopes
  pub method : has_method r.method scope.methods ≡ true
  pub same_scheme : url.scheme ≡ scope.scheme
  pub has_port : IsPortOf scope url.port_or_known_default
  pub host : Text
  pub has_host : url.host_str ≡ some host
  pub same_host : eq_ignore_ascii_case host scope.host ≡ true
  pub path : path_prefix_matches scope.path_prefix url.path ≡ true
  pub secure :
      (url.scheme ≡ Text.text "https")
      ⊎ ((url.scheme ≡ Text.text "http") × (is_loopback_host host ≡ true))
  pub no_credentials : (url.username ≡ []) × (url.password ≡ none) × (url.fragment ≡ none)
  pub small : length r.body ≤ p.max_request_bytes

any-Member :
    (q : HttpScope → Bool) (ss : List HttpScope)
    → any q ss ≡ true
    → (s : HttpScope) × Member s ss × (q s ≡ true)
any-Member q [] h = cc
any-Member q (s ∷ ss) h = elim (Bool-cases (q s)) [
  | inl b ↦ (s, inl refl, b)
  | inr b ↦ let (t, m, c) = any-Member q ss (ground (arith, h, b)) in (t, inr m, c)
]

validate_scopes-Member :
    (s : HttpScope) (ss : List HttpScope)
    → validate_scopes ss ≡ ok tt
    → Member s ss
    → validate_scope s ≡ ok tt
unfolding validate_scopes
validate_scopes-Member s [] h m = absurd m
validate_scopes-Member s (t ∷ ts) h (inl e) =
    ap validate_scope e ∙ (>>-eq-ok (validate_scope t) _ h).0
validate_scopes-Member s (t ∷ ts) h (inr m) =
    validate_scopes-Member s ts (>>-eq-ok (validate_scope t) _ h).1 m

-- A host that is, but for case, a text without letters.
numeric-same :
    (host other literal : Text)
    → all (λ c. not (is_letter c)) literal ≡ true
    → eq_ignore_ascii_case host other ≡ true
    → text_eq other literal ≡ true
    → text_eq host literal ≡ true
numeric-same host other literal plain same e =
    let here = (text_eq_iff other literal).0 e in
    (text_eq_iff host literal).1 (
      eq_ignore_ascii_case-eq host literal plain
        (subst (λ t. eq_ignore_ascii_case host t ≡ true) here same))

-- A host that is a loopback host but for case is one.
loopback-same :
    (host other : Text)
    → eq_ignore_ascii_case host other ≡ true
    → is_loopback_host other ≡ true
    → is_loopback_host host ≡ true
unfolding is_loopback_host
loopback-same host other same loop = ground (
  arith,
  loop,
  eq_ignore_ascii_case_trans host other (Text.text "localhost") same,
  numeric-same host other (Text.text "127.0.0.1") refl same,
  numeric-same host other (Text.text "[::1]") refl same,
  numeric-same host other (Text.text "::1") refl same,
)

validate_scope-secure :
    (s : HttpScope)
    → validate_scope s ≡ ok tt
    → (s.scheme ≡ Text.text "https")
      ⊎ ((s.scheme ≡ Text.text "http") × (is_loopback_host s.host ≡ true))
unfolding validate_scope
validate_scope-secure s h =
    let (scheme, h1) =
      >>-eq-ok
        (reject
          (not (text_eq s.scheme (Text.text "https")) && not (text_eq s.scheme (Text.text "http")))
          scope_scheme)
        _ h in
    let (plain, h2) =
      >>-eq-ok
        (reject (text_eq s.scheme (Text.text "http") && not (is_loopback_host s.host)) scope_plain)
        _ h1 in
    elim (Bool-cases (text_eq s.scheme (Text.text "https"))) [
      | inl b ↦ inl ((text_eq_iff s.scheme (Text.text "https")).0 b)
      | inr b ↦
          let c : text_eq s.scheme (Text.text "http") ≡ true =
            ground (arith, b, reject-ok _ _ scheme) in
          inr
            ((text_eq_iff s.scheme (Text.text "http")).0 c, ground (arith, c, reject-ok _ _ plain))
    ]

same_port-eq : (a b : Option ℕ) → same_port a b ≡ true → a ≡ b
same_port-eq none none h = refl
same_port-eq none (some b) h = cc
same_port-eq (some a) none h = cc
same_port-eq (some a) (some b) h = ground (arith, h)

scope_port-IsPortOf : (s : HttpScope) → IsPortOf s (scope_port s)
unfolding default_port text_eq text_cmp
scope_port-IsPortOf s =
    (λ n e. rw e refl, λ e https. rw (e, https) refl, λ e http. rw (e, http) refl)

permits-parts :
    (s : HttpScope) (method : HttpMethod) (url : Url)
    → permits s method url ≡ true
    → (has_method method s.methods ≡ true)
      × (url.scheme ≡ s.scheme)
      × IsPortOf s url.port_or_known_default
      × (path_prefix_matches s.path_prefix url.path ≡ true)
      × (host : Text) × (url.host_str ≡ some host)
      × (eq_ignore_ascii_case host s.host ≡ true)
unfolding permits
permits-parts s method url h = elim (Option-cases url.host_str) [
  | inl e ↦ absurd (ground (arith, h, e))
  | inr (host, e) ↦ (
    ground (arith, h),
    (text_eq_iff url.scheme s.scheme).0 (ground (arith, h)),
    subst (IsPortOf s)
        (sym (same_port-eq url.port_or_known_default (scope_port s) (ground (arith, h))))
        (scope_port-IsPortOf s),
    ground (arith, h),
    host,
    e,
    ground (arith, h, e),
  )
]

request_small :
    (r : HttpRequest) (max_body : ℕ)
    → validate_request r max_body ≡ ok tt
    → length r.body ≤ max_body
unfolding validate_request
request_small r max_body h =
    let (fits, h1) =
      >>-eq-ok (reject (ltb 8192 (len r.url) || ltb max_body (length r.body)) request_too_large) _
        h in
    ground (arith, reject-ok _ _ fits)

bare-parts :
    (url : Url)
    → (not (is_empty url.username) || is_some url.password || is_some url.fragment) ≡ false
    → (url.username ≡ []) × (url.password ≡ none) × (url.fragment ≡ none)
bare-parts url h = (ground (arith, h), ground (arith, h), ground (arith, h))

authorized :
    (p : HttpPolicy) (r : HttpRequest) (url : Url)
    → validate_scopes p.scopes ≡ ok tt
    → length r.body ≤ p.max_request_bytes
    → (not (is_empty url.username) || is_some url.password || is_some url.fragment) ≡ false
    → any (λ s. permits s r.method url) p.scopes ≡ true
    → IsAuthorized p r url
authorized p r url scopes small bare inside =
    let (s, member, permitted) = any-Member (λ s. permits s r.method url) p.scopes inside in
    let (method, scheme, port, path, host, has_host, same) =
      permits-parts s r.method url permitted in
    record {
      scope = s;
      declared = member;
      method = method;
      same_scheme = scheme;
      has_port = port;
      host = host;
      has_host = has_host;
      same_host = same;
      path = path;
      secure = elim (validate_scope-secure s (validate_scopes-Member s p.scopes scopes member)) [
        | inl e ↦ inl (scheme ∙ e)
        | inr (e, loop) ↦ inr (scheme ∙ e, loopback-same host s.host same loop)
      ];
      no_credentials = bare-parts url bare;
      small = small;
    }

-- An authorized URL lies in a declared scope: the method, the scheme, the host but for case, the port,
-- where the scope names none the one of its scheme, and the path are the scope's; it is https, or http
-- to a loopback host; it has no credentials and no fragment; and the body is within the limit.
pub authorize-IsAuthorized :
    (w : Web) (p : HttpPolicy) (r : HttpRequest) (url : Url)
    → authorize w p r ≡ ok url
    → IsAuthorized p r url
unfolding authorize validate_policy validate_request
authorize-IsAuthorized w p r url h =
    let (policy, h1) = >>-eq-ok (validate_policy p) _ h in
    let (request, h2) = >>-eq-ok (validate_request r p.max_request_bytes) _ h1 in
    let (parsed, parses, h3) = >>=-eq-ok (ok_or (w.parse r.url) url_invalid) _ h2 in
    let (bare, h4) =
      >>-eq-ok
        (reject
          (not (is_empty parsed.username) || is_some parsed.password || is_some parsed.fragment)
          url_credentials)
        _ h3 in
    let (inside, h5) =
      >>-eq-ok (reject (not (any (λ s. permits s r.method parsed) p.scopes)) out_of_scope) _ h4 in
    subst (IsAuthorized p r) (ok_injective parsed url _ refl h5) (
      authorized p r parsed (>>-eq-ok (reject _ _) _ policy).1
        (request_small r p.max_request_bytes request) (reject-ok _ _ bare)
        (ground (arith, reject-ok _ _ inside)))
