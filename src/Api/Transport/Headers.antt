-- ===== src/Api/Transport/Headers.antt =====
-- The headers of a request, by the way the client is authenticated.
use ha_unifi_drive.Prelude.{
  String, ◌≡◌, refl, Option, none, some, Dict, lookup, lookup-insert, text_eq, arith, if◌then◌else◌,
  ◌or_else◌,
}
use ha_unifi_drive.Api.Session.{Client}
use ha_unifi_drive.Api.Transport.{request_headers, with_header, present, token_text}

lookup-with_header :
    (name j : String) (value : Option String) (headers : Dict String)
    → lookup j (with_header name value headers)
      ≡ (if text_eq name j then value or_else lookup j headers else lookup j headers)
lookup-with_header name j none headers = ground arith
lookup-with_header name j (some value) headers = rw lookup-insert (ground arith)

or_else-none : (o : Option String) → (o or_else none) ≡ o
or_else-none none = refl
or_else-none (some x) = refl

-- The secrets of a request are those of its way of authentication: the key only with key
-- authentication, the session cookie only without it, and the CSRF token whenever there is one.
pub request_headers-secrets :
    (c : Client)
    → (lookup "X-API-Key" (request_headers c)
        ≡ (if c.use_api_key_auth then present c.api_key else none))
      × (lookup "Cookie" (request_headers c)
          ≡ (if c.use_api_key_auth then none else token_text (present c.token_cookie)))
      × (lookup "X-CSRF-Token" (request_headers c) ≡ present c.csrf_token)
unfolding request_headers
request_headers-secrets c = (
  simp lookup-with_header (unfold lookup in or_else-none _),
  simp lookup-with_header (unfold lookup in or_else-none _),
  simp lookup-with_header (unfold lookup in or_else-none _),
)
