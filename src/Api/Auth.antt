-- ===== src/Api/Auth.antt =====
-- api_auth.py: the login, and the retry that the operations of the client share.
pub mod Laws
pub mod Atomic
pub mod Identity
pub mod Devices
use Prim.Native.Char.{code}
use Prim.Native.String.{[], ◌∷◌}
use ha_unifi_drive.Prelude.{
  ℕ, String, Bool, true, false, not, ◌&&◌, ◌||◌, Option, none, some, List, [], ◌∷◌, Dict, ltb, leb,
  ◌==◌, text_eq, begins_with, strip, split, decimal, ◌⧺◌, if◌then◌else◌,
}
use ha_unifi_drive.Payload.{Value, str, bool, dict, field, end, null, as_dict}
use ha_unifi_drive.Api.Session.{
  ApiError, cannot_connect, invalid_auth, Result, ok, err, Request, Body, empty, oversized, text,
  json, Response, Console, Client, Session, Action, Done, pure, raise, gets, modify, raise_if,
  catch_invalid_auth, or_on_invalid_auth, ◌>>=◌, ◌>>◌,
}
use ha_unifi_drive.Api.Transport.{
  exchange, bare_exchange, request_url, update_csrf_token, reject_redirect, read_response_body,
  read_response_text, is_refused, present,
}

abbrev pub login_path : String
login_path = "/api/auth/login"

-- The text behind a prefix.
drop_prefix : String → String → Option String
drop_prefix s [] = some s
drop_prefix [] (d ∷ t) = none
drop_prefix (c ∷ s) (d ∷ t) = if code c == code d then drop_prefix s t else none

abbrev first_part : List String → String
first_part [] = ""
first_part (part ∷ _) = strip part

-- `_extract_set_cookie_value` for the cookie TOKEN.
unfoldable pub token_of_cookie : String → Option String
unfolding drop_prefix split strip
token_of_cookie raw_cookie = elim (drop_prefix (first_part (split b';' raw_cookie)) "TOKEN=") [
  | none ↦ none
  | some value ↦ present (some (strip value))
]

-- `_capture_token_cookie`: the first cookie that holds a token.
unfoldable pub capture_token_cookie : List String → Client → Client
capture_token_cookie [] c = c
capture_token_cookie (raw_cookie ∷ more) c =
    let rest = capture_token_cookie more c in
    elim (token_of_cookie raw_cookie) [
      | some token ↦ record c { token_cookie = some token }
      | none ↦ rest
    ]

-- `_prime_csrf_token`: a redirect of the root is not followed and not refused.
unfoldable pub prime_csrf_token : Console → Action Done
prime_csrf_token console = do
  root ← gets (λ c. c.base_url)
  r ← bare_exchange console root
  modify (update_csrf_token r)
  read_response_body r

abbrev login_error : Response → Action (Option (Dict Value))
login_error r = do
  n ← read_response_text r
  raise (
      cannot_connect (
        "Login failed with HTTP "
        ⧺ decimal r.status
        ⧺ ": text response ("
        ⧺ decimal n
        ⧺ " characters)"))

-- A body that is no JSON object is no login metadata.
unfoldable pub login_metadata : Body → Option (Dict Value)
login_metadata (json n v) = as_dict v
login_metadata _ = none

abbrev login_payload : Response → Action (Option (Dict Value))
login_payload r = do read_response_text r; pure (login_metadata r.body)

-- `_consume_login_response`
unfoldable pub consume_login_response : Response → Action (Option (Dict Value))
consume_login_response r = do
  modify (update_csrf_token r)
  modify (capture_token_cookie r.set_cookies)
  raise_if (is_refused r.status) (invalid_auth "Invalid UniFi username or password")
  if leb 400 r.status then login_error r else login_payload r

unfoldable pub login_document : Client → Value
login_document c = dict (
    field "username" (str c.username) (
      field "password" (str c.password)
        (field "remember" (bool true) (field "rememberMe" (bool true) end))))

-- The part of `async_login` for a username and a password.
unfoldable pub password_login : Console → Action Done
password_login console = do
  prime_csrf_token console
  document ← gets login_document
  url ← gets (λ c. request_url c login_path)
  r ← exchange console "POST" url (some document)
  reject_redirect r
  found ← consume_login_response r
  modify (λ c. record c { login_data = found; authenticated = true })

abbrev lacks_password : Client → Bool
lacks_password c = text_eq c.username "" || text_eq c.password ""

abbrev pub set_authenticated : Bool → Action Done
set_authenticated b = modify (λ c. record c { authenticated = b })

-- `async_login`
unfoldable pub login : Console → Action Done
login console = do
  by_key ← gets (λ c. c.use_api_key_auth)
  missing ← gets lacks_password
  if by_key
      then set_authenticated true
      else (if missing
          then raise (
              invalid_auth "UniFi username and password are required when no API key is configured")
          else password_login console)

-- `_ensure_authenticated`
unfoldable pub ensure_authenticated : Console → Action Done
ensure_authenticated console = do
  by_key ← gets (λ c. c.use_api_key_auth)
  known ← gets (λ c. c.authenticated)
  if by_key then set_authenticated true else (if known then pure tt else login console)

-- The `try`/`except InvalidAuth` of the operations: one more login, and one more attempt.
unfoldable pub retried {ℓ} : {A : Type ℓ} → Console → Action A → Action A
retried console once = catch_invalid_auth once (set_authenticated false >> login console >> once)

-- `_ensure_authenticated`, and then the attempt with its retry.
unfoldable pub with_session {ℓ} : {A : Type ℓ} → Console → Action A → Action A
unfolding retried
with_session console once = ensure_authenticated console >> retried console once
