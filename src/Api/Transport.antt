-- ===== src/Api/Transport.antt =====
-- api_transport.py: one request to the console, and the errors that its outcome is mapped to.
pub mod Laws
pub mod Sent
pub mod Headers
use ha_unifi_drive.Prelude.{
  ℕ, String, Bool, true, false, ◌&&◌, ◌||◌, Option, none, some, [], ◌∷◌, Dict, ltb, leb, ◌==◌,
  text_eq, begins_with, count_chars, decimal, ◌⧺◌, insert, length, if◌then◌else◌,
}
use ha_unifi_drive.Payload.{Value, null, str, list, dict, items, entries, as_dict}
use ha_unifi_drive.Api.Session.{
  ApiError, cannot_connect, invalid_auth, unexpected_response, Result, ok, err, Request, empty,
  oversized, cut_off, text, json, Body, Response, Reply, unreachable, client_error, answer, Console,
  Client, Action, Done, pure, raise, gets, modify, raise_if, ◌>>=◌, ◌>>◌,
}

-- `safe_response_summary` of security.py
unfoldable pub response_summary : Value → String
unfolding items entries decimal
response_summary null = "empty response"
response_summary (dict fs) = "object response (" ⧺ decimal (length (entries fs)) ⧺ " fields)"
response_summary (list vs) = "array response (" ⧺ decimal (length (items vs)) ⧺ " items)"
response_summary (str s) = "text response (" ⧺ decimal (count_chars s) ⧺ " characters)"
response_summary _ = "scalar response"

-- A token or a key that is missing or empty counts as none.
abbrev pub present : Option String → Option String
present none = none
present (some s) = if text_eq s "" then none else some s

abbrev pub with_header : String → Option String → Dict String → Dict String
with_header name none headers = headers
with_header name (some value) headers = insert name value headers

abbrev pub token_text : Option String → Option String
token_text none = none
token_text (some token) = some ("TOKEN=" ⧺ token)

-- `_headers`
unfoldable pub request_headers : Client → Dict String
unfolding insert
request_headers c =
    let base : Dict String =
      ("Accept", "application/json") ∷ ("Content-Type", "application/json") ∷ [] in
    let key = if c.use_api_key_auth then present c.api_key else none in
    let cookie = if c.use_api_key_auth then none else token_text (present c.token_cookie) in
    let with_cookie = with_header "Cookie" cookie (with_header "X-API-Key" key base) in
    with_header "X-CSRF-Token" (present c.csrf_token) with_cookie

-- `_url`
unfoldable pub request_url : Client → String → String
unfolding begins_with
request_url c path = c.base_url ⧺ (if begins_with path "/" then path else "/" ⧺ path)

-- `_auth_error_message`
unfoldable pub auth_error_message : Client → String
auth_error_message c = elim (if c.use_api_key_auth then present c.api_key else none) [
  | none ↦ "UniFi session is not authenticated"
  | some _ ↦ "UniFi API key is invalid or does not have the required permission"
]

-- `_update_csrf_token`
unfoldable pub update_csrf_token : Response → Client → Client
update_csrf_token r c = elim (present r.csrf) [
  | some token ↦ record c { csrf_token = some token }
  | none ↦ elim (present r.updated_csrf) [
    | some token ↦ record c { csrf_token = some token }
    | none ↦ c
  ]
]

-- The errors that `_request_with_timeout` makes of a timeout and of another error.
abbrev pub connection_error : Option String → ApiError
connection_error none = cannot_connect "Cannot connect to UniFi Drive host"
connection_error (some name) =
    cannot_connect ("HTTP error while connecting to UniFi Drive host: " ⧺ name)

outcome : Reply → Result Response
outcome unreachable = err (connection_error none)
outcome (client_error name) = err (connection_error (some name))
outcome (answer r) = ok r

abbrev pub request_of : Client → String → String → Option Value → Request
request_of c method url body = record {
  method = method;
  url = url;
  headers = request_headers c;
  json_body = body;
}

-- One HTTP exchange under `_request_with_timeout`.
unfoldable pub exchange : Console → String → String → Option Value → Action Response
unfolding outcome request_headers request_url
exchange console method url body s =
    let request = request_of s.client method url body in
    (outcome (console s.sent request), record s { sent = request ∷ s.sent })

-- The GET of the console's root, which sends no headers of the client.
unfoldable pub bare_exchange : Console → String → Action Response
unfolding outcome
bare_exchange console url s =
    let request : Request = record { method = "GET"; url = url; headers = []; json_body = none } in
    (outcome (console s.sent request), record s { sent = request ∷ s.sent })

abbrev pub redirects : ℕ → Bool
redirects status = leb 300 status && ltb status 400

-- `reject_redirect`
unfoldable pub reject_redirect : Response → Action Done
reject_redirect r = raise_if (redirects r.status) (
    cannot_connect
      "The console redirected the request. Check the configured host, port and SSL settings; automatic redirects are not permitted.")

abbrev too_large : ApiError
too_large = unexpected_response "Console response exceeds the 8 MiB safety limit"

-- `read_response_body`, whose bytes are not used.
unfoldable pub read_response_body : Response → Action Done
read_response_body r = elim r.body [
  | oversized ↦ raise too_large
  | cut_off why ↦ raise (connection_error why)
  | _ ↦ pure tt
]

-- `read_response_text`, by the number of characters.
unfoldable pub read_response_text : Response → Action ℕ
read_response_text r = elim r.body [
  | empty ↦ pure 0
  | oversized ↦ raise too_large
  | cut_off why ↦ raise (connection_error why)
  | text t ↦ pure (count_chars t)
  | json n v ↦ pure n
]

abbrev pub is_refused : ℕ → Bool
is_refused status = status == 401 || status == 403

abbrev text_summary : ℕ → String
text_summary n = "text response (" ⧺ decimal n ⧺ " characters)"

-- `loads(body)` and the test for a dict in `_request`.
abbrev decoded : Response → Action (Option (Dict Value))
decoded r = elim r.body [
  | json n v ↦ pure (as_dict v)
  | text t ↦
      raise (
        unexpected_response
          ("Expected JSON from the console, got: " ⧺ text_summary (count_chars t)))
  | empty ↦ raise (unexpected_response ("Expected JSON from the console, got: " ⧺ text_summary 0))
  | oversized ↦ raise too_large
  | cut_off why ↦ raise (connection_error why)
]

abbrev http_error : Response → Action (Option (Dict Value))
http_error r = do
  n ← read_response_text r
  raise (
      cannot_connect
        ("Console request failed with HTTP " ⧺ decimal r.status ⧺ ": " ⧺ text_summary n))

abbrev drained : Response → Action (Option (Dict Value))
drained r = do read_response_body r; pure none

-- The end of `_request`, from the test of the status on.
unfoldable pub request_result : Response → Bool → Action (Option (Dict Value))
unfolding read_response_text read_response_body
request_result r expect_json =
    if leb 400 r.status then http_error r else if expect_json then decoded r else drained r

-- `_request`
unfoldable pub request : Console → String → String → Bool → Action (Option (Dict Value))
request console method path expect_json = do
  url ← gets (λ c. request_url c path)
  r ← exchange console method url none
  reject_redirect r
  modify (update_csrf_token r)
  message ← gets auth_error_message
  raise_if (is_refused r.status) (invalid_auth message)
  request_result r expect_json

abbrev dict_or_raise : Option (Dict Value) → Action (Dict Value)
dict_or_raise (some d) = pure d
dict_or_raise none = raise (unexpected_response "Expected a JSON object from the console")

-- `_request_json`
unfoldable pub request_json : Console → String → String → Action (Dict Value)
request_json console method path = do d ← request console method path true; dict_or_raise d

-- `_request_no_json`
unfoldable pub request_no_json : Console → String → String → Action Done
request_no_json console method path = do request console method path false; pure tt

-- The payload of `_request_raw`: nothing, the decoded JSON, or the text.
abbrev pub raw_payload : ℕ → Body → Action (ℕ × Value)
raw_payload status empty = pure (status, null)
raw_payload status oversized = raise too_large
raw_payload status (cut_off why) = raise (connection_error why)
raw_payload status (text t) = pure (status, str t)
raw_payload status (json n v) = pure (status, v)

-- `_request_raw`
unfoldable pub request_raw : Console → String → String → Option Value → Action (ℕ × Value)
request_raw console method path body = do
  url ← gets (λ c. request_url c path)
  r ← exchange console method url body
  reject_redirect r
  modify (update_csrf_token r)
  message ← gets auth_error_message
  raise_if (is_refused r.status) (invalid_auth message)
  raw_payload r.status r.body
