-- ===== src/Api/Transport/Laws.antt =====
-- One exchange: what it sends, and which outcome is which result.
use ha_unifi_drive.Prelude.{
  some, none, ℕ, ◌+◌, ◌≤◌, ◌<◌, String, ◌≡◌, ◌⊎◌, inl, inr, refl, Bool, true, false, Option, length,
  arith, Bool-cases, List, ◌∷◌,
}
use ha_unifi_drive.Payload.{Value, null, str}
use ha_unifi_drive.Api.Session.{
  cannot_connect, invalid_auth, unexpected_response, Result, ok, err, Request, Body, empty,
  oversized, cut_off, text, json, Response, answer, Console, Session,
}
use ha_unifi_drive.Api.Session.Sends.{
  Sends, Sends-pure, Sends-raise, Sends-gets, Sends-modify, Sends-raise_if, Sends-if, Sends-after,
  Sends-before, Sends-bind,
}
use ha_unifi_drive.Api.Transport.{
  bare_exchange, redirects, request_of, request_url, update_csrf_token, exchange, reject_redirect,
  request_raw, raw_payload, request, request_json, request_no_json, is_refused, read_response_text,
  read_response_body, request_result, outcome,
}

pub exchange-Sends :
    (console : Console) (method url : String) (body : Option Value)
    → Sends 1 (exchange console method url body)
unfolding exchange
exchange-Sends console method url body = record { at = λ s. omega arith }

pub bare_exchange-Sends : (console : Console) (url : String) → Sends 1 (bare_exchange console url)
unfolding bare_exchange
bare_exchange-Sends console url = record { at = λ s. omega arith }

pub reject_redirect-Sends : (r : Response) → Sends 0 (reject_redirect r)
unfolding reject_redirect
reject_redirect-Sends r = record { at = λ s. omega arith }

pub raw_payload-Sends : (status : ℕ) (body : Body) → Sends 0 (raw_payload status body)
raw_payload-Sends status body = record { at = λ s. ground arith }

pub read_response_text-Sends : (r : Response) → Sends 0 (read_response_text r)
unfolding read_response_text
read_response_text-Sends r = record { at = λ s. ground arith }

pub read_response_body-Sends : (r : Response) → Sends 0 (read_response_body r)
unfolding read_response_body
read_response_body-Sends r = record { at = λ s. ground arith }

pub request_result-Sends : (r : Response) (b : Bool) → Sends 0 (request_result r b)
unfolding request_result
request_result-Sends r b = record { at = λ s. ground arith }

pub ruleset quiet_rules = (
  Sends-pure, Sends-raise, Sends-gets, Sends-modify, Sends-raise_if, reject_redirect-Sends,
  raw_payload-Sends, read_response_text-Sends, read_response_body-Sends, request_result-Sends,
)

pub request_raw-Sends :
    (console : Console) (method path : String) (body : Option Value)
    → Sends 1 (request_raw console method path body)
unfolding request_raw
request_raw-Sends console method path body =
    search (quiet_rules, exchange-Sends, Sends-after, Sends-before) depth 9

pub request-Sends :
    (console : Console) (method path : String) (b : Bool) → Sends 1 (request console method path b)
unfolding request
request-Sends console method path b =
    search (quiet_rules, exchange-Sends, Sends-after, Sends-before) depth 9

pub request_no_json-Sends :
    (console : Console) (method path : String) → Sends 1 (request_no_json console method path)
unfolding request_no_json
request_no_json-Sends console method path =
    search (quiet_rules, request-Sends, Sends-before) depth 9

pub request_json-Sends :
    (console : Console) (method path : String) → Sends 1 (request_json console method path)
unfolding request_json
request_json-Sends console method path =
    Sends-before 1 (request console method path true) _ (request-Sends console method path true)
      λ d. record { at = λ s. ground arith }

-- The payload of a body that can be read: none where it cannot.
abbrev pub payload_of : Body → Option Value
payload_of empty = some null
payload_of oversized = none
payload_of (cut_off why) = none
payload_of (text t) = some (str t)
payload_of (json n v) = some v

-- What `_request_raw` makes of a response: an outcome for every status and body.
abbrev pub RawOutcome : ℕ → Body → Result (ℕ × Value) → Type 0
RawOutcome status body (ok (given, payload)) =
    (given ≡ status)
    × ((status < 300) ⊎ (400 ≤ status))
    × (is_refused status ≡ false)
    × (payload_of body ≡ some payload)
RawOutcome status body (err (cannot_connect _)) =
    ((300 ≤ status) × (status < 400)) ⊎ ((why : Option String) × (body ≡ cut_off why))
RawOutcome status body (err (invalid_auth _)) = is_refused status ≡ true
RawOutcome status body (err (unexpected_response _)) = body ≡ oversized
RawOutcome status body (err _) = ⊥

raw_payload-outcome :
    (status : ℕ) (body : Body) (s : Session)
    → (status < 300) ⊎ (400 ≤ status)
    → is_refused status ≡ false
    → RawOutcome status body (raw_payload status body s).0
raw_payload-outcome status empty s range h = (refl, range, h, refl)
raw_payload-outcome status oversized s range h = refl
raw_payload-outcome status (cut_off none) s range h = inr (none, refl)
raw_payload-outcome status (cut_off (some name)) s range h = inr (some name, refl)
raw_payload-outcome status (text t) s range h = (refl, range, h, refl)
raw_payload-outcome status (json n v) s range h = (refl, range, h, refl)

raw_payload-same : (status : ℕ) (body : Body) (s : Session) → (raw_payload status body s).1 ≡ s
raw_payload-same status empty s = refl
raw_payload-same status oversized s = refl
raw_payload-same status (cut_off why) s = refl
raw_payload-same status (text t) s = refl
raw_payload-same status (json n v) s = refl

redirects-range : (status : ℕ) → redirects status ≡ true → (300 ≤ status) × (status < 400)
redirects-range status h = ground arith

no_redirect-range : (status : ℕ) → redirects status ≡ false → (status < 300) ⊎ (400 ≤ status)
no_redirect-range status h = ground arith

-- When the console answers with a response, a raw request sends one request. It returns the status
-- and the payload of a body that was read, for a status that is neither a redirect nor 401 or 403;
-- it raises `CannotConnect` only for a redirect or a body that was cut off, `InvalidAuth` only for
-- 401 or 403, `UnexpectedResponse` only for a body over the limit, and nothing else.
pub request_raw-outcome :
    (console : Console) (method path : String) (body : Option Value) (s : Session) (r : Response)
    → ((sent : List Request) (q : Request) → console sent q ≡ answer r)
    → RawOutcome r.status r.body (request_raw console method path body s).0
      × (length (request_raw console method path body s).1.sent ≡ length s.sent + 1)
unfolding request_raw exchange reject_redirect outcome
request_raw-outcome console method path body s r h = rw h (elim (Bool-cases (redirects r.status)) [
  | inl away ↦ rw away (inl (redirects-range r.status away), omega arith)
  | inr stays ↦ rw stays (elim (Bool-cases (is_refused r.status)) [
    | inl refused ↦ rw refused (refused, omega arith)
    | inr allowed ↦ rw allowed (
      raw_payload-outcome r.status r.body _ (no_redirect-range r.status stays) allowed,
      rw raw_payload-same (omega arith),
    )
  ])
])

-- The state after a request that was answered.
abbrev pub answered_by : Session → Response → Request → Session
answered_by s r q = record { client = update_csrf_token r s.client; sent = q ∷ s.sent }

-- What `_request_raw` gives for a JSON body with a status that is neither a redirect nor refused.
pub request_raw-json :
    (console : Console) (method path : String) (body : Option Value) (s : Session) (r : Response)
    → (n : ℕ) (payload : Value) → ((sent : List Request) (q : Request) → console sent q ≡ answer r)
    → redirects r.status ≡ false
    → is_refused r.status ≡ false
    → r.body ≡ json n payload
    → request_raw console method path body s ≡ (
      ok (r.status, payload),
      answered_by s r (request_of s.client method (request_url s.client path) body),
    )
unfolding request_raw exchange reject_redirect outcome
request_raw-json console method path body s r n payload h stays allowed e =
    rw (h, stays, allowed, e) refl
