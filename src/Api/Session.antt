-- ===== src/Api/Session.antt =====
-- api_errors.py, the state that api.py sets up, and methods that change it and may raise. What was
-- written before a raise stays written, so the state comes back beside the error too.
pub mod Laws
pub mod Sends
pub mod Ensures
use ha_unifi_drive.Prelude.{
  ℕ, String, ◌≡◌, refl, Bool, true, false, Option, none, List, [], ◌∷◌, Dict, if◌then◌else◌,
}
use ha_unifi_drive.Payload.{Value}

-- The exceptions that the client raises, each with its text, and a `ValueError` that passes through.
pub data ApiError : Type 0 where
  cannot_connect invalid_auth unexpected_response unsupported_feature : String → ApiError
  value_error : ApiError

pub data Result {ℓ} (A : Type ℓ) : Type ℓ where
  ok : A → Result A
  err : ApiError → Result A

pub record Request : Type 0 where
  pub method : String
  pub url : String
  pub headers : Dict String
  pub json_body : Option Value

-- A response body, by what reading it gives: nothing, a text that is no JSON, a text of so many
-- characters that decodes to a value, more bytes than the limit, or an error while it is read: a
-- timeout, or another error of the HTTP library with the name of its class.
pub data Body : Type 0 where
  empty oversized : Body
  cut_off : Option String → Body
  text : String → Body
  json : ℕ → Value → Body

pub record Response : Type 0 where
  pub status : ℕ
  pub csrf : Option String
  pub updated_csrf : Option String
  pub set_cookies : List String
  pub body : Body

-- What comes of a request: a connection error or a timeout, another error of the HTTP library with
-- the name of its class, or a response.
pub data Reply : Type 0 where
  unreachable : Reply
  client_error : String → Reply
  answer : Response → Reply

-- The console: any function of the requests sent before, the newest first, and of the request.
abbrev pub Console : Type 0
Console = List Request → Request → Reply

pub record Client : Type 0 where
  pub base_url : String
  pub username : String
  pub password : String
  pub api_key : Option String
  pub use_api_key_auth : Bool
  pub csrf_token : Option String
  pub token_cookie : Option String
  pub authenticated : Bool
  pub login_data : Option (Dict Value)
  pub system_info : Option (Dict Value)
  pub last_fan_mode : Option String
  pub fan_mode_read_supported : Option Bool
  pub fan_mode_write_supported : Option Bool
  pub fan_mode_write_payload_hint : Option String
  pub backup_tasks_read_supported : Option Bool
  pub snapshot_settings_read_supported : Option Bool
  pub snapshot_settings_write_supported : Option Bool
  pub snapshot_settings_write_supported_by_type : Dict Bool
  pub snapshot_create_supported : Option Bool
  pub snapshot_create_supported_by_type : Dict Bool
  pub snapshot_inventory_supported : Option Bool
  pub snapshot_inventory_supported_by_type : Dict Bool

-- The client, and the requests that it has sent, the newest first.
pub record Session : Type 0 where
  pub client : Client
  pub sent : List Request

abbrev pub Action {ℓ} : Type ℓ → Type ℓ
Action A = Session → Result A × Session

module _ {ℓ} {A : Type ℓ} where
  abbrev pub pure : A → Action A
  pure a s = (ok a, s)

  abbrev pub raise : ApiError → Action A
  raise e s = (err e, s)

  abbrev pub gets : (Client → A) → Action A
  gets f s = (ok (f s.client), s)

  -- `try: m except InvalidAuth: handler`
  abbrev pub or_on_invalid_auth : Result A → Action A → Action A
  or_on_invalid_auth (err (invalid_auth _)) handler s = handler s
  or_on_invalid_auth r handler s = (r, s)

  abbrev pub catch_invalid_auth : Action A → Action A → Action A
  catch_invalid_auth m handler s = let (r, s') = m s in or_on_invalid_auth r handler s'

  -- `try: m except UnsupportedFeature as err: handler`
  abbrev pub or_on_unsupported : Result A → (String → Action A) → Action A
  or_on_unsupported (err (unsupported_feature e)) handler s = handler e s
  or_on_unsupported r handler s = (r, s)

  abbrev pub catch_unsupported : Action A → (String → Action A) → Action A
  catch_unsupported m handler s = let (r, s') = m s in or_on_unsupported r handler s'

  abbrev pub lift : Result A → Action A
  lift r s = (r, s)

module _ {ℓ κ} {A : Type ℓ} {B : Type κ} where
  abbrev pub continue : Result A → (A → Action B) → Action B
  continue (ok a) f s = f a s
  continue (err e) f s = (err e, s)

  infixl 5 ◌>>=◌
  abbrev pub ◌>>=◌ : Action A → (A → Action B) → Action B
  ◌>>=◌ m f s = let (r, s') = m s in continue r f s'

infixl 5 ◌>>◌
abbrev pub ◌>>◌ {ℓ κ} : {A : Type ℓ} {B : Type κ} → Action A → Action B → Action B
m >> k = m >>= λ _. k

abbrev pub Done : Type 0
Done = Unit

abbrev pub modify : (Client → Client) → Action Done
modify f s = (ok tt, record s { client = f s.client })

abbrev pub raise_if : Bool → ApiError → Action Done
raise_if c e s = (if c then err e else ok tt, s)
