-- ===== src/Api/Auth/Atomic.antt =====
-- A login takes effect as a whole or not at all.
use ha_unifi_drive.Prelude.{
  String, ◌≡◌, refl, Bool, true, false, Option, ◌∙◌, arith, if◌then◌else◌, Dict, List, [], ◌∷◌,
}
use ha_unifi_drive.Payload.{Value}
use ha_unifi_drive.Api.Session.{
  ApiError, Result, ok, err, Response, Console, Client, Session, Action, raise, modify, ◌>>=◌,
  continue,
}
use ha_unifi_drive.Api.Session.Laws.{
  Preorder, Steps, Steps-raise, Steps-pure, Steps-gets, Steps-raise_if, Steps-if, Steps-bind,
}
use ha_unifi_drive.Api.Transport.{
  exchange, bare_exchange, reject_redirect, read_response_text, read_response_body,
  update_csrf_token,
}
use ha_unifi_drive.Api.Auth.{
  prime_csrf_token, capture_token_cookie, consume_login_response, password_login, login,
  set_authenticated,
}

-- What a login sets: the flag and the metadata.
abbrev pub SameLogin : Session → Session → Type 0
SameLogin s t =
    (t.client.authenticated ≡ s.client.authenticated) × (t.client.login_data ≡ s.client.login_data)

SameLogin-preorder : Preorder SameLogin
SameLogin-preorder = record {
  same = λ s. (refl, refl);
  chain = λ s t u h k. (k.0 ∙ h.0, k.1 ∙ h.1);
}

exchange-SameLogin :
    (console : Console) (method url : String) (body : Option Value)
    → Steps SameLogin (exchange console method url body)
unfolding exchange
exchange-SameLogin console method url body = record { at = λ s. (refl, refl) }

bare-SameLogin : (console : Console) (url : String) → Steps SameLogin (bare_exchange console url)
unfolding bare_exchange
bare-SameLogin console url = record { at = λ s. (refl, refl) }

csrf-SameLogin : (r : Response) → Steps SameLogin (modify (update_csrf_token r))
unfolding update_csrf_token
csrf-SameLogin r = record { at = λ s. ground arith }

captured :
    (cookies : List String) (c : Client)
    → ((capture_token_cookie cookies c).authenticated ≡ c.authenticated)
      × ((capture_token_cookie cookies c).login_data ≡ c.login_data)
unfolding capture_token_cookie
captured [] c = (refl, refl)
captured (raw ∷ more) c = ground (arith, captured more c)

cookie-SameLogin : (cookies : List String) → Steps SameLogin (modify (capture_token_cookie cookies))
cookie-SameLogin cookies = record { at = λ s. captured cookies s.client }

reject_redirect-SameLogin : (r : Response) → Steps SameLogin (reject_redirect r)
unfolding reject_redirect
reject_redirect-SameLogin r = record { at = λ s. (refl, refl) }

read_response_text-SameLogin : (r : Response) → Steps SameLogin (read_response_text r)
unfolding read_response_text
read_response_text-SameLogin r = record { at = λ s. ground arith }

read_response_body-SameLogin : (r : Response) → Steps SameLogin (read_response_body r)
unfolding read_response_body
read_response_body-SameLogin r = record { at = λ s. ground arith }

ruleset same_rules = (
  SameLogin-preorder, Steps-raise, Steps-pure, Steps-gets, Steps-raise_if, Steps-if, Steps-bind,
  exchange-SameLogin, bare-SameLogin, csrf-SameLogin, cookie-SameLogin, reject_redirect-SameLogin,
  read_response_text-SameLogin, read_response_body-SameLogin,
)

prime_csrf_token-SameLogin : (console : Console) → Steps SameLogin (prime_csrf_token console)
unfolding prime_csrf_token
prime_csrf_token-SameLogin console = search same_rules depth 9

consume-SameLogin : (r : Response) → Steps SameLogin (consume_login_response r)
unfolding consume_login_response
consume-SameLogin r = search same_rules depth 9

-- A run that returns has logged in; one that raises has changed neither flag nor metadata.
abbrev pub LoginOutcome : {A : Type 0} → Session → Result A × Session → Type 0
LoginOutcome s (ok _, t) = t.client.authenticated ≡ true
LoginOutcome s (err _, t) = SameLogin s t

record Atomic {A : Type 0} (m : Action A) : Type 0 where
  at : (s : Session) → LoginOutcome s (m s)

outcome_later :
    {A : Type 0} (s t : Session) (r : Result A × Session)
    → SameLogin s t
    → LoginOutcome t r
    → LoginOutcome s r
outcome_later s t (ok a, u) h k = k
outcome_later s t (err e, u) h k = SameLogin-preorder.chain s t u h k

continue-outcome :
    {A B : Type 0} (r : Result A) (f : A → Action B) (s t : Session)
    → SameLogin s t
    → ((a : A) → Atomic (f a))
    → LoginOutcome s (continue r f t)
continue-outcome (ok a) f s t h hf = outcome_later s t (f a t) h ((hf a).at t)
continue-outcome (err e) f s t h hf = h

Atomic-bind :
    {A B : Type 0} (m : Action A) (f : A → Action B)
    → Steps SameLogin m
    → ((a : A) → Atomic (f a))
    → Atomic (m >>= f)
Atomic-bind m f hm hf = record {
  at = λ s. let (r, t) = m s in continue-outcome r f s t (hm.at s) hf;
}

Atomic-if :
    {A : Type 0} (b : Bool) (m n : Action A) → Atomic m → Atomic n → Atomic (if b then m else n)
Atomic-if true m n hm hn = hm
Atomic-if false m n hm hn = hn

Atomic-raise : {A : Type 0} (e : ApiError) → Atomic {A = A} (raise e)
Atomic-raise e = record { at = λ s. (refl, refl) }

commit-Atomic :
    (found : Option (Dict Value))
    → Atomic (modify (λ c. record c { login_data = found; authenticated = true }))
commit-Atomic found = record { at = λ s. refl }

set_authenticated-Atomic : Atomic (set_authenticated true)
set_authenticated-Atomic = record { at = λ s. refl }

password_login-Atomic : (console : Console) → Atomic (password_login console)
unfolding password_login
password_login-Atomic console =
    search (same_rules, prime_csrf_token-SameLogin, consume-SameLogin, Atomic-bind, commit-Atomic)
      depth 12

login-Atomic : (console : Console) → Atomic (login console)
unfolding login
login-Atomic console =
    search
      (
        same_rules, password_login-Atomic, Atomic-bind, Atomic-if, Atomic-raise,
        set_authenticated-Atomic,
      )
      depth 9

-- Against any console, a login that returns leaves the client authenticated, and one that raises
-- leaves its flag and its login metadata as they were.
pub login-outcome : (console : Console) (s : Session) → LoginOutcome s (login console s)
login-outcome console s = (login-Atomic console).at s
