-- ===== src/Api/Auth/Laws.antt =====
-- The login and the shared retry: how many requests they send, and what they leave behind.
use ha_unifi_drive.Prelude.{ℕ, ◌+◌, ◌*◌, Bool, false, arith}
use ha_unifi_drive.Api.Session.{ApiError, Response, Console, Action, Done, pure, raise, ◌>>◌}
use ha_unifi_drive.Api.Session.Sends.{
  Sends, Sends-weaken, Sends-if, Sends-after, Sends-before, Sends-bind, Sends-catch,
}
use ha_unifi_drive.Api.Transport.Laws.{quiet_rules, exchange-Sends, bare_exchange-Sends}
use ha_unifi_drive.Api.Auth.{
  prime_csrf_token, consume_login_response, password_login, login, ensure_authenticated, retried,
  with_session, set_authenticated,
}

prime_csrf_token-Sends : (console : Console) → Sends 1 (prime_csrf_token console)
unfolding prime_csrf_token
prime_csrf_token-Sends console =
    search (quiet_rules, bare_exchange-Sends, Sends-after, Sends-before) depth 9

consume_login_response-Sends : (r : Response) → Sends 0 (consume_login_response r)
unfolding consume_login_response
consume_login_response-Sends r = search (quiet_rules, Sends-if, Sends-after) depth 12

password_login-Sends : (console : Console) → Sends 2 (password_login console)
unfolding password_login
password_login-Sends console = Sends-bind 1 1 _ _ (prime_csrf_token-Sends console) λ _.
    search (quiet_rules, exchange-Sends, consume_login_response-Sends, Sends-after, Sends-before)
      depth 12

pub set_authenticated-Sends : (k : ℕ) (b : Bool) → Sends k (set_authenticated b)
set_authenticated-Sends k b = record { at = λ s. omega arith }

raise-Sends : (k : ℕ) (e : ApiError) → Sends {A = Done} k (raise e)
raise-Sends k e = record { at = λ s. omega arith }

pure-Sends : (k : ℕ) → Sends {A = Done} k (pure tt)
pure-Sends k = record { at = λ s. omega arith }

ruleset login_rules = (
  quiet_rules, password_login-Sends, set_authenticated-Sends, raise-Sends, pure-Sends, Sends-if,
  Sends-after,
)

-- A login sends two requests at most.
pub login-Sends : (console : Console) → Sends 2 (login console)
unfolding login
login-Sends console = search login_rules depth 9

pub ensure_authenticated-Sends : (console : Console) → Sends 2 (ensure_authenticated console)
unfolding ensure_authenticated
ensure_authenticated-Sends console = search (login_rules, login-Sends) depth 9

module _ {ℓ} {A : Type ℓ} (console : Console) (once : Action A) (k : ℕ) (h : Sends k once) where
  retried-Sends : Sends (k + (2 + k)) (retried console once)
  unfolding retried
  retried-Sends = Sends-catch k (2 + k) once _ h (
      Sends-bind 2 k (set_authenticated false >> login console) (λ _. once)
        (Sends-after 2 (set_authenticated false) (λ _. login console)
          (set_authenticated-Sends 0 false) (λ _. login-Sends console))
        (λ _. h))

  -- An operation whose attempt sends at most `k` requests sends at most `2 * k + 4`: it is tried
  -- twice at most, with two logins at most.
  pub with_session-Sends : Sends (2 * k + 4) (with_session console once)
  unfolding with_session
  with_session-Sends =
      Sends-weaken (2 + (k + (2 + k))) (2 * k + 4) (with_session console once) (omega arith) (
        Sends-bind 2 (k + (2 + k)) (ensure_authenticated console) (λ _. retried console once)
          (ensure_authenticated-Sends console) (λ _. retried-Sends))
