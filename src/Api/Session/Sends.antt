-- ===== src/Api/Session/Sends.antt =====
-- How many requests a method sends at most, one rule for each way to build one.
use ha_unifi_drive.Prelude.{String, ℕ, ◌+◌, ◌≤◌, Bool, true, false, length, arith, if◌then◌else◌}
use ha_unifi_drive.Api.Session.{
  ApiError, cannot_connect, invalid_auth, unexpected_response, unsupported_feature, value_error,
  Result, ok, err, Client, Session, Action, pure, raise, gets, modify, raise_if, catch_invalid_auth,
  or_on_invalid_auth, catch_unsupported, or_on_unsupported, lift, ◌>>=◌, continue,
}

pub record Sends {ℓ} {A : Type ℓ} (k : ℕ) (m : Action A) : Type ℓ where
  pub at : (s : Session) → length (m s).1.sent ≤ length s.sent + k

pub Sends-weaken {ℓ} : {A : Type ℓ} (j k : ℕ) (m : Action A) → j ≤ k → Sends j m → Sends k m
Sends-weaken j k m h w = record { at = λ s. omega (arith, w.at s) }

pub Sends-pure {ℓ} : {A : Type ℓ} (a : A) → Sends 0 (pure a)
Sends-pure a = record { at = λ s. omega arith }

pub Sends-raise {ℓ} : {A : Type ℓ} (e : ApiError) → Sends {A = A} 0 (raise e)
Sends-raise e = record { at = λ s. omega arith }

pub Sends-gets {ℓ} : {A : Type ℓ} (f : Client → A) → Sends 0 (gets f)
Sends-gets f = record { at = λ s. omega arith }

pub Sends-modify : (f : Client → Client) → Sends 0 (modify f)
Sends-modify f = record { at = λ s. omega arith }

pub Sends-raise_if : (b : Bool) (e : ApiError) → Sends 0 (raise_if b e)
Sends-raise_if b e = record { at = λ s. omega arith }

pub Sends-if {ℓ} :
    {A : Type ℓ} (k : ℕ) (b : Bool) (m n : Action A)
    → Sends k m
    → Sends k n
    → Sends k (if b then m else n)
Sends-if k true m n hm hn = hm
Sends-if k false m n hm hn = hn

continue-Sends {ℓ κ} :
    {A : Type ℓ} {B : Type κ} (k : ℕ) (r : Result A) (f : A → Action B) (s : Session)
    → ((a : A) → Sends k (f a))
    → length (continue r f s).1.sent ≤ length s.sent + k
continue-Sends k (ok a) f s h = (h a).at s
continue-Sends k (err e) f s h = omega arith

pub Sends-bind {ℓ κ} :
    {A : Type ℓ} {B : Type κ} (j k : ℕ) (m : Action A) (f : A → Action B)
    → Sends j m
    → ((a : A) → Sends k (f a))
    → Sends (j + k) (m >>= f)
Sends-bind j k m f hm hf = record {
  at = λ s. let (r, t) = m s in omega (arith, hm.at s, continue-Sends k r f t hf);
}

-- The usual cases: the first part sends nothing, or all that the whole sends.
pub Sends-after {ℓ κ} :
    {A : Type ℓ} {B : Type κ} (k : ℕ) (m : Action A) (f : A → Action B)
    → Sends 0 m
    → ((a : A) → Sends k (f a))
    → Sends k (m >>= f)
Sends-after k m f hm hf = record { at = λ s. omega (arith, (Sends-bind 0 k m f hm hf).at s) }

pub Sends-before {ℓ κ} :
    {A : Type ℓ} {B : Type κ} (k : ℕ) (m : Action A) (f : A → Action B)
    → Sends k m
    → ((a : A) → Sends 0 (f a))
    → Sends k (m >>= f)
Sends-before k m f hm hf = record { at = λ s. omega (arith, (Sends-bind k 0 m f hm hf).at s) }

catch-Sends {ℓ} :
    {A : Type ℓ} (k : ℕ) (r : Result A) (handler : Action A) (s : Session)
    → Sends k handler
    → length (or_on_invalid_auth r handler s).1.sent ≤ length s.sent + k
catch-Sends k (ok a) handler s h = omega arith
catch-Sends k (err (invalid_auth e)) handler s h = h.at s
catch-Sends k (err (cannot_connect e)) handler s h = omega arith
catch-Sends k (err (unexpected_response e)) handler s h = omega arith
catch-Sends k (err (unsupported_feature e)) handler s h = omega arith
catch-Sends k (err value_error) handler s h = omega arith

pub Sends-catch {ℓ} :
    {A : Type ℓ} (j k : ℕ) (m handler : Action A)
    → Sends j m
    → Sends k handler
    → Sends (j + k) (catch_invalid_auth m handler)
Sends-catch j k m handler hm hh = record {
  at = λ s. let (r, t) = m s in omega (arith, hm.at s, catch-Sends k r handler t hh);
}

unsupported-Sends {ℓ} :
    {A : Type ℓ} (k : ℕ) (r : Result A) (handler : String → Action A) (s : Session)
    → ((e : String) → Sends k (handler e))
    → length (or_on_unsupported r handler s).1.sent ≤ length s.sent + k
unsupported-Sends k (ok a) handler s h = omega arith
unsupported-Sends k (err (unsupported_feature e)) handler s h = (h e).at s
unsupported-Sends k (err (cannot_connect e)) handler s h = omega arith
unsupported-Sends k (err (invalid_auth e)) handler s h = omega arith
unsupported-Sends k (err (unexpected_response e)) handler s h = omega arith
unsupported-Sends k (err value_error) handler s h = omega arith

pub Sends-catch_unsupported {ℓ} :
    {A : Type ℓ} (j k : ℕ) (m : Action A) (handler : String → Action A)
    → Sends j m
    → ((e : String) → Sends k (handler e))
    → Sends (j + k) (catch_unsupported m handler)
Sends-catch_unsupported j k m handler hm hh = record {
  at = λ s. let (r, t) = m s in omega (arith, hm.at s, unsupported-Sends k r handler t hh);
}

pub Sends-lift {ℓ} : {A : Type ℓ} (k : ℕ) (r : Result A) → Sends k (lift r)
Sends-lift k r = record { at = λ s. omega arith }
