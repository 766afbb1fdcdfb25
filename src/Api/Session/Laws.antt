-- ===== src/Api/Session/Laws.antt =====
-- Rules for relations between the states before and after a method, one for each way to build one.
use ha_unifi_drive.Prelude.{String, Bool, true, false, if◌then◌else◌}
use ha_unifi_drive.Api.Session.{
  ApiError, cannot_connect, invalid_auth, unexpected_response, unsupported_feature, value_error,
  Result, ok, err, Client, Session, Action, pure, raise, gets, raise_if, catch_invalid_auth,
  or_on_invalid_auth, catch_unsupported, or_on_unsupported, lift, ◌>>=◌, continue,
}

-- A reflexive and transitive relation between states.
pub record Preorder (R : Session → Session → Type 0) : Type 0 where
  pub same : (s : Session) → R s s
  pub chain : (s t u : Session) → R s t → R t u → R s u

-- Every run of the method relates its states, whether it returns or raises.
pub record Steps {ℓ} {A : Type ℓ} (R : Session → Session → Type 0) (m : Action A) : Type ℓ where
  pub at : (s : Session) → R s (m s).1

module _ {R : Session → Session → Type 0} (p : Preorder R) where
  pub Steps-pure {ℓ} : {A : Type ℓ} (a : A) → Steps R (pure a)
  Steps-pure a = record { at = λ s. p.same s }

  pub Steps-raise {ℓ} : {A : Type ℓ} (e : ApiError) → Steps {A = A} R (raise e)
  Steps-raise e = record { at = λ s. p.same s }

  pub Steps-gets {ℓ} : {A : Type ℓ} (f : Client → A) → Steps R (gets f)
  Steps-gets f = record { at = λ s. p.same s }

  pub Steps-raise_if : (b : Bool) (e : ApiError) → Steps R (raise_if b e)
  Steps-raise_if b e = record { at = λ s. p.same s }

  pub Steps-if {ℓ} :
      {A : Type ℓ} (b : Bool) (m n : Action A)
      → Steps R m
      → Steps R n
      → Steps R (if b then m else n)
  Steps-if true m n hm hn = hm
  Steps-if false m n hm hn = hn

  continue-steps {ℓ κ} :
      {A : Type ℓ} {B : Type κ} (r : Result A) (f : A → Action B) (s t : Session)
      → R s t
      → ((a : A) → Steps R (f a))
      → R s (continue r f t).1
  continue-steps (ok a) f s t h hf = p.chain s t (f a t).1 h ((hf a).at t)
  continue-steps (err e) f s t h hf = h

  pub Steps-bind {ℓ κ} :
      {A : Type ℓ} {B : Type κ} (m : Action A) (f : A → Action B)
      → Steps R m
      → ((a : A) → Steps R (f a))
      → Steps R (m >>= f)
  Steps-bind m f hm hf = record {
    at = λ s. let (r, t) = m s in continue-steps r f s t (hm.at s) hf;
  }

  catch-steps {ℓ} :
      {A : Type ℓ} (r : Result A) (handler : Action A) (s t : Session)
      → R s t
      → Steps R handler
      → R s (or_on_invalid_auth r handler t).1
  catch-steps (ok a) handler s t h hh = h
  catch-steps (err (invalid_auth e)) handler s t h hh = p.chain s t (handler t).1 h (hh.at t)
  catch-steps (err (cannot_connect e)) handler s t h hh = h
  catch-steps (err (unexpected_response e)) handler s t h hh = h
  catch-steps (err (unsupported_feature e)) handler s t h hh = h
  catch-steps (err value_error) handler s t h hh = h

  pub Steps-catch {ℓ} :
      {A : Type ℓ} (m handler : Action A)
      → Steps R m
      → Steps R handler
      → Steps R (catch_invalid_auth m handler)
  Steps-catch m handler hm hh = record {
    at = λ s. let (r, t) = m s in catch-steps r handler s t (hm.at s) hh;
  }

  unsupported-steps {ℓ} :
      {A : Type ℓ} (r : Result A) (handler : String → Action A) (s t : Session)
      → R s t
      → ((e : String) → Steps R (handler e))
      → R s (or_on_unsupported r handler t).1
  unsupported-steps (ok a) handler s t h hh = h
  unsupported-steps (err (unsupported_feature e)) handler s t h hh =
      p.chain s t (handler e t).1 h ((hh e).at t)
  unsupported-steps (err (cannot_connect e)) handler s t h hh = h
  unsupported-steps (err (invalid_auth e)) handler s t h hh = h
  unsupported-steps (err (unexpected_response e)) handler s t h hh = h
  unsupported-steps (err value_error) handler s t h hh = h

  pub Steps-catch_unsupported {ℓ} :
      {A : Type ℓ} (m : Action A) (handler : String → Action A)
      → Steps R m
      → ((e : String) → Steps R (handler e))
      → Steps R (catch_unsupported m handler)
  Steps-catch_unsupported m handler hm hh = record {
    at = λ s. let (r, t) = m s in unsupported-steps r handler s t (hm.at s) hh;
  }

  pub Steps-lift {ℓ} : {A : Type ℓ} (r : Result A) → Steps R (lift r)
  Steps-lift r = record { at = λ s. p.same s }
