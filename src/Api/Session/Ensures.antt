-- ===== src/Api/Session/Ensures.antt =====
-- What holds when a method returns, one rule for each way to build one.
use ha_unifi_drive.Prelude.{String, Bool, true, false, if◌then◌else◌}
use ha_unifi_drive.Api.Session.{
  ApiError, cannot_connect, invalid_auth, unexpected_response, unsupported_feature, value_error,
  Result, ok, err, Session, Action, raise, catch_invalid_auth, or_on_invalid_auth,
  catch_unsupported, or_on_unsupported, ◌>>=◌, continue,
}

abbrev pub HoldsOn : {A : Type 0} → (A → Session → Type 0) → Result A × Session → Type 0
HoldsOn P (ok a, t) = P a t
HoldsOn P (err e, t) = Unit

pub record Ensures {A : Type 0} (P : A → Session → Type 0) (m : Action A) : Type 0 where
  pub at : (s : Session) → HoldsOn P (m s)

module _ {A : Type 0} (P : A → Session → Type 0) where
  pub Ensures-raise : (e : ApiError) → Ensures P (raise e)
  Ensures-raise e = record { at = λ s. tt }

  pub Ensures-if :
      (b : Bool) (m n : Action A) → Ensures P m → Ensures P n → Ensures P (if b then m else n)
  Ensures-if true m n hm hn = hm
  Ensures-if false m n hm hn = hn

  continue-holds {ℓ} :
      {B : Type ℓ} (r : Result B) (f : B → Action A) (t : Session)
      → ((b : B) → Ensures P (f b))
      → HoldsOn P (continue r f t)
  continue-holds (ok b) f t h = (h b).at t
  continue-holds (err e) f t h = tt

  pub Ensures-bind {ℓ} :
      {B : Type ℓ} (m : Action B) (f : B → Action A)
      → ((b : B) → Ensures P (f b))
      → Ensures P (m >>= f)
  Ensures-bind m f h = record { at = λ s. let (r, t) = m s in continue-holds r f t h }

  catch-holds :
      (r : Result A) (handler : Action A) (t : Session)
      → HoldsOn P (r, t)
      → Ensures P handler
      → HoldsOn P (or_on_invalid_auth r handler t)
  catch-holds (ok a) handler t h hh = h
  catch-holds (err (invalid_auth e)) handler t h hh = hh.at t
  catch-holds (err (cannot_connect e)) handler t h hh = tt
  catch-holds (err (unexpected_response e)) handler t h hh = tt
  catch-holds (err (unsupported_feature e)) handler t h hh = tt
  catch-holds (err value_error) handler t h hh = tt

  pub Ensures-catch :
      (m handler : Action A)
      → Ensures P m
      → Ensures P handler
      → Ensures P (catch_invalid_auth m handler)
  Ensures-catch m handler hm hh = record {
    at = λ s. let (r, t) = m s in catch-holds r handler t (hm.at s) hh;
  }

  unsupported-holds :
      (r : Result A) (handler : String → Action A) (t : Session)
      → HoldsOn P (r, t)
      → ((e : String) → Ensures P (handler e))
      → HoldsOn P (or_on_unsupported r handler t)
  unsupported-holds (ok a) handler t h hh = h
  unsupported-holds (err (unsupported_feature e)) handler t h hh = (hh e).at t
  unsupported-holds (err (cannot_connect e)) handler t h hh = tt
  unsupported-holds (err (invalid_auth e)) handler t h hh = tt
  unsupported-holds (err (unexpected_response e)) handler t h hh = tt
  unsupported-holds (err value_error) handler t h hh = tt

  pub Ensures-catch_unsupported :
      (m : Action A) (handler : String → Action A)
      → Ensures P m
      → ((e : String) → Ensures P (handler e))
      → Ensures P (catch_unsupported m handler)
  Ensures-catch_unsupported m handler hm hh = record {
    at = λ s. let (r, t) = m s in unsupported-holds r handler t (hm.at s) hh;
  }

  then-holds :
      {B : Type 0} (Q : B → Session → Type 0) (r : Result B) (f : B → Action A) (t : Session)
      → HoldsOn Q (r, t)
      → ((b : B) (u : Session) → Q b u → HoldsOn P (f b u))
      → HoldsOn P (continue r f t)
  then-holds Q (ok b) f t hq h = h b t hq
  then-holds Q (err e) f t hq h = tt

  -- With what the first part ensures.
  pub Ensures-then :
      {B : Type 0} (Q : B → Session → Type 0) (m : Action B) (f : B → Action A)
      → Ensures Q m
      → ((b : B) (u : Session) → Q b u → HoldsOn P (f b u))
      → Ensures P (m >>= f)
  Ensures-then Q m f hm h = record { at = λ s. let (r, t) = m s in then-holds Q r f t (hm.at s) h }
