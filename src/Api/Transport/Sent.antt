-- ===== src/Api/Transport/Sent.antt =====
-- The last request that a raw request has sent, when it returns.
use ha_unifi_drive.Prelude.{ℕ, String, ◌≡◌, inl, inr, refl, some, List, [], ◌∷◌, Bool-cases}
use ha_unifi_drive.Payload.{Value}
use ha_unifi_drive.Api.Session.{
  Request, Response, Reply, unreachable, client_error, answer, Body, empty, oversized, cut_off,
  text, json, Console, Session, Action, gets, modify, raise_if, ◌>>=◌, ◌>>◌, invalid_auth,
}
use ha_unifi_drive.Api.Session.Ensures.{HoldsOn, Ensures, Ensures-bind, Ensures-then}
use ha_unifi_drive.Api.Transport.{
  exchange, outcome, raw_payload, request_raw, reject_redirect, redirects, is_refused,
  update_csrf_token, auth_error_message, request_of, request_url,
}

-- The last request that was sent has this method and this document.
abbrev pub IsLast : String → Value → List Request → Type 0
IsLast method document [] = ⊥
IsLast method document (q ∷ _) = (q.method ≡ method) × (q.json_body ≡ some document)

abbrev pub Sent : {A : Type 0} → String → Value → A → Session → Type 0
Sent method document answered t = IsLast method document t.sent

module _ (method : String) (document : Value) where
  payload-Sent :
      (status : ℕ) (body : Body) (s : Session)
      → IsLast method document s.sent
      → HoldsOn (Sent method document) (raw_payload status body s)
  payload-Sent status empty s h = h
  payload-Sent status oversized s h = tt
  payload-Sent status (cut_off why) s h = tt
  payload-Sent status (text t) s h = h
  payload-Sent status (json n v) s h = h

  outcome-Sent :
      (reply : Reply) (t : Session)
      → IsLast method document t.sent
      → HoldsOn (Sent method document) (outcome reply, t)
  unfolding outcome
  outcome-Sent unreachable t h = tt
  outcome-Sent (client_error name) t h = tt
  outcome-Sent (answer r) t h = h

  exchange-Sent :
      (console : Console) (url : String)
      → Ensures (Sent method document) (exchange console method url (some document))
  unfolding exchange
  exchange-Sent console url = record {
    at = λ s.
        let q = request_of s.client method url (some document) in
        outcome-Sent (console s.sent q) (record s { sent = q ∷ s.sent }) (refl, refl);
  }

  -- What a raw request does with a response.
  abbrev received : Response → Action (ℕ × Value)
  unfolding reject_redirect
  received r = do
    reject_redirect r
    modify (update_csrf_token r)
    message ← gets auth_error_message
    raise_if (is_refused r.status) (invalid_auth message)
    raw_payload r.status r.body

  received-Sent :
      (r : Response) (s : Session)
      → IsLast method document s.sent
      → HoldsOn (Sent method document) (received r s)
  unfolding received reject_redirect
  received-Sent r s sent = elim (Bool-cases (redirects r.status)) [
    | inl away ↦ rw away tt
    | inr stays ↦ elim (Bool-cases (is_refused r.status)) [
      | inl refused ↦ rw (stays, refused) tt
      | inr allowed ↦
          rw (stays, allowed)
            (payload-Sent r.status r.body (record s { client = update_csrf_token r s.client }) sent)
    ]
  ]

  pub request_raw-Sent :
      (console : Console) (path : String)
      → Ensures (Sent method document) (request_raw console method path (some document))
  unfolding request_raw received
  request_raw-Sent console path =
      Ensures-bind (Sent method document) (gets (λ c. request_url c path))
        (λ url. exchange console method url (some document) >>= received)
        λ url.
          Ensures-then (Sent method document) (Sent method document)
            (exchange console method url (some document)) received (exchange-Sent console url)
            λ r u sent. received-Sent r u sent
