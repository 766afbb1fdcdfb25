-- ===== src/Api/Snapshots/Laws/Accepted.antt =====
-- The creation of a snapshot that the console accepts.
use ha_unifi_drive.Prelude.{
  ℕ, String, ◌≡◌, refl, ap, Bool, true, false, Option, some, List, ◌∷◌, Dict,
}
use ha_unifi_drive.Payload.{Value, str, bool, dict, field, end}
use ha_unifi_drive.Snapshot.Targets.{target_type, create_paths}
use ha_unifi_drive.Api.Session.{Request, Response, json, answer, Result, ok, Console, Session, Done}
use ha_unifi_drive.Api.Transport.{request_of, request_url}
use ha_unifi_drive.Api.Transport.Laws.{request_raw-json}
use ha_unifi_drive.Api.Backup.{is_success}
use ha_unifi_drive.Api.Fan.Laws.Accepted.{success-stays, success-allowed, with_session-ok}
use ha_unifi_drive.Api.Snapshots.Capabilities.{creation, supported_of}
use ha_unifi_drive.Api.Snapshots.Laws.Flags.{with_capability-supported}
use ha_unifi_drive.Api.Snapshots.{
  create_snapshot_once, try_paths, create_snapshot_with_paths, create_document, create_snapshot,
  create_snapshot_target,
}

-- A run that returns with one request, a POST of the document to the path, and leaves creation as
-- known to be supported.
abbrev pub Created : String → Value → Session → Result Done × Session → Type 0
Created path document s (result, t) =
    (result ≡ ok tt)
    × (t.sent ≡ request_of s.client "POST" (request_url s.client path) (some document) ∷ s.sent)
    × (supported_of creation t.client ≡ some true)

returned :
    (path : String) (document : Value) (s : Session) (out : Result Done × Session)
    → Created path document s out
    → out ≡ (ok tt, out.1)
returned path document s out (result, sent, flag) = ap (λ x. (x, out.1)) result

module _ (console : Console) (s : Session) (r : Response) (n : ℕ) (payload : Value)
    (h : (sent : List Request) (q : Request) → console sent q ≡ answer r)
    (taken : is_success r.status ≡ true) (body : r.body ≡ json n payload) where
  once-Created :
      (document : Value) (kind : Option String) (path : String)
      → Created path document s (create_snapshot_once console document kind path s)
  unfolding create_snapshot_once
  once-Created document kind path =
      let e =
        request_raw-json console "POST" path (some document) s r n payload h
          (success-stays r.status taken) (success-allowed r.status taken) body in
      rw (e, taken) (refl, refl, with_capability-supported creation kind _)

  paths-Created :
      (document : Value) (kind : Option String) (path : String) (paths : List String)
      → Created path document s (create_snapshot_with_paths console (path ∷ paths) document kind s)
  unfolding create_snapshot_with_paths try_paths
  paths-Created document kind path paths =
      let created = once-Created document kind path in
      rw (returned path document s (create_snapshot_once console document kind path s) created)
        (refl, created.1, created.2)

  -- Against a console that accepts what it is sent with a JSON body, a client that is logged in
  -- creates a snapshot of a target with one request: it sends a POST to the first of the target's
  -- paths, with the description and the lock as its document, returns, and then knows creation to be
  -- supported.
  pub create_snapshot_target-Created :
      (target : Dict Value) (description : String) (locked : Bool) (path : String)
      → (paths : List String) → s.client.use_api_key_auth ≡ false
      → s.client.authenticated ≡ true
      → create_paths target ≡ ok (path ∷ paths)
      → Created path
          (dict (field "description" (str description) (field "locked" (bool locked) end)))
          s
          (create_snapshot_target console target description locked s)
  unfolding create_snapshot_target create_snapshot
  create_snapshot_target-Created target description locked path paths by_login known e =
      let document = create_document description locked in
      let kind = some (target_type target) in
      let created = paths-Created document kind path paths in
      let run = create_snapshot_with_paths console (path ∷ paths) document kind in
      rw
        (
          e,
          with_session-ok console run s tt (run s).1 by_login known
              (returned path document s (run s) created),
        )
        (refl, created.1, created.2)
