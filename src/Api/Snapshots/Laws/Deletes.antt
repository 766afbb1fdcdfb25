-- ===== src/Api/Snapshots/Laws/Deletes.antt =====
-- When a settings write may send a DELETE.
use ha_unifi_drive.Prelude.{
  String, ◌≡◌, refl, ◌∙◌, Bool, false, Option, none, some, List, [], ◌∷◌, Dict, keep, text_eq,
  Option-cases, inl, inr, arith,
}
use ha_unifi_drive.Payload.{Value}
use ha_unifi_drive.Snapshot.Targets.{target_key}
use ha_unifi_drive.Snapshot.Write.{
  SnapshotSettingsUpdate, delete_required, write_body, settings_document,
}
use ha_unifi_drive.Api.Session.{Response, Request, Console, Session, Client, modify}
use ha_unifi_drive.Api.Session.Laws.{
  Preorder, Steps, Steps-raise, Steps-pure, Steps-gets, Steps-raise_if, Steps-if, Steps-bind,
  Steps-catch, Steps-lift,
}
use ha_unifi_drive.Api.Transport.{
  exchange, bare_exchange, reject_redirect, read_response_text, read_response_body, request_raw,
  raw_payload,
}
use ha_unifi_drive.Api.Auth.{
  prime_csrf_token, consume_login_response, password_login, login, ensure_authenticated,
  with_session, retried,
}
use ha_unifi_drive.Api.Backup.{is_success, is_not_found}
use ha_unifi_drive.Api.Snapshots.{
  get_snapshot_settings_once, get_snapshot_settings, write_to_paths, write_methods, write_plan,
  write_attempts, update_settings_once, update_current, update_target_settings, find_target,
}

abbrev pub is_delete : Request → Bool
is_delete q = text_eq q.method "DELETE"

-- The requests with DELETE are the same before and after.
abbrev pub SameDeletes : Session → Session → Type 0
SameDeletes s t = keep is_delete t.sent ≡ keep is_delete s.sent

SameDeletes-preorder : Preorder SameDeletes
SameDeletes-preorder = record { same = λ s. refl; chain = λ s t u h k. k ∙ h }

exchange-SameDeletes :
    (console : Console) (method url : String) (body : Option Value)
    → text_eq method "DELETE" ≡ false
    → Steps SameDeletes (exchange console method url body)
unfolding exchange
exchange-SameDeletes console method url body h = record { at = λ s. rw h refl }

bare-SameDeletes :
    (console : Console) (url : String) → Steps SameDeletes (bare_exchange console url)
unfolding bare_exchange
bare-SameDeletes console url = record { at = λ s. refl }

modify-SameDeletes : (f : Client → Client) → Steps SameDeletes (modify f)
modify-SameDeletes f = record { at = λ s. refl }

reject-SameDeletes : (r : Response) → Steps SameDeletes (reject_redirect r)
unfolding reject_redirect
reject-SameDeletes r = record { at = λ s. refl }

text-SameDeletes : (r : Response) → Steps SameDeletes (read_response_text r)
unfolding read_response_text
text-SameDeletes r = record { at = λ s. ground arith }

body-SameDeletes : (r : Response) → Steps SameDeletes (read_response_body r)
unfolding read_response_body
body-SameDeletes r = record { at = λ s. ground arith }

payload-SameDeletes : (r : Response) → Steps SameDeletes (raw_payload r.status r.body)
payload-SameDeletes r = record { at = λ s. ground arith }

ruleset rules = (
  SameDeletes-preorder, Steps-raise, Steps-pure, Steps-gets, Steps-raise_if, Steps-if, Steps-bind,
  Steps-lift, exchange-SameDeletes, bare-SameDeletes, modify-SameDeletes, reject-SameDeletes,
  text-SameDeletes, body-SameDeletes, payload-SameDeletes,
)

prime-SameDeletes : (console : Console) → Steps SameDeletes (prime_csrf_token console)
unfolding prime_csrf_token
prime-SameDeletes console = search rules depth 9

consume-SameDeletes : (r : Response) → Steps SameDeletes (consume_login_response r)
unfolding consume_login_response
consume-SameDeletes r = search rules depth 12

password-SameDeletes : (console : Console) → Steps SameDeletes (password_login console)
unfolding password_login
password-SameDeletes console =
    let h : text_eq "POST" "DELETE" ≡ false = refl in
    search (rules, prime-SameDeletes, consume-SameDeletes) depth 12

login-SameDeletes : (console : Console) → Steps SameDeletes (login console)
unfolding login
login-SameDeletes console = search (rules, password-SameDeletes) depth 9

request-SameDeletes :
    (console : Console) (method path : String) (body : Option Value)
    → text_eq method "DELETE" ≡ false
    → Steps SameDeletes (request_raw console method path body)
unfolding request_raw
request-SameDeletes console method path body h = search rules depth 12

write_to_paths-SameDeletes :
    (console : Console) (kind : Option String) (method : String) (document : Option Value)
    → (paths : List String) → text_eq method "DELETE" ≡ false
    → Steps SameDeletes (write_to_paths console kind method document paths)
unfolding write_to_paths
write_to_paths-SameDeletes console kind method document [] h = record { at = λ s. refl }
write_to_paths-SameDeletes console kind method document (path ∷ paths) h =
    Steps-bind SameDeletes-preorder (request_raw console method path document) _
      (request-SameDeletes console method path document h)
      λ answered.
        Steps-if SameDeletes-preorder (is_success answered.0) _ _ (record { at = λ s. refl })
          (Steps-if SameDeletes-preorder (is_not_found answered.0) _ _
            (write_to_paths-SameDeletes console kind method document paths h)
            (Steps-raise SameDeletes-preorder _))

put-SameDeletes :
    (console : Console) (target : Dict Value) (kind : Option String) (document : Option Value)
    → Steps SameDeletes (write_methods console target kind (("PUT", document) ∷ []))
unfolding write_methods
put-SameDeletes console target kind document =
    let h : text_eq "PUT" "DELETE" ≡ false = refl in
    search (rules, write_to_paths-SameDeletes) depth 9

plan-SameDeletes :
    (console : Console) (target : Dict Value) (kind : Option String)
    → (update : SnapshotSettingsUpdate) (document : Value) → delete_required update ≡ false
    → Steps SameDeletes (write_methods console target kind (write_plan update document))
plan-SameDeletes console target kind update document h =
    rw h (put-SameDeletes console target kind (some document))

module _ (update : SnapshotSettingsUpdate) (h : delete_required update ≡ false) where
  attempts-SameDeletes :
      (console : Console) (target : Dict Value) (kind : Option String)
      → Steps SameDeletes (write_attempts console target kind update)
  attempts-SameDeletes console target kind = elim (Option-cases (write_body target update)) [
    | inl e ↦ rw (e, write_attempts) (Steps-raise SameDeletes-preorder _)
    | inr (body, e) ↦
        rw (e, write_attempts)
          (plan-SameDeletes console target kind update (settings_document body) h)
  ]

  update_once-SameDeletes :
      (console : Console) (target : Dict Value)
      → Steps SameDeletes (update_settings_once console target update)
  unfolding update_settings_once
  update_once-SameDeletes console target = search (rules, attempts-SameDeletes) depth 9

  current-SameDeletes :
      (console : Console) (found : Option (Dict Value))
      → Steps SameDeletes (update_current console update found)
  current-SameDeletes console none = Steps-raise SameDeletes-preorder _
  current-SameDeletes console (some current) =
      search (rules, Steps-catch, update_once-SameDeletes, login-SameDeletes) depth 9

settings_once-SameDeletes :
    (console : Console) → Steps SameDeletes (get_snapshot_settings_once console)
unfolding get_snapshot_settings_once
settings_once-SameDeletes console =
    let h : text_eq "GET" "DELETE" ≡ false = refl in search (rules, request-SameDeletes) depth 12

settings-SameDeletes : (console : Console) → Steps SameDeletes (get_snapshot_settings console)
unfolding get_snapshot_settings with_session retried ensure_authenticated
settings-SameDeletes console =
    search (rules, Steps-catch, settings_once-SameDeletes, login-SameDeletes) depth 12

-- Against any console and from any state, a settings write that does not only disable the target
-- sends no DELETE: the requests with that method are the same before and after.
pub update_target_settings-SameDeletes :
    (console : Console) (target : Dict Value) (update : SnapshotSettingsUpdate) (s : Session)
    → delete_required update ≡ false
    → SameDeletes s (update_target_settings console target update s).1
unfolding update_target_settings
update_target_settings-SameDeletes console target update s h =
    let current = current-SameDeletes update h in
    (Steps-bind SameDeletes-preorder (get_snapshot_settings console) _
        (settings-SameDeletes console)
        (λ settings. current console (find_target (target_key target) settings))).at
      s
