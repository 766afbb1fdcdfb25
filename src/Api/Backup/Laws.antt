-- ===== src/Api/Backup/Laws.antt =====
-- Reading backup tasks: a missing endpoint is asked once.
use ha_unifi_drive.Prelude.{ℕ, ◌+◌, ◌≡◌, refl, true, false, none, List, [], length, arith}
use ha_unifi_drive.Payload.{Value}
use ha_unifi_drive.Api.Session.{json, Request, Response, answer, ok, Console, Session}
use ha_unifi_drive.Api.Transport.{is_refused, redirects}
use ha_unifi_drive.Api.Transport.Laws.{request_raw-json}
use ha_unifi_drive.Api.Backup.{
  is_known_false, is_not_found, get_backup_tasks_once, backup_tasks_path,
}

not_found-stays : (status : ℕ) → is_not_found status ≡ true → redirects status ≡ false
not_found-stays status h = ground arith

not_found-allowed : (status : ℕ) → is_not_found status ≡ true → is_refused status ≡ false
not_found-allowed status h = ground arith

-- When the console answers a first read with 404 or 405, and a JSON body within the limit, the read
-- gives no tasks with one request, and every later read gives no tasks and sends nothing.
pub get_backup_tasks_once-settled :
    (console : Console) (s : Session) (r : Response) (n : ℕ) (payload : Value)
    → ((sent : List Request) (q : Request) → console sent q ≡ answer r)
    → is_not_found r.status ≡ true
    → r.body ≡ json n payload
    → is_known_false s.client.backup_tasks_read_supported ≡ false
    → ((get_backup_tasks_once console s).0 ≡ ok [])
      × (length (get_backup_tasks_once console s).1.sent ≡ length s.sent + 1)
      × (get_backup_tasks_once console (get_backup_tasks_once console s).1
          ≡ (ok [], (get_backup_tasks_once console s).1))
unfolding get_backup_tasks_once
get_backup_tasks_once-settled console s r n payload h missing body unknown =
    let e =
      request_raw-json console "GET" backup_tasks_path none s r n payload h
        (not_found-stays r.status missing) (not_found-allowed r.status missing) body in
    rw (unknown, e, missing) (refl, omega arith, refl)
