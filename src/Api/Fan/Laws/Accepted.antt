-- ===== src/Api/Fan/Laws/Accepted.antt =====
-- A write of a fan mode that the console accepts.
use ha_unifi_drive.Prelude.{
  ℕ, Dict, lookup, replace_char, lower, strip, String, ◌≡◌, inl, inr, refl, ap, Bool, true, false,
  Option, none, some, List, [], ◌∷◌, arith, if◌then◌else◌, ◌&&◌, text_eq, Bool-cases, Option-cases,
}
use ha_unifi_drive.Payload.{Value, str, null, get, as_dict, entries}
use ha_unifi_drive.Api.Session.{
  Request, Response, json, answer, Result, ok, Console, Client, Session, Action, Done, pure,
}
use ha_unifi_drive.Api.Transport.{redirects, is_refused, present, request_of, request_url}
use ha_unifi_drive.Api.Transport.Laws.{request_raw-json}
use ha_unifi_drive.Api.Auth.{with_session, retried, ensure_authenticated, set_authenticated, login}
use ha_unifi_drive.Api.Backup.{is_success, is_known_false}
use ha_unifi_drive.Api.Fan.Laws.Canonical.{IsMode, normalize_fan_mode-IsModeOrNone}
use ha_unifi_drive.Api.Fan.Modes.{mode_of_word, normalize_fan_mode, extract_fan_mode}
use ha_unifi_drive.Api.Fan.{
  has_apply, Shape, profile_only, profile_apply, signature, shape_document, api_mode,
  fan_control_path, prefer, write_shapes, write_attempts, set_fan_mode_once, set_fan_mode,
}
use ha_unifi_drive.Api.Fan.Versions.{firmware_prefers_apply_payload}
use ha_unifi_drive.Api.Fan.Laws.Writes.{other, found-IsMode}

pub success-stays : (status : ℕ) → is_success status ≡ true → redirects status ≡ false
success-stays status h = ground arith

pub success-allowed : (status : ℕ) → is_success status ≡ true → is_refused status ≡ false
success-allowed status h = ground arith

abbrev OneFirst : List Shape → Type 0
OneFirst shapes = (shape : Shape) × (shapes ≡ shape ∷ other shape ∷ [])

prefer-OneFirst : (p : Shape → Bool) → OneFirst (prefer p)
prefer-OneFirst p = elim (Bool-cases (p profile_only)) [
  | inl a ↦ elim (Bool-cases (p profile_apply)) [
    | inl b ↦ (profile_only, rw (a, b, prefer) refl)
    | inr b ↦ (profile_only, rw (a, b, prefer) refl)
  ]
  | inr a ↦ elim (Bool-cases (p profile_apply)) [
    | inl b ↦ (profile_apply, rw (a, b, prefer) refl)
    | inr b ↦ (profile_only, rw (a, b, prefer) refl)
  ]
]

write_shapes-OneFirst : (c : Client) → OneFirst (write_shapes c)
unfolding write_shapes
write_shapes-OneFirst c = elim (Option-cases (present c.fan_mode_write_payload_hint)) [
  | inl e ↦
      rw (e, write_shapes)
        (prefer-OneFirst (λ x. firmware_prefers_apply_payload c.system_info && has_apply x))
  | inr (hint, e) ↦ rw (e, write_shapes) (prefer-OneFirst (λ x. text_eq (signature x) hint))
]

abbrev pub found_or : String → Option String → String
found_or canonical none = canonical
found_or canonical (some mode) = mode

chosen-known :
    (b k : Bool) (m n : Action Done) (s : Session)
    → b ≡ false
    → k ≡ true
    → (if b then m else (if k then pure tt else n)) s ≡ (ok tt, s)
chosen-known false true m n s hb hk = refl
chosen-known true k m n s hb hk = cc
chosen-known false false m n s hb hk = cc

ensure-known :
    (console : Console) (s : Session)
    → s.client.use_api_key_auth ≡ false
    → s.client.authenticated ≡ true
    → ensure_authenticated console s ≡ (ok tt, s)
unfolding ensure_authenticated
ensure-known console s by_login known =
    chosen-known s.client.use_api_key_auth s.client.authenticated (set_authenticated true)
      (login console) s by_login known

pub with_session-ok :
    {A : Type 0} (console : Console) (once : Action A) (s : Session) (a : A) (t : Session)
    → s.client.use_api_key_auth ≡ false
    → s.client.authenticated ≡ true
    → once s ≡ (ok a, t)
    → with_session console once s ≡ (ok a, t)
unfolding with_session retried
with_session-ok console once s a t by_login known e =
    rw (ensure-known console s by_login known, e) refl

-- The mode is returned after one request, a PUT of the mode's value in this shape.
abbrev pub Written : String → Shape → Value → Session → Result String × Session → Type 0
Written canonical shape payload s (result, t) =
    (result ≡ ok (found_or canonical (extract_fan_mode payload)))
    × (t.sent
        ≡ request_of s.client "PUT" (request_url s.client fan_control_path)
            (some (shape_document (api_mode canonical) shape))
          ∷ s.sent)

-- The shape is the first that the client tries.
abbrev pub WrittenFirst : String → Value → Session → Result String × Session → Type 0
WrittenFirst canonical payload s run =
    (shape : Shape) × (write_shapes s.client ≡ shape ∷ other shape ∷ [])
    × Written canonical shape payload s run

-- A document asks for a mode: its profile is a word of that mode.
abbrev fields : Option (Dict Value) → Dict Value
fields none = []
fields (some d) = d

abbrev pub AsksFor : String → Value → Type 0
AsksFor canonical document =
    (word : String) × (get (fields (as_dict document)) "profile" ≡ str word)
    × (normalize_fan_mode (str word) ≡ some canonical)

api_mode-again :
    (canonical : String)
    → IsMode canonical
    → normalize_fan_mode (str (api_mode canonical)) ≡ some canonical
unfolding api_mode normalize_fan_mode mode_of_word replace_char lower strip
api_mode-again canonical (inl e) = rw e refl
api_mode-again canonical (inr (inl e)) = rw e refl
api_mode-again canonical (inr (inr e)) = rw e refl

document-AsksFor :
    (canonical : String) (shape : Shape)
    → IsMode canonical
    → AsksFor canonical (shape_document (api_mode canonical) shape)
unfolding get lookup as_dict entries
document-AsksFor canonical profile_only h = (api_mode canonical, refl, api_mode-again canonical h)
document-AsksFor canonical profile_apply h = (api_mode canonical, refl, api_mode-again canonical h)

written :
    (canonical : String) (shape : Shape) (payload : Value) (s : Session)
    (run : Result String × Session)
    → Written canonical shape payload s run
    → run ≡ (ok (found_or canonical (extract_fan_mode payload)), run.1)
written canonical shape payload s run (result, sent) = ap (λ x. (x, run.1)) result

module _ (console : Console) (s : Session) (r : Response) (n : ℕ) (payload : Value)
    (h : (sent : List Request) (q : Request) → console sent q ≡ answer r)
    (taken : is_success r.status ≡ true) (body : r.body ≡ json n payload) where
  attempts-accepted :
      (canonical : String) (shape : Shape) (shapes : List Shape) (status : ℕ) (v : Value)
      → Written canonical shape payload s
          (write_attempts console canonical (shape ∷ shapes) status v s)
  unfolding write_attempts
  attempts-accepted canonical shape shapes status v =
      let e =
        request_raw-json console "PUT" fan_control_path
          (some (shape_document (api_mode canonical) shape)) s r n payload h
          (success-stays r.status taken) (success-allowed r.status taken) body in
      rw (e, taken) (refl, refl)

  once-accepted :
      (canonical : String)
      → is_known_false s.client.fan_mode_write_supported ≡ false
      → WrittenFirst canonical payload s (set_fan_mode_once console canonical s)
  unfolding set_fan_mode_once
  once-accepted canonical maybe =
      let (shape, e) = write_shapes-OneFirst s.client in
      (shape, e, rw (maybe, e) (attempts-accepted canonical shape (other shape ∷ []) 0 null))

  -- Against a console that accepts what it is sent with a JSON body, a client that is logged in and
  -- has not found writes to be unsupported sets a known mode with one request: a PUT, in the shape
  -- that the client tries first, whose profile is a word of the mode. The result is the mode that
  -- the body names, or else the one that was asked for.
  pub set_fan_mode-accepted :
      (option canonical : String)
      → s.client.use_api_key_auth ≡ false
      → s.client.authenticated ≡ true
      → is_known_false s.client.fan_mode_write_supported ≡ false
      → normalize_fan_mode (str option) ≡ some canonical
      → WrittenFirst canonical payload s (set_fan_mode console option s)
        × ((shape : Shape) → AsksFor canonical (shape_document (api_mode canonical) shape))
  unfolding set_fan_mode
  set_fan_mode-accepted option canonical by_login known maybe e =
      let (shape, first, done) = once-accepted canonical maybe in
      let run = set_fan_mode_once console canonical s in
      let same = written canonical shape payload s run done in
      (
        (
          shape,
          first,
          rw
              (
                e,
                set_fan_mode,
                with_session-ok console (set_fan_mode_once console canonical) s _ run.1 by_login
                    known same,
              )
              (refl, done.1),
        ),
        λ shape. document-AsksFor canonical shape (
            found-IsMode (normalize_fan_mode (str option)) canonical e
              (normalize_fan_mode-IsModeOrNone (str option))),
      )
