-- ===== src/Api/Fan/Laws/Writes.antt =====
-- What a fan-mode write that returns has left in the client, and in which order it tries the shapes.
use ha_unifi_drive.Prelude.{
  ℕ, String, ◌≡◌, inl, inr, refl, Bool, true, false, if◌then◌else◌, Option, none, some, List, [],
  ◌∷◌, Option-cases,
}
use ha_unifi_drive.Payload.{Value, str}
use ha_unifi_drive.Api.Session.{Console, Session, Action, Result, ok, err, ◌>>◌}
use ha_unifi_drive.Api.Session.Ensures.{
  HoldsOn, Ensures, Ensures-raise, Ensures-if, Ensures-bind, Ensures-catch, Ensures-then,
}
use ha_unifi_drive.Api.Transport.{request_raw}
use ha_unifi_drive.Api.Transport.Sent.{IsLast, Sent, request_raw-Sent}
use ha_unifi_drive.Api.Backup.{is_success, is_not_found}
use ha_unifi_drive.Api.Auth.{with_session, retried}
use ha_unifi_drive.Api.Fan.Modes.{normalize_fan_mode, extract_fan_mode}
use ha_unifi_drive.Api.Fan.{
  Shape, profile_only, profile_apply, signature, accept_mode, shape_document, api_mode,
  fan_control_path, set_write_supported, write_refused, write_attempts, set_fan_mode_once,
  set_fan_mode, write_shapes,
}
use ha_unifi_drive.Api.Fan.Laws.Canonical.{
  IsMode, IsModeOrNone, normalize_fan_mode-IsModeOrNone, extract_fan_mode-IsModeOrNone,
}

abbrev pub other : Shape → Shape
other profile_only = profile_apply
other profile_apply = profile_only

-- The client knows the mode that the write returned, that writes work, and which shape the last
-- request had, the one that was accepted; and its next write tries that shape first.
abbrev pub SettledAs : String → String → Session → Type 0
SettledAs canonical mode t =
    IsMode mode
    × (t.client.last_fan_mode ≡ some mode)
    × (t.client.fan_mode_write_supported ≡ some true)
    × (shape : Shape) × IsLast "PUT" (shape_document (api_mode canonical) shape) t.sent
    × (t.client.fan_mode_write_payload_hint ≡ some (signature shape))
    × (write_shapes t.client ≡ shape ∷ other shape ∷ [])

-- The value in the request is that of the mode that the option names.
abbrev pub Settled : String → String → Session → Type 0
Settled option mode t =
    (canonical : String) × (normalize_fan_mode (str option) ≡ some canonical)
    × SettledAs canonical mode t

chosen-IsMode :
    (canonical : String) (found : Option String)
    → IsMode canonical
    → IsModeOrNone found
    → IsMode (elim found [ none ↦ canonical | some m ↦ m ])
chosen-IsMode canonical none h k = h
chosen-IsMode canonical (some m) h k = k

-- A write of the shape, when it is accepted.
accept_mode-Settles :
    (canonical : String) (shape : Shape) (payload : Value) (s : Session)
    → IsMode canonical
    → IsLast "PUT" (shape_document (api_mode canonical) shape) s.sent
    → HoldsOn (SettledAs canonical) (accept_mode canonical shape payload s)
unfolding write_shapes
accept_mode-Settles canonical profile_only payload s h sent = (
  chosen-IsMode canonical (extract_fan_mode payload) h (extract_fan_mode-IsModeOrNone payload),
  refl,
  refl,
  profile_only,
  sent,
  refl,
  refl,
)
accept_mode-Settles canonical profile_apply payload s h sent = (
  chosen-IsMode canonical (extract_fan_mode payload) h (extract_fan_mode-IsModeOrNone payload),
  refl,
  refl,
  profile_apply,
  sent,
  refl,
  refl,
)

if-holds :
    {A : Type 0} (P : A → Session → Type 0) (b : Bool) (m n : Action A) (s : Session)
    → HoldsOn P (m s)
    → HoldsOn P (n s)
    → HoldsOn P ((if b then m else n) s)
if-holds P true m n s hm hn = hm
if-holds P false m n s hm hn = hn

write_attempts-Ensures :
    (console : Console) (canonical : String) (shapes : List Shape) (status : ℕ) (payload : Value)
    → IsMode canonical
    → Ensures (SettledAs canonical) (write_attempts console canonical shapes status payload)
unfolding write_attempts
write_attempts-Ensures console canonical [] status payload h = Ensures-raise (SettledAs canonical) _
write_attempts-Ensures console canonical (shape ∷ shapes) status payload h =
    let P = SettledAs canonical in
    let document = shape_document (api_mode canonical) shape in
    Ensures-then P (Sent "PUT" document)
      (request_raw console "PUT" fan_control_path (some document)) _
      (request_raw-Sent "PUT" document console fan_control_path)
      λ answered u sent.
        let (n, v) = answered in
        if-holds P (is_success n) (accept_mode canonical shape v) _ u
          (accept_mode-Settles canonical shape v u h sent)
          (if-holds P (is_not_found n) (set_write_supported false >> write_refused n v)
            (write_attempts console canonical shapes n v) u tt
            ((write_attempts-Ensures console canonical shapes n v h).at u))

ruleset settled_rules = (Ensures-raise, Ensures-if, Ensures-bind, write_attempts-Ensures)

once-Ensures :
    (console : Console) (canonical : String)
    → IsMode canonical
    → Ensures (SettledAs canonical) (set_fan_mode_once console canonical)
unfolding set_fan_mode_once
once-Ensures console canonical h = search settled_rules depth 9

module _ {A : Type 0} (P : A → Session → Type 0) (console : Console) (once : Action A) where
  pub with_session-Ensures : Ensures P once → Ensures P (with_session console once)
  unfolding with_session retried
  with_session-Ensures h =
      Ensures-bind P _ _ λ _. Ensures-catch P once _ h (Ensures-bind P _ _ λ _. h)

pub found-IsMode :
    (found : Option String) (mode : String) → found ≡ some mode → IsModeOrNone found → IsMode mode
found-IsMode found mode e h = rw e at h

named :
    (option canonical : String) (m : Action String)
    → normalize_fan_mode (str option) ≡ some canonical
    → Ensures (SettledAs canonical) m
    → Ensures (Settled option) m
named option canonical m e h = record { at = λ s. let (r, t) = m s in returned r t (h.at s) }
  where
    returned :
        (r : Result String) (t : Session)
        → HoldsOn (SettledAs canonical) (r, t)
        → HoldsOn (Settled option) (r, t)
    returned (ok mode) t k = (canonical, e, k)
    returned (err x) t k = tt

set_fan_mode-Ensures :
    (console : Console) (option : String) → Ensures (Settled option) (set_fan_mode console option)
unfolding set_fan_mode
set_fan_mode-Ensures console option = elim (Option-cases (normalize_fan_mode (str option))) [
  | inl e ↦ rw (e, set_fan_mode) (Ensures-raise (Settled option) _)
  | inr (canonical, e) ↦
      rw (e, set_fan_mode)
        (named option canonical (with_session console (set_fan_mode_once console canonical)) e (
          with_session-Ensures (SettledAs canonical) console (set_fan_mode_once console canonical) (
            once-Ensures console canonical (
              found-IsMode (normalize_fan_mode (str option)) canonical e
                (normalize_fan_mode-IsModeOrNone (str option))))))
]

-- Against any console and from any state, a fan-mode write that returns has one of the three labels
-- as its result, and leaves the client with that label as its last mode, with writes known to be
-- supported, and with the accepted shape as its hint: the last request that it has sent is a PUT of
-- the value of the mode that was asked for, in that shape. The next write tries it first.
pub set_fan_mode-Settled :
    (console : Console) (option : String) (s : Session)
    → HoldsOn (Settled option) (set_fan_mode console option s)
set_fan_mode-Settled console option s = (set_fan_mode-Ensures console option).at s
