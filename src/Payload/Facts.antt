-- ===== src/Payload/Facts.antt =====
-- Facts about the built-ins.
use ha_unifi_drive.Prelude.{◌≡◌, true, false, arith}
use ha_unifi_drive.Payload.{Value, str, truthy, is_blank}

pub truthy-not-blank : (v : Value) → truthy v ≡ true → is_blank v ≡ false
unfolding truthy is_blank
truthy-not-blank (str s) h = ground arith
truthy-not-blank Value.null h = ground arith
truthy-not-blank _ h = ground arith
