-- ===== src/Coordinator/Connection/Laws.antt =====
-- Laws of the connection state: what a failed poll publishes, when the device counts as offline,
-- and what is logged.
use ha_unifi_drive.Prelude.{
  ℕ, suc, String, ◌≡◌, sym, ap, not, ◌∙◌, Bool, true, false, List, [], ◌∷◌, Dict, ltb, arith,
  is_some,
}
use ha_unifi_drive.Payload.{Value}
use ha_unifi_drive.Api.Session.{cannot_connect}
use ha_unifi_drive.Coordinator.{
  api, Outcome, returned, stopped, Coordinator, LogLine, restored, kept_online, unavailable,
}
use ha_unifi_drive.Coordinator.Inventory.Pending.{connection}
use ha_unifi_drive.Coordinator.Connection.{
  storage_polled, connection_failed, connection_recovered, should_keep_cached_data_online,
}

-- How many polls have failed to connect since the last that succeeded.
abbrev pub failures_after : Outcome (Dict Value) → ℕ → ℕ
failures_after (returned _) n = 0
failures_after (stopped (api (cannot_connect _))) n = suc n
failures_after _ n = n

-- What the log says last of the connection: an outage, or none.
abbrev pub told_outage : List LogLine → Bool
told_outage [] = false
told_outage (restored ∷ log) = false
told_outage (unavailable ∷ log) = true
told_outage (kept_online ∷ log) = told_outage log

abbrev pub Alternates : List LogLine → Type 0
Alternates [] = Unit
Alternates (restored ∷ log) = (told_outage log ≡ true) × Alternates log
Alternates (unavailable ∷ log) = (told_outage log ≡ false) × Alternates log
Alternates (kept_online ∷ log) = Alternates log

module _ {Inventory : Type 0} where
  pub record Counts (c : Coordinator Inventory) (n : ℕ) : Type 0 where
    pub has_data : is_some c.cached ≡ true
    pub online : c.is_device_online ≡ ltb n 2
    pub counted : c.connection_failure_count ≡ n

  pub record Logged (c : Coordinator Inventory) : Type 0 where
    pub has_data : is_some c.cached ≡ true
    pub told : told_outage c.log ≡ not c.is_device_online
    pub flag : told_outage c.log ≡ c.offline_logged
    pub alternates : Alternates c.log

  pub polled-Counts :
      (safe : String → String) (r : Outcome (Dict Value)) (c : Coordinator Inventory) (n : ℕ)
      → Counts c n
      → Counts (storage_polled safe r c).1 (failures_after r n)
  unfolding storage_polled connection_failed connection_recovered should_keep_cached_data_online
  polled-Counts safe r c n h = ground (arith)

  pub polled-Logged :
      (safe : String → String) (r : Outcome (Dict Value)) (c : Coordinator Inventory)
      → Logged c
      → Logged (storage_polled safe r c).1
  unfolding storage_polled connection_failed connection_recovered should_keep_cached_data_online
  polled-Logged safe r c h = ground (arith)

  pub connected-Counts :
      (c c' : Coordinator Inventory) (n : ℕ)
      → connection c' ≡ connection c
      → Counts c n
      → Counts c' n
  connected-Counts c c' n same h = record {
    has_data = ap (λ x. is_some x.0) same ∙ h.has_data;
    online = ap (λ x. x.1) same ∙ h.online;
    counted = ap (λ x. x.2) same ∙ h.counted;
  }

  pub connected-Logged :
      (c c' : Coordinator Inventory) → connection c' ≡ connection c → Logged c → Logged c'
  connected-Logged c c' same h =
      let log = ap (λ x. x.5) same in
      record {
        has_data = ap (λ x. is_some x.0) same ∙ h.has_data;
        told = ap told_outage log ∙ h.told ∙ sym (ap (λ x. not x.1) same);
        flag = ap told_outage log ∙ h.flag ∙ sym (ap (λ x. x.4) same);
        alternates = rw log h.alternates;
      }
