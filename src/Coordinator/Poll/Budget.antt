-- ===== src/Coordinator/Poll/Budget.antt =====
-- How the time for the optional features is shared.
use ha_unifi_drive.Prelude.{
  ℕ, suc, ◌+◌, ◌-◌, ◌*◌, ◌/◌, ◌≤◌, String, ◌≡◌, refl, inl, inr, Bool, true, false, ◌||◌, Option,
  none, some, List, [], ◌∷◌, length, arith, if◌then◌else◌, Option-cases,
}
use ha_unifi_drive.Repairs.{IssueRegistry, Entry}
use ha_unifi_drive.Coordinator.{Failure, ClientCalls}
use ha_unifi_drive.Coordinator.Optional.{
  World, Feature, refresh, refresh_each, share, after_timeout, refresh_timeout, changed, features,
  clear_snapshot_settings_state,
}
use ha_unifi_drive.Coordinator.Poll.{refreshed, refresh_features, refresh_optional_features}

div-le : (a n : ℕ) → a / suc n ≤ a
div-le a n = grind arith

-- A share leaves the deadline where it is.
share-le : (deadline now n : ℕ) → now ≤ deadline → now + share deadline now (suc n) ≤ deadline
share-le deadline now n h = omega (arith, div-le (deadline - now) n)

-- A feature that keeps to its share leaves the next one a share that is no smaller, for the three
-- features and for the two.
pub share-fair :
    (deadline now used : ℕ)
    → used ≤ share deadline now 3
    → share deadline now 3 ≤ share deadline (now + used) 2
share-fair deadline now used h = omega arith

pub share-fair_last :
    (deadline now used : ℕ)
    → used ≤ share deadline now 2
    → share deadline now 2 ≤ share deadline (now + used) 1
share-fair_last deadline now used h = omega arith

module _ {Inventory State : Type 0} (safe_error_text : String → String)
    (registry : IssueRegistry State) (entry : Entry) (within : ℕ → ClientCalls Inventory) where
  -- The timeout ends a feature when its budget is used up.
  abbrev pub IsPrompt : Type 0
  IsPrompt =
      (feature : Feature) (budget : ℕ) (w : World Inventory State)
      → (refresh safe_error_text registry entry feature (within budget) w).1.link.loop_time
        ≤ w.link.loop_time + budget

  -- All the features end by the deadline.
  each-deadline :
      (deadline : ℕ) (rest : List Feature) (timed_out : Bool) (w : World Inventory State)
      → IsPrompt
      → w.link.loop_time ≤ deadline
      → (refresh_each safe_error_text registry entry within deadline rest timed_out
          w).2.link.loop_time
        ≤ deadline
  unfolding refresh_each
  each-deadline deadline [] timed_out w prompt h = h
  each-deadline deadline (feature ∷ rest) timed_out w prompt h =
      let budget = share deadline w.link.loop_time (length (feature ∷ rest)) in
      let (stop, w') = refresh safe_error_text registry entry feature (within budget) w in
      let h' : w'.link.loop_time ≤ deadline =
        omega
          (arith, prompt feature budget w, share-le deadline w.link.loop_time (length rest) h) in
      elim (Option-cases (after_timeout stop).0) [
        | inl e ↦
            rw (e, refresh_each)
              (each-deadline deadline rest (timed_out || (after_timeout stop).1) w' prompt h')
        | inr (failure, e) ↦ rw (e, refresh_each) h'
      ]

  refreshed-time :
      (r : Option Failure × Bool × World Inventory State)
      → (refreshed safe_error_text registry entry within r).1.link.loop_time ≡ r.2.link.loop_time
  refreshed-time (none, timed_out, w) = refl
  refreshed-time (some failure, timed_out, w) = refl

  start-time :
      (b : Bool) (w : World Inventory State)
      → (if b
          then w
          else clear_snapshot_settings_state safe_error_text registry entry w).link.loop_time
        ≡ w.link.loop_time
  unfolding clear_snapshot_settings_state
  start-time true w = refl
  start-time false w = refl

  time-if :
      (b : Bool) (r r' : Option Failure × World Inventory State) (t : ℕ)
      → r.1.link.loop_time ≤ t
      → r'.1.link.loop_time ≤ t
      → (if b then r else r').1.link.loop_time ≤ t
  time-if true r r' t h h' = h
  time-if false r r' t h h' = h'

  features-deadline :
      (ticks : ℕ) (w : World Inventory State)
      → IsPrompt
      → (refresh_features safe_error_text registry entry within ticks w).1.link.loop_time
        ≤ w.link.loop_time + refresh_timeout ticks
  unfolding refresh_features
  features-deadline ticks w prompt =
      let held = changed (λ c. record c { refreshing = true }) w in
      let buttons = w.coordinator.snapshot_buttons_enabled in
      let start =
        if buttons
        then held
        else clear_snapshot_settings_state safe_error_text registry entry held in
      let deadline = w.link.loop_time + refresh_timeout ticks in
      let r =
        refresh_each safe_error_text registry entry within deadline (features w.coordinator) false
          start in
      let e : start.link.loop_time ≡ w.link.loop_time = start-time buttons held in
      omega (
        arith,
        refreshed-time r,
        e,
        each-deadline deadline (features w.coordinator) false start prompt (omega (arith, e)),
      )

  -- The optional features together take ten seconds at most, where the timeout around each feature
  -- ends it when its budget is used up.
  pub refresh_optional_features-deadline :
      (ticks : ℕ) (w : World Inventory State)
      → IsPrompt
      → (refresh_optional_features safe_error_text registry entry within ticks w).1.link.loop_time
        ≤ w.link.loop_time + 10 * ticks
  unfolding refresh_optional_features
  refresh_optional_features-deadline ticks w prompt =
      time-if w.coordinator.refreshing (none, w)
        (refresh_features safe_error_text registry entry within ticks w)
        (w.link.loop_time + 10 * ticks) (omega arith) (features-deadline ticks w prompt)
