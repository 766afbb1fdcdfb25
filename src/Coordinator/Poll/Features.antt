-- ===== src/Coordinator/Poll/Features.antt =====
-- No optional feature touches the state of the connection, and each keeps the invariant of the
-- inventory.
use ha_unifi_drive.Prelude.{
  ℕ, String, ◌≡◌, refl, inl, inr, Bool, true, false, Option, none, some, List, [], ◌∷◌, Dict,
  length, lookup, ◌||◌, text_eq, arith, if◌then◌else◌, Option-cases, Bool-cases,
}
use ha_unifi_drive.Payload.{Value}
use ha_unifi_drive.Api.Session.{
  cannot_connect, invalid_auth, unexpected_response, unsupported_feature, value_error,
}
use ha_unifi_drive.Api.Backup.{BackupTask, is_known_false}
use ha_unifi_drive.Repairs.{IssueRegistry, Entry}
use ha_unifi_drive.Coordinator.{
  Failure, api, unexpected, uncaught, cancelled, Outcome, returned, stopped, ClientCalls,
  Coordinator,
}
use ha_unifi_drive.Coordinator.Targets.{cleared}
use ha_unifi_drive.Coordinator.Inventory.Pending.{connection}
use ha_unifi_drive.Coordinator.Refresh.{refresh_inventory_if_due}
use ha_unifi_drive.Coordinator.Refresh.Ready.{InventoryInv}
use ha_unifi_drive.Coordinator.Optional.{
  World, Feature, fan_feature, backup_feature, snapshot_feature, refresh, refresh_fan_mode,
  refresh_backup_tasks, refresh_snapshot_settings, settings_answered, refresh_each, changed,
  with_fan_mode, fan_answered, with_tasks, backup_answered, with_settings, without_settings,
  read_inventory, share, after_timeout, read_issue_updated,
}
use ha_unifi_drive.Coordinator.Poll.Frame.{Frame, Frame-refl, Frame-trans, inventory-Frame}

module _ {Inventory : Type 0} where
  pub same-InventoryInv :
      (c c' : Coordinator Inventory)
      → c'.inventory ≡ c.inventory
      → c'.inventory_errors ≡ c.inventory_errors
      → c'.pending_targets ≡ c.pending_targets
      → c'.target_keys ≡ c.target_keys
      → InventoryInv c
      → InventoryInv c'
  same-InventoryInv c c' inventory errors pending keys inv = record {
    target_state = λ k.
        let h = inv.target_state k in
        rw keys (record {
          exclusive = rw (inventory, errors) h.exclusive;
          within = rw (inventory, errors) h.within;
          covered = rw (inventory, errors, pending) h.covered;
        });
  }

  -- A change of neither.
  pub same-Frame :
      (c c' : Coordinator Inventory)
      → connection c' ≡ connection c
      → c'.inventory ≡ c.inventory
      → c'.inventory_errors ≡ c.inventory_errors
      → c'.pending_targets ≡ c.pending_targets
      → c'.target_keys ≡ c.target_keys
      → Frame c c'
  same-Frame c c' connected inventory errors pending keys = record {
    connected = connected;
    kept = same-InventoryInv c c' inventory errors pending keys;
  }

  pub cleared-Frame : (c : Coordinator Inventory) → Frame c (cleared c)
  unfolding cleared lookup
  cleared-Frame c = record {
    connected = refl;
    kept = λ inv. record {
      target_state = λ k. record {
        exclusive = refl;
        within = λ e. (refl, refl);
        covered = λ e h. ground (arith, h);
      };
    };
  }

  fan_mode-Frame :
      (mode : Option String) (c : Coordinator Inventory) → Frame c (with_fan_mode mode c)
  fan_mode-Frame none c = Frame-refl c
  fan_mode-Frame (some mode) c = elim (Bool-cases (text_eq mode "")) [
    | inl e ↦ rw e (Frame-refl c)
    | inr e ↦ rw e (same-Frame c (record c { fan_mode = some mode }) refl refl refl refl refl)
  ]

  tasks-Frame : (tasks : List BackupTask) (c : Coordinator Inventory) → Frame c (with_tasks tasks c)
  tasks-Frame tasks c = same-Frame c (with_tasks tasks c) refl refl refl refl refl

module _ {Inventory State : Type 0} where
  -- A run that leaves the two as they were.
  abbrev pub Keeps : Coordinator Inventory → Option Failure × World Inventory State → Type 0
  Keeps c r = Frame c r.1.coordinator

  pub Frame-if :
      {X : Type 0} (b : Bool) (c : Coordinator Inventory) (r r' : X × World Inventory State)
      → Frame c r.1.coordinator
      → Frame c r'.1.coordinator
      → Frame c (if b then r else r').1.coordinator
  Frame-if true c r r' h h' = h
  Frame-if false c r r' h h' = h'

  fan_answered-Keeps :
      (r : Outcome (Option String)) (w : World Inventory State)
      → Keeps w.coordinator (fan_answered r w)
  fan_answered-Keeps (returned mode) w = fan_mode-Frame mode w.coordinator
  fan_answered-Keeps (stopped (api (cannot_connect e))) w = Frame-refl w.coordinator
  fan_answered-Keeps (stopped (api (invalid_auth e))) w = Frame-refl w.coordinator
  fan_answered-Keeps (stopped (api (unexpected_response e))) w = Frame-refl w.coordinator
  fan_answered-Keeps (stopped (api (unsupported_feature e))) w = Frame-refl w.coordinator
  fan_answered-Keeps (stopped (api value_error)) w = Frame-refl w.coordinator
  fan_answered-Keeps (stopped (unexpected e)) w = Frame-refl w.coordinator
  fan_answered-Keeps (stopped (uncaught e)) w = Frame-refl w.coordinator
  fan_answered-Keeps (stopped cancelled) w = Frame-refl w.coordinator

  backup_answered-Keeps :
      (r : Outcome (List BackupTask)) (w : World Inventory State)
      → Keeps w.coordinator (backup_answered r w)
  backup_answered-Keeps (returned tasks) w = tasks-Frame tasks w.coordinator
  backup_answered-Keeps (stopped (api (cannot_connect e))) w = tasks-Frame [] w.coordinator
  backup_answered-Keeps (stopped (api (invalid_auth e))) w = tasks-Frame [] w.coordinator
  backup_answered-Keeps (stopped (api (unexpected_response e))) w = tasks-Frame [] w.coordinator
  backup_answered-Keeps (stopped (api (unsupported_feature e))) w = tasks-Frame [] w.coordinator
  backup_answered-Keeps (stopped (api value_error)) w = Frame-refl w.coordinator
  backup_answered-Keeps (stopped (unexpected e)) w = Frame-refl w.coordinator
  backup_answered-Keeps (stopped (uncaught e)) w = Frame-refl w.coordinator
  backup_answered-Keeps (stopped cancelled) w = Frame-refl w.coordinator

  module _ (safe_error_text : String → String) (registry : IssueRegistry State) (entry : Entry)
      (calls : ClientCalls Inventory) where
    lost-Frame : (c : Coordinator Inventory) → Frame c (without_settings c)
    lost-Frame c = same-Frame c (without_settings c) refl refl refl refl refl

    got-Keeps :
        (settings : List (Dict Value)) (w : World Inventory State)
        → Keeps w.coordinator (
            read_inventory safe_error_text registry entry calls
              (changed (with_settings settings) w))
    got-Keeps settings w =
        let c = w.coordinator in
        let c' = with_settings settings c in
        Frame-trans c c' (refresh_inventory_if_due safe_error_text calls c' w.link).1
          (same-Frame c c' refl refl refl refl refl)
          (inventory-Frame safe_error_text calls c' w.link)

    settings_answered-Keeps :
        (r : Outcome (List (Dict Value))) (w : World Inventory State)
        → Keeps w.coordinator (settings_answered safe_error_text registry entry calls r w)
    unfolding settings_answered
    settings_answered-Keeps (returned settings) w =
        let supported = w.link.session.client.snapshot_settings_read_supported in
        let told = read_issue_updated safe_error_text registry entry supported w in
        Frame-if (is_known_false supported) w.coordinator
          (
            none,
            read_issue_updated safe_error_text registry entry (some false)
                (changed without_settings w),
          )
          (read_inventory safe_error_text registry entry calls
            (changed (with_settings settings) told))
          (lost-Frame w.coordinator) (got-Keeps settings told)
    settings_answered-Keeps (stopped (api (cannot_connect e))) w = lost-Frame w.coordinator
    settings_answered-Keeps (stopped (api (invalid_auth e))) w = lost-Frame w.coordinator
    settings_answered-Keeps (stopped (api (unexpected_response e))) w = lost-Frame w.coordinator
    settings_answered-Keeps (stopped (api (unsupported_feature e))) w = lost-Frame w.coordinator
    settings_answered-Keeps (stopped (api value_error)) w = Frame-refl w.coordinator
    settings_answered-Keeps (stopped (unexpected e)) w = Frame-refl w.coordinator
    settings_answered-Keeps (stopped (uncaught e)) w = Frame-refl w.coordinator
    settings_answered-Keeps (stopped cancelled) w = lost-Frame w.coordinator

    refresh-Keeps :
        (feature : Feature) (w : World Inventory State)
        → Keeps w.coordinator (refresh safe_error_text registry entry feature calls w)
    unfolding refresh refresh_fan_mode refresh_backup_tasks refresh_snapshot_settings
    refresh-Keeps fan_feature w =
        let (r, l) = calls.get_fan_mode w.link in
        let w' = record w { link = l } in
        Frame-if w.coordinator.fan_control_enabled w.coordinator (fan_answered r w') (none, w)
          (fan_answered-Keeps r w') (Frame-refl w.coordinator)
    refresh-Keeps backup_feature w =
        let (r, l) = calls.get_backup_tasks w.link in
        backup_answered-Keeps r (record w { link = l })
    refresh-Keeps snapshot_feature w =
        let (r, l) = calls.get_snapshot_settings w.link in
        settings_answered-Keeps r (record w { link = l })

  module _ (safe_error_text : String → String) (registry : IssueRegistry State) (entry : Entry)
      (within : ℕ → ClientCalls Inventory) where
    pub each-Keeps :
        (deadline : ℕ) (rest : List Feature) (timed_out : Bool) (w : World Inventory State)
        → Frame w.coordinator
            (refresh_each safe_error_text registry entry within deadline rest timed_out
              w).2.coordinator
    unfolding refresh_each
    each-Keeps deadline [] timed_out w = Frame-refl w.coordinator
    each-Keeps deadline (feature ∷ rest) timed_out w =
        let budget = share deadline w.link.loop_time (length (feature ∷ rest)) in
        let (stop, w') = refresh safe_error_text registry entry feature (within budget) w in
        let h = refresh-Keeps safe_error_text registry entry (within budget) feature w in
        elim (Option-cases (after_timeout stop).0) [
          | inl e ↦
              rw (e, refresh_each)
                (Frame-trans w.coordinator w'.coordinator _ h
                  (each-Keeps deadline rest (timed_out || (after_timeout stop).1) w'))
          | inr (failure, e) ↦ rw (e, refresh_each) h
        ]
