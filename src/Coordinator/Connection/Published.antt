-- ===== src/Coordinator/Connection/Published.antt =====
-- What a poll without a connection publishes.
use ha_unifi_drive.Prelude.{
  ℕ, ◌==◌, String, ◌≡◌, refl, ap, false, some, [], ◌∷◌, Dict, insert, lookup-insert, text_eq, arith,
  if◌then◌else◌,
}
use ha_unifi_drive.Payload.{Value, str, dict, get, as_dict, fields_of, entries}
use ha_unifi_drive.Api.Session.{cannot_connect}
use ha_unifi_drive.Coordinator.{api, stopped, Coordinator}
use ha_unifi_drive.Coordinator.Connection.{
  ready, system_of, with_offline_status, storage_polled, connection_failed,
  should_keep_cached_data_online,
}
use ha_unifi_drive.Coordinator.Connection.Laws.{Counts}

entries-fields_of : (d : Dict Value) → entries (fields_of d) ≡ d
unfolding entries fields_of
entries-fields_of [] = refl
entries-fields_of ((k, v) ∷ d) = ap (λ e. (k, v) ∷ e) (entries-fields_of d)

get-insert :
    (k j : String) (v : Value) (d : Dict Value)
    → get (insert k v d) j ≡ (if text_eq k j then v else get d j)
unfolding get
get-insert k j v d = ground (arith, lookup-insert k j v d)

-- What `_system` holds.
abbrev pub system : Dict Value → Dict Value
system d = system_of (as_dict (get d "_system"))

system-offline :
    (d : Dict Value) → system (with_offline_status d) ≡ insert "status" (str "offline") (system d)
unfolding with_offline_status as_dict
system-offline d =
    rw
      (
        get-insert "_system" "_system"
            (dict (fields_of (insert "status" (str "offline") (system d)))) d,
        as_dict,
      )
      (entries-fields_of (insert "status" (str "offline") (system d)))

-- Data marked as offline: all else of it, and all else of its system, is as it was.
pub record IsMarked (d d' : Dict Value) : Type 0 where
  pub others : (k : String) → text_eq "_system" k ≡ false → get d' k ≡ get d k
  pub status : get (system d') "status" ≡ str "offline"
  pub system_kept : (k : String) → text_eq "status" k ≡ false → get (system d') k ≡ get (system d) k

with_offline_status-IsMarked : (d : Dict Value) → IsMarked d (with_offline_status d)
unfolding with_offline_status
with_offline_status-IsMarked d =
    let marked = insert "status" (str "offline") (system d) in
    record {
      others = λ k other. rw (get-insert "_system" k (dict (fields_of marked)) d, other) refl;
      status = rw (system-offline d) (get-insert "status" "status" (str "offline") (system d));
      system_kept = λ k other.
          rw (system-offline d) (rw (get-insert "status" k (str "offline") (system d), other) refl);
    }

-- A poll that cannot connect, of a coordinator with data that agrees with a count of failures, gives
-- that data as it is when the count was zero, and otherwise the data marked as offline, in which only
-- the status of its system differs.
pub storage_polled-cached :
    {Inventory : Type 0} (safe_error_text : String → String) (e : String)
    (c : Coordinator Inventory) (n : ℕ) (d : Dict Value)
    → Counts c n
    → c.cached ≡ some d
    → ((storage_polled safe_error_text (stopped (api (cannot_connect e))) c).0
        ≡ ready (if n == 0 then d else with_offline_status d))
      × IsMarked d (with_offline_status d)
unfolding storage_polled connection_failed should_keep_cached_data_online
storage_polled-cached safe_error_text e c n d h has =
    (ground (arith, has, h.online, h.counted), with_offline_status-IsMarked d)
