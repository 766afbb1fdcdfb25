-- ===== src/Lib.antt =====
-- ha-unifi-drive: a Home Assistant integration for UniFi Drive consoles, and what is proved of it.
--
-- The program is the Python package custom_components/unifi_unas. Its API client (api.py and
-- api_*.py) talks to a console over HTTP; entities, services and the coordinator call the client.
-- Around it stand helpers for snapshots (snapshot_*.py), config entries (entry_*.py), repairs issues
-- and Wake-on-LAN. The files here and what they model:
--
--   Prelude, Prelude/*  shared helpers: lists, texts and dicts as Python has them, integers
--   Payload             decoded JSON values and the Python built-ins applied to them
--   Api/Session         api_errors.py and the state of UnifiUnasApiClient of api.py, with methods as
--                       functions from the state to a result and the next state
--   Api/Transport       api_transport.py: _request, _request_raw and what they call
--   Api/Auth            api_auth.py: async_login, _ensure_authenticated, and the retry that
--                       operations share (`with_session`)
--   Api/Auth/Identity, Api/Auth/Devices
--                       api_auth.py: the power permission, and the identifiers of the device
--   Api/Backup, Api/Fan, Api/System
--                       api_backup.py, api_fan.py, api_system.py with api_updates.py
--   Api/Storage         api_storage.py: the storage with the metadata of the system
--   Api/Snapshots       api_snapshot.py: reads, creations, settings writes, capabilities
--   Snapshot/*          snapshot_values.py (Values), snapshot_schedule.py (Schedule, Days, Clock),
--                       snapshot_write.py (Write), snapshot_types.py and snapshot_paths.py (Targets,
--                       Buttons),
--                       snapshot_payload.py (Items, Payloads)
--   Snapshot/Inventory  snapshot_inventory.py: the fields of a snapshot (Inventory), the bounded heap
--                       (Heap) and the summary (Extract)
--   Coordinator         coordinator.py: the state, and the calls of the client as a record
--   Coordinator/Connection
--                       what a poll makes of a connection that fails or is back
--   Coordinator/Targets, Inventory, Refresh
--                       the keys of the targets, the loop over the pending ones, and a whole refresh
--                       of the inventory
--   Coordinator/Optional, Poll
--                       the optional features under their time budget, and _async_update_data
--   Coordinator/Client  the record of calls, filled by the API client above
--   Entry/Options, Entry/Reload
--                       entry_options.py, entry_reload.py
--   ConfigFlow          config_flow_identity.py and the end of config_flow_validation.py: the entry
--                       that a validated device is taken for
--   Discovery           discovery.py, discovery_common.py: what the metadata says of Wake-on-LAN
--   System, System/Device
--                       system_metadata.py, device.py
--   Repairs             snapshot_repairs.py
--   WakeOnLan           wake_on_lan.py
--   Api/Limits          bounds on the requests of an operation, over all of the client
--   Tests/*             inputs, and the theorems applied to them
--
-- A console is any function of the requests sent before and of the next one, so it may answer each
-- request as it likes, also with a connection error. The names are those of the source without their
-- leading `_`, `async_` or `snapshot_`. A method that raises gives its error beside the state as it
-- was when it raised.
--
-- The coordinator calls the client by a record of calls, each of which gives a result, one of the
-- client's exceptions, another exception, or the cancellation of the timeout around it. Of the base
-- class only this is taken: what it stores of an update is an argument of the polls. Its clocks move
-- with the calls, and no other task changes the coordinator while a call is awaited. A set or an
-- ordered dict of keys is a list of them; the heap of the preview is the sorted list of its items.
--
-- Bounds and fuel: the search for the list of snapshots goes four levels deep, which is its fuel, as in
-- the source; the loops over targets, features and snapshots recur on their lists; texts are measured
-- and compared by characters; `decimal` and the search for a mode recur on their argument, so nothing
-- runs out of fuel. Integers are unbounded, as in Python.
--
-- Kept simple: case mapping and digits are those of ASCII, whitespace is that of Python; a float is
-- what the code observes of it (its text, its truncation, whether it is zero); keys of a dict are
-- texts; a body is given by what reading and decoding it gives, with the limit of 8 MiB as a case of
-- its own; logging is left out. The base URL is an input. Operations run one after the other, as they
-- do under the lock of settings writes. Arguments stand for what is not in this package or is not
-- modelled: the redaction of error texts, the issue registry of Home Assistant with the two laws that
-- the code relies on, and the floats and dates of Python, without those that overflow.
--
-- Not modelled: the storage parsers, the scans of discovery and its host aliases, the forms of the
-- config flow, services, entities, diagnostics and setup: glue to Home Assistant, input and output,
-- and parsers of storage figures.
pub mod Prelude
pub mod Payload
pub mod Snapshot
pub mod Api
pub mod Coordinator
pub mod Entry
pub mod ConfigFlow
pub mod Discovery
pub mod Repairs
pub mod System
pub mod WakeOnLan
pub mod Tests
