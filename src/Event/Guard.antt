-- ===== src/Event/Guard.antt =====
-- src/integrations/chirpstack/service.py: what the handlers check first, and how an event ends.

use tlrs.Prelude.{
  ℕ, Bool, true, false, ◌&&◌, not, Option, none, some, List, [], select, String, Result, ok, err,
  if◌then◌else◌,
}
use tlrs.Model.Text.{codes, same_text, is_empty, strip}
use tlrs.Model.Query.{scalar_one_or_none}
use tlrs.Model.Device.{Device}
use tlrs.Event.Tables.{
  EventError, multiple_results, invalid_payload, Reason, device_not_found,
  device_application_id_missing, application_id_mismatch, ChirpStackEvent, ChirpStackHandleResult,
  Kind, EventStore, Handled,
}

-- A text of the database, or the empty one.
abbrev text_or_empty : Option String → List ℕ
text_or_empty none = []
text_or_empty (some s) = codes s

abbrev same_eui : Option String → List ℕ → Bool
same_eui none dev_eui = false
same_eui (some s) dev_eui = same_text (codes s) dev_eui

-- The query of `_get_device`, as a test
abbrev by_dev_eui : List ℕ → Device → Bool
by_dev_eui dev_eui d = same_eui d.chirpstack_dev_eui dev_eui && (d.active && not d.deleted)

-- `_get_device`
unfoldable pub get_device : List ℕ → List Device → Result EventError (Option Device)
unfolding scalar_one_or_none
get_device dev_eui devices =
    scalar_one_or_none multiple_results (select (by_dev_eui dev_eui) devices)

-- `_validate_device_application_id`
unfoldable pub validate_device_application_id : Device → List ℕ → Option Reason
unfolding strip
validate_device_application_id device application_id =
    let expected = strip (text_or_empty device.chirpstack_application_id) in
    if is_empty expected
    then some device_application_id_missing
    else if same_text expected (strip application_id)
    then none
    else some application_id_mismatch

-- `event.processed = True; event.error_message = None`
abbrev pub mark_processed : ChirpStackEvent → ChirpStackEvent
mark_processed event = record event { processed = true; error_message = none }

abbrev pub mark_reason : Reason → ChirpStackEvent → ChirpStackEvent
mark_reason reason event = record event { error_message = some reason }

abbrev pub of_device : Device → ChirpStackEvent → ChirpStackEvent
of_device device event = record event { device_id = some device.id_device }

-- A result with `success=True`, of a kind and a device.
abbrev pub succeeded : Kind → Option ℕ → ChirpStackHandleResult
succeeded kind device_id = record {
  success = true;
  processed_kind = kind;
  device_id = device_id;
  location_id = none;
  command_uuid = none;
  command_status = none;
  command_status_changed = false;
  failure_reason = none;
  realtime_location_data = none;
}

-- A result with `success=False`, of a kind, a device and a reason.
abbrev pub failed_for : Kind → Option ℕ → Reason → ChirpStackHandleResult
failed_for kind device_id reason = record (succeeded kind device_id) {
  success = false;
  failure_reason = some reason;
}

-- The early return that gives a reason, and writes it to the event.
abbrev pub refuse : Kind → Option ℕ → Reason → ChirpStackEvent → EventStore → Handled
refuse kind device_id reason event db = record {
  result = failed_for kind device_id reason;
  event = mark_reason reason event;
  store = db;
}

-- What a handler does for a device whose application id is right.
abbrev pub Handler : Type 0
Handler = Device → ChirpStackEvent → EventStore → Result EventError Handled

-- The test of the application id in the handlers, and what follows it
unfoldable pub for_application :
    Kind → List ℕ → Handler → Device → ChirpStackEvent → EventStore → Result EventError Handled
unfolding validate_device_application_id
for_application kind application_id handler device event db =
    elim (validate_device_application_id device application_id) [
      | some reason ↦ ok (refuse kind (some device.id_device) reason (of_device device event) db)
      | none ↦ handler device event db
    ]

-- The head of the handlers that need a device; `missing` is the kind of their first return.
unfoldable pub for_device :
    Kind
    → Kind
    → List ℕ
    → Handler
    → Option Device
    → ChirpStackEvent
    → EventStore
    → Result EventError Handled
unfolding for_application
for_device missing kind application_id handler none event db =
    ok (refuse missing none device_not_found event db)
for_device missing kind application_id handler (some device) event db =
    for_application kind application_id handler device event db

-- `model_validate`, whose error reaches `handle_event`
abbrev pub validated : {A : Type 0} → Result String A → Result EventError A
validated (ok a) = ok a
validated (err text) = err (invalid_payload text)
