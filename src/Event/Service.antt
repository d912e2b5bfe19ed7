-- ===== src/Event/Service.antt =====
-- src/integrations/chirpstack/service.py: the events `join` and `log`, and `handle_event`, which
-- stores an event, handles it once, and keeps its error.
use text.Mathlib.Text.{◌==◌ as str_eq}
use tlrs.Prelude.{
  ℕ, ◌+◌, Bool, false, ◌||◌, Option, none, some, List, [], ◌∷◌, ◌++◌, select, first, take, String,
  Result, ok, err, ◌>>=◌, if◌then◌else◌, is_some,
}
use tlrs.Model.Text.{codes, same_text}
use tlrs.Model.Query.{scalar_one_or_none}
use tlrs.Model.Table.{save}
use tlrs.Model.Device.{Device}
use tlrs.Command.Create.{wrap}
use tlrs.Wire.Topic.{TopicError, ChirpStackTopicInfo, parse_chirpstack_event_topic}
use tlrs.Geofence.Evaluation.{flush}
use tlrs.Event.Tables.{
  Payload, EventError, multiple_results, raised, unsupported_event_type, ChirpStackEvent,
  ChirpStackHandleResult, Kind, EventStore, EventContext, Handled, RealtimeLocationData,
}
use tlrs.Event.Guard.{
  get_device, mark_processed, of_device, refuse, succeeded, failed_for, Handler, for_application,
}
use tlrs.Event.Network.{process_txack_event, process_network_ack_event}
use tlrs.Event.Location.{save_device}
use tlrs.Event.Uplink.{process_up_event}

-- The end of both handlers below: the event is processed, for a device or for none.
abbrev accepted : Kind → Option ℕ → ChirpStackEvent → EventStore → Handled
accepted kind device_id event db = record {
  result = succeeded kind device_id;
  event = mark_processed event;
  store = db;
}

-- `_process_join_event` for a device whose application id is right
unfoldable pub join_device : EventContext → Handler
join_device ctx device event db =
    let seen = record device { last_seen_at = some (ctx.utcnow 0) } in
    ok (accepted Kind.join (some device.id_device) (of_device device event) (save_device seen db))

unfoldable pub log_device : Handler
log_device device event db =
    ok (accepted Kind.log (some device.id_device) (of_device device event) db)

-- `if device is not None: …` of both
abbrev pub if_device :
    Kind
    → List ℕ
    → Handler
    → ChirpStackEvent
    → EventStore
    → Option Device
    → Result EventError Handled
if_device kind application_id handler event db none = ok (accepted kind none event db)
if_device kind application_id handler event db (some device) =
    for_application kind application_id handler device event db

-- `_process_join_event`
unfoldable pub process_join_event :
    EventContext → List ℕ → List ℕ → ChirpStackEvent → EventStore → Result EventError Handled
unfolding get_device for_application join_device
process_join_event ctx application_id dev_eui event db =
    get_device dev_eui db.devices >>= if_device Kind.join application_id (join_device ctx) event db

-- `_process_log_event`
unfoldable pub process_log_event :
    List ℕ → List ℕ → ChirpStackEvent → EventStore → Result EventError Handled
unfolding get_device for_application log_device
process_log_event application_id dev_eui event db =
    get_device dev_eui db.devices >>= if_device Kind.log application_id log_device event db

-- The `if` on the event's type
unfoldable pub process_event :
    EventContext
    → ChirpStackTopicInfo
    → Payload
    → ChirpStackEvent
    → EventStore
    → Result EventError Handled
unfolding process_up_event process_join_event process_log_event process_txack_event
    process_network_ack_event
process_event ctx info payload event db =
    let kind = info.event_type in
    let application_id = info.application_id in
    let dev_eui = info.dev_eui in
    if same_text kind (codes "up")
    then process_up_event ctx application_id dev_eui payload event db
    else if same_text kind (codes "join")
    then process_join_event ctx application_id dev_eui event db
    else if same_text kind (codes "log")
    then process_log_event application_id dev_eui event db
    else if same_text kind (codes "txack")
    then process_txack_event ctx application_id dev_eui payload event db
    else if same_text kind (codes "ack")
    then process_network_ack_event ctx application_id dev_eui payload event db
    else ok (refuse Kind.unsupported none (unsupported_event_type kind) event db)

abbrev pub same_id : Option String → String → Bool
same_id none id = false
same_id (some s) id = str_eq s id

-- The query of `_event_exists`, as a test
abbrev pub by_deduplication_id : String → ChirpStackEvent → Bool
by_deduplication_id id e = same_id e.deduplication_id id

-- `deduplication_id and await self._event_exists(deduplication_id)`
unfoldable pub event_exists : Option String → List ChirpStackEvent → Result EventError Bool
unfolding scalar_one_or_none
event_exists none events = ok false
event_exists (some id) events =
    if str_eq id ""
    then ok false
    else scalar_one_or_none multiple_results (select (by_deduplication_id id) events) >>= λ found.
        ok (is_some found)

-- The event as it is inserted; the next key stands for the one that the flush assigns.
abbrev pub new_event : ℕ → ChirpStackTopicInfo → List ℕ → Payload → ChirpStackEvent
new_event id info topic payload = record {
  id = id;
  device_id = none;
  event_type = info.event_type;
  application_id = info.application_id;
  dev_eui = info.dev_eui;
  deduplication_id = payload.deduplication_id;
  topic = topic;
  payload = payload;
  processed = false;
  error_message = none;
}

-- The unique constraint on `deduplication_id`, which leaves nulls alone
unfoldable pub violates_unique : Option String → List ChirpStackEvent → Bool
violates_unique none events = false
violates_unique (some id) events = is_some (first (select (by_deduplication_id id) events))

abbrev pub event_key : ChirpStackEvent → ℕ
event_key e = e.id

abbrev save_event : ChirpStackEvent → EventStore → EventStore
save_event e db = record db { events = save event_key e db.events }

-- The commit, which writes the commands that are still pending
abbrev pub commit : EventStore → EventStore
commit db = record db { geofence = record (db.geofence) { commands = flush db.geofence.commands } }

-- `_mark_event_error`
abbrev mark_event_error : List ℕ → ChirpStackEvent → EventStore → EventStore
mark_event_error text event db =
    save_event (record event { processed = false; error_message = some (raised (take 500 text)) })
      db

-- The commit behind a handler, or the rollback and the marking of the event
unfoldable pub finish_event :
    (EventError → List ℕ)
    → Result EventError Handled
    → ChirpStackEvent
    → EventStore
    → ChirpStackHandleResult × EventStore
finish_event describe (ok h) event db = (h.result, commit (save_event h.event h.store))
finish_event describe (err e) event db =
    (failed_for Kind.error none (raised (describe e)), mark_event_error (describe e) event db)

-- What `handle_event` raises: its first two calls are outside of its `try`.
pub data HandleError : Type 0 where
  invalid_topic : TopicError → HandleError
  query : EventError → HandleError

abbrev pub is_duplicate : ChirpStackHandleResult
is_duplicate = succeeded Kind.duplicate none

-- `handle_event` behind the query for a duplicate
unfoldable pub insert_and_process :
    EventContext
    → ChirpStackTopicInfo
    → List ℕ
    → Payload
    → EventStore
    → ChirpStackHandleResult × EventStore
unfolding violates_unique process_event finish_event
insert_and_process ctx info topic payload db =
    if violates_unique payload.deduplication_id db.events || ctx.inserted_meanwhile
    then (is_duplicate, db)
    else let event = new_event db.next_event_id info topic payload in
      let db' = record db {
        events = db.events ++ (event ∷ []);
        next_event_id = db.next_event_id + 1;
      } in
      finish_event ctx.describe (process_event ctx info payload event db') event db'

-- `handle_event`
unfoldable pub handle_event :
    EventContext
    → List ℕ
    → Payload
    → EventStore
    → Result HandleError (ChirpStackHandleResult × EventStore)
unfolding parse_chirpstack_event_topic event_exists insert_and_process
handle_event ctx topic_text payload db = do
  info ← wrap invalid_topic (parse_chirpstack_event_topic topic_text)
  exists ← wrap query (event_exists payload.deduplication_id db.events)
  ok (if exists then (is_duplicate, db) else insert_and_process ctx info topic_text payload db)

-- `_publish_realtime_location_event`: what is published of a result
unfoldable published : ChirpStackHandleResult → Option RealtimeLocationData
published r = elim r.processed_kind [
  | Kind.location ↦ if r.success then r.realtime_location_data else none
  | _ ↦ none
]
