-- ===== src/Command/Create/Events.antt =====
-- The commands that a geofence event brings about.
use tlrs.Prelude.{
  ok-injective, ◌∙◌, ℕ, ◌+◌, ◌≡◌, ◌≤◌, refl, sym, ap, true, false, Option, none, some, List, [],
  ◌∷◌, ◌++◌, length, or_else, select, String, ok, arith, All,
}
use mathlib.Core.List.{append_assoc, append-nil}
use tlrs.Model.Device.{Device, is_chirpstack}
use tlrs.Model.Command.{
  DeviceCommand, DeviceCommandType, set_report_interval, warning_sound, stop_correction,
  DownlinkPayload,
}
use tlrs.Wire.Base64.{b64decode}
use tlrs.Command.Create.Keeps.{create_is_sound}
use tlrs.Wire.Downlink.{
  DecodedFields, interval_field, duration_field, command_length, decode_command_downlink_payload_v1,
  PayloadFields, DecodedChirpStackCommandDownlink, EncodedChirpStackDownlink,
  encode_command_downlink, normalize_flags, normalize_interval_seconds, normalize_duration_seconds,
}
use tlrs.Wire.Downlink.RoundTrip.{intended}
use tlrs.Wire.Downlink.Total.{encode_total}
use tlrs.Command.Sequence.{CommandStore, allocate_next_command_seq, max_command_seq}
use tlrs.Command.Create.{
  Context, is_missing, allocate_command_seq, resolve_command_transport, new_command,
  create_pending_command, build_topic, build_payload, FenceEventType, near_limit, exited, entered,
  returned, gps_uncertain, command_specs_for_event_type, by_event_and_type, has_geofence_command,
  create_from_specs, create_commands_for_geofence_event,
}
use tlrs.Command.Sequence.Room.{last_used, HasRoom, allocate_with_room}

-- The device can be reached through ChirpStack.
pub record IsReachable (device : Device) : Type 0 where
  pub chirpstack : is_chirpstack device.communication_protocol ≡ true
  pub application : is_missing device.chirpstack_application_id ≡ false
  pub eui : is_missing device.chirpstack_dev_eui ≡ false

allocate_some :
    (device : Device) (n : ℕ) (db : CommandStore)
    → IsReachable device
    → allocate_next_command_seq device.id_device db ≡ ok n
    → allocate_command_seq device db ≡ ok (some n)
unfolding allocate_command_seq
allocate_some device n db reach allocated = rw (reach.chirpstack, allocated)

resolve_some :
    (device : Device) (uuid : String) (n : ℕ) (kind : DeviceCommandType) (fields : PayloadFields)
    {e : EncodedChirpStackDownlink}
    → IsReachable device
    → encode_command_downlink uuid n kind (some fields) ≡ ok e
    → (t : String × DownlinkPayload) × (resolve_command_transport device uuid
          (some n)
          kind
          (some fields)
        ≡ ok t)
unfolding resolve_command_transport build_topic build_payload
resolve_some device uuid n kind fields {e} reach encoded =
    let dev_eui = or_else device.chirpstack_dev_eui "" in
    (
      (build_topic (or_else device.chirpstack_application_id "") dev_eui, build_payload dev_eui e),
      rw (reach.chirpstack, reach.application, reach.eui, encoded),
    )

-- A creation that finds a number and well-formed fields succeeds.
create_succeeds :
    (ctx : Context) (id : ℕ) (device : Device) (kind : DeviceCommandType)
    (asset event expires : Option ℕ) (fields : PayloadFields) (db : CommandStore) (n : ℕ)
    (d : DecodedChirpStackCommandDownlink)
    → IsReachable device
    → allocate_next_command_seq device.id_device db ≡ ok n
    → 1 ≤ n
    → n ≤ max_command_seq
    → intended n kind fields ≡ ok d
    → (t : String × DownlinkPayload) × let c =
          new_command ctx id device (some n) kind asset event expires t in
        (create_pending_command ctx id device kind asset event expires (some fields) db
          ≡ ok (c, record { rows = db.rows; pending = db.pending ++ (c ∷ []) }))
unfolding create_pending_command
create_succeeds ctx id device kind asset event expires fields db n d reach allocated low high
      asked =
    let (e, encoded, _) = encode_total (ctx.new_uuid id) n kind (some fields) low high asked in
    let (t, resolved) = resolve_some device (ctx.new_uuid id) n kind fields reach encoded in
    (t, rw (allocate_some device n db reach allocated, resolved))

-- No stored command of the event has one of the types.
abbrev pub IsNewEvent : ℕ → List DeviceCommand → List (DeviceCommandType × PayloadFields) → Type 0
IsNewEvent event rows = All (λ spec. select (by_event_and_type event spec.0) rows ≡ [])

-- The downlink that a device should read: one of the version and flags that all commands have.
abbrev pub downlink : ℕ → DeviceCommandType × DecodedFields → DecodedChirpStackCommandDownlink
downlink n asked = record {
  protocol_version = 1;
  command_type = asked.0;
  command_seq = n;
  flags = 0;
  payload_fields = asked.1;
}

-- What is asked of a device by an event of each type: to report every so many seconds, to sound a
-- warning of so many seconds, or to stop a correction.
abbrev pub asked_of : FenceEventType → List (DeviceCommandType × DecodedFields)
asked_of near_limit =
    (set_report_interval, interval_field 15) ∷ (warning_sound, duration_field 2) ∷ []
asked_of exited = (set_report_interval, interval_field 5) ∷ (warning_sound, duration_field 2) ∷ []
asked_of entered = []
asked_of returned =
    (stop_correction, DecodedFields.no_fields) ∷ (set_report_interval, interval_field 600) ∷ []
asked_of gps_uncertain = (set_report_interval, interval_field 30) ∷ []

-- A command for an event and a device by which the device reads what is asked.
pub record Asks (event device : ℕ) (asked : DeviceCommandType × DecodedFields) (c : DeviceCommand)
    : Type 0 where
  pub of_event : c.geofence_event_id ≡ some event
  pub of_device : c.device_id ≡ device
  pub same_type : c.command_type ≡ asked.0
  pub seq : ℕ
  pub numbered : c.command_seq ≡ some seq
  pub bytes : List ℕ
  pub encoded : b64decode command_length c.payload.text ≡ ok bytes
  pub read : decode_command_downlink_payload_v1 bytes ≡ ok (downlink seq asked)

-- One command for each thing asked, in order.
abbrev pub AllAsk : ℕ → ℕ → List (DeviceCommandType × DecodedFields) → List DeviceCommand → Type 0
AllAsk event device [] [] = Unit
AllAsk event device [] (c ∷ cs) = ⊥
AllAsk event device (a ∷ asked) [] = ⊥
AllAsk event device (a ∷ asked) (c ∷ cs) = Asks event device a c × AllAsk event device asked cs

-- The fields of each entry normalise to what is asked.
abbrev AreFor :
    List (DeviceCommandType × PayloadFields) → List (DeviceCommandType × DecodedFields) → Type 0
AreFor [] [] = Unit
AreFor [] (a ∷ asked) = ⊥
AreFor (s ∷ specs) [] = ⊥
AreFor (s ∷ specs) (a ∷ asked) =
    ((s.0 ≡ a.0) × ((n : ℕ) → intended n s.0 s.1 ≡ ok (downlink n a))) × AreFor specs asked

has_geofence_command_new :
    (event : ℕ) (kind : DeviceCommandType) (rows : List DeviceCommand)
    → select (by_event_and_type event kind) rows ≡ []
    → has_geofence_command event kind rows ≡ ok false
unfolding has_geofence_command
has_geofence_command_new event kind rows e = rw e

-- A command that was created for an entry asks for it.
created-Asks :
    (ctx : Context) (id event : ℕ) (asset : Option ℕ) (device : Device) (kind : DeviceCommandType)
    (fields : PayloadFields) (asked : DeviceCommandType × DecodedFields) (db : CommandStore)
    {c : DeviceCommand} {db' : CommandStore}
    → kind ≡ asked.0
    → ((n : ℕ) → intended n kind fields ≡ ok (downlink n asked))
    → c.geofence_event_id ≡ some event
    → c.device_id ≡ device.id_device
    → c.command_type ≡ kind
    → create_pending_command ctx id device kind asset (some event) none (some fields) db
      ≡ ok (c, db')
    → Asks event device.id_device asked c
created-Asks ctx id event asset device kind fields asked db same well of_event of_device typed h =
    let (n, seq, _, _, _, _, _, _, bytes, d, text, aim, decoded) =
      create_is_sound ctx id device kind asset (some event) none (some fields) db h in
    let it : d ≡ downlink n asked = ok-injective (sym aim ∙ well n) in
    record {
      of_event = of_event;
      of_device = of_device;
      same_type = typed ∙ same;
      seq = n;
      numbered = seq;
      bytes = bytes;
      encoded = text;
      read = decoded ∙ ap (λ x. ok x) it;
    }

-- What the loop gives for entries of which none is refused and none is there already.
abbrev Creates :
    Context
    → ℕ
    → ℕ
    → Option ℕ
    → Device
    → List (DeviceCommandType × PayloadFields)
    → List (DeviceCommandType × DecodedFields)
    → CommandStore
    → Type 0
Creates ctx id event asset device specs asked db =
    (cs : List DeviceCommand) × (create_from_specs ctx id event asset device specs db
      ≡ ok (cs, record { rows = db.rows; pending = db.pending ++ cs }))
    × AllAsk event device.id_device asked cs

create_from_specs_all :
    (ctx : Context) (id event : ℕ) (asset : Option ℕ) (device : Device)
    (specs : List (DeviceCommandType × PayloadFields))
    (asked : List (DeviceCommandType × DecodedFields)) (db : CommandStore)
    → IsReachable device
    → HasRoom (length specs) (last_used device.id_device db)
    → IsNewEvent event db.rows specs
    → AreFor specs asked
    → Creates ctx id event asset device specs asked db
unfolding create_from_specs
create_from_specs_all ctx id event asset device [] (a ∷ asked) db reach room fresh well =
    absurd well
create_from_specs_all ctx id event asset device [] [] db reach room fresh well = (
  [],
  ap (λ ps. ok ([], record { rows = db.rows; pending = ps })) (sym (append-nil db.pending)),
  tt,
)
create_from_specs_all ctx id event asset device (s ∷ specs) [] db reach room fresh well =
    absurd well
create_from_specs_all ctx id event asset device ((kind, fields) ∷ specs) (a ∷ asked) db reach room
      fresh well =
    let (n, allocated, low, high, later) =
      allocate_with_room device.id_device (length specs) db room in
    let (t, created) =
      create_succeeds ctx id device kind asset (some event) none fields db n (downlink n a) reach
        allocated low (omega arith) (well.0.1 n) in
    let c = new_command ctx id device (some n) kind asset (some event) none t in
    let db' : CommandStore = record { rows = db.rows; pending = db.pending ++ (c ∷ []) } in
    let room' : HasRoom (length specs) (last_used device.id_device db') =
      rw (later c refl refl) high in
    let (cs, rest, asks) =
      create_from_specs_all ctx (id + 1) event asset device specs asked db' reach room' fresh.1
        well.1 in
    let regroup = append_assoc db.pending (c ∷ []) cs in
    (
      c ∷ cs,
      rw (has_geofence_command_new event kind db.rows fresh.0, created, rest)
          (ap (λ ps. ok (c ∷ cs, record { rows = db.rows; pending = ps })) regroup),
      (
        created-Asks ctx id event asset device kind fields a db well.0.0 well.0.1 refl refl refl
            created,
        asks,
      ),
    )

specs-AreFor : (kind : FenceEventType) → AreFor (command_specs_for_event_type kind) (asked_of kind)
unfolding command_specs_for_event_type normalize_flags normalize_interval_seconds
    normalize_duration_seconds
specs-AreFor near_limit = ((refl, λ n. refl), ((refl, λ n. refl), tt))
specs-AreFor exited = ((refl, λ n. refl), ((refl, λ n. refl), tt))
specs-AreFor entered = tt
specs-AreFor returned = ((refl, λ n. refl), ((refl, λ n. refl), tt))
specs-AreFor gps_uncertain = ((refl, λ n. refl), tt)

specs_length : (kind : FenceEventType) → length (command_specs_for_event_type kind) ≤ 2
unfolding command_specs_for_event_type
specs_length near_limit = omega arith
specs_length exited = omega arith
specs_length entered = omega arith
specs_length returned = omega arith
specs_length gps_uncertain = omega arith

HasRoom-mono : (k j : ℕ) (last : Option ℕ) → j ≤ k → HasRoom k last → HasRoom j last
HasRoom-mono k j none le h = omega arith
HasRoom-mono k j (some m) le h = omega arith

-- For a reachable device with two numbers left, an event without stored commands of its types
-- brings about one command for each thing that its type asks of the device, in order: each is of the
-- event and the device, has a number, and holds bytes that the device reads as what is asked. They
-- are appended to the pending commands, and no row changes.
pub create_commands_complete :
    (ctx : Context) (id event : ℕ) (kind : FenceEventType) (asset : Option ℕ) (device : Device)
    (db : CommandStore)
    → IsReachable device
    → HasRoom 2 (last_used device.id_device db)
    → IsNewEvent event db.rows (command_specs_for_event_type kind)
    → (cs : List DeviceCommand) × (create_commands_for_geofence_event ctx id event kind asset device
          db
        ≡ ok (cs, record { rows = db.rows; pending = db.pending ++ cs }))
      × AllAsk event device.id_device (asked_of kind) cs
unfolding create_commands_for_geofence_event
create_commands_complete ctx id event kind asset device db reach room fresh =
    let specs = command_specs_for_event_type kind in
    let enough =
      HasRoom-mono 2 (length specs) (last_used device.id_device db) (specs_length kind) room in
    create_from_specs_all ctx id event asset device specs (asked_of kind) db reach enough fresh
      (specs-AreFor kind)
