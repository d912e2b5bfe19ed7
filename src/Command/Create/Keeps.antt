-- ===== src/Command/Create/Keeps.antt =====
-- What a created command is: its number is new, and its payload says what was asked.
use tlrs.Prelude.{
  ℕ, ◌≡◌, ◌≤◌, sym, ap, ◌∙◌, subst, true, false, Option, some, List, [], ◌∷◌, ◌++◌, or_else, String,
  Result, ok, err, arith, All, >>=-eq-ok, ok-injective,
}
use tlrs.Model.Device.{Device, is_chirpstack}
use tlrs.Model.Command.{DeviceCommand, DeviceCommandType, DeviceCommandStatus, DownlinkPayload}
use tlrs.Wire.Base64.{b64encode, b64decode}
use tlrs.Wire.Base64.RoundTrip.{b64decode-b64encode}
use tlrs.Wire.Downlink.{
  PayloadFields, command_length, DecodedChirpStackCommandDownlink, EncodedChirpStackDownlink,
  encode_command_downlink, decode_command_downlink_payload_v1, no_payload_fields,
}
use tlrs.Wire.Downlink.RoundTrip.{intended, decode-encode}
use tlrs.Wire.Downlink.Total.{encode-IsBytes}
use tlrs.Command.Sequence.{CommandStore, allocate_next_command_seq, max_command_seq}
use tlrs.Command.Sequence.Fresh.{IsBelow, allocate_is_fresh}
use tlrs.Command.Create.{
  Context, sequence, encoding, wrap, is_missing, allocate_command_seq, resolve_encoded,
  resolve_command_transport, new_command, create_pending_command,
}

pub wrap-eq-ok : {E F A : Type 0} (f : E → F) (m : Result E A) {a : A} → wrap f m ≡ ok a → m ≡ ok a
wrap-eq-ok f (ok a) h = cc
wrap-eq-ok f (err e) h = cc

-- A command created for a device gets a number.
allocate_command_seq-some :
    (device : Device) (db : CommandStore) {seq : Option ℕ}
    → is_chirpstack device.communication_protocol ≡ true
    → allocate_command_seq device db ≡ ok seq
    → (n : ℕ) × (seq ≡ some n) × (allocate_next_command_seq device.id_device db ≡ ok n)
unfolding allocate_command_seq
allocate_command_seq-some device db chirp h =
    let (n, e, h₁) =
      >>=-eq-ok (wrap sequence (allocate_next_command_seq device.id_device db)) (λ n. ok (some n))
        (rw chirp at h) in
    (
      n,
      sym (ok-injective h₁),
      wrap-eq-ok sequence (allocate_next_command_seq device.id_device db) e,
    )

resolve_chirpstack :
    (device : Device) (uuid : String) (seq : Option ℕ) (kind : DeviceCommandType)
    (fields : Option PayloadFields) {t : String × DownlinkPayload}
    → resolve_command_transport device uuid seq kind fields ≡ ok t
    → (is_chirpstack device.communication_protocol ≡ true)
      × (is_missing device.chirpstack_application_id ≡ false)
      × (is_missing device.chirpstack_dev_eui ≡ false)
      × (resolve_encoded device uuid seq kind fields ≡ ok t)
unfolding resolve_command_transport
resolve_chirpstack device uuid seq kind fields h = ground arith

resolve_encoded_payload :
    (device : Device) (uuid : String) (n : ℕ) (kind : DeviceCommandType)
    (fields : Option PayloadFields) {t : String × DownlinkPayload}
    → resolve_encoded device uuid (some n) kind fields ≡ ok t
    → (e : EncodedChirpStackDownlink) × (encode_command_downlink uuid n kind fields ≡ ok e)
      × (t.1.text ≡ b64encode e.bytes)
unfolding resolve_encoded
resolve_encoded_payload device uuid n kind fields h =
    let (e, he, h₁) = >>=-eq-ok (wrap encoding (encode_command_downlink uuid n kind fields)) _ h in
    (
      e,
      wrap-eq-ok encoding (encode_command_downlink uuid n kind fields) he,
      ap (λ (v : String × DownlinkPayload). v.1.text) (sym (ok-injective h₁)),
    )

-- What a created command was made of.
pub create_parts :
    (ctx : Context) (id : ℕ) (device : Device) (kind : DeviceCommandType)
    (asset event expires : Option ℕ) (fields : Option PayloadFields) (db : CommandStore)
    {c : DeviceCommand} {db' : CommandStore}
    → create_pending_command ctx id device kind asset event expires fields db ≡ ok (c, db')
    → (n : ℕ) × (t : String × DownlinkPayload) × (allocate_next_command_seq device.id_device db
        ≡ ok n)
      × (resolve_encoded device (ctx.new_uuid id) (some n) kind fields ≡ ok t)
      × (c ≡ new_command ctx id device (some n) kind asset event expires t)
      × (db' ≡ record { rows = db.rows; pending = db.pending ++ (c ∷ []) })
unfolding create_pending_command
create_parts ctx id device kind asset event expires fields db {c} {db'} h =
    let (seq, eseq, h₁) = >>=-eq-ok (allocate_command_seq device db) _ h in
    let (t, et, h₂) =
      >>=-eq-ok (resolve_command_transport device (ctx.new_uuid id) seq kind fields) _ h₁ in
    let (chirp, _, _, resolved) = resolve_chirpstack device (ctx.new_uuid id) seq kind fields et in
    let (n, some_n, allocated) = allocate_command_seq-some device db chirp eseq in
    let pair = ok-injective h₂ in
    let made = ap (λ (v : DeviceCommand × CommandStore). v.0) (sym pair) in
    (
      n,
      t,
      allocated,
      subst (λ s. resolve_encoded device (ctx.new_uuid id) s kind fields ≡ ok t) some_n resolved,
      subst (λ s. c ≡ new_command ctx id device s kind asset event expires t) some_n made,
      subst (λ x. db' ≡ record { rows = db.rows; pending = db.pending ++ (x ∷ []) }) (sym made)
          (ap (λ (v : DeviceCommand × CommandStore). v.1) (sym pair)),
    )

-- A command that was created for a device has a number from 1 to 65535 that is larger than all
-- numbers of the device's stored and pending commands; it is pending, it is the one command added,
-- and the base64 text of its payload is that of bytes that decode to the command asked for.
pub create_is_sound :
    (ctx : Context) (id : ℕ) (device : Device) (kind : DeviceCommandType)
    (asset event expires : Option ℕ) (fields : Option PayloadFields) (db : CommandStore)
    {c : DeviceCommand} {db' : CommandStore}
    → create_pending_command ctx id device kind asset event expires fields db ≡ ok (c, db')
    → (n : ℕ) × (c.command_seq ≡ some n)
      × (1 ≤ n)
      × (n ≤ max_command_seq)
      × All (IsBelow device.id_device n) db.rows
      × All (IsBelow device.id_device n) db.pending
      × (c.status ≡ DeviceCommandStatus.pending)
      × (db' ≡ record { rows = db.rows; pending = db.pending ++ (c ∷ []) })
      × (bytes : List ℕ) × (d : DecodedChirpStackCommandDownlink) × (b64decode command_length
            c.payload.text
          ≡ ok bytes)
      × (intended n kind (or_else fields no_payload_fields) ≡ ok d)
      × (decode_command_downlink_payload_v1 bytes ≡ ok d)
create_is_sound ctx id device kind asset event expires fields db h =
    let (n, t, allocated, resolved, made, stored) =
      create_parts ctx id device kind asset event expires fields db h in
    let (low, high, rows, pending) = allocate_is_fresh device.id_device db allocated in
    let (e, encoded, text) =
      resolve_encoded_payload device (ctx.new_uuid id) n kind fields resolved in
    let (d, asked, decoded) = decode-encode (ctx.new_uuid id) n kind fields encoded in
    let octets = encode-IsBytes (ctx.new_uuid id) n kind fields encoded in
    (
      n,
      ap (λ (x : DeviceCommand). x.command_seq) made,
      low,
      high,
      rows,
      pending,
      ap (λ (x : DeviceCommand). x.status) made,
      stored,
      e.bytes,
      d,
      rw (ap (λ (x : DeviceCommand). x.payload.text) made ∙ text)
          (b64decode-b64encode command_length e.bytes octets),
      asked,
      decoded,
    )
