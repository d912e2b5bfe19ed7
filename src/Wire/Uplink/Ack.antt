-- ===== src/Wire/Uplink/Ack.antt =====
-- payload_codec.py: `decode_command_ack_payload_v1`, and the ACK that a device sends.
use tlrs.Prelude.{
  ℕ, ◌/◌, ◌%◌, ◌≤◌, ◌<◌, ◌≡◌, not, Option, none, some, List, [], ◌∷◌, length, Result, ok, err,
  ◌>>=◌, ◌>>◌, raise_if, ◌==◌, if◌then◌else◌, arith,
}
use tlrs.Model.Time.{DateTime}
use tlrs.Model.Command.{
  DeviceCommandAckStatus, DeviceCommandAckPayload, Message, message, device_error,
}
use tlrs.Wire.Contract.{protocol_version_v1}
use tlrs.Wire.Bytes.{u16, u16-split, IsBytes}
use tlrs.Wire.Base64.{b64encode}
use tlrs.Wire.Uplink.Text.{decode_base64_data-b64encode}
use tlrs.Wire.Uplink.{
  UpEvent, PayloadError, ack_length, ack_unsupported_version, ack_invalid_command_seq,
  ack_unknown_status, decode_base64_data,
}

-- `_decode_ack_status`
unfoldable decode_ack_status : ℕ → Result PayloadError DeviceCommandAckStatus
decode_ack_status code =
    if code == 0x01
    then ok DeviceCommandAckStatus.executed
    else if code == 0x02
    then ok DeviceCommandAckStatus.rejected
    else if code == 0x03
    then ok DeviceCommandAckStatus.failed
    else if code == 0x04
    then ok DeviceCommandAckStatus.expired
    else if code == 0x05
    then ok DeviceCommandAckStatus.duplicate
    else err ack_unknown_status

-- `_decode_ack_error`
unfoldable pub decode_ack_error : ℕ → DeviceCommandAckStatus → Option Message
decode_ack_error code status =
    if code == 0x00
    then none
    else if code == 0x01
    then some (message "UNKNOWN_COMMAND_TYPE")
    else if code == 0x02
    then some (message "INVALID_PAYLOAD")
    else if code == 0x03
    then some (message "BUSY")
    else if code == 0x04
    then some (message "LOW_BATTERY")
    else if code == 0x05
    then some (message "HARDWARE_ERROR")
    else if code == 0x06
    then some (message "COMMAND_EXPIRED_ON_DEVICE")
    else some (device_error code status)

-- `struct.unpack(">BHBB", payload)` and the checks behind it
unfoldable decode_ack_bytes : Option DateTime → List ℕ → Result PayloadError DeviceCommandAckPayload
unfolding decode_ack_status decode_ack_error
decode_ack_bytes time (version ∷ hi ∷ lo ∷ status_code ∷ error_code ∷ []) = do
  raise_if (not (version == protocol_version_v1)) ack_unsupported_version
  raise_if (u16 hi lo == 0) ack_invalid_command_seq
  status ← decode_ack_status status_code
  ok (record {
    command_id = none;
    command_seq = some (u16 hi lo);
    status = status;
    executed_at = time;
    error_message = decode_ack_error error_code status;
  })
decode_ack_bytes time bytes = err (ack_length (length bytes))

-- `decode_command_ack_payload_v1`
unfoldable pub decode_command_ack_payload_v1 : UpEvent → Result PayloadError DeviceCommandAckPayload
unfolding decode_ack_bytes
decode_command_ack_payload_v1 event = do
  bytes ← decode_base64_data event.text
  decode_ack_bytes event.time bytes

-- The code of each status in the contract.
abbrev ack_status_code : DeviceCommandAckStatus → ℕ
ack_status_code DeviceCommandAckStatus.executed = 0x01
ack_status_code DeviceCommandAckStatus.rejected = 0x02
ack_status_code DeviceCommandAckStatus.failed = 0x03
ack_status_code DeviceCommandAckStatus.expired = 0x04
ack_status_code DeviceCommandAckStatus.duplicate = 0x05

-- The five bytes that the contract lays down for an ACK.
abbrev pub ack_bytes : ℕ → DeviceCommandAckStatus → ℕ → List ℕ
ack_bytes seq status error =
    protocol_version_v1 ∷ seq / 256 ∷ seq % 256 ∷ ack_status_code status ∷ error ∷ []

ack_bytes-decode :
    (seq error : ℕ) (status : DeviceCommandAckStatus) (time : Option DateTime)
    → 1 ≤ seq
    → decode_ack_bytes time (ack_bytes seq status error)
      ≡ ok (record {
        command_id = none;
        command_seq = some seq;
        status = status;
        executed_at = time;
        error_message = decode_ack_error error status;
      })
unfolding decode_ack_bytes
ack_bytes-decode seq error status time lo = rw (u16-split seq) (ground arith)

ack_bytes-IsBytes :
    (seq error : ℕ) (status : DeviceCommandAckStatus)
    → seq ≤ 65535
    → error < 256
    → IsBytes (ack_bytes seq status error)
ack_bytes-IsBytes seq error status hi he = ground arith

-- An ACK of the contract's layout, in base64, decodes to the sequence number, the status and the
-- time of the event, and to the error message of its code: for every number from 1 to 65535 and
-- every code of a byte.
pub decode-ack_bytes :
    (event : UpEvent) (seq error : ℕ) (status : DeviceCommandAckStatus)
    → 1 ≤ seq
    → seq ≤ 65535
    → error < 256
    → event.text ≡ some (b64encode (ack_bytes seq status error))
    → decode_command_ack_payload_v1 event
      ≡ ok (record {
        command_id = none;
        command_seq = some seq;
        status = status;
        executed_at = event.time;
        error_message = decode_ack_error error status;
      })
unfolding decode_command_ack_payload_v1
decode-ack_bytes event seq error status lo hi he sent = rw sent (
    rw (decode_base64_data-b64encode _ _ (ack_bytes-IsBytes seq error status hi he))
      (ack_bytes-decode seq error status event.time lo))
