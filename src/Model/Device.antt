-- ===== src/Model/Device.antt =====
-- src/models/device.py: the columns of a device that the services read or write.
use tlrs.Prelude.{ℕ, Option, Bool, true, false, String}

pub data DeviceState : Type 0 where
  on off : DeviceState

pub data DeviceCommunicationProtocol : Type 0 where
  http mqtt chirpstack : DeviceCommunicationProtocol

-- `deleted` is true for the column's "Y".
pub record Device : Type 0 where
  pub id_device : ℕ
  pub serial : String
  pub client_id : Option ℕ
  pub asset_id : Option ℕ
  pub active : Bool
  pub deleted : Bool
  pub state : DeviceState
  pub last_seen_at : Option ℕ
  pub communication_protocol : DeviceCommunicationProtocol
  pub chirpstack_application_id : Option String
  pub chirpstack_dev_eui : Option String
  pub chirpstack_device_profile_id : Option String

abbrev pub is_chirpstack : DeviceCommunicationProtocol → Bool
is_chirpstack DeviceCommunicationProtocol.chirpstack = true
is_chirpstack _ = false
