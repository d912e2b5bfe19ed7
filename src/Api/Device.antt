-- ===== src/Api/Device.antt =====
-- src/integrations/chirpstack/api_client.py: the calls that read and write ChirpStack's devices and
-- their keys.
use tlrs.Prelude.{
  ℕ, Bool, Option, none, some, List, [], ◌∷◌, String, Result, ok, err, ◌>>=◌, ◌>>◌, if◌then◌else◌,
  or_else,
}
use tlrs.Model.Text.{is_empty, strip}
use tlrs.Wire.Topic.{normalize_eui}
use tlrs.Api.{ChirpStackApiClient, validate_configuration, is_hex_of_length, valid_eui}
use tlrs.Api.Errors.{
  Outcome, ApiError, configuration, text_required, invalid_app_key, call_device_service,
}

-- The protobuf `Device`; protobuf has no null text.
pub record DeviceMessage : Type 0 where
  pub dev_eui : List ℕ
  pub name : List ℕ
  pub application_id : List ℕ
  pub device_profile_id : List ℕ
  pub join_eui : List ℕ
  pub description : List ℕ
  pub is_disabled : Bool
  pub tags : List (String × String)

-- The protobuf `DeviceKeys`
pub record DeviceKeysMessage : Type 0 where
  pub dev_eui : List ℕ
  pub nwk_key : List ℕ
  pub app_key : List ℕ

-- `ChirpStackDeviceRecord`
pub record ChirpStackDeviceRecord : Type 0 where
  pub dev_eui : List ℕ
  pub name : List ℕ
  pub application_id : List ℕ
  pub device_profile_id : List ℕ
  pub description : Option (List ℕ)
  pub join_eui : Option (List ℕ)
  pub is_disabled : Bool
  pub tags : List (String × String)

-- `ChirpStackDeviceKeysRecord`
pub record ChirpStackDeviceKeysRecord : Type 0 where
  pub dev_eui : List ℕ
  pub nwk_key : Option (List ℕ)
  pub app_key : Option (List ℕ)

-- The arguments of `create_device` and `update_device`
pub record DeviceArguments : Type 0 where
  pub dev_eui : List ℕ
  pub name : List ℕ
  pub application_id : List ℕ
  pub device_profile_id : List ℕ
  pub join_eui : List ℕ
  pub description : Option (List ℕ)
  pub is_disabled : Bool
  pub tags : Option (List (String × String))

-- What the calls of the device service give.
pub record DeviceService : Type 0 where
  pub get : List ℕ → Outcome DeviceMessage
  pub create : DeviceMessage → Outcome (Unit {0})
  pub update : DeviceMessage → Outcome (Unit {0})
  pub get_keys : List ℕ → Outcome DeviceKeysMessage
  pub create_keys : DeviceKeysMessage → Outcome (Unit {0})
  pub update_keys : DeviceKeysMessage → Outcome (Unit {0})

-- `_normalize_required_text`
unfoldable pub normalize_required_text : List ℕ → Result ApiError (List ℕ)
normalize_required_text value =
    let normalized = strip value in
    if is_empty normalized then err (configuration text_required) else ok normalized

-- `_normalize_app_key`
unfoldable normalize_app_key : List ℕ → Result ApiError (List ℕ)
normalize_app_key value =
    let normalized = normalize_eui value in
    if is_hex_of_length 32 normalized then ok normalized else err (configuration invalid_app_key)

-- `if description is not None: …`; the message is new, and its text empty
abbrev pub description_of : Option (List ℕ) → List ℕ
description_of none = []
description_of (some s) = strip s

-- `_populate_device_message`
unfoldable pub populate_device_message : DeviceArguments → Result ApiError DeviceMessage
unfolding normalize_required_text
populate_device_message a = do
  dev_eui ← valid_eui a.dev_eui
  name ← normalize_required_text a.name
  application_id ← normalize_required_text a.application_id
  device_profile_id ← normalize_required_text a.device_profile_id
  join_eui ← valid_eui a.join_eui
  ok (record {
    dev_eui = dev_eui;
    name = name;
    application_id = application_id;
    device_profile_id = device_profile_id;
    join_eui = join_eui;
    description = description_of a.description;
    is_disabled = a.is_disabled;
    tags = or_else a.tags [];
  })

-- `_populate_device_keys_message`
unfoldable populate_device_keys_message : List ℕ → List ℕ → Result ApiError DeviceKeysMessage
unfolding normalize_app_key
populate_device_keys_message dev_eui app_key = do
  key ← normalize_app_key app_key
  eui ← valid_eui dev_eui
  ok (record { dev_eui = eui; nwk_key = key; app_key = [] })

-- `text or None`
abbrev pub text_or_none : List ℕ → Option (List ℕ)
text_or_none [] = none
text_or_none (c ∷ s) = some (c ∷ s)

-- `_build_device_record`
abbrev build_device_record : DeviceMessage → ChirpStackDeviceRecord
build_device_record m = record {
  dev_eui = m.dev_eui;
  name = m.name;
  application_id = m.application_id;
  device_profile_id = m.device_profile_id;
  description = text_or_none m.description;
  join_eui = text_or_none m.join_eui;
  is_disabled = m.is_disabled;
  tags = m.tags;
}

-- `get_device`
unfoldable pub get_device :
    ChirpStackApiClient → DeviceService → List ℕ → Result ApiError ChirpStackDeviceRecord
get_device client service dev_eui = do
  validate_configuration client
  eui ← valid_eui dev_eui
  m ← call_device_service (service.get eui)
  ok (build_device_record m)

-- `create_device`
unfoldable pub create_device :
    ChirpStackApiClient → DeviceService → DeviceArguments → Result ApiError (Unit {0})
unfolding populate_device_message
create_device client service a = do
  validate_configuration client
  m ← populate_device_message a
  call_device_service (service.create m)

-- `update_device`
unfoldable update_device :
    ChirpStackApiClient → DeviceService → DeviceArguments → Result ApiError (Unit {0})
unfolding populate_device_message
update_device client service a = do
  validate_configuration client
  m ← populate_device_message a
  call_device_service (service.update m)

-- `get_device_keys`
unfoldable get_device_keys :
    ChirpStackApiClient → DeviceService → List ℕ → Result ApiError ChirpStackDeviceKeysRecord
get_device_keys client service dev_eui = do
  validate_configuration client
  eui ← valid_eui dev_eui
  k ← call_device_service (service.get_keys eui)
  ok (record {
    dev_eui = k.dev_eui;
    nwk_key = text_or_none k.nwk_key;
    app_key = text_or_none k.app_key;
  })

-- `create_device_keys`
unfoldable create_device_keys :
    ChirpStackApiClient → DeviceService → List ℕ → List ℕ → Result ApiError (Unit {0})
unfolding populate_device_keys_message
create_device_keys client service dev_eui app_key = do
  validate_configuration client
  k ← populate_device_keys_message dev_eui app_key
  call_device_service (service.create_keys k)

-- `update_device_keys`
unfoldable update_device_keys :
    ChirpStackApiClient → DeviceService → List ℕ → List ℕ → Result ApiError (Unit {0})
unfolding populate_device_keys_message
update_device_keys client service dev_eui app_key = do
  validate_configuration client
  k ← populate_device_keys_message dev_eui app_key
  call_device_service (service.update_keys k)
