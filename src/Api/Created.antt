-- ===== src/Api/Created.antt =====
-- A device that was created is read back.
use tlrs.Prelude.{ℕ, ◌≡◌, refl, sym, ap, ◌∙◌, List, ok, >>=-eq-ok, ok-injective, or_else, [], arith}
use tlrs.Model.Text.{strip}
use tlrs.Wire.Topic.{normalize_eui}
use tlrs.Api.{ChirpStackApiClient, validate_configuration, valid_eui}
use tlrs.Api.Errors.{Outcome, response, call_device_service}
use tlrs.Api.Device.{
  DeviceMessage, DeviceArguments, DeviceService, normalize_required_text, description_of,
  populate_device_message, text_or_none, get_device, create_device,
}

call-eq-ok : {A : Type 0} (o : Outcome A) {a : A} → call_device_service o ≡ ok a → o ≡ response a
call-eq-ok o h = ground arith

valid_eui-eq-ok :
    (value : List ℕ) {eui : List ℕ} → valid_eui value ≡ ok eui → normalize_eui value ≡ eui
unfolding valid_eui
valid_eui-eq-ok value h = ground arith

normalize-eq-ok :
    (value : List ℕ) {text : List ℕ} → normalize_required_text value ≡ ok text → strip value ≡ text
unfolding normalize_required_text
normalize-eq-ok value h = ground arith

-- The message of some arguments.
abbrev pub message_for : DeviceArguments → DeviceMessage
message_for a = record {
  dev_eui = normalize_eui a.dev_eui;
  name = strip a.name;
  application_id = strip a.application_id;
  device_profile_id = strip a.device_profile_id;
  join_eui = normalize_eui a.join_eui;
  description = description_of a.description;
  is_disabled = a.is_disabled;
  tags = or_else a.tags [];
}

populate-eq-ok :
    (a : DeviceArguments) {m : DeviceMessage}
    → populate_device_message a ≡ ok m
    → (message_for a ≡ m) × (valid_eui a.dev_eui ≡ ok (normalize_eui a.dev_eui))
unfolding populate_device_message
populate-eq-ok a {m} h =
    let (eui, e₁, h₁) = >>=-eq-ok (valid_eui a.dev_eui) _ h in
    let (name, e₂, h₂) = >>=-eq-ok (normalize_required_text a.name) _ h₁ in
    let (app, e₃, h₃) = >>=-eq-ok (normalize_required_text a.application_id) _ h₂ in
    let (profile, e₄, h₄) = >>=-eq-ok (normalize_required_text a.device_profile_id) _ h₃ in
    let (join, e₅, h₅) = >>=-eq-ok (valid_eui a.join_eui) _ h₄ in
    let same : normalize_eui a.dev_eui ≡ eui = valid_eui-eq-ok a.dev_eui e₁ in
    (
      rw
          (
            same,
            normalize-eq-ok a.name e₂,
            normalize-eq-ok a.application_id e₃,
            normalize-eq-ok a.device_profile_id e₄,
            valid_eui-eq-ok a.join_eui e₅,
          )
          (ok-injective h₅),
      e₁ ∙ ap ok (sym same),
    )

-- A device that was created reads back, from a service that returns under its EUI the message of the
-- arguments once it took that message: with the EUIs in lower case without spaces, the texts
-- stripped, and no description where the text is empty.
pub get_device-create_device :
    (client : ChirpStackApiClient) (service after : DeviceService) (a : DeviceArguments)
    {u : Unit {0}}
    → create_device client service a ≡ ok u
    → (service.create (message_for a) ≡ response u
        → after.get (normalize_eui a.dev_eui) ≡ response (message_for a))
    → get_device client after a.dev_eui
      ≡ ok (record {
        dev_eui = normalize_eui a.dev_eui;
        name = strip a.name;
        application_id = strip a.application_id;
        device_profile_id = strip a.device_profile_id;
        description = text_or_none (description_of a.description);
        join_eui = text_or_none (normalize_eui a.join_eui);
        is_disabled = a.is_disabled;
        tags = or_else a.tags [];
      })
unfolding create_device get_device
get_device-create_device client service after a {u} h stores =
    let (_, configured, h₁) = >>=-eq-ok (validate_configuration client) _ h in
    let (m, made, h₂) = >>=-eq-ok (populate_device_message a) _ h₁ in
    let (same, valid) = populate-eq-ok a made in
    let created : service.create (message_for a) ≡ response u =
      ap (λ x. service.create x) same ∙ call-eq-ok (service.create m) h₂ in
    rw (configured, valid, stores created) refl
