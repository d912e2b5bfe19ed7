-- ===== src/Api/Retry.antt =====
-- Which failures of the API may be tried again.
use tlrs.Prelude.{
  not, ap, ◌>>◌, Bool-cases, inl, inr, ℕ, ◌≡◌, refl, sym, ◌∙◌, Bool, true, false, Option, List,
  String, Result, ok, err, ◌>>=◌, raise_if, ◌==◌, arith,
}
use tlrs.Model.Text.{is_empty}
use tlrs.Wire.Topic.{normalize_eui}
use tlrs.Api.{
  QueueItem, ChirpStackApiClient, validate_configuration, is_hex_of_length, valid_eui,
  finish_enqueue, enqueue_downlink,
}
use tlrs.Api.Errors.{
  StatusCode, Outcome, response, future_timeout, other_exception, rpc_error, escaped, uncaught,
  ApiError, configuration, Configuration, retryable,
}

-- The outcomes of a call that another call may not have: no answer in time, no connection, and the
-- status codes of a service that is busy or broken.
abbrev is_transient_code : StatusCode → Bool
is_transient_code StatusCode.deadline_exceeded = true
is_transient_code StatusCode.unavailable = true
is_transient_code StatusCode.cancelled = true
is_transient_code StatusCode.resource_exhausted = true
is_transient_code StatusCode.internal = true
is_transient_code StatusCode.unknown = true
is_transient_code StatusCode.aborted = true
is_transient_code _ = false

abbrev pub is_transient : {A : Type 0} → Outcome A → Bool
is_transient (response a) = false
is_transient future_timeout = true
is_transient other_exception = true
is_transient escaped = false
is_transient (rpc_error code) = is_transient_code code

-- A result that is an error of some kind, and one to be tried again.
abbrev pub fails : {A : Type 0} → (ApiError → Bool) → Result ApiError A → Bool
fails p (ok a) = false
fails p (err e) = p e

abbrev pub again : {A : Type 0} → Result ApiError A → Bool
again = fails retryable

again-map_rpc_error :
    (code : StatusCode)
    → ◌≡◌ {A = Bool} (again {A = String} (finish_enqueue (rpc_error code))) (is_transient_code code)
again-map_rpc_error code = ground arith

again-finish_enqueue :
    (outcome : Outcome String) → again (finish_enqueue outcome) ≡ is_transient outcome
again-finish_enqueue (response id) = ground arith
again-finish_enqueue future_timeout = refl
again-finish_enqueue other_exception = refl
again-finish_enqueue escaped = refl
again-finish_enqueue (rpc_error code) = again-map_rpc_error code

-- Errors of a kind that leaves out those of the configuration
module _ (p : ApiError → Bool) (final : (c : Configuration) → p (configuration c) ≡ false) where
  fails->>= :
      {A B : Type 0} (m : Result ApiError A) (k : A → Result ApiError B)
      → fails p m ≡ false
      → fails p (m >>= k) ≡ true
      → (a : A) × (m ≡ ok a) × (fails p (k a) ≡ true)
  fails->>= (err e) k own h = cc
  fails->>= (ok a) k own h = (a, refl, h)

  final_if : (b : Bool) (c : Configuration) → fails p (raise_if b (configuration c)) ≡ false
  final_if true c = final c
  final_if false c = refl

  final->> :
      (m k : Result ApiError (Unit {0}))
      → fails p m ≡ false
      → fails p k ≡ false
      → fails p (m >> k) ≡ false
  final->> (ok u) k h j = j
  final->> (err e) k h j = h

  validate_configuration_final :
      (client : ChirpStackApiClient) → fails p (validate_configuration client) ≡ false
  unfolding validate_configuration
  validate_configuration_final client =
      final->> _ _ (final_if (not client.has_dependencies) Configuration.missing_dependencies) (
        final->> _ _ (final_if (is_empty client.host) Configuration.host_required) (
          final->> _ _ (final_if (client.port == 0) Configuration.port_required)
            (final_if (is_empty client.token) Configuration.token_required)))

  valid_eui_final : (value : List ℕ) → fails p (valid_eui value) ≡ false
  unfolding valid_eui
  valid_eui_final value = elim (Bool-cases (is_hex_of_length 16 (normalize_eui value))) [
    | inl e ↦ rw e refl
    | inr e ↦ rw e (final Configuration.invalid_eui)
  ]

  valid_eui_hex :
      (value : List ℕ) {eui : List ℕ} → valid_eui value ≡ ok eui → is_hex_of_length 16 eui ≡ true
  unfolding valid_eui
  valid_eui_hex value h = ground arith

  -- An error of the kind comes only of a call that was made.
  pub fails-enqueue_downlink :
      (client : ChirpStackApiClient) (dev_eui : List ℕ) (f_port : ℕ) (bytes : List ℕ)
      (confirmed : Bool) (expires_at : Option ℕ)
      → fails p (enqueue_downlink client dev_eui f_port bytes confirmed expires_at) ≡ true
      → (item : QueueItem) × (is_hex_of_length 16 item.dev_eui ≡ true)
        × (item.f_port ≡ f_port)
        × (item.bytes ≡ bytes)
        × (item.confirmed ≡ confirmed)
        × (item.expires_at ≡ expires_at)
        × (fails p (finish_enqueue (client.enqueue item)) ≡ true)
  unfolding enqueue_downlink
  fails-enqueue_downlink client dev_eui f_port bytes confirmed expires_at h =
      let (_, _, h₁) =
        fails->>= (validate_configuration client) _ (validate_configuration_final client) h in
      let (eui, valid, h₂) = fails->>= (valid_eui dev_eui) _ (valid_eui_final dev_eui) h₁ in
      let (_, _, h₃) =
        fails->>= (raise_if (f_port == 0) (configuration Configuration.invalid_f_port)) _
          (final_if (f_port == 0) Configuration.invalid_f_port) h₂ in
      let (_, _, h₄) =
        fails->>= (raise_if (is_empty bytes) (configuration Configuration.empty_data)) _
          (final_if (is_empty bytes) Configuration.empty_data) h₃ in
      let item : QueueItem = record {
        dev_eui = eui;
        confirmed = confirmed;
        f_port = f_port;
        bytes = bytes;
        expires_at = expires_at;
      } in
      (item, valid_eui_hex dev_eui valid, refl, refl, refl, refl, h₄)

-- An enqueueing is retried only behind a call that was made, and had a transient outcome.
pub again-enqueue_downlink :
    (client : ChirpStackApiClient) (dev_eui : List ℕ) (f_port : ℕ) (bytes : List ℕ)
    (confirmed : Bool) (expires_at : Option ℕ)
    → again (enqueue_downlink client dev_eui f_port bytes confirmed expires_at) ≡ true
    → (item : QueueItem) × (is_hex_of_length 16 item.dev_eui ≡ true)
      × (item.f_port ≡ f_port)
      × (item.bytes ≡ bytes)
      × (item.confirmed ≡ confirmed)
      × (item.expires_at ≡ expires_at)
      × (is_transient (client.enqueue item) ≡ true)
again-enqueue_downlink client dev_eui f_port bytes confirmed expires_at h =
    let (item, hex, port, same, sure, expiry, failed) =
      fails-enqueue_downlink retryable (λ c. refl) client dev_eui f_port bytes confirmed expires_at
        h in
    (item, hex, port, same, sure, expiry, sym (again-finish_enqueue (client.enqueue item)) ∙ failed)

-- An exception leaves an enqueueing only behind a call that was made, and from which one escaped.
abbrev pub is_uncaught : ApiError → Bool
is_uncaught uncaught = true
is_uncaught _ = false

escaped_call :
    (outcome : Outcome String)
    → fails is_uncaught (finish_enqueue outcome) ≡ true
    → outcome ≡ escaped
escaped_call (response id) h = ground arith
escaped_call future_timeout h = cc
escaped_call other_exception h = cc
escaped_call escaped h = refl
escaped_call (rpc_error code) h = cc (caught code h)
  where
    caught :
        (c : StatusCode)
        → ◌≡◌ {A = Bool} (fails {A = String} is_uncaught (finish_enqueue (rpc_error c))) true
        → ◌≡◌ {A = Bool} false true
    caught c e = ground arith

pub escaped-enqueue_downlink :
    (client : ChirpStackApiClient) (dev_eui : List ℕ) (f_port : ℕ) (bytes : List ℕ)
    (confirmed : Bool) (expires_at : Option ℕ)
    → enqueue_downlink client dev_eui f_port bytes confirmed expires_at ≡ err uncaught
    → (item : QueueItem) × (item.f_port ≡ f_port)
      × (item.bytes ≡ bytes)
      × (client.enqueue item ≡ escaped)
escaped-enqueue_downlink client dev_eui f_port bytes confirmed expires_at h =
    let (item, _, port, same, _, _, failed) =
      fails-enqueue_downlink is_uncaught (λ c. refl) client dev_eui f_port bytes confirmed
        expires_at (ap (fails is_uncaught) h) in
    (item, port, same, escaped_call (client.enqueue item) failed)
