-- ===== src/Wire.antt =====
-- The binary contract between the backend and the devices
-- (src/integrations/chirpstack: binary_contract.py, downlink_encoder.py, payload_codec.py, decoder.py).
pub mod Contract
pub mod Bytes
pub mod Base64
pub mod Downlink
pub mod Uplink
pub mod Topic
