-- ===== src/Event.antt =====
-- src/integrations/chirpstack/service.py: the events that ChirpStack publishes.
pub mod Tables
pub mod Guard
pub mod Network
pub mod Lifecycle
pub mod Location
pub mod Uplink
pub mod Service
pub mod Evolves
pub mod Frame
pub mod Handlers
pub mod Recorded
pub mod Once
