-- ===== src/Geofence.antt =====
-- Geofences: the position of an asset against its fences, and the events that a change brings.
pub mod Status
pub mod Tables
pub mod Evaluation
pub mod Membership
