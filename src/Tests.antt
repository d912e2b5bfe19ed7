-- ===== src/Tests.antt =====
-- The theorems at concrete inputs.
mod Wire
mod Command
mod Event
mod Realtime
mod Transport
mod Analytics
mod Geofence
mod Assignment
