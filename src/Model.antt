-- ===== src/Model.antt =====
-- The rows and enumerations of src/models and src/schemas that several services share, and the
-- instants and result rows that they read.
pub mod Time
pub mod Text
pub mod Division
pub mod Command
pub mod Query
pub mod Device
pub mod Table
pub mod Keys
pub mod Update
