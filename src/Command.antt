-- ===== src/Command.antt =====
-- Commands for devices, from their creation to their acknowledgement
-- (src/service/device_command*.py, command_dispatcher_worker/main.py and the network
-- acknowledgements of src/integrations/chirpstack/service.py).
pub mod Sequence
pub mod Ack
pub mod Create
pub mod Invariant
pub mod Dispatcher
pub mod Transport
