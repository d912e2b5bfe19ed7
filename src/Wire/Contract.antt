-- ===== src/Wire/Contract.antt =====
-- src/integrations/chirpstack/binary_contract.py: the constants of version 1.
use tlrs.Prelude.{ℕ}

abbrev pub protocol_version_v1 : ℕ
protocol_version_v1 = 0x01

abbrev pub command_fport : ℕ
command_fport = 10

abbrev pub location_uplink_fport : ℕ
location_uplink_fport = 10

abbrev pub status_uplink_fport : ℕ
status_uplink_fport = 11

abbrev pub command_ack_fport : ℕ
command_ack_fport = 20

abbrev pub location_message_type : ℕ
location_message_type = 0x01

abbrev pub status_message_type : ℕ
status_message_type = 0x02

abbrev pub gps_fix_no_fix : ℕ
gps_fix_no_fix = 0x00

abbrev location_payload_length_v1 : ℕ
location_payload_length_v1 = 15

abbrev status_payload_length_v1 : ℕ
status_payload_length_v1 = 8

abbrev command_ack_payload_length_v1 : ℕ
command_ack_payload_length_v1 = 5
