-- ===== src/Wire/Topic.antt =====
-- src/integrations/chirpstack/mqtt_topics.py: the topics of events and of downlinks. Texts are
-- lists of code points.
pub mod Built
use tlrs.Prelude.{
  ℕ, String, Bool, true, false, ◌&&◌, ◌||◌, not, List, [], ◌∷◌, map, Result, ok, err, ◌>>=◌, ◌>>◌,
  raise_if,
}
use tlrs.Model.Text.{codes, same_text, is_empty, strip, compact, to_lower, split}

-- The reasons of `ChirpStackTopicParseError`
pub data TopicError : Type 0 where
  invalid_format invalid_segments unsupported_suffix incomplete : TopicError

pub record ChirpStackTopicInfo : Type 0 where
  pub application_id : List ℕ
  pub dev_eui : List ℕ
  pub event_type : List ℕ

pub record ChirpStackDownlinkTopicInfo : Type 0 where
  pub application_id : List ℕ
  pub dev_eui : List ℕ

abbrev pub slash : ℕ
slash = b'/'

-- The test of the fixed segments
abbrev has_segments : List ℕ → List ℕ → List ℕ → String → Bool
has_segments p0 p2 p4 last =
    same_text p0 (codes "application")
    && (same_text p2 (codes "device") && same_text p4 (codes last))

abbrev pub normalize_eui : List ℕ → List ℕ
normalize_eui s = map to_lower (compact s)

-- `parse_chirpstack_event_topic` on the parts
unfoldable parse_event_parts : List (List ℕ) → Result TopicError ChirpStackTopicInfo
unfolding compact strip
parse_event_parts (p0 ∷ p1 ∷ p2 ∷ p3 ∷ p4 ∷ p5 ∷ []) = do
  raise_if (not (has_segments p0 p2 p4 "event")) invalid_segments
  let application_id = strip p1
  let dev_eui = normalize_eui p3
  let event_type = map to_lower (strip p5)
  raise_if (is_empty application_id || (is_empty dev_eui || is_empty event_type)) incomplete
  ok (record { application_id = application_id; dev_eui = dev_eui; event_type = event_type })
parse_event_parts _ = err invalid_format

-- `parse_chirpstack_event_topic`
unfoldable pub parse_chirpstack_event_topic : List ℕ → Result TopicError ChirpStackTopicInfo
unfolding parse_event_parts split
parse_chirpstack_event_topic topic = parse_event_parts (split slash topic)

-- `parse_chirpstack_downlink_topic` on the parts
unfoldable pub parse_downlink_parts : List (List ℕ) → Result TopicError ChirpStackDownlinkTopicInfo
unfolding compact strip
parse_downlink_parts (p0 ∷ p1 ∷ p2 ∷ p3 ∷ p4 ∷ p5 ∷ []) = do
  raise_if (not (has_segments p0 p2 p4 "command")) invalid_segments
  raise_if (not (same_text p5 (codes "down"))) unsupported_suffix
  let application_id = strip p1
  let dev_eui = normalize_eui p3
  raise_if (is_empty application_id || is_empty dev_eui) incomplete
  ok (record { application_id = application_id; dev_eui = dev_eui })
parse_downlink_parts _ = err invalid_format

-- `parse_chirpstack_downlink_topic`
unfoldable pub parse_chirpstack_downlink_topic :
    List ℕ → Result TopicError ChirpStackDownlinkTopicInfo
unfolding parse_downlink_parts split
parse_chirpstack_downlink_topic topic = parse_downlink_parts (split slash topic)

abbrev is_ok : {E A : Type 0} → Result E A → Bool
is_ok (err e) = false
is_ok (ok a) = true

-- `is_chirpstack_downlink_topic`
unfoldable pub is_chirpstack_downlink_topic : List ℕ → Bool
unfolding parse_chirpstack_downlink_topic
is_chirpstack_downlink_topic topic = is_ok (parse_chirpstack_downlink_topic topic)
