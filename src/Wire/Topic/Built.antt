-- ===== src/Wire/Topic/Built.antt =====
-- The topics that downlinks are built with parse.
use Prim.Native.String
use tlrs.Prelude.{
  ℕ, ◌≡◌, ◌≢◌, refl, ap, ◌∙◌, true, false, String, List, [], ◌∷◌, ◌++◌, ok, All, arith,
}
use tlrs.Model.Text.{codes, is_empty, strip, split, split_one, split_first, codes-append}
use tlrs.Command.Create.{build_topic}
use tlrs.Wire.Topic.{
  slash, normalize_eui, parse_downlink_parts, parse_chirpstack_downlink_topic,
  is_chirpstack_downlink_topic,
}

-- No segment separator in a text.
abbrev pub IsSegment : List ℕ → Type 0
IsSegment = All (λ c. c ≢ slash)

codes-build_topic :
    (application_id dev_eui : String)
    → codes (build_topic application_id dev_eui)
      ≡ codes "application"
        ++ (slash
            ∷ (codes application_id
                ++ (slash
                    ∷ (codes "device"
                        ++ (slash
                            ∷ (codes dev_eui
                                ++ (slash ∷ (codes "command" ++ (slash ∷ codes "down")))))))))
unfolding build_topic
codes-build_topic a e =
    let down : String = "/command/down" in
    let from_eui = String.◌++◌ e down in
    let from_device = String.◌++◌ "/device/" from_eui in
    codes-append "application/" (String.◌++◌ a from_device)
    ∙ ap (λ r. codes "application/" ++ r)
        (codes-append a from_device
          ∙ ap (λ r. codes a ++ r)
              (codes-append "/device/" from_eui
                ∙ ap (λ r. codes "/device/" ++ r) (codes-append e down)))

split_topic :
    (application_id dev_eui : String)
    → IsSegment (codes application_id)
    → IsSegment (codes dev_eui)
    → split slash (codes (build_topic application_id dev_eui))
      ≡ codes "application"
        ∷ codes application_id
        ∷ codes "device"
        ∷ codes dev_eui
        ∷ codes "command"
        ∷ codes "down"
        ∷ []
split_topic a e ha he =
    let plain : IsSegment (codes "application") = omega arith in
    ap (split slash) (codes-build_topic a e)
    ∙ split_first slash (codes "application") _ (omega arith)
    ∙ ap (λ ps. codes "application" ∷ ps)
        (split_first slash (codes a) _ ha
          ∙ ap (λ ps. codes a ∷ ps)
              (split_first slash (codes "device") _ (omega arith)
                ∙ ap (λ ps. codes "device" ∷ ps)
                    (split_first slash (codes e) _ he
                      ∙ ap (λ ps. codes e ∷ ps)
                          (split_first slash (codes "command") _ (omega arith)
                            ∙ ap (λ ps. codes "command" ∷ ps)
                                (split_one slash (codes "down") (omega arith))))))

-- The topic of a downlink parses back: for an application id and a device EUI without a slash and
-- not blank, to the stripped id and to the EUI in lower case without spaces.
pub parse-build_topic :
    (application_id dev_eui : String)
    → IsSegment (codes application_id)
    → IsSegment (codes dev_eui)
    → is_empty (strip (codes application_id)) ≡ false
    → is_empty (normalize_eui (codes dev_eui)) ≡ false
    → parse_chirpstack_downlink_topic (codes (build_topic application_id dev_eui))
      ≡ ok (record {
        application_id = strip (codes application_id);
        dev_eui = normalize_eui (codes dev_eui);
      })
unfolding parse_chirpstack_downlink_topic
parse-build_topic a e ha he na ne =
    ap parse_downlink_parts (split_topic a e ha he) ∙ rw (na, ne) refl

pub is_downlink-build_topic :
    (application_id dev_eui : String)
    → IsSegment (codes application_id)
    → IsSegment (codes dev_eui)
    → is_empty (strip (codes application_id)) ≡ false
    → is_empty (normalize_eui (codes dev_eui)) ≡ false
    → is_chirpstack_downlink_topic (codes (build_topic application_id dev_eui)) ≡ true
unfolding is_chirpstack_downlink_topic
is_downlink-build_topic a e ha he na ne = rw (parse-build_topic a e ha he na ne) refl
