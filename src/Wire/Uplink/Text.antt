-- ===== src/Wire/Uplink/Text.antt =====
-- payload_codec.py: the text of an uplink that carries the base64 of some bytes.
use tlrs.Prelude.{ℕ, ◌≡◌, List, [], ◌∷◌, some, ok}
use tlrs.Wire.Bytes.{IsBytes}
use tlrs.Wire.Base64.{b64encode}
use tlrs.Wire.Base64.RoundTrip.{b64decode-b64encode}
use tlrs.Wire.Uplink.{decode_base64_data, invalid_base64}

pub decode_base64_data-b64encode :
    (b : ℕ) (bytes : List ℕ)
    → IsBytes (b ∷ bytes)
    → decode_base64_data (some (b64encode (b ∷ bytes))) ≡ ok (b ∷ bytes)
unfolding decode_base64_data b64encode
decode_base64_data-b64encode b [] h = b64decode-b64encode invalid_base64 (b ∷ []) h
decode_base64_data-b64encode b (c ∷ []) h = b64decode-b64encode invalid_base64 (b ∷ c ∷ []) h
decode_base64_data-b64encode b (c ∷ d ∷ rest) h =
    b64decode-b64encode invalid_base64 (b ∷ c ∷ d ∷ rest) h
