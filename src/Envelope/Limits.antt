-- ===== src/Envelope/Limits.antt =====
-- crates/cbr-provider/src/envelope.rs: the limits on a message, one pass for each.
use cbr.Prelude.Results.{Result, ok, err}
use cbr.Prelude.{
  ℕ, suc, Bool, false, ◌||◌, Option, none, some, Text, codes, length, if◌then◌else◌, ℤ, pos, ltb_ℤ,
}
use cbr.Encoding.Utf8.{utf8}
use cbr.Encoding.Canonical.{to_canonical}
use cbr.Encoding.Value.{
  Value, null, int, string, array, object, Items, no_items, item, Fields, no_fields, field, get,
}
use cbr.Protocol.{ProtocolError, limit_exceeded}

-- `Limits` of config.rs
pub record Limits : Type 0 where
  pub max_frame_bytes : ℤ
  pub max_payload_bytes : ℤ
  pub max_string_bytes : ℤ
  pub max_array_items : ℤ
  pub max_depth : ℤ

abbrev pub count : Items → ℕ
count no_items = 0
count (item value more) = suc (count more)

unfoldable mutual
  pub exceeds_depth : Value → ℕ → ℤ → Bool
  exceeds_depth (array items) depth maximum =
      ltb_ℤ maximum (pos depth) || any_deep items (suc depth) maximum
  exceeds_depth (object members) depth maximum =
      ltb_ℤ maximum (pos depth) || any_deep_member members (suc depth) maximum
  exceeds_depth null depth maximum = false
  exceeds_depth (Value.bool b) depth maximum = false
  exceeds_depth (int n) depth maximum = false
  exceeds_depth (string text) depth maximum = false

  pub any_deep : Items → ℕ → ℤ → Bool
  any_deep no_items depth maximum = false
  any_deep (item value more) depth maximum =
      exceeds_depth value depth maximum || any_deep more depth maximum

  pub any_deep_member : Fields → ℕ → ℤ → Bool
  any_deep_member no_fields depth maximum = false
  any_deep_member (field name value more) depth maximum =
      exceeds_depth value depth maximum || any_deep_member more depth maximum

unfoldable mutual
  pub exceeds_array_items : Value → ℤ → Bool
  exceeds_array_items (array items) maximum =
      ltb_ℤ maximum (pos (count items)) || any_long items maximum
  exceeds_array_items (object members) maximum = any_long_member members maximum
  exceeds_array_items null maximum = false
  exceeds_array_items (Value.bool b) maximum = false
  exceeds_array_items (int n) maximum = false
  exceeds_array_items (string text) maximum = false

  pub any_long : Items → ℤ → Bool
  any_long no_items maximum = false
  any_long (item value more) maximum = exceeds_array_items value maximum || any_long more maximum

  pub any_long_member : Fields → ℤ → Bool
  any_long_member no_fields maximum = false
  any_long_member (field name value more) maximum =
      exceeds_array_items value maximum || any_long_member more maximum

abbrev pub text_bytes : Text → ℕ
unfolding utf8
text_bytes text = length (utf8 text)

unfoldable mutual
  unfolding text_bytes

  pub exceeds_string_bytes : Value → ℤ → Bool
  exceeds_string_bytes (string text) maximum = ltb_ℤ maximum (pos (text_bytes text))
  exceeds_string_bytes (array items) maximum = any_wide items maximum
  exceeds_string_bytes (object members) maximum = any_wide_member members maximum
  exceeds_string_bytes null maximum = false
  exceeds_string_bytes (Value.bool b) maximum = false
  exceeds_string_bytes (int n) maximum = false

  pub any_wide : Items → ℤ → Bool
  any_wide no_items maximum = false
  any_wide (item value more) maximum = exceeds_string_bytes value maximum || any_wide more maximum

  pub any_wide_member : Fields → ℤ → Bool
  any_wide_member no_fields maximum = false
  any_wide_member (field name value more) maximum =
      (ltb_ℤ maximum (pos (text_bytes name)) || exceeds_string_bytes value maximum)
      || any_wide_member more maximum

-- The payload is measured in canonical form.
abbrev pub exceeds_payload : Option Value → ℤ → Bool
exceeds_payload none maximum = false
exceeds_payload (some payload) maximum = ltb_ℤ maximum (pos (length (to_canonical payload)))

unfoldable pub check_limits : Value → Limits → Result (Unit {0}) ProtocolError
check_limits params limits =
    if exceeds_depth params 1 limits.max_depth
    then err (limit_exceeded (codes "max_depth") limits.max_depth)
    else if exceeds_array_items params limits.max_array_items
    then err (limit_exceeded (codes "max_array_items") limits.max_array_items)
    else if exceeds_string_bytes params limits.max_string_bytes
    then err (limit_exceeded (codes "max_string_bytes") limits.max_string_bytes)
    else if exceeds_payload (get params (codes "payload")) limits.max_payload_bytes
    then err (limit_exceeded (codes "max_payload_bytes") limits.max_payload_bytes)
    else ok tt
