-- ===== src/Envelope/Measures.antt =====
-- The limits as measures of the message: how deep, how long, how wide, and how many bytes.
use cbr.Prelude.Results.{Result, ok, err}
use cbr.Prelude.{
  ℕ, suc, ◌+◌, ◌≤◌, ◌≡◌, refl, ◌∙◌, ap, arith, ◌||◌, Option, none, some, List, [], ◌∷◌, Text, codes,
  length, max, ltb, if◌then◌else◌, pos,
}
use cbr.Encoding.Canonical.{to_canonical}
use cbr.Encoding.Value.{
  Value, null, int, string, array, object, Items, no_items, item, Fields, no_fields, field, get,
}
use cbr.Protocol.{ProtocolError, limit_exceeded}
use cbr.Envelope.Limits.{
  Limits, count, exceeds_depth, exceeds_array_items, exceeds_string_bytes, text_bytes,
  exceeds_payload, check_limits, any_deep, any_deep_member, any_long, any_long_member, any_wide,
  any_wide_member,
}

-- The containers around the innermost one, that one included.
unfoldable mutual
  pub height : Value → ℕ
  height (array items) = suc (items_height items)
  height (object members) = suc (members_height members)
  height null = 0
  height (Value.bool b) = 0
  height (int n) = 0
  height (string text) = 0

  items_height : Items → ℕ
  items_height no_items = 0
  items_height (item value more) = max (height value) (items_height more)

  members_height : Fields → ℕ
  members_height no_fields = 0
  members_height (field name value more) = max (height value) (members_height more)

-- The length of the longest array.
unfoldable mutual
  pub longest_array : Value → ℕ
  longest_array (array items) = max (count items) (items_longest items)
  longest_array (object members) = members_longest members
  longest_array null = 0
  longest_array (Value.bool b) = 0
  longest_array (int n) = 0
  longest_array (string text) = 0

  items_longest : Items → ℕ
  items_longest no_items = 0
  items_longest (item value more) = max (longest_array value) (items_longest more)

  members_longest : Fields → ℕ
  members_longest no_fields = 0
  members_longest (field name value more) = max (longest_array value) (members_longest more)

-- The bytes of the widest text, the names of members included.
unfoldable mutual
  pub widest_text : Value → ℕ
  widest_text (string text) = text_bytes text
  widest_text (array items) = items_widest items
  widest_text (object members) = members_widest members
  widest_text null = 0
  widest_text (Value.bool b) = 0
  widest_text (int n) = 0

  items_widest : Items → ℕ
  items_widest no_items = 0
  items_widest (item value more) = max (widest_text value) (items_widest more)

  members_widest : Fields → ℕ
  members_widest no_fields = 0
  members_widest (field name value more) =
      max (max (text_bytes name) (widest_text value)) (members_widest more)

ltb-max : (m a b : ℕ) → ltb m (max a b) ≡ (ltb m a || ltb m b)
ltb-max m a b = ground arith

add-max : (d a b : ℕ) → d + max a b ≡ max (d + a) (d + b)
add-max d a b = ground arith

mutual
  unfolding exceeds_depth height

  exceeds_depth-height :
      (v : Value) (d m : ℕ) → d ≤ m → exceeds_depth v (suc d) (pos m) ≡ ltb m (d + height v)
  exceeds_depth-height (array items) d m h = ground (arith, any_deep-height items (suc d) m)
  exceeds_depth-height (object members) d m h =
      ground (arith, any_deep_member-height members (suc d) m)
  exceeds_depth-height null d m h = ground arith
  exceeds_depth-height (Value.bool b) d m h = ground arith
  exceeds_depth-height (int n) d m h = ground arith
  exceeds_depth-height (string text) d m h = ground arith

  any_deep-height :
      (items : Items) (d m : ℕ)
      → d ≤ m
      → any_deep items (suc d) (pos m) ≡ ltb m (d + items_height items)
  any_deep-height no_items d m h = ground arith
  any_deep-height (item v more) d m h =
      ground (arith, exceeds_depth-height v d m, any_deep-height more d m)

  any_deep_member-height :
      (members : Fields) (d m : ℕ)
      → d ≤ m
      → any_deep_member members (suc d) (pos m) ≡ ltb m (d + members_height members)
  any_deep_member-height no_fields d m h = ground arith
  any_deep_member-height (field name v more) d m h =
      ground (arith, exceeds_depth-height v d m, any_deep_member-height more d m)

mutual
  unfolding exceeds_array_items longest_array

  exceeds_array_items-longest :
      (v : Value) (m : ℕ) → exceeds_array_items v (pos m) ≡ ltb m (longest_array v)
  exceeds_array_items-longest (array items) m = ground (arith, any_long-longest items m)
  exceeds_array_items-longest (object members) m = any_long_member-longest members m
  exceeds_array_items-longest null m = ground arith
  exceeds_array_items-longest (Value.bool b) m = ground arith
  exceeds_array_items-longest (int n) m = ground arith
  exceeds_array_items-longest (string text) m = ground arith

  any_long-longest : (items : Items) (m : ℕ) → any_long items (pos m) ≡ ltb m (items_longest items)
  any_long-longest no_items m = ground arith
  any_long-longest (item v more) m =
      ground (arith, exceeds_array_items-longest v m, any_long-longest more m)

  any_long_member-longest :
      (members : Fields) (m : ℕ) → any_long_member members (pos m) ≡ ltb m (members_longest members)
  any_long_member-longest no_fields m = ground arith
  any_long_member-longest (field name v more) m =
      ground (arith, exceeds_array_items-longest v m, any_long_member-longest more m)

mutual
  unfolding exceeds_string_bytes widest_text

  exceeds_string_bytes-widest :
      (v : Value) (m : ℕ) → exceeds_string_bytes v (pos m) ≡ ltb m (widest_text v)
  exceeds_string_bytes-widest (string text) m = ground arith
  exceeds_string_bytes-widest (array items) m = any_wide-widest items m
  exceeds_string_bytes-widest (object members) m = any_wide_member-widest members m
  exceeds_string_bytes-widest null m = ground arith
  exceeds_string_bytes-widest (Value.bool b) m = ground arith
  exceeds_string_bytes-widest (int n) m = ground arith

  any_wide-widest : (items : Items) (m : ℕ) → any_wide items (pos m) ≡ ltb m (items_widest items)
  any_wide-widest no_items m = ground arith
  any_wide-widest (item v more) m =
      ground (arith, exceeds_string_bytes-widest v m, any_wide-widest more m)

  any_wide_member-widest :
      (members : Fields) (m : ℕ) → any_wide_member members (pos m) ≡ ltb m (members_widest members)
  any_wide_member-widest no_fields m = ground arith
  any_wide_member-widest (field name v more) m =
      ground (arith, exceeds_string_bytes-widest v m, any_wide_member-widest more m)

-- The bytes of the payload in canonical form, 0 when there is none.
abbrev pub payload_bytes : Option Value → ℕ
payload_bytes none = 0
payload_bytes (some payload) = length (to_canonical payload)

exceeds_payload-bytes :
    (payload : Option Value) (m : ℕ)
    → exceeds_payload payload (pos m) ≡ ltb m (payload_bytes payload)
exceeds_payload-bytes none m = ground arith
exceeds_payload-bytes (some payload) m = ground arith

-- A measure of a message with its name and its maximum.
pub record Measured : Type 0 where
  pub name : Text
  pub measure : ℕ
  pub maximum : ℕ

-- The first measure that is over its maximum, in the order of the list.
abbrev pub refuse_first : List Measured → Result (Unit {0}) ProtocolError
refuse_first [] = ok tt
refuse_first (m ∷ more) =
    if ltb m.maximum m.measure
    then err (limit_exceeded m.name (pos m.maximum))
    else refuse_first more

abbrev pub natural_limits : ℕ → ℕ → ℕ → ℕ → ℕ → Limits
natural_limits frame payload text items depth = record {
  max_frame_bytes = pos frame;
  max_payload_bytes = pos payload;
  max_string_bytes = pos text;
  max_array_items = pos items;
  max_depth = pos depth;
}

exceeds_depth-top : (v : Value) (m : ℕ) → exceeds_depth v 1 (pos m) ≡ ltb m (height v)
exceeds_depth-top v m = exceeds_depth-height v 0 m (omega arith) ∙ ap (ltb m) (omega arith)

-- The limits of a message are those on four measures of it, in this order: the nesting of its
-- containers, the length of its longest array, the bytes of its widest text, and the bytes of its
-- payload in canonical form. A measure at its maximum is within it, and the first one over is the
-- one reported. The maxima are not negative.
pub check_limits-refuse_first :
    (params : Value) (frame payload text items depth : ℕ)
    → check_limits params (natural_limits frame payload text items depth)
      ≡ refuse_first (
          record { name = codes "max_depth"; measure = height params; maximum = depth }
          ∷ record {
            name = codes "max_array_items";
            measure = longest_array params;
            maximum = items;
          }
          ∷ record { name = codes "max_string_bytes"; measure = widest_text params; maximum = text }
          ∷ record {
            name = codes "max_payload_bytes";
            measure = payload_bytes (get params (codes "payload"));
            maximum = payload;
          }
          ∷ [])
unfolding check_limits
check_limits-refuse_first params frame payload text items depth =
    simp
      (
        exceeds_depth-top params depth,
        exceeds_array_items-longest params items,
        exceeds_string_bytes-widest params text,
        exceeds_payload-bytes (get params (codes "payload")) payload,
      )
      refl
