-- ===== src/Examples/Codec.antt =====
-- Runs of the encoding and of the clock.
use cbr.Prelude.{
  ℕ, ◌+◌, ◌*◌, ◌/◌, ◌≡◌, refl, ◌↔◌, ◌≢◌, some, [], ◌∷◌, Bytes, codes, length, All, pos, arith,
}
use cbr.Encoding.Value.{
  is_noncharacter, Value, int, array, object, item, no_items, field, no_fields,
}
use cbr.Encoding.Domain.{InDomain}
use cbr.Encoding.Utf8.{next_char}
use cbr.Encoding.Parse.Strings.{string_value}
use cbr.Encoding.Parse.Number.{number}
use cbr.Encoding.Parse.Steps.{skip_whitespace, expect, ok, out_of_fuel}
use cbr.Encoding.Parse.{lead, after, parse_with_depth}
use cbr.Encoding.Parse.Sound.{parse-InDomain, parse-ne-out_of_fuel}
use cbr.Encoding.Base64.{encode_base64, decode_base64}
use cbr.Encoding.Base64.RoundTrip.{IsByte, decode-encode}
use cbr.Encoding.Base64.Strict.{decode-eq-some_iff}
use cbr.Clock.Instants.{unix_of, format_unix}
use cbr.Clock.RoundTrip.{unix_of-format_unix}

abbrev small_text : Bytes
small_text = codes "{\"a\":[1,7]} "

abbrev small_value : Value
small_value =
    object (field (codes "a") (array (item (int (pos 1)) (item (int (pos 7)) no_items))) no_fields)

parse_small : parse_with_depth small_text 2 ≡ ok small_value (record { rest = []; at = 12 })
unfolding parse_with_depth next_char lead skip_whitespace expect string_value is_noncharacter number
    after
parse_small = refl

parse-InDomain_example : InDomain 2 0 small_value × (length {A = ℕ} [] ≡ 0)
parse-InDomain_example =
    parse-InDomain small_text 2 small_value (record { rest = []; at = 12 }) parse_small

parse-ne-out_of_fuel_example : parse_with_depth (codes "[[1") 64 ≢ out_of_fuel
parse-ne-out_of_fuel_example = parse-ne-out_of_fuel (codes "[[1") 64

abbrev four_bytes : Bytes
four_bytes = 102 ∷ 0 ∷ 255 ∷ 9 ∷ []

four_bytes-IsByte : All IsByte four_bytes
four_bytes-IsByte = (omega arith, (omega arith, (omega arith, (omega arith, tt))))

decode-encode_example :
    (decode_base64 (encode_base64 four_bytes) ≡ some four_bytes)
    × (length (encode_base64 four_bytes) ≡ 4 * ((length four_bytes + 2) / 3))
decode-encode_example = decode-encode four_bytes four_bytes-IsByte

decode-eq-some_iff_example :
    (decode_base64 (codes "ZgD/CQ==") ≡ some four_bytes)
    ↔ ((encode_base64 four_bytes ≡ codes "ZgD/CQ==") × All IsByte four_bytes)
decode-eq-some_iff_example = decode-eq-some_iff (codes "ZgD/CQ==") four_bytes

unix_of-format_unix_example : unix_of (format_unix 951782400) ≡ some 951782400
unix_of-format_unix_example = unix_of-format_unix 951782400 (omega arith)
