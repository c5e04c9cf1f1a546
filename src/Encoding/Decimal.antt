-- ===== src/Encoding/Decimal.antt =====
-- Rust's `to_string` on an integer, in decimal.
use cbr.Prelude.{ℕ, zero, suc, ◌+◌, ◌/◌, ◌%◌, [], ◌∷◌, Bytes, ltb, if◌then◌else◌, ℤ, pos, negsuc}

-- The digits of `n` in front of `behind`.
unfoldable pub digits_from : ℕ → ℕ → Bytes → Bytes
digits_from zero n behind = behind
digits_from (suc fuel) n behind =
    let more = digits_from fuel (n / 10) ((b'0' + n % 10) ∷ behind) in
    if ltb n 10 then (b'0' + n) ∷ behind else more

-- A number below 2 ^ 64 has at most twenty digits.
unfoldable pub digits : ℕ → Bytes
unfolding digits_from
digits n = digits_from 20 n []

unfoldable pub int_text : ℤ → Bytes
unfolding digits
int_text (pos n) = digits n
int_text (negsuc n) = b'-' ∷ digits (n + 1)
