-- ===== src/Clock/Instants.antt =====
-- crates/cbr-provider/src/clock.rs (`format_unix`, `unix_of`) and crates/cbr-provider/src/budget.rs
-- (`epoch_seconds`): instants to seconds and back. An instant is the list of its bytes.
use cbr.Prelude.Partial.{◌>>=◌}
use cbr.Prelude.{
  ℕ, ◌+◌, ◌-◌, ◌*◌, ◌/◌, ◌%◌, Bool, true, false, not, ◌&&◌, ◌||◌, Option, none, some, [], ◌∷◌, ◌++◌,
  Bytes, length, get_or, take, drop, in_range, ltb, leb, ◌==◌, if◌then◌else◌, ℤ, pos, negsuc,
  pos_part, neg_ℕ, ◌+ℤ◌, ◌-ℤ◌, scale, div_euclid, leb_ℤ, ltb_ℤ,
}

abbrev pub is_digit : ℕ → Bool
is_digit b = in_range b'0' b'9' b

unfoldable pub digits_value : ℕ → Bytes → Option ℕ
digits_value n [] = some n
digits_value n (b ∷ more) =
    let rest = digits_value (n * 10 + (b - b'0')) more in if is_digit b then rest else none

abbrev is_empty : Bytes → Bool
is_empty [] = true
is_empty (b ∷ more) = false

abbrev unsigned : Bytes → Option ℕ
unsigned text = if is_empty text then none else digits_value 0 text

-- `text.parse::<i64>()` on a short text: a sign of either kind is accepted.
unfoldable pub parse_i64 : Bytes → Option ℤ
unfolding digits_value
parse_i64 [] = none
parse_i64 (b ∷ text) =
    if b == b'-'
    then (do n ← unsigned text; some (neg_ℕ n))
    else if b == b'+'
    then (do n ← unsigned text; some (pos n))
    else (do n ← unsigned (b ∷ text); some (pos n))

-- `instant.get(from..to)?.parse::<i64>().ok()`; a slice that cuts a character holds a byte that is
-- no digit, and fails either way.
unfoldable pub number : Bytes → ℕ → ℕ → Option ℤ
unfolding parse_i64
number instant from to =
    if ltb (length instant) to then none else parse_i64 (take (to - from) (drop from instant))

abbrev pub byte_at : Bytes → ℕ → ℕ → Bool
byte_at instant i b = get_or instant i 0 == b

-- `doe`, the day of the era of a day of a year.
unfoldable pub day_of_era : ℕ → ℕ → ℕ
day_of_era yoe doy = yoe * 365 + yoe / 4 - yoe / 100 + doy

-- Days from 1970-01-01 to a date of the proleptic Gregorian calendar; the month is within 1..=12
-- and the day within 1..=31.
unfoldable pub days_from_civil : ℤ → ℕ → ℕ → ℤ
days_from_civil year month day =
    let year' = if leb month 2 then year -ℤ pos 1 else year in
    let era = div_euclid year' 400 in
    let yoe = pos_part (year' -ℤ scale 400 era) in
    let mp = if ltb 2 month then month - 3 else month + 9 in
    let doy = (153 * mp + 2) / 5 + day - 1 in
    scale 146097 era +ℤ pos (day_of_era yoe doy) -ℤ pos 719468

abbrev pub in_range_ℤ : ℕ → ℕ → ℤ → Bool
in_range_ℤ lo hi z = leb_ℤ (pos lo) z && leb_ℤ z (pos hi)

-- The part that both readers share: the six numbers, and their tests. Only an hour, a minute or a
-- second that is too large is refused; `last_second` is the greatest second.
unfoldable pub fields_seconds : ℕ → Bytes → Option ℤ
unfolding number days_from_civil
fields_seconds last_second instant = do
  year ← number instant 0 4
  month ← number instant 5 7
  day ← number instant 8 10
  hour ← number instant 11 13
  minute ← number instant 14 16
  second ← number instant 17 19
  if not (in_range_ℤ 1 12 month) || not (in_range_ℤ 1 31 day)
      then none
      else if ltb_ℤ (pos 23) hour || (ltb_ℤ (pos 59) minute || ltb_ℤ (pos last_second) second)
      then none
      else some (
          scale 86400 (days_from_civil year (pos_part month) (pos_part day))
          +ℤ scale 3600 hour
          +ℤ scale 60 minute
          +ℤ second)

abbrev pub separators : Bytes → Bool
separators instant =
    byte_at instant 4 b'-'
    && (byte_at instant 7 b'-'
        && (byte_at instant 10 b'T' && (byte_at instant 13 b':' && byte_at instant 16 b':')))

abbrev last_byte : Bytes → ℕ
last_byte instant = get_or instant (length instant - 1) 0

-- A leap second is read.
unfoldable pub epoch_seconds : Bytes → Option ℤ
unfolding fields_seconds
epoch_seconds instant =
    if ltb (length instant) 20 || not (separators instant)
    then none
    else if not (last_byte instant == b'Z')
    then none
    else fields_seconds 60 instant

-- `u64::try_from(seconds).ok()`
abbrev pub to_u64 : ℤ → Option ℕ
to_u64 (pos n) = some n
to_u64 (negsuc n) = none

unfoldable pub unix_of : Bytes → Option ℕ
unfolding fields_seconds
unix_of instant =
    if not (length instant == 20) || not (byte_at instant 19 b'Z')
    then none
    else if not (separators instant)
    then none
    else (do seconds ← fields_seconds 59 instant; to_u64 seconds)

-- `{:02}` and `{:04}` on numbers of that many digits at most.
unfoldable pub two_digits : ℕ → Bytes
two_digits n = (b'0' + n / 10) ∷ (b'0' + n % 10) ∷ []

unfoldable pub four_digits : ℕ → Bytes
four_digits n =
    (b'0' + n / 1000) ∷ (b'0' + n / 100 % 10) ∷ (b'0' + n / 10 % 10) ∷ (b'0' + n % 10) ∷ []

pub record Civil : Type 0 where
  pub year : ℕ
  pub month : ℕ
  pub day : ℕ

-- `yoe`, the year of a day of the era.
unfoldable pub year_of_era : ℕ → ℕ
year_of_era doe = (doe - doe / 1460 + doe / 36524 - doe / 146096) / 365

-- `doy`, the day of a day of the era in its year, from the first of March.
unfoldable pub day_of_year : ℕ → ℕ → ℕ
day_of_year doe yoe = doe - (365 * yoe + yoe / 4 - yoe / 100)

-- `mp`, the month of a day of the year, from March.
unfoldable pub march_month : ℕ → ℕ
march_month doy = (5 * doy + 2) / 153

unfoldable pub month_day : ℕ → ℕ → ℕ
month_day doy mp = doy - (153 * mp + 2) / 5 + 1

abbrev pub month_of : ℕ → ℕ
month_of mp = if ltb mp 10 then mp + 3 else mp - 9

-- The date of a day after 1970-01-01.
unfoldable pub civil_from_days : ℕ → Civil
civil_from_days days =
    let z = days + 719468 in
    let era = z / 146097 in
    let doe = z % 146097 in
    let yoe = year_of_era doe in
    let doy = day_of_year doe yoe in
    let mp = march_month doy in
    let day = month_day doy mp in
    let month = month_of mp in
    let year = yoe + era * 400 + (if leb month 2 then 1 else 0) in
    record { year = year; month = month; day = day }

-- For the years of four digits.
unfoldable pub format_unix : ℕ → Bytes
unfolding two_digits four_digits
format_unix seconds =
    let date = civil_from_days (seconds / 86400) in
    let rem = seconds % 86400 in
    four_digits date.year
    ++ (b'-'
        ∷ (two_digits date.month
            ++ (b'-'
                ∷ (two_digits date.day
                    ++ (b'T'
                        ∷ (two_digits (rem / 3600)
                            ++ (b':'
                                ∷ (two_digits (rem % 3600 / 60)
                                    ++ (b':' ∷ (two_digits (rem % 60) ++ b'Z' ∷ []))))))))))
