-- ===== src/Clock/RoundTrip.antt =====
-- An instant that was written from seconds reads back as the same seconds.
use cbr.Prelude.{
  ℕ, ◌+◌, ◌-◌, ◌*◌, ◌/◌, ◌%◌, ◌≤◌, ◌<◌, ◌≡◌, refl, ◌∙◌, ap, arith, some, ltb, leb, ◌==◌,
  if◌then◌else◌, [], ◌∷◌, ◌++◌, Bytes, pos, ◌+ℤ◌, ◌-ℤ◌, scale, div_euclid, pos_part, Bool-cases,
  inl, inr,
}
use cbr.Clock.Instants.{
  civil_from_days, days_from_civil, day_of_era, year_of_era, day_of_year, march_month, month_day,
  month_of, two_digits, four_digits, format_unix, unix_of, fields_seconds, number, parse_i64,
}

module _ (doe : ℕ) (h : doe < 146097) where
  year_of_era-lt : year_of_era doe < 400
  unfolding year_of_era
  year_of_era-lt = omega arith

  day_of_year-le : day_of_year doe (year_of_era doe) ≤ 365
  unfolding day_of_year year_of_era
  day_of_year-le = omega arith

  day_of_era-eq : day_of_era (year_of_era doe) (day_of_year doe (year_of_era doe)) ≡ doe
  unfolding day_of_year day_of_era year_of_era
  day_of_era-eq = omega arith

module _ (doy : ℕ) (h : doy ≤ 365) where
  march_month-le : march_month doy ≤ 11
  unfolding march_month
  march_month-le = omega arith

  month_day-bounds : (1 ≤ month_day doy (march_month doy)) × (month_day doy (march_month doy) ≤ 31)
  unfolding march_month month_day
  month_day-bounds = omega arith

  month_day-eq : (153 * march_month doy + 2) / 5 + month_day doy (march_month doy) - 1 ≡ doy
  unfolding march_month month_day
  month_day-eq = omega arith

-- The three steps back, at the values that the steps forth give.
module _ (era yoe mp : ℕ) (h : yoe < 400) (k : mp ≤ 11) where
  month-back : (if ltb 2 (month_of mp) then month_of mp - 3 else month_of mp + 9) ≡ mp
  month-back = ground arith

  year-back :
      (if leb (month_of mp) 2
        then pos (yoe + era * 400 + (if leb (month_of mp) 2 then 1 else 0)) -ℤ pos 1
        else pos (yoe + era * 400 + (if leb (month_of mp) 2 then 1 else 0)))
      ≡ pos (yoe + era * 400)
  unfolding ◌-ℤ◌
  year-back = ground arith

era-back : (era yoe : ℕ) → yoe < 400 → div_euclid (pos (yoe + era * 400)) 400 ≡ pos era
unfolding div_euclid
era-back era yoe h = ap pos (omega arith)

yoe-back : (era yoe : ℕ) → yoe < 400 → pos_part (pos (yoe + era * 400) -ℤ scale 400 (pos era)) ≡ yoe
unfolding ◌-ℤ◌ scale
yoe-back era yoe h = ground arith

days-back :
    (days era doe : ℕ)
    → days + 719468 ≡ era * 146097 + doe
    → scale 146097 (pos era) +ℤ pos doe -ℤ pos 719468 ≡ pos days
unfolding ◌-ℤ◌ ◌+ℤ◌ scale
days-back days era doe h = ground arith

-- The date of a day gives the day back.
days-civil :
    (days : ℕ)
    → let c = civil_from_days days in days_from_civil (pos c.year) c.month c.day ≡ pos days
unfolding civil_from_days days_from_civil
days-civil days =
    let z = days + 719468 in
    let doe = z % 146097 in
    let era = z / 146097 in
    let yoe = year_of_era doe in
    let doy = day_of_year doe yoe in
    let short : doe < 146097 = omega arith in
    let y = year_of_era-lt doe short in
    let m = march_month-le doy (day_of_year-le doe short) in
    rw
      (
        year-back era yoe (march_month doy) y m,
        era-back era yoe y,
        yoe-back era yoe y,
        month-back era yoe (march_month doy) y m,
        month_day-eq doy (day_of_year-le doe short),
        day_of_era-eq doe short,
      )
      (days-back days era doe (omega arith))

civil_bounds :
    (days : ℕ)
    → let c = civil_from_days days in (1 ≤ c.month) × (c.month ≤ 12) × (1 ≤ c.day) × (c.day ≤ 31)
unfolding civil_from_days
civil_bounds days =
    let doe = (days + 719468) % 146097 in
    let doy = day_of_year doe (year_of_era doe) in
    let short : doe < 146097 = omega arith in
    let m = march_month-le doy (day_of_year-le doe short) in
    let d = month_day-bounds doy (day_of_year-le doe short) in
    (ground arith, ground arith, d.0, d.1)

-- The last days of the era before the year 10000 are no January.
last_year : (doe yoe : ℕ) → doe ≤ 146036 → yoe ≡ 399 → march_month (day_of_year doe yoe) < 10
unfolding march_month day_of_year
last_year doe yoe h e = omega arith

-- Before the year 10000.
civil_year : (days : ℕ) → days < 2932897 → (civil_from_days days).year ≤ 9999
unfolding civil_from_days
civil_year days h =
    let z = days + 719468 in
    let doe = z % 146097 in
    let short : doe < 146097 = omega arith in
    let y = year_of_era-lt doe short in
    elim (Bool-cases (ltb (z / 146097) 24)) [
      | inl e ↦ ground (arith, y, e)
      | inr e ↦ elim (Bool-cases (year_of_era doe == 399)) [
        | inl f ↦
            let last : march_month (day_of_year doe (year_of_era doe)) < 10 =
              last_year doe (year_of_era doe) (ground arith) (ground arith) in
            ground (arith, last)
        | inr f ↦ ground (arith, y, f)
      ]
    ]

parse-two_digits : (n : ℕ) → n < 100 → parse_i64 (two_digits n) ≡ some (pos n)
unfolding parse_i64 two_digits
parse-two_digits n h = ground arith

parse-four_digits : (n : ℕ) → n ≤ 9999 → parse_i64 (four_digits n) ≡ some (pos n)
unfolding parse_i64 four_digits
parse-four_digits n h = ground arith

module _ (y mo d h mi s : ℕ) where
  -- The twenty bytes of an instant.
  abbrev bytes : Bytes
  bytes =
      four_digits y
      ++ (b'-'
          ∷ (two_digits mo
              ++ (b'-'
                  ∷ (two_digits d
                      ++ (b'T'
                          ∷ (two_digits h
                              ++ (b':'
                                  ∷ (two_digits mi ++ (b':' ∷ (two_digits s ++ b'Z' ∷ []))))))))))

  numbers :
      (number bytes 0 4 ≡ parse_i64 (four_digits y))
      × (number bytes 5 7 ≡ parse_i64 (two_digits mo))
      × (number bytes 8 10 ≡ parse_i64 (two_digits d))
      × (number bytes 11 13 ≡ parse_i64 (two_digits h))
      × (number bytes 14 16 ≡ parse_i64 (two_digits mi))
      × (number bytes 17 19 ≡ parse_i64 (two_digits s))
  unfolding number four_digits two_digits
  numbers = (refl, refl, refl, refl, refl, refl)

  fields_seconds-bytes :
      y ≤ 9999
      → 1 ≤ mo
      → mo ≤ 12
      → 1 ≤ d
      → d ≤ 31
      → h < 24
      → mi < 60
      → s < 60
      → fields_seconds 59 bytes
        ≡ some (
            scale 86400 (days_from_civil (pos y) mo d)
            +ℤ scale 3600 (pos h)
            +ℤ scale 60 (pos mi)
            +ℤ pos s)
  unfolding fields_seconds
  fields_seconds-bytes hy m₁ m₂ d₁ d₂ hh hmi hs =
      let n = numbers in
      rw (n.0, n.1, n.2, n.3, n.4, n.5)
        (rw
          (
            parse-four_digits y hy,
            parse-two_digits mo (omega arith),
            parse-two_digits d (omega arith),
            parse-two_digits h (omega arith),
            parse-two_digits mi (omega arith),
            parse-two_digits s (omega arith),
          )
          (ground arith))

  -- The tests on the shape of an instant.
  unix_of-bytes :
      (seconds : ℕ) → fields_seconds 59 bytes ≡ some (pos seconds) → unix_of bytes ≡ some seconds
  unfolding unix_of four_digits two_digits
  unix_of-bytes seconds e = rw e

seconds-back :
    (seconds : ℕ)
    → scale 86400 (pos (seconds / 86400))
        +ℤ scale 3600 (pos (seconds % 86400 / 3600))
        +ℤ scale 60 (pos (seconds % 86400 % 3600 / 60))
        +ℤ pos (seconds % 86400 % 60)
      ≡ pos seconds
unfolding ◌+ℤ◌ scale
seconds-back seconds = ground arith

-- Every instant before the year 10000, written from its seconds, reads back as those seconds.
pub unix_of-format_unix :
    (seconds : ℕ) → seconds < 253402300800 → unix_of (format_unix seconds) ≡ some seconds
unfolding format_unix
unix_of-format_unix seconds h =
    let days = seconds / 86400 in
    let c = civil_from_days days in
    let b = civil_bounds days in
    let hour : seconds % 86400 / 3600 < 24 = omega arith in
    let minute : seconds % 86400 % 3600 / 60 < 60 = omega arith in
    let second : seconds % 86400 % 60 < 60 = omega arith in
    unix_of-bytes c.year c.month c.day _ _ _ seconds (
      fields_seconds-bytes c.year c.month c.day _ _ _ (civil_year days (omega arith)) b.0 b.1 b.2
        b.3 hour minute second
      ∙ rw (days-civil days) (ap some (seconds-back seconds)))
