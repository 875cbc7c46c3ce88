-- ===== src/Base/Clock.antt =====
-- `new Date(ms).toISOString()`, for the years 0 to 9999.
use Prim.Native.Nat.{ℕ, zero, suc, ◌+◌, ◌-◌, ◌*◌, ◌/◌, ◌%◌}
use Prim.Native.String.{String, ◌++◌}
use nagarik_signals.Base.Tests.{ltb, leb, if◌then◌else◌}
use nagarik_signals.Base.Hex.{hex_digit}

-- So many decimal digits, the last ones of the number.
unfoldable pub padded : (places n : ℕ) → String → String
padded zero n rest = rest
padded (suc places) n rest = padded places (n / 10) (String.◌∷◌ (hex_digit (n % 10)) rest)

-- The date of a day, counted from 1970-01-01, in the Gregorian calendar: years that begin in March,
-- in eras of 400 years.
unfoldable pub date_of : ℕ → String
unfolding padded
date_of days =
    let z = days + 719_468 in
    let era_day = z % 146_097 in
    let year = (era_day - era_day / 1_460 + era_day / 36_524 - era_day / 146_096) / 365 in
    let year_day = era_day - (365 * year + year / 4 - year / 100) in
    let march_month = (5 * year_day + 2) / 153 in
    let day = year_day - (153 * march_month + 2) / 5 + 1 in
    let month = (if ltb march_month 10 then march_month + 3 else march_month - 9) in
    let civil_year = year + z / 146_097 * 400 + (if leb month 2 then 1 else 0) in
    padded 4 civil_year "-" ++ padded 2 month "-" ++ padded 2 day ""

unfoldable pub iso_string : ℕ → String
unfolding date_of padded
iso_string ms =
    date_of (ms / 86_400_000)
    ++ "T"
    ++ padded 2 (ms / 3_600_000 % 24) ":"
    ++ padded 2 (ms / 60_000 % 60) ":"
    ++ padded 2 (ms / 1_000 % 60) "."
    ++ padded 3 (ms % 1_000) "Z"
