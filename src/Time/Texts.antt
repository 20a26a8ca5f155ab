-- ===== src/Time/Texts.antt =====
-- backend/src/time/format/mod.rs: instants as texts. A text is the list of its bytes. A field that
-- crosses a character of several bytes has none of the code's fields, and no digits either.
pub mod Digits
pub mod Reading
use shimpz_admin.Prelude.{
  ℕ, zero, suc, ◌+◌, ◌-◌, ◌*◌, ◌/◌, ◌%◌, Bool, true, false, not, ◌&&◌, ◌||◌, List, [], ◌∷◌, ◌++◌,
  Option, none, some, Text, length, get_elem?, all, ltb, leb, ◌==◌, if◌then◌else◌,
}
use shimpz_admin.Prelude.Int.{ℤ, pos, negsuc, ◌+ℤ◌, scale}
use shimpz_admin.Time.Instants.{days_from_civil, civil_from_days}

-- The decimal text of a number of at most twenty digits, put before the digits already written.
unfoldable pub write_digits : ℕ → ℕ → Text → Text
write_digits zero n written = written
write_digits (suc fuel) n written = elim (ltb n 10) [
  | true ↦ (48 + n) ∷ written
  | false ↦ write_digits fuel (n / 10) ((48 + n % 10) ∷ written)
]

abbrev pub decimal : ℕ → Text
decimal n = write_digits 20 n []

abbrev pub zeros : ℕ → Text
zeros zero = []
zeros (suc n) = 48 ∷ zeros n

unfoldable pub pad : ℕ → Text → Text
pad width text = zeros (width - length text) ++ text

-- `{:0width}`.
abbrev pub padded : ℕ → ℤ → Text
padded width (pos n) = pad width (decimal n)
padded width (negsuc n) = 45 ∷ pad (width - 1) (decimal (suc n))

abbrev pub day_seconds : ℕ
day_seconds = 86400

-- `div_euclid` and `rem_euclid` by the seconds of a day.
abbrev pub day_of : ℤ → ℤ
day_of (pos n) = pos (n / day_seconds)
day_of (negsuc n) = negsuc (n / day_seconds)

abbrev pub second_of : ℤ → ℕ
second_of (pos n) = n % day_seconds
second_of (negsuc n) = day_seconds - 1 - n % day_seconds

abbrev pub written : ℤ × ℤ × ℤ → ℕ → Text
written (year, month, day) rest =
    padded 4 year
    ++ 45 ∷ padded 2 month
    ++ 45 ∷ padded 2 day
    ++ 84 ∷ padded 2 (pos (rest / 3600))
    ++ 58 ∷ padded 2 (pos (rest % 3600 / 60))
    ++ 58 ∷ padded 2 (pos (rest % 60))
    ++ 90 ∷ []

unfoldable pub utc : ℤ → Text
utc seconds = written (civil_from_days (day_of seconds)) (second_of seconds)

abbrev pub is_digit : ℕ → Bool
is_digit c = leb 48 c && leb c 57

abbrev pub read_digits : Text → ℕ → ℕ
read_digits [] total = total
read_digits (c ∷ cs) total = read_digits cs (total * 10 + (c - 48))

-- `number`, of the two or four bytes of a field.
unfoldable pub number : Text → Option ℕ
number [] = none
number (c ∷ cs) = if all is_digit (c ∷ cs) then some (read_digits (c ∷ cs) 0) else none

abbrev pub or_zero : Option ℕ → ℕ
or_zero none = 0
or_zero (some c) = c

abbrev pub byte : Text → ℕ → ℕ
byte text index = or_zero (get_elem? text index)

-- `text.get(start..end)` of a text of twenty bytes, by its number of bytes.
abbrev pub slice : Text → ℕ → ℕ → Text
slice text start zero = []
slice text start (suc count) = byte text start ∷ slice text (start + 1) count

abbrev pub is_leap : ℕ → Bool
is_leap year = year % 4 == 0 && not (year % 100 == 0) || year % 400 == 0

abbrev pub month_days : ℕ → ℕ → Option ℕ
month_days year month =
    if month == 1
      || month == 3
      || month == 5
      || month == 7
      || month == 8
      || month == 10
      || month == 12
    then some 31
    else if month == 4 || month == 6 || month == 9 || month == 11
    then some 30
    else if month == 2
    then some (if is_leap year then 29 else 28)
    else none

abbrev pub seconds_of : ℕ → ℕ → ℕ → ℕ → ℕ → ℕ → ℤ
seconds_of year month day hour minute second =
    scale day_seconds (days_from_civil (pos year) (pos month) (pos day))
    +ℤ pos (hour * 3600)
    +ℤ pos (minute * 60)
    +ℤ pos second

abbrev pub checked : ℕ → ℕ → ℕ → ℕ → ℕ → ℕ → Option ℕ → Option ℤ
checked year month day hour minute second none = none
checked year month day hour minute second (some days) =
    if leb 1 day && leb day days && leb hour 23 && leb minute 59 && leb second 61
    then some (seconds_of year month day hour minute second)
    else none

abbrev pub fields : Option ℕ → Option ℕ → Option ℕ → Option ℕ → Option ℕ → Option ℕ → Option ℤ
fields (some year) (some month) (some day) (some hour) (some minute) (some second) =
    checked year month day hour minute second (month_days year month)
fields _ _ _ _ _ _ = none

unfoldable pub parse_utc : Text → Option ℤ
parse_utc text =
    if length text == 20
      && byte text 4 == 45
      && byte text 7 == 45
      && byte text 10 == 84
      && byte text 13 == 58
      && byte text 16 == 58
      && byte text 19 == 90
    then fields (number (slice text 0 4)) (number (slice text 5 2)) (number (slice text 8 2))
        (number (slice text 11 2)) (number (slice text 14 2)) (number (slice text 17 2))
    else none
