-- ===== src/Time/Isoformat.antt =====
-- protocol/team/http/src/python/datetime.rs: `datetime.fromisoformat`. A text is the list of its bytes, and
-- every byte past its end reads as NUL. The fields of a text are not negative; only an offset is.
pub mod Checked
pub mod Dates
pub mod Written
use shimpz_admin.Prelude.{
  ℕ, zero, suc, ◌+◌, ◌-◌, ◌*◌, ◌/◌, ◌%◌, min, Bool, true, false, not, ◌&&◌, ◌||◌, List, [], ◌∷◌,
  Option, none, some, Text, length, get_elem?, keep, ltb, leb, ◌==◌, if◌then◌else◌,
}
use shimpz_admin.Prelude.Int.{ℤ, pos, sub_ℕ}
use shimpz_admin.Time.Calendar.{iso_to_ymd}

abbrev pub or_nul : Option ℕ → ℕ
or_nul none = 0
or_nul (some c) = c

-- `Buffer::at`.
abbrev pub at : Text → ℕ → ℕ
at text index = or_nul (get_elem? text index)

abbrev pub is_digit : ℕ → Bool
is_digit c = leb 48 c && leb c 57

-- `Buffer::digits`: the value; the position grows by `count`.
unfoldable pub digits : Text → ℕ → ℕ → ℕ → Option ℕ
digits text index zero value = some value
digits text index (suc count) value =
    let rest = digits text (index + 1) count (value * 10 + (at text index - 48)) in
    if is_digit (at text index) then rest else none

-- Where the digits that start at a position end; no more of them than bytes are left.
unfoldable pub skip_digits : ℕ → Text → ℕ → ℕ
skip_digits zero text index = index
skip_digits (suc fuel) text index =
    let rest = skip_digits fuel text (index + 1) in if is_digit (at text index) then rest else index

abbrev pub week_separator : ℕ → Option ℕ
week_separator index = if ltb index 9 then some index else if index % 2 == 0 then some 7 else some 8

unfoldable pub separator : Text → ℕ → Option ℕ
separator text len =
    if len == 7
    then some 7
    else if at text 4 == 45
    then (if at text 5 == 87
        then (if at text 8 == 45
            then (if len == 9 then none else some (if is_digit (at text 10) then 8 else 10))
            else some 8)
        else some 10)
    else if at text 4 == 87
    then week_separator (skip_digits len text 7)
    else some 8

-- `usize::from`.
abbrev pub one_if : Bool → ℕ
one_if true = 1
one_if false = 0

abbrev pub week_day : ℕ → Option ℕ → Option ℕ → Option (ℕ × ℕ × ℕ)
week_day year (some week) (some day) = iso_to_ymd year week day
week_day year _ _ = none

abbrev pub month_day : ℕ → Option ℕ → Option ℕ → Option (ℕ × ℕ × ℕ)
month_day year (some month) (some day) = some (year, month, day)
month_day year _ _ = none

abbrev pub date_after_year : Text → ℕ → Option ℕ → Option (ℕ × ℕ × ℕ)
date_after_year text len none = none
date_after_year text len (some year) =
    let separated = at text 4 == 45 in
    let position = 4 + one_if separated in
    if at text position == 87
    then week_day year (digits text (position + 1) 2 0) (
        if ltb (position + 3) len
        then digits text (position + 3 + one_if separated) 1 0
        else some 1)
    else if separated && not (at text (position + 2) == 45)
    then none
    else month_day year (digits text position 2 0)
        (digits text (position + 2 + one_if separated) 2 0)

unfoldable pub parse_date : Text → ℕ → Option (ℕ × ℕ × ℕ)
parse_date text len = date_after_year text len (digits text 0 4 0)

-- `Clock`: hour, minute, second and microsecond, and whether text remains.
pub record Clock : Type 0 where
  pub hour : ℕ
  pub minute : ℕ
  pub second : ℕ
  pub microsecond : ℕ
  pub trailing : Bool

-- The multiplier of a fraction of that many digits.
abbrev pub fraction_scale : ℕ → ℕ
fraction_scale zero = 1
fraction_scale (suc zero) = 100000
fraction_scale (suc (suc zero)) = 10000
fraction_scale (suc (suc (suc zero))) = 1000
fraction_scale (suc (suc (suc (suc zero)))) = 100
fraction_scale (suc (suc (suc (suc (suc zero))))) = 10
fraction_scale _ = 1

abbrev pub with_fraction : Text → ℕ → ℕ → Clock → Option ℕ → Option Clock
with_fraction text position count c none = none
with_fraction text position count c (some fraction) = some (record c {
  microsecond = fraction * fraction_scale count;
  trailing = not (at text (skip_digits (length text) text (position + count)) == 0);
})

-- The part of `parse_hh_mm_ss_ff` after its loop.
abbrev pub fraction : Text → ℕ → ℕ → Clock → Option Clock
fraction text position end c =
    let count = min (end - position) 6 in
    with_fraction text position count c (digits text position count 0)

abbrev pub set_field : ℕ → ℕ → Clock → Clock
set_field zero value c = record c { hour = value }
set_field (suc zero) value c = record c { minute = value }
set_field _ value c = record c { second = value }

-- One round of its loop, with the rounds that follow it.
abbrev pub after_field :
    Text → ℕ → ℕ → ℕ → Bool → (Bool → ℕ → Clock → Option Clock) → Clock → Option Clock
after_field text index position end separated next c =
    let character = at text position in
    if leb end (position + 1)
    then some (record c { trailing = not (character == 0) })
    else if separated && character == 58
    then (if index == 2 then none else next separated (position + 1) c)
    else if character == 46 || character == 44
    then (if ltb index 2 then none else fraction text (position + 1) end c)
    else if separated
    then none
    else next separated position c

abbrev pub read_field :
    Text → ℕ → ℕ → ℕ → Bool → (Bool → ℕ → Clock → Option Clock) → Clock → Option ℕ → Option Clock
read_field text index position end separated next c none = none
read_field text index position end separated next c (some value) =
    after_field text index (position + 2) end
      (if index == 0 then at text (position + 2) == 58 else separated) next
      (set_field index value c)

-- Its loop, with the rounds left.
unfoldable pub clock_loop : ℕ → Text → ℕ → ℕ → Bool → ℕ → Clock → Option Clock
clock_loop zero text index end separated position c = fraction text position end c
clock_loop (suc left) text index end separated position c =
    read_field text index position end separated (clock_loop left text (index + 1) end) c
      (digits text position 2 0)

abbrev pub midnight : Clock
midnight = record { hour = 0; minute = 0; second = 0; microsecond = 0; trailing = false }

abbrev pub parse_clock : Text → ℕ → ℕ → Option Clock
parse_clock text start end = clock_loop 3 text 0 end true start midnight

abbrev pub is_zone : ℕ → Bool
is_zone c = c == 90 || c == 43 || c == 45

-- The first of a number of positions that starts an offset, or the position after them.
unfoldable pub find_zone : ℕ → Text → ℕ → ℕ
find_zone zero text index = index
find_zone (suc left) text index =
    let rest = find_zone left text (index + 1) in if is_zone (at text index) then index else rest

-- The clock, and an offset's seconds and microseconds.
abbrev pub Time : Type 0
Time = Clock × Option (ℤ × ℤ)

abbrev pub signed : Bool → ℕ → ℤ
signed true n = sub_ℕ 0 n
signed false n = pos n

abbrev pub with_offset : Clock → Bool → Option Clock → Option Time
with_offset clock negative none = none
with_offset clock negative (some o) =
    if o.trailing
    then none
    else some (
      clock,
      some (
        signed negative (o.hour * 3600 + o.minute * 60 + o.second),
        signed negative o.microsecond,
      ),
    )

abbrev pub with_zone : Text → ℕ → ℕ → Option Clock → Option Time
with_zone text zone end none = none
with_zone text zone end (some clock) =
    if zone == end
    then (if clock.trailing then none else some (clock, none))
    else if at text zone == 90
    then (if at text (zone + 1) == 0 then some (clock, some (pos 0, pos 0)) else none)
    else with_offset clock (at text zone == 45) (parse_clock text (zone + 1) end)

unfoldable pub parse_time : Text → ℕ → ℕ → Option Time
parse_time text start end =
    let zone = find_zone (end - start) text start in
    with_zone text zone end (parse_clock text start zone)

-- The bytes that start a character.
abbrev pub starts_character : ℕ → Bool
starts_character c = ltb c 128 || leb 192 c

-- The bytes of the character that starts with a byte.
abbrev pub width : ℕ → ℕ
width byte =
    if ltb byte 128
    then 1
    else if leb 224 byte && ltb byte 240
    then 3
    else if leb 240 byte
    then 4
    else 2

abbrev pub date_and_time : ℕ × ℕ × ℕ → Option Time → Option ((ℕ × ℕ × ℕ) × Time)
date_and_time date none = none
date_and_time date (some time) = some (date, time)

abbrev pub after_date : Text → ℕ → Option (ℕ × ℕ × ℕ) → Option ((ℕ × ℕ × ℕ) × Time)
after_date text split none = none
after_date text split (some date) =
    if leb (length text) split
    then some (date, (midnight, none))
    else date_and_time date (parse_time text (split + width (at text split)) (length text))

abbrev pub after_split : Text → Option ℕ → Option ((ℕ × ℕ × ℕ) × Time)
after_split text none = none
after_split text (some split) = after_date text split (parse_date text split)

unfoldable pub parse : Text → Option ((ℕ × ℕ × ℕ) × Time)
parse text =
    if ltb (length (keep starts_character text)) 7
    then none
    else after_split text (separator text (length text))
