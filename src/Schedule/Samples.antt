-- ===== src/Schedule/Samples.antt =====
-- Tests of the cron expressions, and their theorems at concrete ones.
use cubepilot.Prelude.{
  ◌^◌, ◌-◌, ◌+◌, ◌*◌, ◌/◌, ◌%◌, ◌≡◌, refl, [], ◌∷◌, utf8, text_eq, has_prefix, trim_space,
}
use cubepilot.Prelude.Int.{atoi}
use cubepilot.Schedule.{
  parse_field, parse_parts, parse_part, put_steps, split_commas, Cron, Calendar, ok, err, bad_value,
  field_count, parse, matches, next_after, minute, scan, has,
}
use cubepilot.Schedule.Next.{IsNext, next_after-IsNext}

-- UTC, on a day that never ends its month.
abbrev pub clock : Calendar
clock = record {
  minute_of = λ t. t / minute % 60;
  hour_of = λ t. t / (60 * minute) % 24;
  day_of = λ t. 1;
  month_of = λ t. 1;
  weekday_of = λ t. (t / (24 * 60 * minute) + 1) % 7;
}

abbrev pub quarter : Cron
quarter = record {
  min = 45 ∷ 30 ∷ 15 ∷ 0 ∷ [];
  hour = 8 ∷ [];
  dom = 1 ∷ [];
  mon = 1 ∷ [];
  dow = 0 ∷ [];
}

pub quarter_parsed : parse (utf8 " */15 8\t1 1 7 ") ≡ ok quarter
unfolding parse text_eq has_prefix atoi trim_space
quarter_parsed = refl

parse_range : parse (utf8 "60 * * * *") ≡ err bad_value
unfolding parse text_eq has_prefix atoi trim_space
parse_range = refl

parse_count : parse (utf8 "* * * *") ≡ err field_count
unfolding parse text_eq has_prefix atoi trim_space
parse_count = refl

-- A step of 2 ^ 63 - 1 wraps from day 1: the days are 1, -2 ^ 63 and -1.
parse_wrap : parse_field (utf8 "*/9223372036854775807") 1 31 ≡ ok ((2 ^ 64 - 1) ∷ (2 ^ 63) ∷ 1 ∷ [])
unfolding parse_field parse_parts parse_part put_steps split_commas text_eq has_prefix atoi
    trim_space
parse_wrap = refl

next_quarter :
    next_after clock quarter (8 * 60 * minute + 20 * minute + 7) ≡ 8 * 60 * minute + 30 * minute
unfolding next_after scan matches has
next_quarter = refl

next_after-IsNext_example : IsNext clock quarter 7 (next_after clock quarter 7)
next_after-IsNext_example = next_after-IsNext clock quarter 7
