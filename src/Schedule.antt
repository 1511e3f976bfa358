-- ===== src/Schedule.antt =====
-- internal/schedule/cron.go: the five-field cron expressions of scheduled tasks.
-- An instant is a number of nanoseconds since Go's zero time, so 0 is the zero time; the fields of
-- an instant in a zone are a `Calendar`.
pub mod Next
pub mod Samples
use cubepilot.Prelude.{
  ℕ, ◌%◌, ◌^◌, zero, suc, ◌+◌, ◌-◌, ◌*◌, ◌%◌, ◌≤◌, ◌<◌, ◌≡◌, Bool, true, false, not, ◌&&◌, ◌||◌,
  List, [], ◌∷◌, ◌++◌, Option, none, some, Text, utf8, text_eq, is_empty, has_prefix, trim_space,
  leading, space_chars, length, drop, leb, ltb, if◌then◌else◌, ◌==◌,
}
use cubepilot.Prelude.Int.{ℤ, pos, negsuc, atoi}

-- A map[int]bool in which only true is stored: the keys, each once.
abbrev pub FieldSet : Type 0
FieldSet = List ℕ

unfoldable pub has : FieldSet → ℕ → Bool
has [] n = false
has (x ∷ s) n = x == n || has s n

-- set[n] = true
unfoldable pub put : ℕ → FieldSet → FieldSet
unfolding has
put n s = if has s n then s else n ∷ s

-- delete(set, n)
unfoldable pub remove : ℕ → FieldSet → FieldSet
remove n [] = []
remove n (x ∷ s) = let rest = remove n s in if x == n then rest else x ∷ rest

pub data CronError : Type 0 where
  bad_step bad_value empty_field field_count : CronError

pub data Result {ℓ} (A : Type ℓ) : Type ℓ where
  ok : A → Result A
  err : CronError → Result A

infixl 5 ◌>>=◌
abbrev pub ◌>>=◌ {ℓ κ} : {A : Type ℓ} {B : Type κ} → Result A → (A → Result B) → Result B
ok a >>= f = f a
err e >>= f = err e

-- for i := min; i <= max; i += n { set[i] = true }, with fuel. A number is an int of 64 bits in two's
-- complement: from 2 ^ 63 on it is negative, and the sum wraps.
unfoldable pub put_steps : ℕ → ℕ → ℕ → ℕ → FieldSet → FieldSet
unfolding put
put_steps zero i max n s = s
put_steps (suc f) i max n s =
    let rest = put_steps f ((i + n) % 2 ^ 64) max n (put i s) in
    if leb i max || leb (2 ^ 63) i then rest else s

-- One round of parseField's loop. The steps number at most max - min + 1.
unfoldable pub parse_part : Text → ℕ → ℕ → FieldSet → Result FieldSet
unfolding put_steps
parse_part part min max s =
    if text_eq part (utf8 "*")
    then ok (put_steps (max + 1 - min) min max 1 s)
    else if has_prefix part (utf8 "*/")
    then elim (atoi (drop 2 part)) [
      | none ↦ err bad_step
      | some (negsuc _) ↦ err bad_step
      | some (pos zero) ↦ err bad_step
      | some (pos (suc n)) ↦ ok (put_steps (max + 1 - min) min max (suc n) s)
    ]
    else elim (atoi part) [
      | none ↦ err bad_value
      | some (negsuc _) ↦ err bad_value
      | some (pos n) ↦ if ltb n min || ltb max n then err bad_value else ok (put n s)
    ]

unfoldable pub parse_parts : List Text → ℕ → ℕ → FieldSet → Result FieldSet
unfolding parse_part
parse_parts [] min max s = ok s
parse_parts (p ∷ ps) min max s = parse_part (trim_space p) min max s >>= parse_parts ps min max

-- strings.Split(s, ",")
unfoldable pub split_commas : Text → Text → List Text
split_commas cur [] = cur ∷ []
split_commas cur (c ∷ s) =
    let cut = cur ∷ split_commas [] s in
    let on = split_commas (cur ++ c ∷ []) s in if c == b',' then cut else on

-- parseField
unfoldable pub parse_field : Text → ℕ → ℕ → Result FieldSet
unfolding parse_parts split_commas
parse_field spec min max = do
  set ← parse_parts (split_commas [] spec) min max []
  if length set == 0 then err empty_field else ok set

-- strings.Fields: `cur` is the field being read. Each round drops a byte at least.
unfoldable pub fields_loop : ℕ → Text → Text → List Text
unfolding leading space_chars
fields_loop zero cur s = if is_empty cur then [] else cur ∷ []
fields_loop (suc f) cur [] = if is_empty cur then [] else cur ∷ []
fields_loop (suc f) cur (c ∷ s) =
    let n = leading space_chars (c ∷ s) in
    let on = fields_loop f (cur ++ c ∷ []) s in
    let cut = fields_loop f [] (drop n (c ∷ s)) in
    if n == 0 then on else if is_empty cur then cut else cur ∷ cut

unfoldable pub fields : Text → List Text
unfolding fields_loop
fields s = fields_loop (length s) [] s

-- Cron
pub record Cron : Type 0 where
  pub min : FieldSet
  pub hour : FieldSet
  pub dom : FieldSet
  pub mon : FieldSet
  pub dow : FieldSet

-- Both 0 and 7 are Sunday.
unfoldable pub fold_sunday : FieldSet → FieldSet
unfolding has put remove
fold_sunday s = if has s 7 then remove 7 (put 0 s) else s

unfoldable pub parse_five : Text → Text → Text → Text → Text → Result Cron
unfolding parse_field fold_sunday
parse_five a b c d e = do
  min ← parse_field a 0 59
  hour ← parse_field b 0 23
  dom ← parse_field c 1 31
  mon ← parse_field d 1 12
  dow ← parse_field e 0 7
  ok (record { min = min; hour = hour; dom = dom; mon = mon; dow = fold_sunday dow })

abbrev of_fields : List Text → Result Cron
of_fields (a ∷ b ∷ c ∷ d ∷ e ∷ []) = parse_five a b c d e
of_fields _ = err field_count

-- Parse
unfoldable pub parse : Text → Result Cron
unfolding parse_five fields
parse expr = of_fields (fields expr)

-- What time.Time says of an instant in its zone.
pub record Calendar : Type 0 where
  pub minute_of : ℕ → ℕ
  pub hour_of : ℕ → ℕ
  pub day_of : ℕ → ℕ
  pub month_of : ℕ → ℕ
  pub weekday_of : ℕ → ℕ

-- matches
unfoldable pub matches : Calendar → Cron → ℕ → Bool
matches z c t =
    let dom_all = length c.dom == 31 in
    let dow_all = length c.dow == 7 in
    let dom_ok = has c.dom (z.day_of t) in
    let dow_ok = has c.dow (z.weekday_of t) in
    if not (has c.min (z.minute_of t))
      || not (has c.hour (z.hour_of t))
      || not (has c.mon (z.month_of t))
    then false
    else if dom_all && dow_all
    then true
    else if dom_all
    then dow_ok
    else if dow_all
    then dom_ok
    else dom_ok || dow_ok

-- time.Minute
abbrev pub minute : ℕ
minute = 60000000000

-- The loop of NextAfter, over the rounds left.
unfoldable pub scan : ℕ → Calendar → Cron → ℕ → ℕ
scan zero z c next = 0
scan (suc f) z c next =
    let rest = scan f z c (next + minute) in if matches z c next then next else rest

-- 366*24*60
abbrev pub rounds : ℕ
rounds = 366 * 24 * 60

-- NextAfter; 0 is time.Time{}.
unfoldable pub next_after : Calendar → Cron → ℕ → ℕ
next_after z c t = scan rounds z c (t - t % minute + minute)

-- NextRun
unfoldable pub next_run : Calendar → Text → ℕ → ℕ
next_run z expr now =
    if is_empty (trim_space expr)
    then 0
    else elim (parse expr) [ err _ ↦ 0 | ok c ↦ next_after z c now ]
