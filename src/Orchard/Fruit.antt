-- ===== src/Orchard/Fruit.antt =====
-- `green_condition`, `pick_condition` and their buckets, of orchard.py.
use shenyugateway.Common.{
  ℕ, ◌-◌, ◌%◌, Bool, true, false, ◌&&◌, ◌||◌, Option, none, some, List, [], ◌∷◌, ◌==◌, leb, ltb,
  if◌then◌else◌,
}
use shenyugateway.Text.{Text}
use shenyugateway.Json.{Json, Fields, get, Stdlib, str_or_empty}
use shenyugateway.Orchard.{
  Bucket, fresh, tended, steady, dusty, wilting, nibbled, swelling, overdue, underground, dormant,
  ripe, overripe, green_picked, half_good, smaller, hollow, quiet, bucket_key, conditions_green,
  conditions_picked, stale_dusty_days, stale_wilting_days, underground_days, swelling_window_days,
}
use shenyugateway.Orchard.Weather.{pick_line, weather_scar}

-- How far a due day is: so many days ahead, or `past n` for n + 1 days ago.
pub data DaysTo : Type 0 where
  ahead : ℕ → DaysTo
  past : ℕ → DaysTo

-- The quantities that a bucket is chosen from; the month has its own argument.
pub record History : Type 0 where
  pub hung_days : ℕ
  pub quiet_days : ℕ
  pub note_count : ℕ
  pub days_to_due : Option DaysTo

abbrev pub is_swelling : Option DaysTo → Bool
is_swelling (some (ahead n)) = leb n swelling_window_days
is_swelling _ = false

abbrev pub is_overdue : Option DaysTo → Bool
is_overdue (some (past n)) = true
is_overdue _ = false

abbrev pub has_no_date : Option DaysTo → Bool
has_no_date none = true
has_no_date (some d) = false

abbrev pub is_winter : ℕ → Bool
is_winter month = month == 12 || month == 1 || month == 2

unfoldable pub green_bucket : History → ℕ → Bucket
green_bucket h month =
    if is_swelling h.days_to_due
    then swelling
    else if is_overdue h.days_to_due
    then overdue
    else if leb h.hung_days 2
    then fresh
    else if leb 3 h.note_count && leb h.quiet_days 3
    then tended
    else if leb stale_wilting_days h.quiet_days
    then wilting
    else if leb stale_dusty_days h.quiet_days
    then (if h.hung_days % 3 == 0 then nibbled else dusty)
    else if has_no_date h.days_to_due && leb underground_days h.hung_days
    then underground
    else if is_winter month
    then dormant
    else steady

-- A fruit with a due day: `days_to_due > 5`, `days_to_due < -14` and `days_to_due <= 0` in turn.
unfoldable pub dated_bucket : DaysTo → ℕ → Bucket
dated_bucket (ahead n) quiet_days =
    if ltb swelling_window_days n
    then green_picked
    else if n == 0 && leb stale_wilting_days quiet_days
    then half_good
    else ripe
dated_bucket (past n) quiet_days =
    if leb 14 n then overripe else if leb stale_wilting_days quiet_days then half_good else ripe

unfoldable pub picked_bucket : History → Bucket
unfolding dated_bucket
picked_bucket h = elim h.days_to_due [
  | some days_to_due ↦ dated_bucket days_to_due h.quiet_days
  | none ↦
      if leb h.hung_days 2
      then quiet
      else if leb stale_wilting_days h.quiet_days
      then (if leb underground_days h.hung_days then hollow else smaller)
      else if leb 3 h.note_count
      then ripe
      else if leb 1 h.note_count
      then (if leb 7 h.hung_days then ripe else quiet)
      else if leb underground_days h.hung_days
      then smaller
      else quiet
]

-- `_days_between(day, due_day)`: days are counted from a fixed one.
unfoldable pub days_to : ℕ → ℕ → DaysTo
days_to day due_day = if leb day due_day then ahead (due_day - day) else past (day - due_day - 1)

-- What the code calls of the calendar: the local day that a stored date, or else a stored time,
-- stands for; a day as `isoformat` writes it; and its month.
pub record Calendar : Type 0 where
  pub parse_local_date : Json → Option ℕ
  pub local_day_of_ts : Json → Option ℕ
  pub isoformat : ℕ → Text
  pub month : ℕ → ℕ

module _ (calendar : Calendar) where
  -- `_fruit_day`
  unfoldable pub fruit_day : Json → Option ℕ
  fruit_day value = elim (calendar.parse_local_date value) [
    | some day ↦ some day
    | none ↦ calendar.local_day_of_ts value
  ]

  -- `_fruit_day(value) or otherwise`
  unfoldable pub day_or : Json → ℕ → ℕ
  unfolding fruit_day
  day_or value otherwise = elim (fruit_day value) [ none ↦ otherwise | some day ↦ day ]

  unfoldable pub history_of : Fields → ℕ → Json → ℕ → History
  unfolding day_or days_to
  history_of fruit note_count last_note_at day =
      let planted_day = day_or (get "planted_at" fruit) day in
      let touched_day = day_or last_note_at planted_day in
      record {
        hung_days = day - planted_day;
        quiet_days = day - touched_day;
        note_count = note_count;
        days_to_due = elim (fruit_day (get "due_on" fruit)) [
          | none ↦ none
          | some due_day ↦ some (days_to day due_day)
        ];
      }

  module _ (std : Stdlib) (first_byte : Text → ℕ) where
    unfoldable pub green_condition : Fields → ℕ → Json → ℕ → Bucket × Text
    unfolding history_of green_bucket
    green_condition fruit note_count last_note_at day =
        let bucket =
          green_bucket (history_of fruit note_count last_note_at day) (calendar.month day) in
        let seed = str_or_empty std (get "id" fruit) ∷ calendar.isoformat day ∷ [] in
        (bucket, pick_line first_byte (bucket_key bucket) (conditions_green bucket) seed)

    unfoldable pub pick_condition : Fields → ℕ → Json → ℕ → List Fields → Bucket × Text
    unfolding history_of picked_bucket
    pick_condition fruit note_count last_note_at day weather_events =
        elim (weather_scar std first_byte fruit weather_events) [
          | some scar ↦ (scar.bucket, scar.text)
          | none ↦
              let bucket = picked_bucket (history_of fruit note_count last_note_at day) in
              (
                bucket,
                pick_line first_byte (bucket_key bucket) (conditions_picked bucket)
                    (str_or_empty std (get "id" fruit) ∷ []),
              )
        ]
