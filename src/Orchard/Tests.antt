-- ===== src/Orchard/Tests.antt =====
-- Runs of the orchard at concrete fruits.
use shenyugateway.Common.{
  ℕ, ◌%◌, ◌<◌, ◌≤◌, false, none, some, [], ◌∷◌, ◌++◌, ◌≡◌, ◌⊎◌, ◌↔◌, refl, arith, leb, ltb, ◌==◌,
  if◌then◌else◌,
}
use shenyugateway.Text.{Text, codes, is_space, lstrip, rstrip, strip}
use shenyugateway.Json.{str, null, Fields, field, end, get, Stdlib, str_or_empty}
use shenyugateway.Orchard.{
  fresh, steady, dusty, wilting, nibbled, underground, dormant, hollow, half_good, conditions_green,
}
use shenyugateway.Orchard.Weather.{
  Scar, line_at, join_bars, pick_line, scar_bucket, scar_lines, scar_from, fruit_took_scar, scar_of,
}
use shenyugateway.Orchard.Fruit.{
  History, is_winter, green_bucket, picked_bucket, Calendar, green_condition, pick_condition,
}
use shenyugateway.Orchard.Lines.{
  OneOf, green_condition-OneOf, pick_condition-OneOf, pick_condition-scarred,
}
use shenyugateway.Orchard.Buckets.{
  green_bucket_reached, picked_bucket_reached, underground_iff, untouched_bucket, neglected_hollow,
}

abbrev std : Stdlib
std = record {
  repr = λ v. [];
  dumps = λ v. [];
  sha256_hex = λ t. t;
  lower = λ t. t;
  regex_sub = λ pattern new t. t;
}

abbrev first_byte : Text → ℕ
first_byte t = 5

abbrev calendar : Calendar
calendar = record {
  parse_local_date = λ v. none;
  local_day_of_ts = λ v. some 100;
  isoformat = λ day. codes "2026-06-01";
  month = λ day. 6;
}

abbrev garlic : History
garlic = record { hung_days = 30; quiet_days = 5; note_count = 1; days_to_due = none }

green_bucket_reached_example : (h : History) × (month : ℕ) × (green_bucket h month ≡ wilting)
green_bucket_reached_example = green_bucket_reached wilting refl

picked_bucket_reached_run : (h : History) × (picked_bucket h ≡ hollow)
picked_bucket_reached_run = picked_bucket_reached hollow refl

underground_iff_run :
    (green_bucket garlic 6 ≡ underground)
    ↔ ((garlic.days_to_due ≡ none) × (21 ≤ 30) × (5 < 10) × ((leb 3 1 ≡ false) ⊎ (3 < 5)))
underground_iff_run = underground_iff garlic 6

untouched_bucket_example :
    green_bucket (record { hung_days = 12; quiet_days = 12; note_count = 0; days_to_due = none }) 6
    ≡ (if leb 12 2
        then fresh
        else if ltb 12 10
        then (if is_winter 6 then dormant else steady)
        else if ltb 12 25
        then (if 12 % 3 == 0 then nibbled else dusty)
        else wilting)
untouched_bucket_example = untouched_bucket 12 6

abbrev neglected : History
neglected = record { hung_days = 40; quiet_days = 30; note_count = 5; days_to_due = none }

neglected_hollow_run : picked_bucket neglected ≡ hollow
neglected_hollow_run = neglected_hollow neglected refl (omega arith) (omega arith)

abbrev fruit : Fields
fruit = field "id" (str (codes "f1")) (field "planted_at" (str (codes "may")) end)

abbrev hail : Fields
hail = field "kind" (str (codes "hail")) (field "on_day" (str (codes "2026-05-01")) end)

abbrev gale : Fields
gale = field "kind" (str (codes "gale")) (field "on_day" (str (codes "2026-04-01")) end)

green_condition-OneOf_run :
    let said = green_condition calendar std first_byte fruit 1 null 107 in
    OneOf said.1 (conditions_green said.0)
green_condition-OneOf_run = green_condition-OneOf std first_byte calendar fruit 1 null 107

pick_condition-OneOf_example :
    let said = pick_condition calendar std first_byte fruit 1 null 107 (gale ∷ []) in
    OneOf said.1 (scar_lines said.0)
pick_condition-OneOf_example =
    pick_condition-OneOf std first_byte calendar fruit 1 null 107 (gale ∷ [])

abbrev scarred : Scar
scarred = record { bucket = half_good; text = codes "有疤，但里面是好的。"; kind = codes "hail" }

hail_scars : scar_of std first_byte (str_or_empty std (get "id" fruit)) hail ≡ some scarred
unfolding scar_of scar_bucket scar_lines scar_from fruit_took_scar pick_line line_at join_bars
    is_space lstrip rstrip strip get str_or_empty
hail_scars = refl

pick_condition-scarred_run :
    pick_condition calendar std first_byte fruit 1 null 107 (gale ∷ [] ++ hail ∷ [])
    ≡ (half_good, codes "有疤，但里面是好的。")
pick_condition-scarred_run =
    pick_condition-scarred std first_byte calendar fruit 1 null 107 (gale ∷ []) hail scarred
      hail_scars
