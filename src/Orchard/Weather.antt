-- ===== src/Orchard/Weather.antt =====
-- `classify_weather`, `garden_line`, `fruit_took_scar` and `weather_scar` of orchard.py.
use shenyugateway.Common.{
  ℕ, ◌*◌, ◌/◌, ◌%◌, Bool, true, false, not, ◌&&◌, ◌||◌, Option, none, some, List, [], ◌∷◌, ◌++◌,
  ◌==◌, leb, ltb, if◌then◌else◌, length, zero, suc,
}
use shenyugateway.Text.{Text, codes, text_eq, find, strip}
use shenyugateway.Json.{Json, number, null, Fields, get, truthy, Stdlib, to_str, str_or_empty}
use shenyugateway.Orchard.{
  Bucket, bucket_key, conditions_picked, conditions_weathered, garden_ordinary, WeatherRule,
  extreme_weather_rules, cold_snap_c, heat_wave_c, weather_scars,
}

-- `word in text`
unfoldable pub contains : Text → Text → Bool
contains text word = elim (find text word) [ none ↦ false | some i ↦ true ]

unfoldable pub contains_any : Text → List Text → Bool
contains_any text [] = false
contains_any text (word ∷ words) = contains text word || contains_any text words

-- The first rule with a key word in the text.
unfoldable pub first_rule : Text → List WeatherRule → Option WeatherRule
first_rule text [] = none
first_rule text (rule ∷ rules) =
    let rest = first_rule text rules in if contains_any text rule.keywords then some rule else rest

-- A temperature as a decimal number: a sign, the digits, and how many stand after the point.
pub record Celsius : Type 0 where
  pub minus : Bool
  pub digits : ℕ
  pub places : ℕ

abbrev pub power_of_ten : ℕ → ℕ
power_of_ten zero = 1
power_of_ten (suc n) = 10 * power_of_ten n

-- `int(temp_c)`, towards 0.
unfoldable pub whole_degrees : Celsius → Json
whole_degrees t = let q = t.digits / power_of_ten t.places in number (t.minus && not (q == 0)) q 0

unfoldable pub is_cold : Celsius → Bool
is_cold t = t.minus || t.digits == cold_snap_c

unfoldable pub is_hot : Celsius → Bool
is_hot t = not t.minus && leb (heat_wave_c * power_of_ten t.places) t.digits

-- The element of a list that a number picks, and none past its end.
unfoldable pub line_at : ℕ → List Text → Text
line_at n [] = []
line_at zero (line ∷ lines) = line
line_at (suc n) (line ∷ lines) = line_at n lines

-- `"|".join(parts)`
unfoldable pub join_bars : List Text → Text
join_bars [] = []
join_bars (t ∷ []) = t
join_bars (t ∷ u ∷ parts) = t ++ codes "|" ++ join_bars (u ∷ parts)

-- `first_byte` is the first byte of the SHA-256 digest of a text's UTF-8 bytes.
module _ (first_byte : Text → ℕ) where
  -- `_pick_line`
  unfoldable pub pick_line : Text → List Text → List Text → Text
  unfolding line_at
  pick_line bucket [] seed_parts = []
  pick_line bucket (line ∷ lines) seed_parts =
      line_at (first_byte (join_bars (bucket ∷ seed_parts)) % length (line ∷ lines)) (line ∷ lines)

-- `_WEATHER_SCARS.get(kind)`
unfoldable pub scar_bucket : Text → List (Text × Bucket) → Option Bucket
scar_bucket kind [] = none
scar_bucket kind ((k, bucket) ∷ scars) =
    let rest = scar_bucket kind scars in if text_eq k kind then some bucket else rest

-- `CONDITIONS_WEATHERED.get(bucket) or CONDITIONS_PICKED.get(bucket)`
unfoldable pub scar_lines : Bucket → List Text
scar_lines bucket = elim (conditions_weathered bucket) [
  | [] ↦ conditions_picked bucket
  | line ∷ lines ↦ line ∷ lines
]

pub record Scar : Type 0 where
  pub bucket : Bucket
  pub text : Text
  pub kind : Text

module _ (std : Stdlib) (first_byte : Text → ℕ) where
  unfoldable pub fruit_took_scar : Text → Json → Text → Bool
  fruit_took_scar fruit_id on_day kind =
      ltb (first_byte (join_bars (fruit_id ∷ to_str std on_day ∷ kind ∷ []))) 77

  -- The scar in a bucket with lines, and none in one without.
  unfoldable pub scar_from : Text → Text → Bucket → List Text → Option Scar
  scar_from fruit_id kind bucket [] = none
  scar_from fruit_id kind bucket (line ∷ lines) = some (record {
    bucket = bucket;
    text = pick_line first_byte (bucket_key bucket) (line ∷ lines) (fruit_id ∷ kind ∷ []);
    kind = kind;
  })

  -- The body of the loop over the events: the scar that one event leaves, if it does.
  unfoldable pub scar_of : Text → Fields → Option Scar
  unfolding fruit_took_scar scar_bucket scar_lines scar_from
  scar_of fruit_id event =
      let kind = strip (str_or_empty std (get "kind" event)) in
      elim (scar_bucket kind weather_scars) [
        | none ↦ none
        | some bucket ↦
            if not (fruit_took_scar fruit_id (get "on_day" event) kind)
            then none
            else scar_from fruit_id kind bucket (scar_lines bucket)
      ]

  -- `hit` is overwritten by each event that leaves a scar.
  unfoldable pub scar_loop : Text → List Fields → Option Scar → Option Scar
  unfolding scar_of
  scar_loop fruit_id [] hit = hit
  scar_loop fruit_id (event ∷ events) hit = elim (scar_of fruit_id event) [
    | none ↦ scar_loop fruit_id events hit
    | some scar ↦ scar_loop fruit_id events (some scar)
  ]

  unfoldable pub weather_scar : Fields → List Fields → Option Scar
  unfolding scar_loop
  weather_scar fruit weather_events =
      scar_loop (str_or_empty std (get "id" fruit)) weather_events none

-- `float_of` is `float` of a value that is not `None`, where it does not fail.
module _ (std : Stdlib) (first_byte : Text → ℕ) (float_of : Json → Option Celsius) where
  unfoldable pub read_temperature : Json → Option Celsius
  read_temperature null = none
  read_temperature value = float_of value

  -- The kind of extreme weather and the line for the garden. A value that is no `dict` is `none`.
  unfoldable pub classify_weather : Option Fields → Option (Text × Text)
  unfolding first_rule whole_degrees is_cold is_hot read_temperature
  classify_weather none = none
  classify_weather (some weather) =
      if not (truthy (get "available" weather))
      then none
      else elim (first_rule (str_or_empty std (get "text" weather)) extreme_weather_rules) [
        | some rule ↦ some (rule.kind, rule.line)
        | none ↦ elim (read_temperature (get "temp_c" weather)) [
          | none ↦ none
          | some t ↦
              if is_cold t
              then some
                  (codes "cold_snap", codes "冷。" ++ to_str std (whole_degrees t) ++ codes "度，园子冻着。")
              else if is_hot t
              then some (
                codes "heat_wave",
                codes "热。" ++ to_str std (whole_degrees t) ++ codes "度，土晒得发烫。",
              )
              else none
        ]
      ]

  -- The day is given as `isoformat` writes it.
  unfoldable pub garden_line : Option Fields → Text → Text
  unfolding classify_weather pick_line
  garden_line weather day = elim (classify_weather weather) [
    | some (kind, line) ↦ line
    | none ↦ pick_line first_byte (codes "garden") garden_ordinary (day ∷ [])
  ]
