-- ===== src/Orchard/Lines.antt =====
-- The lines that the orchard says, and the scar that the weather leaves.
use shenyugateway.Common.{
  ℕ, ◌<◌, Bool, true, ◌&&◌, Option, none, some, List, [], ◌∷◌, ◌++◌, ◌≡◌, refl, ap, sym, ◌∙◌, arith,
  zero, suc, length, Bool-cases, Option-cases, inl, inr,
}
use native.Mathlib.Nat.{mod-lt}
use shenyugateway.Text.{Text, strip}
use shenyugateway.Json.{Json, Fields, get, Stdlib, str_or_empty}
use shenyugateway.Window.Classify.{is_nonempty}
use shenyugateway.Orchard.{Bucket, bucket_key, conditions_green, conditions_picked, weather_scars}
use shenyugateway.Orchard.Weather.{
  Scar, line_at, pick_line, scar_bucket, scar_lines, scar_from, fruit_took_scar, scar_of, scar_loop,
  weather_scar,
}
use shenyugateway.Orchard.Fruit.{
  History, green_bucket, picked_bucket, dated_bucket, Calendar, history_of, green_condition,
  pick_condition,
}

-- A text is one of a table's lines.
pub data OneOf (t : Text) : List Text → Type 0 where
  here : (lines : List Text) → OneOf t (t ∷ lines)
  there : (line : Text) (lines : List Text) → OneOf t lines → OneOf t (line ∷ lines)

line_at-OneOf : (n : ℕ) (lines : List Text) → n < length lines → OneOf (line_at n lines) lines
unfolding line_at
line_at-OneOf n [] h = absurd (omega arith)
line_at-OneOf zero (line ∷ lines) h = here lines
line_at-OneOf (suc n) (line ∷ lines) h = there line lines (line_at-OneOf n lines (omega arith))

-- Whether every bucket of a table of scars has lines.
all_have_lines : List (Text × Bucket) → Bool
all_have_lines [] = true
all_have_lines ((kind, bucket) ∷ scars) = is_nonempty (scar_lines bucket) && all_have_lines scars

scar_bucket-lines :
    (kind : Text) (bucket : Bucket) (scars : List (Text × Bucket))
    → all_have_lines scars ≡ true
    → scar_bucket kind scars ≡ some bucket
    → is_nonempty (scar_lines bucket) ≡ true
unfolding scar_bucket all_have_lines
scar_bucket-lines kind bucket [] all found = cc found
scar_bucket-lines kind bucket ((k, b) ∷ scars) all found =
    ground (arith, scar_bucket-lines kind bucket scars)

weather_scars_have_lines : all_have_lines weather_scars ≡ true
unfolding all_have_lines scar_lines
weather_scars_have_lines = refl

green_bucket-lines :
    (h : History) (month : ℕ) → is_nonempty (conditions_green (green_bucket h month)) ≡ true
unfolding green_bucket
green_bucket-lines h month = ground arith

picked_bucket-lines : (h : History) → is_nonempty (conditions_picked (picked_bucket h)) ≡ true
unfolding picked_bucket dated_bucket
picked_bucket-lines h = ground arith

pick_line-OneOf :
    (first_byte : Text → ℕ) (bucket : Text) (lines seed_parts : List Text)
    → is_nonempty lines ≡ true
    → OneOf (pick_line first_byte bucket lines seed_parts) lines
unfolding pick_line
pick_line-OneOf first_byte bucket [] seed_parts h = absurd (cc h)
pick_line-OneOf first_byte bucket (line ∷ lines) seed_parts h =
    line_at-OneOf _ (line ∷ lines) (mod-lt _ (omega arith))

-- A bucket that histories lead to is no bucket of the weather's.
picked_bucket-scar_lines :
    (h : History) → scar_lines (picked_bucket h) ≡ conditions_picked (picked_bucket h)
unfolding picked_bucket dated_bucket scar_lines
picked_bucket-scar_lines h = ground arith

module _ (std : Stdlib) (first_byte : Text → ℕ) where
  scar_from-OneOf :
      (fruit_id kind : Text) (bucket : Bucket) (scar : Scar)
      → scar_from std first_byte fruit_id kind bucket (scar_lines bucket) ≡ some scar
      → OneOf scar.text (scar_lines scar.bucket)
  unfolding scar_from
  scar_from-OneOf fruit_id kind bucket scar e = leaves (scar_lines bucket) refl e
    where
      leaves :
          (lines : List Text)
          → scar_lines bucket ≡ lines
          → scar_from std first_byte fruit_id kind bucket lines ≡ some scar
          → OneOf scar.text (scar_lines scar.bucket)
      leaves [] same none_left = absurd (cc none_left)
      leaves (line ∷ lines) same e' =
          let text : pick_line first_byte (bucket_key bucket) (line ∷ lines) (fruit_id ∷ kind ∷ [])
              ≡ scar.text =
            cc e' in
          let b : bucket ≡ scar.bucket = cc e' in
          rw (← text, ← b, same)
            (pick_line-OneOf first_byte (bucket_key bucket) (line ∷ lines) (fruit_id ∷ kind ∷ [])
              refl)

  scar_of-OneOf :
      (fruit_id : Text) (event : Fields) (scar : Scar)
      → scar_of std first_byte fruit_id event ≡ some scar
      → OneOf scar.text (scar_lines scar.bucket)
  unfolding scar_of
  scar_of-OneOf fruit_id event scar e =
      let kind = strip (str_or_empty std (get "kind" event)) in
      elim (Option-cases (scar_bucket kind weather_scars)) [
        | inl n ↦ absurd (cc (rw (n, scar_of) at e))
        | inr (bucket, n) ↦
            elim (Bool-cases (fruit_took_scar std first_byte fruit_id (get "on_day" event) kind)) [
              | inl t ↦ scar_from-OneOf fruit_id kind bucket scar (rw (n, t, scar_of) at e)
              | inr t ↦ absurd (cc (rw (n, t, scar_of) at e))
            ]
      ]

  scar_loop-snoc :
      (fruit_id : Text) (events : List Fields) (event : Fields) (hit : Option Scar)
      → scar_loop std first_byte fruit_id (events ++ event ∷ []) hit
        ≡ (elim (scar_of std first_byte fruit_id event) [
          | none ↦ scar_loop std first_byte fruit_id events hit
          | some scar ↦ some scar
        ])
  unfolding scar_loop
  scar_loop-snoc fruit_id [] event hit = refl
  scar_loop-snoc fruit_id (e ∷ events) event hit =
      elim (Option-cases (scar_of std first_byte fruit_id e)) [
        | inl n ↦
            snoc_from hit (rw (n, scar_loop) refl) (scar_loop-snoc fruit_id events event hit)
              (rw (n, scar_loop) refl)
        | inr (scar, n) ↦
            snoc_from (some scar) (rw (n, scar_loop) refl)
              (scar_loop-snoc fruit_id events event (some scar)) (rw (n, scar_loop) refl)
      ]
    where
      -- The first event is passed, and leaves `next`.
      snoc_from :
          (next : Option Scar)
          → scar_loop std first_byte fruit_id (e ∷ (events ++ event ∷ [])) hit
            ≡ scar_loop std first_byte fruit_id (events ++ event ∷ []) next
          → scar_loop std first_byte fruit_id (events ++ event ∷ []) next
            ≡ (elim (scar_of std first_byte fruit_id event) [
              | none ↦ scar_loop std first_byte fruit_id events next
              | some s ↦ some s
            ])
          → scar_loop std first_byte fruit_id (e ∷ events) hit
            ≡ scar_loop std first_byte fruit_id events next
          → scar_loop std first_byte fruit_id (e ∷ (events ++ event ∷ [])) hit
            ≡ (elim (scar_of std first_byte fruit_id event) [
              | none ↦ scar_loop std first_byte fruit_id (e ∷ events) hit
              | some s ↦ some s
            ])
      snoc_from next whole rest front =
          whole
          ∙ rest
          ∙ ap (λ h. elim (scar_of std first_byte fruit_id event) [ none ↦ h | some s ↦ some s ])
              (sym front)

  -- The scar that a fruit is left with is the last event's, if that leaves one.
  pub weather_scar-last :
      (fruit event : Fields) (events : List Fields)
      → weather_scar std first_byte fruit (events ++ event ∷ [])
        ≡ (elim (scar_of std first_byte (str_or_empty std (get "id" fruit)) event) [
          | none ↦ weather_scar std first_byte fruit events
          | some scar ↦ some scar
        ])
  unfolding weather_scar
  weather_scar-last fruit event events = scar_loop-snoc _ events event none

  scar_loop-OneOf :
      (fruit_id : Text) (events : List Fields) (hit : Option Scar) (scar : Scar)
      → ((s : Scar) → hit ≡ some s → OneOf s.text (scar_lines s.bucket))
      → scar_loop std first_byte fruit_id events hit ≡ some scar
      → OneOf scar.text (scar_lines scar.bucket)
  unfolding scar_loop
  scar_loop-OneOf fruit_id [] hit scar ok e = ok scar e
  scar_loop-OneOf fruit_id (event ∷ events) hit scar ok e =
      elim (Option-cases (scar_of std first_byte fruit_id event)) [
        | inl n ↦ scar_loop-OneOf fruit_id events hit scar ok (rw (n, scar_loop) at e)
        | inr (s, n) ↦
            scar_loop-OneOf fruit_id events (some s) scar
              (λ t k. scar_of-OneOf fruit_id event t (n ∙ k)) (rw (n, scar_loop) at e)
      ]

  weather_scar-OneOf :
      (fruit : Fields) (events : List Fields) (scar : Scar)
      → weather_scar std first_byte fruit events ≡ some scar
      → OneOf scar.text (scar_lines scar.bucket)
  unfolding weather_scar
  weather_scar-OneOf fruit events scar e =
      scar_loop-OneOf _ events none scar (λ s k. absurd (cc k)) e

  module _ (calendar : Calendar) where
    -- A hanging fruit says one of the lines of its bucket, and a bucket with no lines never comes.
    pub green_condition-OneOf :
        (fruit : Fields) (note_count : ℕ) (last_note_at : Json) (day : ℕ)
        → let said = green_condition calendar std first_byte fruit note_count last_note_at day in
          OneOf said.1 (conditions_green said.0)
    unfolding green_condition
    green_condition-OneOf fruit note_count last_note_at day =
        let h = history_of calendar fruit note_count last_note_at day in
        pick_line-OneOf first_byte _ _ _ (green_bucket-lines h (calendar.month day))

    -- So does a picked fruit, whether the weather or its history chose the bucket.
    pub pick_condition-OneOf :
        (fruit : Fields) (note_count : ℕ) (last_note_at : Json) (day : ℕ) (events : List Fields)
        → let said =
            pick_condition calendar std first_byte fruit note_count last_note_at day events in
          OneOf said.1 (scar_lines said.0)
    unfolding pick_condition
    pick_condition-OneOf fruit note_count last_note_at day events =
        elim (Option-cases (weather_scar std first_byte fruit events)) [
          | inl n ↦
              let h = history_of calendar fruit note_count last_note_at day in
              let lines = conditions_picked (picked_bucket h) in
              let t =
                pick_line first_byte (bucket_key (picked_bucket h)) lines
                  (str_or_empty std (get "id" fruit) ∷ []) in
              let e : pick_condition calendar std first_byte fruit note_count last_note_at day
                    events
                  ≡ (picked_bucket h, t) =
                rw (n, pick_condition) refl in
              rw (e, picked_bucket-scar_lines h)
                (pick_line-OneOf first_byte _ _ _ (picked_bucket-lines h))
          | inr (scar, n) ↦
              let e : pick_condition calendar std first_byte fruit note_count last_note_at day
                    events
                  ≡ (scar.bucket, scar.text) =
                rw (n, pick_condition) refl in
              rw e (weather_scar-OneOf fruit events scar n)
        ]

    -- If the last event leaves a scar, the fruit is picked with that scar, whatever its history.
    pub pick_condition-scarred :
        (fruit : Fields) (note_count : ℕ) (last_note_at : Json) (day : ℕ) (events : List Fields)
        (event : Fields) (scar : Scar)
        → scar_of std first_byte (str_or_empty std (get "id" fruit)) event ≡ some scar
        → pick_condition calendar std first_byte fruit note_count last_note_at day
            (events ++ event ∷ [])
          ≡ (scar.bucket, scar.text)
    unfolding pick_condition
    pick_condition-scarred fruit note_count last_note_at day events event scar e =
        let last : weather_scar std first_byte fruit (events ++ event ∷ []) ≡ some scar =
          weather_scar-last fruit event events ∙ rw e refl in
        rw (last, pick_condition) refl
