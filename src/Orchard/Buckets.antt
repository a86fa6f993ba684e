-- ===== src/Orchard/Buckets.antt =====
-- Which histories lead to which bucket.
use shenyugateway.Common.{
  ℕ, ◌%◌, ◌<◌, ◌≤◌, true, false, Option, none, some, ◌≡◌, ◌↔◌, ◌⊎◌, refl, arith, leb, ltb, ◌==◌,
  if◌then◌else◌,
}
use shenyugateway.Window.Classify.{is_nonempty}
use shenyugateway.Orchard.{
  Bucket, fresh, tended, steady, dusty, wilting, nibbled, swelling, overdue, underground, dormant,
  ripe, overripe, green_picked, half_good, smaller, hollow, quiet, conditions_green,
  conditions_picked,
}
use shenyugateway.Orchard.Fruit.{
  DaysTo, ahead, past, History, is_winter, green_bucket, dated_bucket, picked_bucket,
}

abbrev history : ℕ → ℕ → ℕ → Option DaysTo → History
history hung untouched notes due = record {
  hung_days = hung;
  quiet_days = untouched;
  note_count = notes;
  days_to_due = due;
}

-- No bucket of the table for hanging fruits is dead: some history in some month leads to it.
pub green_bucket_reached :
    (b : Bucket)
    → is_nonempty (conditions_green b) ≡ true
    → (h : History) × (month : ℕ) × (green_bucket h month ≡ b)
unfolding green_bucket
green_bucket_reached fresh e = (history 0 0 0 none, 6, refl)
green_bucket_reached tended e = (history 9 1 3 none, 6, refl)
green_bucket_reached steady e = (history 9 5 1 none, 6, refl)
green_bucket_reached dusty e = (history 13 10 1 none, 6, refl)
green_bucket_reached wilting e = (history 30 25 1 none, 6, refl)
green_bucket_reached nibbled e = (history 12 10 1 none, 6, refl)
green_bucket_reached swelling e = (history 9 1 3 (some (ahead 2)), 6, refl)
green_bucket_reached overdue e = (history 9 1 3 (some (past 2)), 6, refl)
green_bucket_reached underground e = (history 30 5 1 none, 6, refl)
green_bucket_reached dormant e = (history 9 5 1 none, 1, refl)
green_bucket_reached b e = absurd (cc e)

-- Nor is one of the table for picked fruits: some history leads to it, without any weather.
pub picked_bucket_reached :
    (b : Bucket) → is_nonempty (conditions_picked b) ≡ true → (h : History) × (picked_bucket h ≡ b)
unfolding picked_bucket dated_bucket
picked_bucket_reached ripe e = (history 9 1 3 none, refl)
picked_bucket_reached overripe e = (history 9 1 3 (some (past 20)), refl)
picked_bucket_reached green_picked e = (history 9 1 3 (some (ahead 20)), refl)
picked_bucket_reached half_good e = (history 40 30 3 (some (past 2)), refl)
picked_bucket_reached smaller e = (history 30 5 0 none, refl)
picked_bucket_reached hollow e = (history 40 30 3 none, refl)
picked_bucket_reached quiet e = (history 1 1 0 none, refl)
picked_bucket_reached b e = absurd (cc e)

-- A date that is near or past decides alone; without one the fruit is underground exactly when it
-- has hung for three weeks, was looked at within the last ten days, and not so often that it is
-- tended.
pub underground_iff :
    (h : History) (month : ℕ)
    → (green_bucket h month ≡ underground) ↔ (
        (h.days_to_due ≡ none)
        × (21 ≤ h.hung_days)
        × (h.quiet_days < 10)
        × ((leb 3 h.note_count ≡ false) ⊎ (3 < h.quiet_days)))
unfolding green_bucket
underground_iff h month = (λ e. ground arith, λ e. ground arith)

-- A fruit without a date that nobody has looked at since it was hung: fresh, then steady, or
-- dormant in winter, then dusty or nibbled, and wilting for good.
pub untouched_bucket :
    (days month : ℕ)
    → green_bucket (history days days 0 none) month ≡ (
        if leb days 2
        then fresh
        else if ltb days 10
        then (if is_winter month then dormant else steady)
        else if ltb days 25
        then (if days % 3 == 0 then nibbled else dusty)
        else wilting)
unfolding green_bucket
untouched_bucket days month = ground arith

-- A fruit without a date that is picked after nobody has looked at it for 25 days is hollow, if it
-- was not looked at before it was hung.
pub neglected_hollow :
    (h : History)
    → h.days_to_due ≡ none
    → h.quiet_days ≤ h.hung_days
    → 25 ≤ h.quiet_days
    → picked_bucket h ≡ hollow
unfolding picked_bucket
neglected_hollow h e le long = ground arith
