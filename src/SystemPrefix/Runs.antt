-- ===== src/SystemPrefix/Runs.antt =====
-- Requests one after the other through the gate of the system prefix.
use shenyugateway.Common.{ℕ, ◌<◌, true, false, Option, List, [], ◌∷◌, ◌≡◌, refl, arith}
use shenyugateway.Text.{Text, is_empty}
use shenyugateway.Json.{Fields, Stdlib, get}
use shenyugateway.SystemPrefix.{
  Rendered, Resolved, prefix_state, resolve_system_prefix, had_snapshot, is_due, hold,
}
use shenyugateway.SystemPrefix.Gate.{old_slow-state, old_heartbeat-state, old_refreshed_at-state}

module _ (std : Stdlib) (parse_ts : Text → Option ℕ) (buffer_seconds : ℕ) where
  -- Each request finds the state that the one before it left.
  unfoldable pub run : Fields → List Rendered → List Resolved
  run state [] = []
  run state (r ∷ requests) =
      let answer = resolve_system_prefix std parse_ts buffer_seconds state r in
      answer ∷ run answer.state requests

  -- No request rebuilds the cache, and none comes after the buffer's time.
  unfoldable pub Quiet : Text → List Rendered → Type 0
  Quiet refreshed_at [] = Unit {0}
  Quiet refreshed_at (r ∷ requests) =
      (r.epoch_reset ≡ false)
      × (is_due std parse_ts buffer_seconds refreshed_at r.now ≡ false)
      × Quiet refreshed_at requests

  -- Every answer sends the two texts.
  unfoldable pub AllSend : Text → Text → List Resolved → Type 0
  AllSend slow heartbeat [] = Unit {0}
  AllSend slow heartbeat (answer ∷ answers) =
      (answer.chosen_slow ≡ slow)
      × (answer.chosen_heartbeat ≡ heartbeat)
      × AllSend slow heartbeat answers

  had_snapshot-state :
      (s h t : Text) → is_empty t ≡ false → had_snapshot std parse_ts (prefix_state s h t) ≡ true
  unfolding had_snapshot prefix_state get
  had_snapshot-state s h [] e = cc e
  had_snapshot-state s h (c ∷ t) e = refl

  quiet_holds :
      (s h t : Text) (r : Rendered)
      → is_empty t ≡ false
      → 0 < buffer_seconds
      → r.epoch_reset ≡ false
      → is_due std parse_ts buffer_seconds t r.now ≡ false
      → let answer = resolve_system_prefix std parse_ts buffer_seconds (prefix_state s h t) r in
        (answer.chosen_slow ≡ s)
        × (answer.chosen_heartbeat ≡ h)
        × (answer.state ≡ prefix_state s h t)
  unfolding resolve_system_prefix hold
  quiet_holds s h t r stamped on kept due = ground (
    arith,
    had_snapshot-state s h t stamped,
    old_slow-state std parse_ts s h t,
    old_heartbeat-state std parse_ts s h t,
    old_refreshed_at-state std parse_ts s h t,
  )

  -- However often the two layers are rendered anew, the prefix stays the same, byte for byte, from
  -- one request to the next, until a request rebuilds the cache or comes after the buffer's time.
  pub run_steady :
      (slow heartbeat refreshed_at : Text) (requests : List Rendered)
      → is_empty refreshed_at ≡ false
      → 0 < buffer_seconds
      → Quiet refreshed_at requests
      → AllSend slow heartbeat (run (prefix_state slow heartbeat refreshed_at) requests)
  unfolding run Quiet AllSend
  run_steady s h t [] stamped on quiet = tt
  run_steady s h t (r ∷ requests) stamped on (kept, due, quiet) =
      let (slow, heartbeat, same) = quiet_holds s h t r stamped on kept due in
      (slow, heartbeat, rw same (run_steady s h t requests stamped on quiet))
