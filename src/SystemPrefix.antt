-- ===== src/SystemPrefix.antt =====
-- shenyu_gateway/system_prefix_buffer.py: whether a request sends the system prefix that was just
-- rendered, or the snapshot of an earlier one.
pub mod Gate
pub mod Runs
mod Tests
use shenyugateway.Common.{
  ℕ, ◌+◌, ◌*◌, Bool, true, false, not, ◌&&◌, ◌||◌, Option, none, some, ◌==◌, leb, if◌then◌else◌,
}
use shenyugateway.Text.{Text, codes, text_eq, strip}
use shenyugateway.Json.{Json, Fields, str, end, field, get, truthy, Stdlib, str_or_empty}

pub data Decision : Type 0 where
  refreshed held : Decision

pub data Reason : Type 0 where
  first_snapshot unchanged epoch_rebuild buffer_disabled ttl_elapsed buffered : Reason

-- What a request brings: the two layers just rendered, and the time.
pub record Rendered : Type 0 where
  pub new_slow : Text
  pub new_heartbeat : Text
  pub epoch_reset : Bool
  pub now : Text

-- The tuple that `resolve_system_prefix` returns.
pub record Resolved : Type 0 where
  pub chosen_slow : Text
  pub chosen_heartbeat : Text
  pub state : Fields
  pub decision : Decision
  pub reason : Reason

unfoldable pub prefix_state : Text → Text → Text → Fields
prefix_state slow heartbeat refreshed_at =
    field "slow_text" (str slow)
      (field "heartbeat_text" (str heartbeat) (field "refreshed_at" (str refreshed_at) end))

-- `_apply`
unfoldable pub apply_rendered : Rendered → Reason → Resolved
unfolding prefix_state
apply_rendered r reason = record {
  chosen_slow = r.new_slow;
  chosen_heartbeat = r.new_heartbeat;
  state = prefix_state r.new_slow r.new_heartbeat r.now;
  decision = refreshed;
  reason = reason;
}

-- `parse_ts` reads an ISO time as a number of microseconds.
module _ (std : Stdlib) (parse_ts : Text → Option ℕ) where
  unfoldable pub buffer_seconds_from_ttl : Json → ℕ
  buffer_seconds_from_ttl ttl =
      let key = std.lower (strip (str_or_empty std ttl)) in
      if text_eq key (codes "5m") then 300 else if text_eq key (codes "1h") then 3600 else 0

  unfoldable pub old_slow : Fields → Text
  old_slow previous_state = str_or_empty std (get "slow_text" previous_state)

  unfoldable pub old_heartbeat : Fields → Text
  old_heartbeat previous_state = str_or_empty std (get "heartbeat_text" previous_state)

  unfoldable pub old_refreshed_at : Fields → Text
  old_refreshed_at previous_state = str_or_empty std (get "refreshed_at" previous_state)

  unfoldable pub had_snapshot : Fields → Bool
  had_snapshot previous_state = truthy (get "refreshed_at" previous_state)

  -- `_hold`
  unfoldable pub hold : Fields → Reason → Resolved
  unfolding prefix_state
  hold previous_state reason = record {
    chosen_slow = old_slow previous_state;
    chosen_heartbeat = old_heartbeat previous_state;
    state =
        prefix_state (old_slow previous_state) (old_heartbeat previous_state)
          (old_refreshed_at previous_state);
    decision = held;
    reason = reason;
  }

  unfoldable pub is_changed : Fields → Rendered → Bool
  is_changed previous_state r =
      not (text_eq r.new_slow (old_slow previous_state))
      || not (text_eq r.new_heartbeat (old_heartbeat previous_state))

  -- `elapsed is None or elapsed >= buffer_seconds`, with the elapsed time not computed as a
  -- difference: `old + buffer <= new`.
  unfoldable pub is_due : ℕ → Text → Text → Bool
  is_due buffer_seconds refreshed_at now = elim (parse_ts refreshed_at) [
    | none ↦ true
    | some old ↦ elim (parse_ts now) [
      | none ↦ true
      | some new ↦ leb (old + buffer_seconds * 1000000) new
    ]
  ]

  -- An absent state is the empty one; a buffer of less than 0 seconds is one of 0.
  unfoldable pub resolve_system_prefix : ℕ → Fields → Rendered → Resolved
  unfolding apply_rendered hold
  resolve_system_prefix buffer_seconds previous_state r =
      if not (had_snapshot previous_state)
      then apply_rendered r first_snapshot
      else if not (is_changed previous_state r)
      then hold previous_state unchanged
      else if r.epoch_reset
      then apply_rendered r epoch_rebuild
      else if buffer_seconds == 0
      then apply_rendered r buffer_disabled
      else if is_due buffer_seconds (old_refreshed_at previous_state) r.now
      then apply_rendered r ttl_elapsed
      else hold previous_state buffered
