-- ===== src/SystemPrefix/Gate.antt =====
-- One request at the gate of the system prefix.
use shenyugateway.Common.{
  ℕ, ◌+◌, ◌*◌, ◌<◌, true, false, Option, some, ◌≡◌, ◌≢◌, ◌⊎◌, ◌↔◌, inl, inr, refl, arith,
  Option-cases, [], ◌∷◌,
}
use shenyugateway.Text.{Text}
use shenyugateway.Text.Affixes.{eq_of_text_eq}
use shenyugateway.Json.{Fields, str, get, Stdlib, str_or_empty}
use shenyugateway.SystemPrefix.{
  refreshed, held, Rendered, Resolved, prefix_state, apply_rendered, old_slow, old_heartbeat,
  old_refreshed_at, had_snapshot, hold, is_changed, is_due, resolve_system_prefix,
}

str_or_empty-str : (std : Stdlib) (t : Text) → str_or_empty std (str t) ≡ t
unfolding str_or_empty
str_or_empty-str std [] = refl
str_or_empty-str std (c ∷ t) = refl

module _ (std : Stdlib) (parse_ts : Text → Option ℕ) where
  pub old_slow-state : (s h t : Text) → old_slow std parse_ts (prefix_state s h t) ≡ s
  unfolding old_slow prefix_state get
  old_slow-state s h t = str_or_empty-str std s

  pub old_heartbeat-state : (s h t : Text) → old_heartbeat std parse_ts (prefix_state s h t) ≡ h
  unfolding old_heartbeat prefix_state get
  old_heartbeat-state s h t = str_or_empty-str std h

  pub old_refreshed_at-state :
      (s h t : Text) → old_refreshed_at std parse_ts (prefix_state s h t) ≡ t
  unfolding old_refreshed_at prefix_state get
  old_refreshed_at-state s h t = str_or_empty-str std t

  not_due :
      (buffer_seconds : ℕ) (refreshed_at now : Text)
      → is_due std parse_ts buffer_seconds refreshed_at now ≡ false
      → (old : ℕ) × (new : ℕ) × (parse_ts refreshed_at ≡ some old)
        × (parse_ts now ≡ some new)
        × (new < old + buffer_seconds * 1000000)
  unfolding is_due
  not_due b a n h = elim (Option-cases (parse_ts a)) [
    | inl e ↦ ground (arith, e)
    | inr (old, e) ↦ elim (Option-cases (parse_ts n)) [
      | inl e' ↦ ground (arith, e, e')
      | inr (new, e') ↦ (old, new, e, e', ground (arith, e, e'))
    ]
  ]

  module _ (buffer_seconds : ℕ) (previous : Fields) (r : Rendered) where
    abbrev pub resolved : Resolved
    resolved = resolve_system_prefix std parse_ts buffer_seconds previous r

    -- What is stored is what was sent: the next request finds the two texts of this one.
    pub stored_is_sent :
        (old_slow std parse_ts resolved.state ≡ resolved.chosen_slow)
        × (old_heartbeat std parse_ts resolved.state ≡ resolved.chosen_heartbeat)
    unfolding resolve_system_prefix apply_rendered hold
    stored_is_sent = ground (
      arith,
      old_slow-state r.new_slow r.new_heartbeat r.now,
      old_heartbeat-state r.new_slow r.new_heartbeat r.now,
      old_slow-state (old_slow std parse_ts previous) (old_heartbeat std parse_ts previous)
          (old_refreshed_at std parse_ts previous),
      old_heartbeat-state (old_slow std parse_ts previous) (old_heartbeat std parse_ts previous)
          (old_refreshed_at std parse_ts previous),
    )

    -- A request either sends what was just rendered and starts the clock anew, or it sends the
    -- stored texts and leaves the clock as it was.
    pub sent_either :
        ((resolved.decision ≡ refreshed)
          × (resolved.chosen_slow ≡ r.new_slow)
          × (resolved.chosen_heartbeat ≡ r.new_heartbeat)
          × (old_refreshed_at std parse_ts resolved.state ≡ r.now))
        ⊎ ((resolved.decision ≡ held)
            × (resolved.chosen_slow ≡ old_slow std parse_ts previous)
            × (resolved.chosen_heartbeat ≡ old_heartbeat std parse_ts previous)
            × (old_refreshed_at std parse_ts resolved.state
                ≡ old_refreshed_at std parse_ts previous))
    unfolding resolve_system_prefix apply_rendered hold
    sent_either = ground (
      arith,
      old_refreshed_at-state r.new_slow r.new_heartbeat r.now,
      old_refreshed_at-state (old_slow std parse_ts previous) (old_heartbeat std parse_ts previous)
          (old_refreshed_at std parse_ts previous),
    )

    -- The stored texts are sent again exactly when there is a snapshot and it either is what was
    -- just rendered, or no rebuild is under way, buffering is on and the time is not up.
    pub held_iff : (resolved.decision ≡ held) ↔ (
        (had_snapshot std parse_ts previous ≡ true)
        × ((is_changed std parse_ts previous r ≡ false)
            ⊎ ((r.epoch_reset ≡ false)
                × (0 < buffer_seconds)
                × (is_due std parse_ts buffer_seconds (old_refreshed_at std parse_ts previous) r.now
                    ≡ false))))
    unfolding resolve_system_prefix apply_rendered hold
    held_iff = (λ h. ground arith, λ h. ground arith)

    stale_held :
        (resolved.chosen_slow ≢ r.new_slow) ⊎ (resolved.chosen_heartbeat ≢ r.new_heartbeat)
        → (r.epoch_reset ≡ false)
          × (is_due std parse_ts buffer_seconds (old_refreshed_at std parse_ts previous) r.now
              ≡ false)
    unfolding resolve_system_prefix apply_rendered hold is_changed
    stale_held h = ground (
      arith,
      eq_of_text_eq r.new_slow (old_slow std parse_ts previous),
      eq_of_text_eq r.new_heartbeat (old_heartbeat std parse_ts previous),
    )

    -- A request that sends anything but what was just rendered is not rebuilding the cache, and
    -- comes less than the buffer's seconds after the snapshot that it sends.
    pub stale_is_recent :
        (resolved.chosen_slow ≢ r.new_slow) ⊎ (resolved.chosen_heartbeat ≢ r.new_heartbeat)
        → (r.epoch_reset ≡ false)
          × (old : ℕ) × (new : ℕ) × (parse_ts (old_refreshed_at std parse_ts previous) ≡ some old)
          × (parse_ts r.now ≡ some new)
          × (new < old + buffer_seconds * 1000000)
    stale_is_recent h =
        let (kept, due) = stale_held h in
        let (old, new, e, e', lt) =
          not_due buffer_seconds (old_refreshed_at std parse_ts previous) r.now due in
        (kept, old, new, e, e', lt)
