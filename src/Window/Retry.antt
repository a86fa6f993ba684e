-- ===== src/Window/Retry.antt =====
-- A request that is sent again meets the window that it got before.
use shenyugateway.Common.{
  ◌-◌, true, false, Option, none, some, ◌++◌, ◌≡◌, inl, refl, ◌∙◌, arith, length, drop,
}
use shenyugateway.Text.{is_empty}
use shenyugateway.Json.{Json}
use shenyugateway.Window.Groups.{non_system_messages}
use shenyugateway.Window.Classify.{retry}
use shenyugateway.Window.Select.{
  Limit, absent, below, at_most, limit_eq, WindowState, Request, exceeds, high_water,
  select_chunked_window, Selected, cache_is_cold, system_messages,
}
use shenyugateway.Window.Bounds.{window_start-le, anchor-le}
use shenyugateway.Window.Stable.{anchor_kept, epoch_kept_iff, epoch_kept}

limit_eq_refl : (limit : Limit) → limit_eq limit limit ≡ true
limit_eq_refl absent = refl
limit_eq_refl (below n) = ground arith
limit_eq_refl (at_most n) = ground arith

module _ (empty : Json) (r : Request) (previous : Option WindowState) where
  abbrev pub first : Selected
  first = select_chunked_window empty r previous

  abbrev pub again : Request
  again = record r { event_class = retry; head_slide_messages = 0; idle_seconds = none }

  abbrev pub second : Selected
  second = select_chunked_window empty again (some first.state)

  first_messages :
      first.messages
      ≡ system_messages r.messages
        ++ drop first.state.window_start_index (non_system_messages r.messages)
  unfolding select_chunked_window
  first_messages = refl

  first_limit : first.state.base_limit ≡ r.limit
  unfolding select_chunked_window
  first_limit = refl

  -- A window within the high-water mark is selected again, with its epoch and its anchor, when the
  -- same messages come as a retry with no idle time, and the stored state is the one returned.
  pub retry_stable :
      is_empty first.state.epoch_id ≡ false
      → exceeds
          (high_water r.limit)
          (length (drop first.state.window_start_index (non_system_messages r.messages)))
        ≡ false
      → (second.messages ≡ first.messages)
        × (second.state.epoch_reset ≡ false)
        × (second.state.epoch_id ≡ first.state.epoch_id)
        × (second.state.window_start_index ≡ first.state.window_start_index)
        × (second.state.island_anchor_offset ≡ first.state.island_anchor_offset)
  unfolding cache_is_cold
  retry_stable named fits =
      let n = first.state.window_start_index in
      let z : n - 0 ≡ n = omega arith in
      let kept = (epoch_kept_iff empty again first.state).1 (
        named,
        rw first_limit (limit_eq_refl r.limit),
        refl,
        refl,
        rw z (window_start-le empty r previous),
        inl (rw z fits),
      ) in
      let (id, _, start, messages) = epoch_kept empty again first.state kept in
      let anchor = anchor_kept empty again first.state kept in
      (
        rw (first_messages, messages, z),
        kept,
        id,
        start ∙ z,
        omega (arith, rw z at anchor, anchor-le empty r previous),
      )
