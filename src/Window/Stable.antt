-- ===== src/Window/Stable.antt =====
-- What `select_chunked_window` keeps from request to request: the retained window grows at its end
-- only, until the epoch is reset.
use shenyugateway.Common.{
  ℕ, zero, suc, ◌-◌, ◌≤◌, true, false, some, List, [], ◌∷◌, ◌++◌, ◌≡◌, ◌⊎◌, ◌↔◌, refl, ap, ◌∙◌,
  arith, min, length, drop, length-drop,
}
use shenyugateway.Text.{is_empty}
use shenyugateway.Json.{Json, Message}
use shenyugateway.Window.Groups.{non_system_messages}
use shenyugateway.Window.Select.{
  limit_eq, WindowState, Request, check_state, high_water, exceeds, continues, starts_history,
  select_chunked_window, Selected, system_messages, cache_is_cold,
}

drop_append_early {ℓ} :
    {A : Type ℓ} (n : ℕ) (xs ys : List A) → n ≤ length xs → drop n (xs ++ ys) ≡ drop n xs ++ ys
drop_append_early zero xs ys h = refl
drop_append_early (suc n) [] ys h = absurd (omega arith)
drop_append_early (suc n) (x ∷ xs) ys h = drop_append_early n xs ys (omega arith)

drop_nil {ℓ} : {A : Type ℓ} (n : ℕ) → drop {A = A} n [] ≡ []
drop_nil zero = refl
drop_nil (suc n) = refl

drop-drop {ℓ} : {A : Type ℓ} (m n : ℕ) (xs : List A) → n ≤ m → drop (m - n) (drop n xs) ≡ drop m xs
drop-drop m zero xs h = let e : m - 0 ≡ m = omega arith in rw e
drop-drop zero (suc n) xs h = absurd (omega arith)
drop-drop (suc m) (suc n) [] h = drop_nil (suc m - suc n)
drop-drop (suc m) (suc n) (x ∷ xs) h =
    let e : suc m - suc n ≡ m - n = omega arith in rw e (drop-drop m n xs (omega arith))

module _ (empty : Json) (r : Request) (previous : WindowState) where
  abbrev selected : Selected
  selected = select_chunked_window empty r (some previous)

  abbrev history : List Message
  history = non_system_messages r.messages

  -- While the epoch is kept, the epoch's id and the limit are the stored ones, and the window begins
  -- at the stored place, less what the client's history lost at its head.
  pub epoch_kept :
      selected.state.epoch_reset ≡ false
      → (selected.state.epoch_id ≡ previous.epoch_id)
        × (limit_eq previous.base_limit r.limit ≡ true)
        × (selected.state.window_start_index ≡ previous.window_start_index - r.head_slide_messages)
        × (selected.messages
            ≡ system_messages r.messages
              ++ drop (previous.window_start_index - r.head_slide_messages) history)
  unfolding select_chunked_window check_state
  epoch_kept h = ground arith

  pub anchor_kept :
      selected.state.epoch_reset ≡ false
      → selected.state.island_anchor_offset
        ≡ min previous.island_anchor_offset
            (length (drop (previous.window_start_index - r.head_slide_messages) history))
  unfolding select_chunked_window check_state
  anchor_kept h = ground arith

  -- The client's history is the last one without its first messages, and with new ones at its end;
  -- the window did not yet hold what was dropped. While the epoch is kept, the window is the last
  -- one with the new messages at its end: what was sent before is sent again, as it was.
  pub window_grows :
      (old appended : List Message)
      → history ≡ drop r.head_slide_messages old ++ appended
      → r.head_slide_messages ≤ previous.window_start_index
      → previous.window_start_index ≤ length old
      → selected.state.epoch_reset ≡ false
      → selected.messages
        ≡ system_messages r.messages ++ (drop previous.window_start_index old ++ appended)
  window_grows old appended e slid within kept =
      let n = previous.window_start_index in
      let k = r.head_slide_messages in
      let early : n - k ≤ length (drop k old) = omega (arith, length-drop k old) in
      (epoch_kept kept).3
      ∙ ap (λ h. system_messages r.messages ++ drop (n - k) h) e
      ∙ ap (◌++◌ (system_messages r.messages))
          (drop_append_early (n - k) (drop k old) appended early)
      ∙ ap (λ h. system_messages r.messages ++ (h ++ appended)) (drop-drop n k old slid)

  -- The epoch is kept exactly when the stored state has one under the same limit, the history is
  -- neither new nor a branch, the cache is not known to be cold, the window's start is still within
  -- the history, and the window does not pass the high-water mark, or a turn is going on.
  pub epoch_kept_iff : (selected.state.epoch_reset ≡ false) ↔ (
      (is_empty previous.epoch_id ≡ false)
      × (limit_eq previous.base_limit r.limit ≡ true)
      × (starts_history r.event_class ≡ false)
      × (cache_is_cold r.idle_seconds r.cold_cache_threshold_seconds ≡ false)
      × (previous.window_start_index - r.head_slide_messages ≤ length history)
      × ((exceeds
              (high_water r.limit)
              (length (drop (previous.window_start_index - r.head_slide_messages) history))
            ≡ false)
          ⊎ (continues r.event_class ≡ true)))
  unfolding select_chunked_window check_state
  epoch_kept_iff = (λ h. ground arith, λ h. ground arith)
