-- ===== src/Window/Bounds.antt =====
-- The size of the window that `select_chunked_window` keeps, and where it begins.
use native.Mathlib.Decide.{dec_lt}
use shenyugateway.Common.{
  ◌%◌, ℕ, ◌-◌, ◌≤◌, ◌<◌, Bool, true, false, Option, none, some, List, [], ◌∷◌, ◌≡◌, ◌≢◌, ◌⊎◌, inl,
  inr, arith, length, drop, length-drop, Bool-cases,
}
use shenyugateway.Json.{Json, Message}
use shenyugateway.Window.Groups.{non_system_messages, group_safe_start}
use shenyugateway.Window.Boundaries.{
  LastStart, user_at, group_safe_start-LastStart, group_safe_start-le, group_safe_start_end,
}
use shenyugateway.Window.Select.{
  Limit, positive, WindowState, Request, Choice, first_choice, trimmed_choice, high_water, exceeds,
  continues, chosen_anchor, select_chunked_window, Selected, desired_start, anchor_offset,
  overflow_messages_for_limit,
}

-- Under a limit the overflow lies between 20 and 40 messages, and is a multiple of 4.
pub overflow_bounds :
    (limit : Limit)
    → positive limit ≢ 0
    → (20 ≤ overflow_messages_for_limit limit)
      × (overflow_messages_for_limit limit ≤ 40)
      × (overflow_messages_for_limit limit % 4 ≡ 0)
unfolding overflow_messages_for_limit
overflow_bounds limit h = (ground arith, ground arith, ground arith)

-- A place where a window may begin.
abbrev pub IsCut : List Message → ℕ → Type 0
IsCut hs i = (i ≡ 0) ⊎ (i ≡ length hs) ⊎ (user_at hs i ≡ true)

safe_start-IsCut : (hs : List Message) (d : ℕ) → IsCut hs (group_safe_start hs d)
safe_start-IsCut hs d = elim (dec_lt d (length hs)) [
  | yes h ↦ last-IsCut (group_safe_start-LastStart hs d h).starts
  | no h ↦ inr (inl (group_safe_start_end hs d (omega arith)))
]
  where
    last-IsCut :
        (group_safe_start hs d ≡ 0) ⊎ (user_at hs (group_safe_start hs d) ≡ true)
        → IsCut hs (group_safe_start hs d)
    last-IsCut (inl e) = inl e
    last-IsCut (inr u) = inr (inr u)

first_start-IsCut :
    (r : Request) (hs : List Message) (previous : Option WindowState)
    → (first_choice r hs previous).epoch_reset ≡ true
    → IsCut hs (first_choice r hs previous).start
unfolding first_choice
first_start-IsCut r hs previous h = ground (arith, safe_start-IsCut hs (desired_start r.limit hs))

high_water-le : (limit : Limit) → positive limit ≢ 0 → positive limit ≤ high_water limit
unfolding high_water
high_water-le limit h = ground arith

module _ (r : Request) (hs : List Message) (c : Choice) where
  trimmed_bounded :
      positive r.limit ≢ 0
      → continues r.event_class ≡ false
      → (length (drop (trimmed_choice r hs c).start hs) ≤ high_water r.limit)
        ⊎ (LastStart (user_at hs) 0 (length hs - positive r.limit) (trimmed_choice r hs c).start)
  unfolding trimmed_choice
  trimmed_bounded limited whole =
      elim (Bool-cases (exceeds (high_water r.limit) (length (drop c.start hs)))) [
        | inl over ↦
            let size = length-drop c.start hs in
            let some_history : 0 < length hs = ground (arith, size) in
            rw (over, whole)
              (inr (
                group_safe_start-LastStart hs (length hs - positive r.limit)
                  (omega (arith, limited))))
        | inr fits ↦
            let mark = high_water-le r.limit limited in rw fits (inl (ground (arith, mark)))
      ]

  trimmed_start-le : c.start ≤ length hs → (trimmed_choice r hs c).start ≤ length hs
  unfolding trimmed_choice
  trimmed_start-le h = ground (arith, group_safe_start-le hs (length hs - positive r.limit))

trimmed_start-IsCut :
    (r : Request) (hs : List Message) (c : Choice)
    → (c.epoch_reset ≡ true → IsCut hs c.start)
    → (trimmed_choice r hs c).epoch_reset ≡ true
    → IsCut hs (trimmed_choice r hs c).start
unfolding trimmed_choice
trimmed_start-IsCut r hs c cut h =
    ground (arith, safe_start-IsCut hs (length hs - positive r.limit))

first_start-le :
    (r : Request) (hs : List Message) (previous : Option WindowState)
    → (first_choice r hs previous).start ≤ length hs
unfolding first_choice
first_start-le r hs previous = ground (arith, group_safe_start-le hs (desired_start r.limit hs))

anchor_offset-le : (ms : List Message) (tail : ℕ) → anchor_offset ms tail ≤ length ms
unfolding anchor_offset
anchor_offset-le [] tail = omega arith
anchor_offset-le (m ∷ ms) tail = group_safe_start-le (m ∷ ms) _

chosen_anchor-le :
    (r : Request) (previous : Option WindowState) (reset : Bool) (retained : List Message)
    → chosen_anchor r previous reset retained ≤ length retained
unfolding chosen_anchor
chosen_anchor-le r previous true retained = anchor_offset-le retained _
chosen_anchor-le r none false retained = omega arith
chosen_anchor-le r (some state) false retained = omega arith

module _ (empty : Json) (r : Request) (previous : Option WindowState) where
  abbrev selected : Selected
  selected = select_chunked_window empty r previous

  abbrev history : List Message
  history = non_system_messages r.messages

  pub window_start-le : selected.state.window_start_index ≤ length history
  unfolding select_chunked_window
  window_start-le = trimmed_start-le r history _ (first_start-le r history previous)

  -- Under a limit, outside a turn that goes on, the window holds at most the high-water mark, or it
  -- begins at the start of the human turn in which the limit's last messages begin.
  pub window_bounded :
      positive r.limit ≢ 0
      → continues r.event_class ≡ false
      → (length (drop selected.state.window_start_index history) ≤ high_water r.limit)
        ⊎ (LastStart
            (user_at history)
            0
            (length history - positive r.limit)
            selected.state.window_start_index)
  unfolding select_chunked_window
  window_bounded = trimmed_bounded r history _

  pub anchor-le :
      selected.state.island_anchor_offset ≤ length (drop selected.state.window_start_index history)
  unfolding select_chunked_window
  anchor-le = chosen_anchor-le r previous _ _

  -- A window that is cut afresh begins at the history's start, at its end, or with a message of the
  -- user's, so that no reply and no tool's transcript loses its beginning.
  pub reset_start :
      selected.state.epoch_reset ≡ true → IsCut history selected.state.window_start_index
  unfolding select_chunked_window
  reset_start = trimmed_start-IsCut r history _ (first_start-IsCut r history previous)
