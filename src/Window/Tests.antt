-- ===== src/Window/Tests.antt =====
-- Runs of the window at concrete requests.
use shenyugateway.Common.{
  ◌++◌, ◌-◌, ◌≤◌, ◌<◌, ◌≡◌, ◌≢◌, ◌⊎◌, ◌↔◌, true, false, none, some, List, [], ◌∷◌, refl, arith,
  String, length, drop,
}
use shenyugateway.Text.{codes, is_space, lstrip, rstrip, strip, find}
use shenyugateway.Json.{str, obj, end, field, Message, get, has_role, str_or_empty}
use shenyugateway.Window.Groups.{
  non_system_messages, human_turn_groups, group_safe_start, user_starts, groups_from, from_zero,
  start_in, last_start, last_group_start, any_user, has_tool_continuation,
}
use shenyugateway.Window.Boundaries.{
  user_at, LastStart, group_safe_start-LastStart, human_turn_groups-Covers, Covers,
}
use shenyugateway.Window.Classify.{new_user}
use shenyugateway.Window.Select.{
  at_most, no_reset, WindowState, Request, Selected, select_chunked_window, first_choice,
  check_state, desired_start, or_initial, trimmed_choice, high_water, overflow_messages_for_limit,
  round_twentieth, cache_is_cold, chosen_anchor, anchor_offset, stored, system_messages, positive,
  exceeds,
}
use shenyugateway.Window.Bounds.{window_bounded, reset_start, IsCut}
use shenyugateway.Window.Stable.{epoch_kept, epoch_kept_iff, window_grows}
use shenyugateway.Window.Retry.{first, second, retry_stable}
use shenyugateway.Window.Select.{limit_eq, starts_history, continues}
use shenyugateway.Text.{is_empty}
use shenyugateway.Common.{refl}

program : Unit {0}
unfolding is_space lstrip rstrip strip find get has_role str_or_empty non_system_messages
    human_turn_groups group_safe_start user_starts groups_from from_zero start_in last_start
    last_group_start any_user has_tool_continuation select_chunked_window first_choice check_state
    desired_start or_initial trimmed_choice high_water overflow_messages_for_limit round_twentieth
    cache_is_cold chosen_anchor anchor_offset stored system_messages
program = tt

abbrev message : String → String → Message
message role content = field "role" (str (codes role)) (field "content" (str (codes content)) end)

abbrev talk : List Message
talk =
    message "system" "be kind"
    ∷ message "user" "one"
    ∷ message "assistant" "two"
    ∷ message "user" "three"
    ∷ []

abbrev state : WindowState
state = record {
  epoch_id = codes "epoch_1";
  base_limit = at_most 40;
  overflow_messages = 20;
  high_water = some 60;
  window_start_index = 2;
  island_anchor_offset = 0;
  last_event_class = new_user;
  reset_reason = no_reset;
  epoch_reset = false;
  raw_protected_turns = 0;
  island_state = obj end;
  system_prefix_state = obj end;
}

abbrev request : Request
request = record {
  messages = talk;
  limit = at_most 40;
  event_class = new_user;
  head_slide_messages = 1;
  island_tail_messages = 1;
  raw_tool_protection_turns = 2;
  idle_seconds = some 60;
  cold_cache_threshold_seconds = some 3600;
  first_draw = codes "epoch_2";
  second_draw = codes "epoch_3";
}

kept : (select_chunked_window (obj end) request (some state)).state.epoch_reset ≡ false
unfolding program
kept = refl

abbrev selected : Selected
selected = select_chunked_window (obj end) request (some state)

abbrev history : List Message
history = non_system_messages talk

epoch_kept_run :
    (selected.state.epoch_id ≡ state.epoch_id)
    × (limit_eq (at_most 40) (at_most 40) ≡ true)
    × (selected.state.window_start_index ≡ 2 - 1)
    × (selected.messages ≡ system_messages talk ++ drop (2 - 1) history)
epoch_kept_run = epoch_kept (obj end) request state kept

epoch_kept_iff_example : (selected.state.epoch_reset ≡ false) ↔ (
    (is_empty state.epoch_id ≡ false)
    × (limit_eq (at_most 40) (at_most 40) ≡ true)
    × (starts_history new_user ≡ false)
    × (cache_is_cold (some 60) (some 3600) ≡ false)
    × (2 - 1 ≤ length history)
    × ((exceeds (high_water (at_most 40)) (length (drop (2 - 1) history)) ≡ false)
        ⊎ (continues new_user ≡ true)))
epoch_kept_iff_example = epoch_kept_iff (obj end) request state

abbrev older : List Message
older = message "user" "zero" ∷ message "user" "one" ∷ message "assistant" "two" ∷ []

grown : history ≡ drop 1 older ++ message "user" "three" ∷ []
unfolding program
grown = refl

window_grows_example :
    selected.messages ≡ system_messages talk ++ (drop 2 older ++ message "user" "three" ∷ [])
window_grows_example =
    window_grows (obj end) request state older (message "user" "three" ∷ []) grown (omega arith)
      (omega arith) kept

limited : positive (at_most 40) ≢ 0
limited = ground arith

window_bounded_example :
    (length (drop selected.state.window_start_index history) ≤ high_water (at_most 40))
    ⊎ (LastStart
        (user_at history)
        0
        (length history - positive (at_most 40))
        selected.state.window_start_index)
window_bounded_example = window_bounded (obj end) request (some state) limited refl

abbrev anew : Selected
anew = select_chunked_window (obj end) request none

reset : anew.state.epoch_reset ≡ true
unfolding program
reset = refl

reset_start_example : IsCut history anew.state.window_start_index
reset_start_example = reset_start (obj end) request none reset

abbrev sent : Selected
sent = first (obj end) request (some state)

abbrev sent_again : Selected
sent_again = second (obj end) request (some state)

named : is_empty sent.state.epoch_id ≡ false
unfolding program
named = refl

fits :
    exceeds (high_water (at_most 40)) (length (drop sent.state.window_start_index history)) ≡ false
unfolding program
fits = refl

retry_stable_example :
    (sent_again.messages ≡ sent.messages)
    × (sent_again.state.epoch_reset ≡ false)
    × (sent_again.state.epoch_id ≡ sent.state.epoch_id)
    × (sent_again.state.window_start_index ≡ sent.state.window_start_index)
    × (sent_again.state.island_anchor_offset ≡ sent.state.island_anchor_offset)
retry_stable_example = retry_stable (obj end) request (some state) named fits

human_turn_groups-Covers_run : Covers (human_turn_groups history) 0 (length history)
human_turn_groups-Covers_run = human_turn_groups-Covers history

inner : 1 < length history
unfolding program
inner = omega arith

group_safe_start-LastStart_example : LastStart (user_at history) 0 1 (group_safe_start history 1)
group_safe_start-LastStart_example = group_safe_start-LastStart history 1 inner
