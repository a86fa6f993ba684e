-- ===== src/Window/Select.antt =====
-- `overflow_messages_for_limit`, `_anchor_offset` and `select_chunked_window` of context_window.py.
use shenyugateway.Common.{
  ℕ, ◌+◌, ◌-◌, ◌*◌, ◌/◌, ◌%◌, Bool, true, false, not, ◌&&◌, ◌||◌, Option, none, some, List, [], ◌∷◌,
  ◌++◌, ◌==◌, leb, ltb, if◌then◌else◌, length, drop, min, max,
}
use shenyugateway.Text.{Text, is_empty}
use shenyugateway.Json.{Json, Message, has_role}
use shenyugateway.Window.Groups.{non_system_messages, human_turn_groups, group_safe_start}
use shenyugateway.Window.Classify.{
  EventClass, initial, client_tool_continuation, continuation, branch,
}

-- A configured limit: absent, negative (`below n` is -(n + 1)), or a number.
pub data Limit : Type 0 where
  absent : Limit
  below : ℕ → Limit
  at_most : ℕ → Limit

abbrev pub limit_eq : Limit → Limit → Bool
limit_eq absent absent = true
limit_eq (below m) (below n) = m == n
limit_eq (at_most m) (at_most n) = m == n
limit_eq _ _ = false

-- The limit if it is positive, and 0 if there is none.
abbrev pub positive : Limit → ℕ
positive (at_most n) = n
positive _ = 0

-- `round(n / 20)`: to the nearest number, and from the middle to the even one.
unfoldable pub round_twentieth : ℕ → ℕ
round_twentieth n =
    let q = n / 20 in if ltb (n % 20) 10 then q else if ltb 10 (n % 20) then q + 1 else q + q % 2

-- `int(round((limit * 0.20) / 4.0) * 4)` is computed on exact numbers.
unfoldable pub overflow_messages_for_limit : Limit → ℕ
unfolding round_twentieth
overflow_messages_for_limit limit =
    if positive limit == 0 then 0 else max 20 (min (round_twentieth (positive limit) * 4) 40)

unfoldable pub anchor_offset : List Message → ℕ → ℕ
anchor_offset [] tail_messages = 0
anchor_offset (m ∷ ms) tail_messages = group_safe_start (m ∷ ms) (length (m ∷ ms) - tail_messages)

-- The `reset_reason`; `no_reset` is the empty text.
pub data ResetReason : Type 0 where
  no_reset config_changed cold_cache_rebuild history_shorter_than_window_start : ResetReason
  history_branch initial_window message_high_water : ResetReason

-- `window_state`, as it is stored between requests. Two parts of it belong to other modules and
-- only pass through.
pub record WindowState : Type 0 where
  pub epoch_id : Text
  pub base_limit : Limit
  pub overflow_messages : ℕ
  pub high_water : Option ℕ
  pub window_start_index : ℕ
  pub island_anchor_offset : ℕ
  pub last_event_class : EventClass
  pub reset_reason : ResetReason
  pub epoch_reset : Bool
  pub raw_protected_turns : ℕ
  pub island_state : Json
  pub system_prefix_state : Json

-- The arguments of `select_chunked_window`. Counts that the code clamps to 0 are numbers here, and
-- so is the idle time, in whole seconds; `draws` are the ids that `_new_epoch_id` returns.
pub record Request : Type 0 where
  pub messages : List Message
  pub limit : Limit
  pub event_class : EventClass
  pub head_slide_messages : ℕ
  pub island_tail_messages : ℕ
  pub raw_tool_protection_turns : ℕ
  pub idle_seconds : Option ℕ
  pub cold_cache_threshold_seconds : Option ℕ
  pub first_draw : Text
  pub second_draw : Text

-- The local variables that the two decisions, to reset and to trim, work on.
pub record Choice : Type 0 where
  pub start : ℕ
  pub epoch_id : Text
  pub reset_reason : ResetReason
  pub epoch_reset : Bool

pub data Compatible : Type 0 where
  compatible : ℕ → Compatible
  incompatible : ResetReason → Compatible

abbrev pub starts_history : EventClass → Bool
starts_history initial = true
starts_history branch = true
starts_history _ = false

abbrev pub is_branch : EventClass → Bool
is_branch branch = true
is_branch _ = false

-- The idle time has passed a positive threshold.
unfoldable pub cache_is_cold : Option ℕ → Option ℕ → Bool
cache_is_cold none threshold = false
cache_is_cold (some idle) none = false
cache_is_cold (some idle) (some threshold) = ltb 0 threshold && leb threshold idle

-- Whether the stored state still serves, and from which message on the window then starts.
unfoldable pub check_state : Request → List Message → Option WindowState → Compatible
unfolding cache_is_cold
check_state r history none = incompatible no_reset
check_state r history (some previous) =
    let changed = not (limit_eq previous.base_limit r.limit) in
    let start = previous.window_start_index - r.head_slide_messages in
    if is_empty previous.epoch_id || changed || starts_history r.event_class
    then incompatible (if changed then config_changed else no_reset)
    else if cache_is_cold r.idle_seconds r.cold_cache_threshold_seconds
    then incompatible cold_cache_rebuild
    else if ltb (length history) start
    then incompatible history_shorter_than_window_start
    else compatible start

-- `max(0, len(history) - limit)` under a limit, and 0 without one.
unfoldable pub desired_start : Limit → List Message → ℕ
desired_start limit history = if positive limit == 0 then 0 else length history - positive limit

-- `reset_reason or (…)`
unfoldable pub or_initial : ResetReason → EventClass → ResetReason
or_initial no_reset event_class = if is_branch event_class then history_branch else initial_window
or_initial reason event_class = reason

unfoldable pub first_choice : Request → List Message → Option WindowState → Choice
unfolding check_state desired_start or_initial
first_choice r history previous = elim (check_state r history previous) [
  | incompatible reason ↦ record {
    start = group_safe_start history (desired_start r.limit history);
    epoch_id = r.first_draw;
    reset_reason = or_initial reason r.event_class;
    epoch_reset = true;
  }
  | compatible start ↦ record {
    start = start;
    epoch_id = elim previous [ none ↦ [] | some state ↦ state.epoch_id ];
    reset_reason = no_reset;
    epoch_reset = false;
  }
]

-- The high-water mark, 0 for none.
unfoldable pub high_water : Limit → ℕ
unfolding overflow_messages_for_limit
high_water limit =
    if positive limit == 0 then 0 else positive limit + overflow_messages_for_limit limit

abbrev pub continues : EventClass → Bool
continues client_tool_continuation = true
continues continuation = true
continues _ = false

abbrev pub exceeds : ℕ → ℕ → Bool
exceeds mark retained = not (mark == 0) && ltb mark retained

-- Over the mark the window is cut, unless the request continues a turn.
unfoldable pub trimmed_choice : Request → List Message → Choice → Choice
trimmed_choice r history c =
    if exceeds (high_water r.limit) (length (drop c.start history)) && not (continues r.event_class)
    then record {
      start = group_safe_start history (length history - positive r.limit);
      epoch_id = r.second_draw;
      reset_reason = message_high_water;
      epoch_reset = true;
    }
    else c

pub record WindowMeta : Type 0 where
  pub client_messages_original : ℕ
  pub client_messages_retained : ℕ
  pub client_non_system_original : ℕ
  pub client_non_system_retained : ℕ
  pub client_messages_trim_start : ℕ
  pub memory_island_anchor_offset : ℕ
  pub human_turn_groups_retained : ℕ
  pub context_high_water_deferred : Bool

pub record Selected : Type 0 where
  pub messages : List Message
  pub state : WindowState
  pub window_meta : WindowMeta

unfoldable pub system_messages : List Message → List Message
system_messages [] = []
system_messages (m ∷ ms) =
    let rest = system_messages ms in if has_role "system" m then m ∷ rest else rest

-- The anchor of a new epoch, or the stored one within the window.
unfoldable pub chosen_anchor : Request → Option WindowState → Bool → List Message → ℕ
chosen_anchor r previous true retained = anchor_offset retained r.island_tail_messages
chosen_anchor r none false retained = 0
chosen_anchor r (some state) false retained = min state.island_anchor_offset (length retained)

-- The part of the state that passes through; `empty` stands for `{}`.
unfoldable pub stored : Json → (WindowState → Json) → Option WindowState → Json
stored empty field none = empty
stored empty field (some state) = field state

unfoldable pub select_chunked_window : Json → Request → Option WindowState → Selected
unfolding first_choice trimmed_choice chosen_anchor stored
select_chunked_window empty r previous =
    let history = non_system_messages r.messages in
    let first = first_choice r history previous in
    let c = trimmed_choice r history first in
    let retained = drop c.start history in
    let anchor = chosen_anchor r previous c.epoch_reset retained in
    let groups = length (human_turn_groups retained) in
    let mark = high_water r.limit in
    record {
      messages = system_messages r.messages ++ retained;
      state = record {
        epoch_id = c.epoch_id;
        base_limit = r.limit;
        overflow_messages = overflow_messages_for_limit r.limit;
        high_water = if mark == 0 then none else some mark;
        window_start_index = c.start;
        island_anchor_offset = anchor;
        last_event_class = r.event_class;
        reset_reason = c.reset_reason;
        epoch_reset = c.epoch_reset;
        raw_protected_turns = min groups r.raw_tool_protection_turns;
        island_state = stored empty (λ s. s.island_state) previous;
        system_prefix_state = stored empty (λ s. s.system_prefix_state) previous;
      };
      window_meta = record {
        client_messages_original = length r.messages;
        client_messages_retained = length (system_messages r.messages) + length retained;
        client_non_system_original = length history;
        client_non_system_retained = length retained;
        client_messages_trim_start = c.start;
        memory_island_anchor_offset = anchor;
        human_turn_groups_retained = groups;
        context_high_water_deferred =
            exceeds mark (length (drop first.start history)) && continues r.event_class;
      };
    }
