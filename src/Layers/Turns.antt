-- ===== src/Layers/Turns.antt =====
-- `tool_call_ids`, `tool_turn_start`, `latest_complete_tool_turn_start`, `tool_safe_trim_start` and
-- `trim_client_messages` of context_layers.py.
use shenyugateway.Common.{
  ℕ, zero, suc, ◌+◌, ◌-◌, Bool, false, not, ◌&&◌, ◌||◌, Option, none, some, List, [], ◌∷◌, ◌++◌,
  ◌==◌, leb, min, if◌then◌else◌, length, take, drop, all, any,
}
use shenyugateway.Text.{Text, mem_text}
use shenyugateway.Json.{Json, obj, str, Message, get, truthy, has_role, list_of, Stdlib, to_str}
use shenyugateway.Window.Select.{Limit, positive}
use shenyugateway.Window.Classify.{is_nonempty}
use shenyugateway.Window.Bridge.{insert_at}

-- `value in ids`, of a value that may be no text.
unfoldable pub is_among : Json → List Text → Bool
is_among (str t) ids = mem_text t ids
is_among _ ids = false

-- Whether the message before an index is the user's.
unfoldable pub user_before : List Message → ℕ → Bool
user_before [] i = false
user_before (m ∷ ms) zero = false
user_before (m ∷ ms) (suc zero) = has_role "user" m
user_before (m ∷ ms) (suc (suc i)) = user_before ms (suc i)

unfoldable pub tool_turn_start : List Message → ℕ → ℕ
tool_turn_start messages i = if user_before messages i then i - 1 else i

-- The messages of the tool's at the front.
unfoldable pub leading_tools : List Message → List Message
leading_tools [] = []
leading_tools (m ∷ ms) = let rest = leading_tools ms in if has_role "tool" m then m ∷ rest else []

-- What a scan for a safe start comes to: the start, or a start to try again from.
pub data Scan : Type 0 where
  settled : ℕ → Scan
  again : ℕ → Scan

module _ (std : Stdlib) where
  -- The ids of the calls that are a `dict` with an id.
  unfoldable pub call_ids : List Json → List Text
  call_ids [] = []
  call_ids (obj d ∷ calls) =
      let rest = call_ids calls in
      if truthy (get "id" d) then to_str std (get "id" d) ∷ rest else rest
  call_ids (_ ∷ calls) = call_ids calls

  unfoldable pub tool_call_ids : Message → List Text
  unfolding call_ids
  tool_call_ids msg = call_ids (list_of (get "tool_calls" msg))

  -- The last message with a call of this id.
  unfoldable pub call_before : Json → List Message → Option ℕ
  call_before id [] = none
  call_before id (m ∷ ms) = elim (call_before id ms) [
    | some i ↦ some (suc i)
    | none ↦ if is_among id (tool_call_ids m) then some 0 else none
  ]

  -- `found == expected`: the found ids are among the expected ones anyway.
  unfoldable pub all_answered : List Text → List Message → Bool
  all_answered expected tools =
      all (λ id. any (λ m. is_among (get "tool_call_id" m) (id ∷ [])) tools) expected

  -- A complete tool turn at the end: calls, and then nothing but their results.
  unfoldable pub is_complete_turn : Message → List Message → Bool
  is_complete_turn msg trailing =
      has_role "assistant" msg
      && is_nonempty (tool_call_ids msg)
      && is_nonempty trailing
      && all (has_role "tool") trailing
      && all_answered (tool_call_ids msg) trailing

  -- `for idx in range(len(messages) - 2, -1, -1)`: the last one is found first.
  unfoldable pub latest_complete_tool_turn_start : List Message → Option ℕ
  latest_complete_tool_turn_start [] = none
  latest_complete_tool_turn_start (m ∷ ms) = elim (latest_complete_tool_turn_start ms) [
    | some i ↦ some (suc i)
    | none ↦ if is_complete_turn m ms then some 0 else none
  ]

  -- An assistant's message with calls at an index, and what follows it.
  unfoldable pub scan_calls : List Message → ℕ → ℕ → List Text → List Message → Scan
  scan_calls messages start i expected rest =
      let results = leading_tools rest in
      if not (all_answered expected results)
      then settled (i + 1 + length results)
      else if i == start
      then settled (tool_turn_start messages i)
      else settled start

  -- The loop over the indices from `i` on.
  unfoldable pub scan_from : List Message → ℕ → ℕ → List Message → Scan
  unfolding scan_calls tool_turn_start
  scan_from messages start i [] = settled start
  scan_from messages start i (m ∷ rest) =
      let later = scan_from messages start (suc i) rest in
      if has_role "tool" m
      then if not (truthy (get "tool_call_id" m))
        then later
        else elim (call_before (get "tool_call_id" m) (take i messages)) [
          | some prev ↦ again (tool_turn_start messages prev)
          | none ↦ settled (i + 1)
        ]
      else if has_role "assistant" m && is_nonempty (tool_call_ids m)
      then scan_calls messages start i (tool_call_ids m) rest
      else later

  -- `none` if the calls of itself, `fuel` in number, were not enough.
  unfoldable pub tool_safe_trim_start : ℕ → List Message → ℕ → Option ℕ
  unfolding scan_from
  tool_safe_trim_start zero messages start = none
  tool_safe_trim_start (suc fuel) messages start =
      let s = min start (length messages) in
      elim (scan_from messages s s (drop s messages)) [
        | settled r ↦ some r
        | again r ↦ tool_safe_trim_start fuel messages r
      ]

  -- The messages with what `meta` tells of them, but for what it repeats of the arguments.
  pub record Trimmed : Type 0 where
    pub messages : List Message
    pub retained : ℕ
    pub trim_start : Option ℕ
    pub tool_tail : Option ℕ

  unfoldable pub kept_whole : List Message → Trimmed
  kept_whole messages = record {
    messages = messages;
    retained = length messages;
    trim_start = none;
    tool_tail = none;
  }

  -- `non_system[start:]`, or the history's part of it and then the tool turn from `latest` on.
  unfoldable pub kept_part : Option ℕ → List Message → ℕ → List Message
  kept_part none non_system start = drop start non_system
  kept_part (some latest) non_system start =
      drop start (take latest non_system) ++ drop latest non_system

  unfoldable pub trimmed_at : List Message → Option ℕ → ℕ → Trimmed
  unfolding kept_part
  trimmed_at messages latest start =
      let first_non_system = insert_at messages in
      let non_system = drop first_non_system messages in
      let kept = take first_non_system messages ++ kept_part latest non_system start in
      record {
        messages = kept;
        retained = length kept;
        trim_start = some (first_non_system + start);
        tool_tail = elim latest [ none ↦ none | some l ↦ some (length (drop l non_system)) ];
      }

  unfoldable pub trimmed_if : List Message → Option ℕ → Option ℕ → Option Trimmed
  unfolding trimmed_at
  trimmed_if messages latest none = none
  trimmed_if messages latest (some start) = some (trimmed_at messages latest start)

  -- The messages that are scanned for a safe start: all but a complete tool turn at their end.
  unfoldable pub scanned_history : Option ℕ → List Message → List Message
  scanned_history none non_system = non_system
  scanned_history (some latest) non_system = take latest non_system

  unfoldable pub trim_client_messages : ℕ → List Message → Limit → Option Trimmed
  unfolding kept_whole trimmed_if latest_complete_tool_turn_start scanned_history
  trim_client_messages fuel messages limit =
      let non_system = drop (insert_at messages) messages in
      let bound = positive limit in
      if bound == 0 || leb (length non_system) bound
      then some (kept_whole messages)
      else (let latest = latest_complete_tool_turn_start non_system in
          let history = scanned_history latest non_system in
          trimmed_if messages latest (tool_safe_trim_start fuel history (length history - bound)))
