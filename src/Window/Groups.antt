-- ===== src/Window/Groups.antt =====
-- `non_system_messages`, `human_turn_groups`, `group_safe_start`, `_last_group_start` and
-- `_has_tool_continuation` of context_window.py.
use shenyugateway.Common.{
  ℕ, suc, Bool, false, not, ◌&&◌, ◌||◌, List, [], ◌∷◌, min, leb, ltb, if◌then◌else◌, length,
}
use shenyugateway.Json.{Message, get, truthy, has_role}

unfoldable pub non_system_messages : List Message → List Message
non_system_messages [] = []
non_system_messages (m ∷ ms) =
    let rest = non_system_messages ms in if not (has_role "system" m) then m ∷ rest else rest

-- A group of messages is a half-open range of indices.
abbrev pub Group : Type 0
Group = ℕ × ℕ

-- The indices of the user's messages, the first message having index `i`.
unfoldable pub user_starts : ℕ → List Message → List ℕ
user_starts i [] = []
user_starts i (m ∷ ms) =
    let rest = user_starts (suc i) ms in if has_role "user" m then i ∷ rest else rest

-- Each start up to the next one, and the last up to the end.
unfoldable pub groups_from : List ℕ → ℕ → List Group
groups_from [] end_index = []
groups_from (start ∷ []) end_index = (start, end_index) ∷ []
groups_from (start ∷ next ∷ starts) end_index =
    (start, next) ∷ groups_from (next ∷ starts) end_index

-- `if starts[0] > 0: starts.insert(0, 0)`
unfoldable pub from_zero : List ℕ → List ℕ
from_zero [] = 0 ∷ []
from_zero (start ∷ starts) = if ltb 0 start then 0 ∷ start ∷ starts else start ∷ starts

unfoldable pub human_turn_groups : List Message → List Group
unfolding user_starts groups_from from_zero
human_turn_groups [] = []
human_turn_groups (m ∷ ms) = groups_from (from_zero (user_starts 0 (m ∷ ms))) (length (m ∷ ms))

-- The start of the group that holds an index, or the index.
unfoldable pub start_in : List Group → ℕ → ℕ
start_in [] desired_start = desired_start
start_in ((start, stop) ∷ groups) desired_start =
    if leb start desired_start && ltb desired_start stop
    then start
    else start_in groups desired_start

unfoldable pub group_safe_start : List Message → ℕ → ℕ
unfolding start_in human_turn_groups
group_safe_start messages desired =
    let desired_start = min desired (length messages) in
    if leb (length messages) desired_start
    then length messages
    else start_in (human_turn_groups messages) desired_start

unfoldable pub last_start : List Group → ℕ
last_start [] = 0
last_start ((start, stop) ∷ []) = start
last_start (g ∷ h ∷ groups) = last_start (h ∷ groups)

unfoldable pub last_group_start : List Message → ℕ
unfolding last_start human_turn_groups
last_group_start messages = last_start (human_turn_groups messages)

unfoldable pub has_tool_continuation : List Message → Bool
has_tool_continuation [] = false
has_tool_continuation (m ∷ ms) =
    has_role "tool" m
    || (has_role "assistant" m && truthy (get "tool_calls" m))
    || has_tool_continuation ms

unfoldable pub any_user : List Message → Bool
any_user [] = false
any_user (m ∷ ms) = has_role "user" m || any_user ms
