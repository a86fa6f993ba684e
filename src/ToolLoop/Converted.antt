-- ===== src/ToolLoop/Converted.antt =====
-- A round of tool_loop.py in the form of Anthropic's API, by upstream_adapter.py.
use shenyugateway.Common.{ℕ, List, length, drop}
use shenyugateway.Text.{codes}
use shenyugateway.Json.{Json, str, Fields, Message, get, dict_or_empty}
use shenyugateway.Registry.Arguments.{or_else}
use shenyugateway.ToolLoop.State.{Context, Run}
use shenyugateway.ToolLoop.Rounds.{run_native_round}

-- The id that a result block names, and the one that names a call.
abbrev pub result_id : Json → Json
result_id block = get "tool_use_id" (dict_or_empty block)

unfoldable pub id_or_unknown : Json → Json
unfolding or_else
id_or_unknown id = or_else id (str (codes "unknown_tool_call"))

module _ {W : Type 0} (ctx : Context W) where
  -- What a round adds to the messages.
  abbrev pub added_by : ℕ → Fields → List Fields → Run W → List Message
  added_by i completion calls run =
      drop (length run.working_messages)
        (run_native_round ctx i completion calls run).working_messages
