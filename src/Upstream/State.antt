-- ===== src/Upstream/State.antt =====
-- What `_openai_to_anthropic` of upstream_adapter.py builds up, and its tests of what there is.
use shenyugateway.Common.{
  ℕ, Bool, false, not, ◌&&◌, Option, List, [], ◌∷◌, if◌then◌else◌, length, all,
}
use shenyugateway.Text.{Text, codes, is_empty}
use shenyugateway.Json.{Json, obj, Fields, Message, get, is_text}
use shenyugateway.Layers.Assemble.{LayerTexts}
use shenyugateway.Upstream.Cache.{
  CachePath, before_island, CacheLimits, Marking, mark_last, is_thinking,
}

-- A message for Anthropic. An empty list stands for the content `""`.
pub record ApiMessage : Type 0 where
  pub from_user : Bool
  pub content : List Json

-- What the loop has come to: the turns, the newest first, the index of each user's message and of
-- its turn, the island's index, and a volatile text that waits for the user's next message.
pub record Conversion : Type 0 where
  pub system : List Json
  pub turns : List ApiMessage
  pub paths : List CachePath
  pub user_turns : List (ℕ × ℕ)
  pub island : Option ℕ
  pub volatile : Text

unfoldable pub is_tool_result : Json → Bool
is_tool_result (obj d) = is_text (codes "tool_result") (get "type" d)
is_tool_result _ = false

unfoldable pub is_tool_result_only_message : List ApiMessage → Bool
unfolding is_tool_result all
is_tool_result_only_message [] = false
is_tool_result_only_message (turn ∷ turns) =
    turn.from_user && elim turn.content [ [] ↦ false | b ∷ bs ↦ all is_tool_result (b ∷ bs) ]

-- The text that the last layer of the system's prompt has.
unfoldable pub first_text : List Text → Text
first_text [] = []
first_text (t ∷ ts) = let rest = first_text ts in if is_empty t then rest else t

unfoldable pub system_cache_text : LayerTexts → Text
unfolding first_text
system_cache_text layers =
    first_text
      (layers.format ∷ layers.tool_policy ∷ layers.heartbeat ∷ layers.slow ∷ layers.stable ∷ [])

unfoldable pub is_island : Message → Bool
is_island msg = is_text (codes "memory_island") (get "_shenyu_context_layer" msg)

unfoldable pub is_unthinking : Fields → Bool
unfolding is_thinking
is_unthinking d = not (is_thinking d)

-- The breakpoint before the island, on the last turn.
unfoldable pub mark_turn : CacheLimits → List ApiMessage → List CachePath → Marking
unfolding mark_last is_unthinking
mark_turn limits [] paths = record { blocks = []; paths = paths; found = false }
mark_turn limits (turn ∷ turns) paths =
    mark_last is_unthinking limits (λ i. before_island (length turns)) paths 0 turn.content

unfoldable pub with_content : List ApiMessage → List Json → List ApiMessage
with_content [] content = []
with_content (turn ∷ turns) content = record turn { content = content } ∷ turns
