-- ===== src/Upstream/Sendable.antt =====
-- What `_sanitize_openai_compatible_messages` of upstream_adapter.py returns.
use shenyugateway.Common.{Bool, true, ◌&&◌, ◌||◌, ◌≡◌, if◌then◌else◌}
use shenyugateway.Text.{Text}
use shenyugateway.Json.{Json, Message, get, truthy, has_role, Stdlib}
use shenyugateway.Registry.Arguments.{has_key}
use shenyugateway.Upstream.Sanitize.{Sanitizing, flush_tool_images}

-- A message that has something in it, or is an assistant's with calls.
unfoldable pub is_sendable : Message → Bool
unfolding has_role
is_sendable m = truthy (get "content" m) || (has_role "assistant" m && truthy (get "tool_calls" m))

-- The content of a message is nothing or something, and not an empty text or list.
Filled : Message → Type 0
Filled m = has_key "content" m ≡ true → truthy (get "content" m) ≡ true

module _ (std : Stdlib) (dumps : Json → Text) where
  -- The state after the images that stand before a message.
  flushed_before : Message → Sanitizing std dumps → Sanitizing std dumps
  unfolding has_role
  flushed_before msg s = if has_role "tool" msg then s else flush_tool_images std dumps s
