-- ===== src/Layers/Tests.antt =====
-- Runs of the layers at a concrete conversation.
use shenyugateway.Common.{
  ℕ, ◌+◌, true, false, none, some, String, List, [], ◌∷◌, ◌≡◌, ◌⊎◌, refl, arith, length, all, any,
  last_n, zero, suc,
}
use shenyugateway.Text.{codes, mem_text}
use shenyugateway.Json.{
  Json, null, str, arr, obj, Fields, field, end, Message, Stdlib, items, get, has_role,
}
use shenyugateway.Window.Bridge.{insert_at}
use shenyugateway.Window.Select.{at_most}
use shenyugateway.Layers.Turns.{
  is_among, call_ids, tool_call_ids, call_before, tool_safe_trim_start, scan_from, scan_calls,
  tool_turn_start, user_before, leading_tools, all_answered, Trimmed, kept_whole,
  trim_client_messages,
}
use shenyugateway.Layers.Calls.{is_caller_ok, is_result}
use shenyugateway.Layers.Settled.{no_orphans, Sound}
use shenyugateway.Layers.Start.{start_found}
use shenyugateway.Layers.Trim.{KeepsEnd, trim_found}
use shenyugateway.Layers.Place.{parts_results, parts_end}
use shenyugateway.Layers.Assemble.{
  LayerTexts, prefix_layers, bridge_messages_from_snapshot, island_index, assemble_layered_messages,
}
use shenyugateway.Layers.Kept.{Extends, one_if, assembled, island_whole}
use shenyugateway.Layers.McpResults.{mcp_call_ids, trim_mcp_tool_results}
use shenyugateway.Layers.Aged.{all_aged, trimmed_results}
use shenyugateway.Layers.ColdStart.{
  bridgeable, source_messages, all_messages, trim_cold_start_sources, trimmed_sources,
}

abbrev std : Stdlib
std = record {
  repr = λ v. [];
  dumps = λ v. [];
  sha256_hex = λ t. t;
  lower = λ t. t;
  regex_sub = λ pattern new t. t;
}

abbrev message : String → String → Message
message role content = field "role" (str (codes role)) (field "content" (str (codes content)) end)

abbrev call : Json
call = obj (field "id" (str (codes "x")) end)

abbrev conversation : List Message
conversation =
    message "user" "a"
    ∷ field "role" (str (codes "assistant")) (field "tool_calls" (arr (items (call ∷ []))) end)
    ∷ field "role" (str (codes "tool")) (field "tool_call_id" (str (codes "x")) end)
    ∷ message "user" "b"
    ∷ message "assistant" "c"
    ∷ []

callers : all (is_caller_ok std) conversation ≡ true
unfolding all is_caller_ok has_role get tool_call_ids call_ids
callers = refl

answered_calls : no_orphans std [] conversation ≡ true
unfolding no_orphans call_before is_result tool_call_ids call_ids has_role get is_among mem_text
answered_calls = refl

start_found_example :
    (r : ℕ) × (tool_safe_trim_start std 4 conversation 2 ≡ some r) × Sound std conversation r
start_found_example = start_found std 4 conversation 2 callers answered_calls (omega arith)

-- The trim goes back to the user's message before the calls.
trimmed_back : tool_safe_trim_start std 4 conversation 2 ≡ some 0
unfolding tool_safe_trim_start scan_from scan_calls tool_turn_start user_before leading_tools
    all_answered has_role get call_before tool_call_ids call_ids is_among mem_text all any
trimmed_back = refl

-- A user's message with calls, and their result: a start that is looked for comes back for ever.
abbrev caller_is_user : List Message
caller_is_user =
    field "role" (str (codes "user")) (field "tool_calls" (arr (items (call ∷ []))) end)
    ∷ field "role" (str (codes "tool")) (field "tool_call_id" (str (codes "x")) end)
    ∷ []

endless : (fuel : ℕ) → tool_safe_trim_start std fuel caller_is_user 0 ≡ none
unfolding tool_safe_trim_start scan_from scan_calls tool_turn_start user_before leading_tools
    all_answered has_role get call_before tool_call_ids call_ids is_among mem_text all any
endless zero = refl
endless (suc fuel) = endless fuel

-- Of two results without their calls only the first is passed over.
abbrev orphan : Message
orphan = field "role" (str (codes "tool")) (field "tool_call_id" (str (codes "x")) end)

second_orphan : tool_safe_trim_start std 1 (orphan ∷ orphan ∷ []) 0 ≡ some 1
unfolding tool_safe_trim_start scan_from scan_calls tool_turn_start user_before leading_tools
    all_answered has_role get call_before tool_call_ids call_ids is_among mem_text all any
second_orphan = refl

trim_found_example :
    (t : Trimmed std) × (trim_client_messages std 6 conversation (at_most 3) ≡ some t)
    × ((t ≡ kept_whole std conversation) ⊎ KeepsEnd std conversation t)
unfolding insert_at has_role get
trim_found_example = trim_found std 6 conversation (at_most 3) callers answered_calls (omega arith)

abbrev layers : LayerTexts
layers = record {
  stable = codes "s";
  slow = [];
  heartbeat = codes "h";
  tool_policy = [];
  format = [];
  mem = codes "m";
  island_bumps = [];
  volatile = codes "v";
}

assembled_example :
    Extends
      (length (prefix_layers layers)
        + length (bridge_messages_from_snapshot null)
        + one_if layers.mem
        + one_if layers.volatile)
      conversation
      (assemble_layered_messages conversation layers null (some 2)).messages
assembled_example = assembled conversation layers null (some 2)

island_whole_example :
    (parts_results conversation (island_index (some 2) conversation) ≡ false)
    × (parts_end conversation (island_index (some 2) conversation) ≡ false)
island_whole_example = island_whole conversation (some 2)

abbrev source : String → Fields
source content =
    field "messages"
      (arr (items (obj (message "user" content) ∷ obj (message "assistant" "d") ∷ []))) end

trimmed_sources_example :
    all_messages source_messages (trim_cold_start_sources (source "a" ∷ source "b" ∷ []) 3)
    ≡ last_n 3 (all_messages bridgeable (source "a" ∷ source "b" ∷ []))
trimmed_sources_example = trimmed_sources (source "a" ∷ source "b" ∷ []) 3

trimmed_results_example :
    trim_mcp_tool_results std 1 conversation
    ≡ all_aged std 1 (mcp_call_ids std conversation) conversation
trimmed_results_example = trimmed_results std 1 conversation
