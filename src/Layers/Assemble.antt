-- ===== src/Layers/Assemble.antt =====
-- `bridge_messages_from_snapshot` and `assemble_layered_messages` of context_layers.py.
use shenyugateway.Common.{
  ℕ, zero, suc, ◌+◌, ◌-◌, Bool, true, false, not, ◌&&◌, ◌||◌, Option, none, some, List, [], ◌∷◌,
  ◌++◌, min, if◌then◌else◌, length, take, drop,
}
use shenyugateway.Text.{Text, codes, is_empty}
use shenyugateway.Json.{
  Json, str, field, end, Message, get, truthy, has_role, list_of, dict_or_empty,
}
use shenyugateway.Window.Bridge.{insert_at}
use shenyugateway.Layers.Place.{slide_off_tool_transcript}

-- The texts of the layers; a layer that is not there is empty.
pub record LayerTexts : Type 0 where
  pub stable : Text
  pub slow : Text
  pub heartbeat : Text
  pub tool_policy : Text
  pub format : Text
  pub mem : Text
  pub island_bumps : Text
  pub volatile : Text

-- `meta`, with `none` for a key that is not set.
pub record Assembly : Type 0 where
  pub messages : List Message
  pub cold_start_bridge_messages : Option ℕ
  pub client_messages_after_bridge : Option ℕ
  pub island_bump_chars : Option ℕ
  pub memory_island_insert_index : Option ℕ
  pub memory_island_anchor_offset : Option ℕ

-- The messages of a source that are sent on, with their role and content only.
unfoldable pub bridged : List Json → List Message
bridged [] = []
bridged (value ∷ messages) =
    let msg = dict_or_empty value in
    let rest = bridged messages in
    if (has_role "user" msg || has_role "assistant" msg) && truthy (get "content" msg)
    then field "role" (get "role" msg) (field "content" (get "content" msg) end) ∷ rest
    else rest

unfoldable pub bridged_sources : List Json → List Message
unfolding bridged
bridged_sources [] = []
bridged_sources (source ∷ sources) =
    bridged (list_of (get "messages" (dict_or_empty source))) ++ bridged_sources sources

unfoldable pub bridge_messages_from_snapshot : Json → List Message
unfolding bridged_sources
bridge_messages_from_snapshot snapshot =
    if not (truthy snapshot)
    then []
    else bridged_sources (list_of (get "sources" (dict_or_empty snapshot)))

unfoldable pub system_message : Text → Message
system_message text = field "role" (str (codes "system")) (field "content" (str text) end)

unfoldable pub layer_messages : List Text → List Message
unfolding system_message
layer_messages [] = []
layer_messages (text ∷ texts) =
    let rest = layer_messages texts in if is_empty text then rest else system_message text ∷ rest

unfoldable pub prefix_layers : LayerTexts → List Message
unfolding layer_messages
prefix_layers layers =
    layer_messages
      (layers.stable ∷ layers.slow ∷ layers.heartbeat ∷ layers.tool_policy ∷ layers.format ∷ [])

-- `messages[index:index] = added`
unfoldable pub insert_all : ℕ → List Message → List Message → List Message
insert_all index added messages = take index messages ++ added ++ drop index messages

-- The indices, from `i` on, of the messages that are not the system's.
unfoldable pub history_indices : ℕ → List Message → List ℕ
history_indices i [] = []
history_indices i (m ∷ ms) =
    let rest = history_indices (suc i) ms in if not (has_role "system" m) then i ∷ rest else rest

-- `indices[offset] if offset < len(indices) else end`
unfoldable pub index_or : ℕ → List ℕ → ℕ → ℕ
index_or otherwise [] offset = otherwise
index_or otherwise (i ∷ indices) zero = i
index_or otherwise (i ∷ indices) (suc offset) = index_or otherwise indices offset

unfoldable pub island_offset : Option ℕ → ℕ → ℕ
island_offset none count = count - 32
island_offset (some offset) count = min offset count

-- The island with its bumps, which are no part of its content.
unfoldable pub island_message : Text → Text → Message
island_message island bumps = field "role" (str (codes "system")) (
    field "content" (str island) (
      field "_shenyu_context_layer" (str (codes "memory_island"))
        (if is_empty bumps then end else field "_shenyu_island_bumps" (str bumps) end)))

-- The last message of the user's.
unfoldable pub last_user : List Message → Option ℕ
last_user [] = none
last_user (m ∷ ms) = elim (last_user ms) [
  | some i ↦ some (suc i)
  | none ↦ if has_role "user" m then some 0 else none
]

unfoldable pub volatile_index : List Message → ℕ
unfolding last_user
volatile_index messages = elim (last_user messages) [ some i ↦ i | none ↦ length messages - 1 ]

-- The steps of the assembly.
unfoldable pub with_bridge : ℕ → List Message → List Message → List Message
unfolding insert_all
with_bridge prefix bridge messages =
    insert_all (prefix + insert_at (drop prefix messages)) bridge messages

unfoldable pub island_anchor : Option ℕ → List Message → ℕ
unfolding island_offset history_indices
island_anchor offset messages = island_offset offset (length (history_indices 0 messages))

unfoldable pub island_index : Option ℕ → List Message → ℕ
unfolding island_anchor index_or
island_index offset messages =
    slide_off_tool_transcript messages
      (index_or (length messages) (history_indices 0 messages) (island_anchor offset messages))

unfoldable pub with_island : LayerTexts → Option ℕ → List Message → List Message
unfolding island_index insert_all island_message
with_island layers offset messages =
    if is_empty layers.mem
    then messages
    else insert_all (island_index offset messages)
        (island_message layers.mem layers.island_bumps ∷ []) messages

unfoldable pub with_volatile : LayerTexts → List Message → List Message
unfolding volatile_index insert_all
with_volatile layers messages =
    if is_empty layers.volatile
    then messages
    else insert_all (volatile_index messages) (system_message layers.volatile ∷ []) messages

unfoldable pub before_island : List Message → LayerTexts → Json → List Message
unfolding with_bridge prefix_layers bridge_messages_from_snapshot
before_island client_messages layers snapshot =
    let prefix = prefix_layers layers in
    with_bridge (length prefix) (bridge_messages_from_snapshot snapshot) (prefix ++ client_messages)

unfoldable pub set_if : Bool → ℕ → Option ℕ
set_if false n = none
set_if true n = some n

unfoldable pub is_some_message : List Message → Bool
is_some_message [] = false
is_some_message (m ∷ ms) = true

unfoldable pub assemble_layered_messages : List Message → LayerTexts → Json → Option ℕ → Assembly
unfolding before_island with_island with_volatile set_if is_some_message
assemble_layered_messages client_messages layers snapshot offset =
    let bridge = bridge_messages_from_snapshot snapshot in
    let before = before_island client_messages layers snapshot in
    let island = not (is_empty layers.mem) in
    record {
      messages = with_volatile layers (with_island layers offset before);
      cold_start_bridge_messages = set_if (is_some_message bridge) (length bridge);
      client_messages_after_bridge = set_if (is_some_message bridge) (length before);
      island_bump_chars =
          set_if (island && not (is_empty layers.island_bumps)) (length layers.island_bumps);
      memory_island_insert_index = set_if island (island_index offset before);
      memory_island_anchor_offset = set_if island (island_anchor offset before);
    }
