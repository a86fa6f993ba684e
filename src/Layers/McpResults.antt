-- ===== src/Layers/McpResults.antt =====
-- `trim_mcp_tool_results` of context_layers.py: old results of MCP tools are shortened. The counts that
-- it reports beside the messages are left out.
use shenyugateway.Common.{
  ℕ, suc, ◌-◌, Bool, false, not, ◌&&◌, Option, none, some, List, [], ◌∷◌, ◌++◌, ◌==◌, leb,
  if◌then◌else◌, length, take, any,
}
use shenyugateway.Text.{Text, codes, text_eq, starts_with, is_empty}
use shenyugateway.Json.{
  Json, str, Message, get, put, has_role, list_of, dict_or_empty, Stdlib, str_or_empty,
}

-- A call's id and the name of its tool.
pub record NamedCall : Type 0 where
  pub id : Text
  pub name : Text

module _ (std : Stdlib) where
  unfoldable pub tool_call_name_from_msg : Json → Text
  tool_call_name_from_msg call =
      str_or_empty std (get "name" (dict_or_empty (get "function" (dict_or_empty call))))

  -- The calls of MCP tools that have an id.
  unfoldable pub mcp_calls : List Json → List NamedCall
  unfolding tool_call_name_from_msg
  mcp_calls [] = []
  mcp_calls (call ∷ calls) =
      let name = tool_call_name_from_msg call in
      let id = str_or_empty std (get "id" (dict_or_empty call)) in
      let rest = mcp_calls calls in
      if starts_with name (codes "mcp_") && not (is_empty id)
      then record { id = id; name = name } ∷ rest
      else rest

  unfoldable pub mcp_call_ids : List Message → List NamedCall
  unfolding mcp_calls
  mcp_call_ids [] = []
  mcp_call_ids (m ∷ ms) =
      let rest = mcp_call_ids ms in
      if has_role "assistant" m then mcp_calls (list_of (get "tool_calls" m)) ++ rest else rest

  -- The name that an id was given last.
  unfoldable pub name_of_id : List NamedCall → Text → Option Text
  name_of_id [] id = none
  name_of_id (call ∷ calls) id = elim (name_of_id calls id) [
    | some name ↦ some name
    | none ↦ if text_eq call.id id then some call.name else none
  ]

  unfoldable pub content_text : Message → Text
  content_text m = str_or_empty std (get "content" m)

  -- The tool that a message is a large result of.
  unfoldable pub hit : List NamedCall → Message → Option Text
  unfolding name_of_id content_text
  hit calls m =
      if has_role "tool" m && leb 600 (length (content_text m))
      then name_of_id calls (str_or_empty std (get "tool_call_id" m))
      else none

  unfoldable pub is_hit_of : List NamedCall → Text → Message → Bool
  unfolding hit
  is_hit_of calls name m = elim (hit calls m) [ none ↦ false | some n ↦ text_eq n name ]

  -- The indices of a tool's large results, from `i` on.
  unfoldable pub hit_indices : List NamedCall → Text → ℕ → List Message → List ℕ
  unfolding is_hit_of
  hit_indices calls name i [] = []
  hit_indices calls name i (m ∷ ms) =
      let rest = hit_indices calls name (suc i) ms in
      if is_hit_of calls name m then i ∷ rest else rest

  -- `indices[:-keep]`, and all of them for 0.
  unfoldable pub all_but_last : ℕ → List ℕ → List ℕ
  all_but_last keep indices = take (length indices - keep) indices

  unfoldable pub has_index : ℕ → List ℕ → Bool
  has_index i indices = any (λ j. i == j) indices

  unfoldable pub mcp_stub : Text → Message → Message
  mcp_stub name m = put "content" (str (codes "[" ++ name ++ codes " 的历史结果已省略，如需数据请重新调用]")) m

  -- Every message, or a stub for one whose index is among those to compress.
  unfoldable pub rebuilt : ℕ → List NamedCall → List Message → ℕ → List Message → List Message
  unfolding hit hit_indices all_but_last has_index mcp_stub
  rebuilt keep calls messages i [] = []
  rebuilt keep calls messages i (m ∷ ms) =
      (elim (hit calls m) [
        | none ↦ m
        | some name ↦
            if has_index i (all_but_last keep (hit_indices calls name 0 messages))
            then mcp_stub name m
            else m
      ])
      ∷ rebuilt keep calls messages (suc i) ms

  unfoldable pub trim_mcp_tool_results : ℕ → List Message → List Message
  unfolding rebuilt mcp_call_ids
  trim_mcp_tool_results keep_recent messages =
      rebuilt keep_recent (mcp_call_ids messages) messages 0 messages
