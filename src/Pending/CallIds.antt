-- ===== src/Pending/CallIds.antt =====
-- shenyu_gateway/store/_base.py: `_canonical_tool_call_ids_json`, which names a set of tool calls by
-- one text.
use shenyugateway.Common.{
  Bool, false, true, ◌&&◌, ◌||◌, List, [], ◌∷◌, ltb, ◌==◌, if◌then◌else◌, map,
}
use shenyugateway.Json.{Json, Items, null, arr, str, nil, cons, items, Stdlib, to_str}
use shenyugateway.Text.{Text, text_eq, is_empty, strip}

-- `a <= b` of texts, by code points.
unfoldable pub text_leb : Text → Text → Bool
text_leb [] b = true
text_leb (c ∷ a) [] = false
text_leb (c ∷ a) (d ∷ b) = ltb c d || (c == d && text_leb a b)

-- An id into the sorted ids, each once.
unfoldable pub insert_id : Text → List Text → List Text
unfolding text_leb
insert_id id [] = id ∷ []
insert_id id (i ∷ ids) =
    let rest = insert_id id ids in
    if text_eq id i then i ∷ ids else if text_leb id i then id ∷ i ∷ ids else i ∷ rest

-- A list's elements, and any other value alone.
unfoldable pub as_values : Json → Items
as_values (arr vs) = vs
as_values value = cons value nil

unfoldable pub add_id_text : Text → List Text → List Text
unfolding insert_id
add_id_text text ids = if is_empty text then ids else insert_id text ids

module _ (std : Stdlib) where
  unfoldable pub add_call_id : Json → List Text → List Text
  unfolding add_id_text strip
  add_call_id null ids = ids
  add_call_id value ids = add_id_text (strip (to_str std value)) ids

  unfoldable pub call_ids_of : Items → List Text
  unfolding add_call_id
  call_ids_of nil = []
  call_ids_of (cons value values) = add_call_id value (call_ids_of values)

  -- The ids, and their text by `json_dumps`.
  unfoldable pub canonical_tool_call_ids : (Json → Text) → Json → List Text × Text
  unfolding call_ids_of as_values
  canonical_tool_call_ids json_dumps values =
      let ids = call_ids_of (as_values values) in
      (ids, json_dumps (arr (items (map (λ id. str id) ids))))
