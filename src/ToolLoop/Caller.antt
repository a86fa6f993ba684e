-- ===== src/ToolLoop/Caller.antt =====
-- The message of an assistant that called tools, as tool_loop.py appends it.
use shenyugateway.Common.{
  true, false, String, List, [], ◌∷◌, ◌≡◌, refl, ap, ◌∙◌, inl, inr, Bool-cases, if◌then◌else◌,
}
use text.Mathlib.Text.{◌==◌ as str_eq}
use shenyugateway.Text.{Text, codes, strip, is_empty}
use shenyugateway.Json.{
  Json, null, boolean, number, str, arr, obj, cons, Fields, field, end, Message, get, put, truthy,
  has_role, is_text, list_items, items, Stdlib,
}
use shenyugateway.Json.Dicts.{get-put_other}
use shenyugateway.Upstream.State.{is_island}
use shenyugateway.Upstream.Normal.{normalize_text}
use shenyugateway.Upstream.Contents.{sanitize_openai_content_blocks}
use shenyugateway.Upstream.Caller.{
  with_nonempty, list_or_null, dict_or_null, with_call_content, assistant_tool_call_message,
}

-- What the message of an assistant that calls tools keeps of its first two items.
module _ (std : Stdlib) (dumps : Json → Text) (key : String)
    (other : str_eq "content" key ≡ false) where
  with_nonempty-get :
      (k : String) (v : Json) (m : Message)
      → str_eq k key ≡ false
      → get key (with_nonempty std dumps k v m) ≡ get key m
  unfolding with_nonempty
  with_nonempty-get k v m h = elim (Bool-cases (truthy v)) [
    | inl e ↦ rw (e, with_nonempty) (get-put_other k key v m h)
    | inr e ↦ rw (e, with_nonempty) refl
  ]

  with_text-get :
      (v : Json) (m : Message)
      → get key (
          let text = normalize_text std v in
          if is_empty (strip text) then m else put "content" (str text) m)
        ≡ get key m
  with_text-get v m = elim (Bool-cases (is_empty (strip (normalize_text std v)))) [
    | inl e ↦ rw e refl
    | inr e ↦ rw e (get-put_other "content" key _ m other)
  ]

  blocks-get :
      (blocks : List Json) (m : Message)
      → get key
          (elim blocks [ [] ↦ m | block ∷ rest ↦ put "content" (arr (cons block (items rest))) m ])
        ≡ get key m
  blocks-get [] m = refl
  blocks-get (b ∷ bs) m = get-put_other "content" key _ m other

  with_call_content-get :
      (v : Json) (m : Message) → get key (with_call_content std dumps v m) ≡ get key m
  unfolding with_call_content
  with_call_content-get (arr vs) m =
      blocks-get (sanitize_openai_content_blocks std dumps (list_items vs)) m
  with_call_content-get null m = with_text-get null m
  with_call_content-get (boolean b) m = with_text-get (boolean b) m
  with_call_content-get (number s d p) m = with_text-get (number s d p) m
  with_call_content-get (str t) m = with_text-get (str t) m
  with_call_content-get (obj d) m = with_text-get (obj d) m

  caller-get :
      (v : Fields) (calls : List Json)
      → str_eq "_shenyu_anthropic_thinking_config" key ≡ false
      → str_eq "_shenyu_anthropic_content_blocks" key ≡ false
      → get key (assistant_tool_call_message std dumps v calls)
        ≡ get key
            (field "role" (str (codes "assistant")) (field "tool_calls" (arr (items calls)) end))
  unfolding assistant_tool_call_message
  caller-get v calls h k =
      let bare =
        field "role" (str (codes "assistant")) (field "tool_calls" (arr (items calls)) end) in
      let blocks = list_or_null std dumps (get "_shenyu_anthropic_content_blocks" v) in
      let config = dict_or_null std dumps (get "_shenyu_anthropic_thinking_config" v) in
      let with_blocks = with_nonempty std dumps "_shenyu_anthropic_content_blocks" blocks bare in
      with_call_content-get (get "content" v)
        (with_nonempty std dumps "_shenyu_anthropic_thinking_config" config with_blocks)
      ∙ with_nonempty-get "_shenyu_anthropic_thinking_config" config with_blocks h
      ∙ with_nonempty-get "_shenyu_anthropic_content_blocks" blocks bare k

module _ (std : Stdlib) (dumps : Json → Text) where
  -- The message of an assistant with calls has them all, is an assistant's, and is no island.
  pub caller-Calling :
      (v : Fields) (calls : List Json)
      → (get "tool_calls" (assistant_tool_call_message std dumps v calls) ≡ arr (items calls))
        × (has_role "assistant" (assistant_tool_call_message std dumps v calls) ≡ true)
        × (is_island (assistant_tool_call_message std dumps v calls) ≡ false)
  unfolding has_role is_island get
  caller-Calling v calls = (
    caller-get std dumps "tool_calls" refl v calls refl refl,
    ap (is_text (codes "assistant")) (caller-get std dumps "role" refl v calls refl refl),
    ap (is_text (codes "memory_island"))
        (caller-get std dumps "_shenyu_context_layer" refl v calls refl refl),
  )
