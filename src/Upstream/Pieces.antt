-- ===== src/Upstream/Pieces.antt =====
-- Small parts of upstream_adapter.py: `_convert_openai_tools_to_anthropic`,
-- `_anthropic_stop_reason_to_openai` and `_text_chunks`.
use shenyugateway.Common.{
  ℕ, zero, suc, String, ◌≤◌, ◌<◌, Option, none, some, List, [], ◌∷◌, ◌++◌, ◌==◌, ◌≡◌, inl, inr,
  refl, ap, ◌∙◌, arith, if◌then◌else◌, length, take, drop, Bool-cases, length-drop,
  take-append-drop, append-nil,
}
use shenyugateway.Text.{Text, codes, text_eq, mem_text, strip, is_empty, join}
use shenyugateway.Json.{
  Json, str, obj, Fields, field, end, get, truthy, dict_or_empty, Stdlib, str_or_empty,
}
use shenyugateway.Registry.Arguments.{has_key}

-- `d.get(key, default)`
unfoldable pub get_or : String → Json → Fields → Json
unfolding has_key
get_or key default d = if has_key key d then get key d else default

-- A tool in Anthropic's form; one without a name is left out.
unfoldable pub convert_openai_tools_to_anthropic : List Json → List Json
unfolding get_or
convert_openai_tools_to_anthropic [] = []
convert_openai_tools_to_anthropic (tool ∷ tools) =
    let function = dict_or_empty (get "function" (dict_or_empty tool)) in
    let rest = convert_openai_tools_to_anthropic tools in
    let empty = obj (field "type" (str (codes "object")) (field "properties" (obj end) end)) in
    if truthy (get "name" function)
    then obj (
        field "name" (get "name" function) (
          field "description" (get_or "description" (str []) function)
            (field "input_schema" (get_or "parameters" empty function) end)))
      ∷ rest
    else rest

-- The slices of a text from the front, for as many rounds as are left.
unfoldable pub slices : ℕ → ℕ → Text → List Text
slices chunk_chars zero text = []
slices chunk_chars (suc rounds) text =
    let rest = slices chunk_chars rounds (drop chunk_chars text) in
    if is_empty text then [] else take chunk_chars text ∷ rest

-- The chunks that are yielded; a text has no more of them than characters.
unfoldable pub text_chunks : Text → ℕ → List Text
unfolding slices
text_chunks text chunk_chars =
    if chunk_chars == 0 then text ∷ [] else slices chunk_chars (length text) text

slices-join :
    (n rounds : ℕ) (text : Text) → 0 < n → length text ≤ rounds → join (slices n rounds text) ≡ text
unfolding slices join
slices-join n zero [] h le = refl
slices-join n zero (c ∷ text) h le = absurd (omega (arith, le))
slices-join n (suc rounds) [] h le = refl
slices-join n (suc rounds) (c ∷ text) h le =
    let len = length-drop n (c ∷ text) in
    ap (◌++◌ (take n (c ∷ text)))
      (slices-join n rounds (drop n (c ∷ text)) h (omega (arith, len, le)))
    ∙ take-append-drop n (c ∷ text)

-- The chunks of a text make up the text, whatever their size.
text_chunks-join : (text : Text) (chunk_chars : ℕ) → join (text_chunks text chunk_chars) ≡ text
unfolding text_chunks join
text_chunks-join text n = elim (Bool-cases (n == 0)) [
  | inl e ↦ rw (e, text_chunks) (append-nil text)
  | inr e ↦ rw (e, text_chunks) (slices-join n (length text) text (ground arith) (omega arith))
]

module _ (std : Stdlib) where
  unfoldable pub anthropic_stop_reason_to_openai : Json → Option Text
  unfolding strip str_or_empty mem_text
  anthropic_stop_reason_to_openai stop_reason =
      let reason = strip (str_or_empty std stop_reason) in
      if text_eq reason (codes "tool_use")
      then some (codes "tool_calls")
      else if text_eq reason (codes "max_tokens")
      then some (codes "length")
      else if mem_text reason (codes "end_turn" ∷ codes "stop_sequence" ∷ codes "stop" ∷ [])
      then some (codes "stop")
      else none
