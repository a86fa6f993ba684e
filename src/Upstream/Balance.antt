-- ===== src/Upstream/Balance.antt =====
-- Over the messages that upstream_adapter.py converts, the blocks with a breakpoint grow with the
-- reported paths, but for those that the messages bring along.
use mathlib.Core.List.{reverse, reverse-cons}
use shenyugateway.Common.{
  ℕ, suc, ◌+◌, Bool, true, false, not, ◌&&◌, Option, List, [], ◌∷◌, ◌≡◌, refl, inl, inr, arith,
  if◌then◌else◌, length, Bool-cases,
}
use shenyugateway.Text.{Text, codes, text_eq, is_empty}
use shenyugateway.Json.{Json, str, field, end, get, has_role, Message, Stdlib}
use shenyugateway.Layers.Assemble.{LayerTexts}
use shenyugateway.Window.Events.{text_block}
use shenyugateway.Upstream.Normal.{normalize_text}
use shenyugateway.Upstream.Blocks.{text_blocks, content_blocks}
use shenyugateway.Upstream.Cache.{CacheLimits, memory_island, system_end, marked_block}
use shenyugateway.Upstream.State.{
  ApiMessage, Conversion, is_island, is_tool_result_only_message, system_cache_text, mark_turn,
}
use shenyugateway.Upstream.Messages.{
  island_fields, bump_blocks, convert_island, convert_system_text, convert_user, assistant_content,
  convert_assistant, result_block, with_result, convert_tool, convert_message, convert_messages,
}
use shenyugateway.Upstream.Marks.{
  marks, turn_marks, marks-append, turn_marks-append, marked_block-marks, mark_turn-marks,
}

pub turn_marks-reverse : (ts : List ApiMessage) → turn_marks (reverse ts) ≡ turn_marks ts
turn_marks-reverse [] = refl
turn_marks-reverse (t ∷ ts) =
    rw (reverse-cons t ts)
      (omega (arith, turn_marks-append (reverse ts) (t ∷ []), turn_marks-reverse ts))

-- All marked blocks so far.
abbrev pub all_marks : Conversion → ℕ
all_marks s = marks s.system + turn_marks s.turns

-- From one state to another, as many blocks were marked as paths reported, and `brought` more came
-- with a mark.
abbrev pub Balanced : ℕ → Conversion → Conversion → Type 0
Balanced brought s t = all_marks t + length s.paths ≡ all_marks s + brought + length t.paths

if_Balanced :
    (b : Bool) (k l : ℕ) (s t u : Conversion)
    → Balanced k s t
    → Balanced l s u
    → Balanced (if b then k else l) s (if b then t else u)
if_Balanced true k l s t u h g = h
if_Balanced false k l s t u h g = g

if_Balanced_both :
    (b : Bool) (k : ℕ) (s t u : Conversion)
    → Balanced k s t
    → Balanced k s u
    → Balanced k s (if b then t else u)
if_Balanced_both true k s t u h g = h
if_Balanced_both false k s t u h g = g

module _ (std : Stdlib) (loads : Text → Option Json) (new_id : ℕ → Json) where
  turn_marks-with_result :
      (block : Json) (turns : List ApiMessage)
      → turn_marks (with_result std loads new_id block turns)
        ≡ turn_marks turns + marks (block ∷ [])
  unfolding with_result
  turn_marks-with_result block [] = omega arith
  turn_marks-with_result block (t ∷ ts) = elim (Bool-cases (is_tool_result_only_message (t ∷ ts))) [
    | inl e ↦ rw (e, with_result) (omega (arith, marks-append t.content (block ∷ [])))
    | inr e ↦ rw (e, with_result) (omega arith)
  ]

  text_blocks-marks : (t : Text) → marks (text_blocks std t) ≡ 0
  unfolding text_blocks text_block get
  text_blocks-marks [] = refl
  text_blocks-marks (c ∷ t) = refl

  bump_blocks-marks : (m : Message) → marks (bump_blocks std loads new_id m) ≡ 0
  unfolding bump_blocks text_block get
  bump_blocks-marks m = ground arith

  -- The blocks that a message brings along with a breakpoint of its own.
  abbrev pub brought_by : Message → ℕ
  brought_by m =
      if is_island m
      then 0
      else if has_role "system" m
      then 0
      else if has_role "user" m
      then marks (content_blocks std (get "content" m))
      else if has_role "assistant" m
      then marks (assistant_content std loads new_id m)
      else 0

  abbrev pub brought : List Message → ℕ
  brought [] = 0
  brought (m ∷ ms) = brought_by m + brought ms

  convert_island-Balanced :
      (limits : CacheLimits) (m : Message) (s : Conversion)
      → Balanced 0 s (convert_island std loads new_id limits m s)
  unfolding convert_island island_fields get
  convert_island-Balanced limits m s =
      let before = mark_turn limits s.turns s.paths in
      let block = marked_block limits (island_fields std loads new_id m) before.paths in
      let island =
        marked_block-marks limits (island_fields std loads new_id m)
          (memory_island (length s.turns)) before.paths in
      omega (
        arith,
        mark_turn-marks limits s.turns s.paths,
        island,
        bump_blocks-marks m,
        marks-append (Json.obj block ∷ []) (bump_blocks std loads new_id m),
      )

  convert_system_text-Balanced :
      (layers : LayerTexts) (limits : CacheLimits) (text : Text) (s : Conversion)
      → Balanced 0 s (convert_system_text std loads new_id layers limits text s)
  unfolding convert_system_text get
  convert_system_text-Balanced layers limits text s =
      let block = field "type" (str (codes "text")) (field "text" (str text) end) in
      let marked = Json.obj (marked_block limits block s.paths) in
      if_Balanced_both (is_empty text) 0 s _ _ (omega arith) (
        if_Balanced_both (not (is_empty layers.volatile) && text_eq text layers.volatile) 0 s _ _
          (omega arith)
          (if_Balanced_both
            (not (is_empty (system_cache_text layers)) && text_eq text (system_cache_text layers)) 0
            s _ _
            (omega (
              arith,
              marks-append s.system (marked ∷ []),
              marked_block-marks limits block system_end s.paths,
            ))
            (omega (arith, marks-append s.system (Json.obj block ∷ [])))))

  convert_user-Balanced :
      (i : ℕ) (m : Message) (s : Conversion)
      → Balanced
          (marks (content_blocks std (get "content" m)))
          s
          (convert_user std loads new_id i m s)
  unfolding convert_user
  convert_user-Balanced i m s =
      let content = content_blocks std (get "content" m) in
      omega (arith, marks-append (text_blocks std s.volatile) content, text_blocks-marks s.volatile)

  convert_assistant-Balanced :
      (m : Message) (s : Conversion)
      → Balanced
          (marks (assistant_content std loads new_id m))
          s
          (convert_assistant std loads new_id m s)
  unfolding convert_assistant
  convert_assistant-Balanced m s = omega arith

  convert_tool-Balanced :
      (m : Message) (s : Conversion) → Balanced 0 s (convert_tool std loads new_id m s)
  unfolding convert_tool result_block get
  convert_tool-Balanced m s =
      omega (arith, turn_marks-with_result (result_block std loads new_id m) s.turns)

  convert_message-Balanced :
      (layers : LayerTexts) (limits : CacheLimits) (i : ℕ) (m : Message) (s : Conversion)
      → Balanced (brought_by m) s (convert_message std loads new_id layers limits i m s)
  unfolding convert_message
  convert_message-Balanced layers limits i m s =
      if_Balanced (is_island m) 0 _ s _ _ (convert_island-Balanced limits m s) (
        if_Balanced (has_role "system" m) 0 _ s _ _
          (convert_system_text-Balanced layers limits (normalize_text std (get "content" m)) s)
          (if_Balanced (has_role "user" m) _ _ s _ _ (convert_user-Balanced i m s) (
            if_Balanced (has_role "assistant" m) _ _ s _ _ (convert_assistant-Balanced m s) (
              if_Balanced_both (has_role "tool" m) 0 s _ s (convert_tool-Balanced m s)
                (omega arith)))))

  pub convert_messages-Balanced :
      (layers : LayerTexts) (limits : CacheLimits) (i : ℕ) (ms : List Message) (s : Conversion)
      → Balanced (brought ms) s (convert_messages std loads new_id layers limits i ms s)
  unfolding convert_messages
  convert_messages-Balanced layers limits i [] s = omega arith
  convert_messages-Balanced layers limits i (m ∷ ms) s =
      let next = convert_message std loads new_id layers limits i m s in
      omega (
        arith,
        convert_message-Balanced layers limits i m s,
        convert_messages-Balanced layers limits (suc i) ms next,
      )
