-- ===== src/Upstream/Bounded.antt =====
-- The conversion of upstream_adapter.py sets no more breakpoints than it may, and those that it
-- reports.
use mathlib.Core.List.{reverse}
use shenyugateway.Common.{
  ℕ, zero, suc, ◌+◌, ◌≤◌, ◌≡◌, Bool, true, false, not, ◌&&◌, Option, List, [], ◌∷◌, leb, inl, inr,
  arith, if◌then◌else◌, length, length-append, Bool-cases,
}
use shenyugateway.Text.{Text, codes, text_eq, is_empty}
use shenyugateway.Json.{Json, str, obj, Fields, field, end, get, has_role, Message, Stdlib}
use shenyugateway.Upstream.Normal.{normalize_text}
use shenyugateway.Layers.Assemble.{LayerTexts}
use shenyugateway.Upstream.Cache.{
  CachePath, memory_island, system_end, CacheLimits, can_mark, marked_paths, mark_here, mark_last,
}
use shenyugateway.Upstream.State.{ApiMessage, Conversion, mark_turn, is_island, system_cache_text}
use shenyugateway.Upstream.Messages.{
  island_fields, convert_island, convert_system_text, convert_user, convert_assistant, convert_tool,
  convert_message, convert_messages,
}
use shenyugateway.Upstream.Tail.{
  mark_content, mark_tail, marked_tail, guarded_turn, unconverted, openai_to_anthropic,
}
use shenyugateway.Upstream.Marks.{marks, turn_marks, marked_tail-marks}
use shenyugateway.Upstream.Balance.{turn_marks-reverse, brought, convert_messages-Balanced}

abbrev Bounded : CacheLimits → List CachePath → Type 0
Bounded limits paths = length paths ≤ limits.max_breakpoints

marked_paths-Bounded :
    (limits : CacheLimits) (block : Fields) (path : CachePath) (paths : List CachePath)
    → Bounded limits paths
    → Bounded limits (marked_paths limits block path paths)
unfolding marked_paths can_mark
marked_paths-Bounded limits block path paths h =
    let len = length-append paths (path ∷ []) in ground (arith, len)

mark_here-Bounded :
    (candidate : Fields → Bool) (limits : CacheLimits) (path : CachePath) (paths : List CachePath)
    (block : Json) (rest : List Json)
    → Bounded limits paths
    → Bounded limits (mark_here candidate limits path paths block rest).paths
unfolding mark_here
mark_here-Bounded candidate limits path paths (obj d) rest h = elim (Bool-cases (candidate d)) [
  | inl e ↦ rw (e, mark_here) (marked_paths-Bounded limits d path paths h)
  | inr e ↦ rw (e, mark_here) h
]
mark_here-Bounded candidate limits path paths block rest h = h

mark_last-Bounded :
    (candidate : Fields → Bool) (limits : CacheLimits) (path : ℕ → CachePath)
    (paths : List CachePath) (i : ℕ) (blocks : List Json)
    → Bounded limits paths
    → Bounded limits (mark_last candidate limits path paths i blocks).paths
unfolding mark_last
mark_last-Bounded candidate limits path paths i [] h = h
mark_last-Bounded candidate limits path paths i (b ∷ bs) h =
    let later = mark_last-Bounded candidate limits path paths (suc i) bs h in
    elim (Bool-cases (mark_last candidate limits path paths (suc i) bs).found) [
      | inl e ↦ rw (e, mark_last) later
      | inr e ↦ rw (e, mark_last) (mark_here-Bounded candidate limits (path i) paths b bs h)
    ]

mark_turn-Bounded :
    (limits : CacheLimits) (turns : List ApiMessage) (paths : List CachePath)
    → Bounded limits paths
    → Bounded limits (mark_turn limits turns paths).paths
unfolding mark_turn
mark_turn-Bounded limits [] paths h = h
mark_turn-Bounded limits (t ∷ ts) paths h = mark_last-Bounded _ limits _ paths 0 t.content h

mark_tail-Bounded :
    (guarded : Option ℕ) (limits : CacheLimits) (paths : List CachePath) (i count : ℕ)
    (turns : List ApiMessage)
    → Bounded limits paths
    → Bounded limits (mark_tail guarded limits paths i count turns).paths
unfolding mark_tail mark_content
mark_tail-Bounded guarded limits paths i zero turns h = h
mark_tail-Bounded guarded limits paths i (suc count) [] h = h
mark_tail-Bounded guarded limits paths i (suc count) (t ∷ ts) h =
    let later = mark_tail-Bounded guarded limits paths (suc i) count ts h in
    elim (Bool-cases (mark_tail guarded limits paths (suc i) count ts).found) [
      | inl e ↦ rw (e, mark_tail) later
      | inr e ↦ rw (e, mark_tail, mark_content) (mark_last-Bounded _ limits _ paths 0 t.content h)
    ]

marked_tail-Bounded :
    (guarded : Option ℕ) (limits : CacheLimits) (paths : List CachePath) (turns : List ApiMessage)
    → Bounded limits paths
    → Bounded limits (marked_tail guarded limits paths turns).paths
unfolding marked_tail
marked_tail-Bounded guarded limits paths turns h =
    elim (Bool-cases (leb limits.max_breakpoints (length paths))) [
      | inl e ↦ rw (e, marked_tail) h
      | inr e ↦ rw (e, marked_tail) (mark_tail-Bounded guarded limits paths 0 _ turns h)
    ]

-- A branch keeps within the limits if both of its sides do.
if_Bounded :
    (limits : CacheLimits) (b : Bool) (s t : Conversion)
    → Bounded limits s.paths
    → Bounded limits t.paths
    → Bounded limits (if b then s else t).paths
if_Bounded limits true s t h k = h
if_Bounded limits false s t h k = k

module _ (std : Stdlib) (loads : Text → Option Json) (new_id : ℕ → Json) where
  convert_system_text-Bounded :
      (layers : LayerTexts) (limits : CacheLimits) (text : Text) (s : Conversion)
      → Bounded limits s.paths
      → Bounded limits (convert_system_text std loads new_id layers limits text s).paths
  unfolding convert_system_text
  convert_system_text-Bounded layers limits text s h = if_Bounded limits (is_empty text) _ _ h (
      if_Bounded limits (not (is_empty layers.volatile) && text_eq text layers.volatile) _ _ h (
        if_Bounded limits
          (not (is_empty (system_cache_text layers)) && text_eq text (system_cache_text layers)) _ _
          (marked_paths-Bounded limits
            (field "type" (str (codes "text")) (field "text" (str text) end)) system_end s.paths h)
          h))

  convert_message-Bounded :
      (layers : LayerTexts) (limits : CacheLimits) (i : ℕ) (m : Message) (s : Conversion)
      → Bounded limits s.paths
      → Bounded limits (convert_message std loads new_id layers limits i m s).paths
  unfolding convert_message convert_island convert_user convert_assistant convert_tool
  convert_message-Bounded layers limits i m s h =
      let before = mark_turn limits s.turns s.paths in
      if_Bounded limits (is_island m) _ _
        (marked_paths-Bounded limits (island_fields std loads new_id m)
          (memory_island (length s.turns)) before.paths
          (mark_turn-Bounded limits s.turns s.paths h))
        (if_Bounded limits (has_role "system" m) _ _
          (convert_system_text-Bounded layers limits (normalize_text std (get "content" m)) s h)
          (if_Bounded limits (has_role "user" m) _ _ h (
            if_Bounded limits (has_role "assistant" m) _ _ h
              (if_Bounded limits (has_role "tool" m) _ s h h))))

  convert_messages-Bounded :
      (layers : LayerTexts) (limits : CacheLimits) (i : ℕ) (ms : List Message) (s : Conversion)
      → Bounded limits s.paths
      → Bounded limits (convert_messages std loads new_id layers limits i ms s).paths
  unfolding convert_messages
  convert_messages-Bounded layers limits i [] s h = h
  convert_messages-Bounded layers limits i (m ∷ ms) s h =
      convert_messages-Bounded layers limits (suc i) ms
        (convert_message std loads new_id layers limits i m s)
        (convert_message-Bounded layers limits i m s h)

  -- If no more than `max_breakpoints` breakpoints were set before, `_openai_to_anthropic` reports no
  -- more of them in all: before the island, on it, at the end of the system's prompt and on the
  -- stable tail together. And the system's blocks and the turns' blocks that have a breakpoint are
  -- as many as the messages' own ones and the newly reported ones: nothing else is marked.
  pub breakpoints_bounded :
      (messages : List Message) (layers : LayerTexts) (paths : List CachePath)
      (limits : CacheLimits) (guard : ℕ)
      → length paths ≤ limits.max_breakpoints
      → let sent = openai_to_anthropic std loads new_id messages layers paths limits guard in
        (length sent.paths ≤ limits.max_breakpoints)
        × (marks sent.system + turn_marks sent.turns + length paths
            ≡ brought std loads new_id messages + length sent.paths)
  unfolding openai_to_anthropic unconverted
  breakpoints_bounded messages layers paths limits guard h =
      let start = unconverted paths in
      let s = convert_messages std loads new_id layers limits 0 messages start in
      let guarded = guarded_turn messages guard s in
      let balance = convert_messages-Balanced std loads new_id layers limits 0 messages start in
      let tail = marked_tail-marks guarded limits s.paths (reverse s.turns) in
      (
        marked_tail-Bounded guarded limits s.paths (reverse s.turns)
            (convert_messages-Bounded layers limits 0 messages start h),
        omega (arith, balance, tail, turn_marks-reverse s.turns),
      )
