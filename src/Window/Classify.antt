-- ===== src/Window/Classify.antt =====
-- `_head_slide_alignment` and `classify_history_event` of context_window.py.
use shenyugateway.Common.{
  ℕ, zero, suc, ◌-◌, Bool, true, false, not, ◌&&◌, ◌||◌, Option, none, some, List, [], ◌∷◌, ◌==◌,
  leb, ltb, if◌then◌else◌, length, take, drop,
}
use shenyugateway.Text.{Text, text_eq}
use shenyugateway.Json.{Message, has_role, Stdlib}
use shenyugateway.Window.Groups.{
  non_system_messages, last_group_start, has_tool_continuation, any_user,
}
use shenyugateway.Window.Events.{
  message_fingerprint, normalize_history_event_messages, common_prefix_length,
}

pub data EventClass : Type 0 where
  initial retry new_user client_tool_continuation continuation roll edit_tail branch : EventClass

abbrev pub min_head_slide_overlap : ℕ
min_head_slide_overlap = 8

-- Equality of lists of fingerprints.
abbrev pub texts_eq : List Text → List Text → Bool
texts_eq [] [] = true
texts_eq [] (u ∷ us) = false
texts_eq (t ∷ ts) [] = false
texts_eq (t ∷ ts) (u ∷ us) = text_eq t u && texts_eq ts us

-- The body of the loop over `slide`: whether the rest of the old history begins the new one.
unfoldable pub slides_by : List Text → List Text → ℕ → Bool
slides_by previous_fps current_fps slide =
    let overlap = length previous_fps - slide in
    texts_eq (take 1 (drop slide previous_fps)) (take 1 current_fps)
    && leb overlap (length current_fps)
    && texts_eq (drop slide previous_fps) (take overlap current_fps)

-- `for slide in range(slide, slide + rounds)`
unfoldable pub slide_from : List Text → List Text → ℕ → ℕ → Option (ℕ × ℕ)
slide_from previous_fps current_fps slide zero = none
slide_from previous_fps current_fps slide (suc rounds) =
    let rest = slide_from previous_fps current_fps (suc slide) rounds in
    if slides_by previous_fps current_fps slide
    then some (slide, length previous_fps - slide)
    else rest

pub record EventDetail : Type 0 where
  pub event_class : EventClass
  pub common_prefix_messages : ℕ
  pub strict_common_prefix_messages : ℕ
  pub transient_history_changes_ignored : Bool
  pub previous_non_system_messages : ℕ
  pub current_non_system_messages : ℕ
  pub new_human_turn : Bool
  pub head_slide : Option (ℕ × ℕ)

abbrev pub is_nonempty {ℓ} : {A : Type ℓ} → List A → Bool
is_nonempty [] = false
is_nonempty (x ∷ xs) = true

-- `current and current[-1].get("role") == "user"`
unfoldable pub ends_with_user : List Message → Bool
ends_with_user [] = false
ends_with_user (m ∷ []) = has_role "user" m
ends_with_user (m ∷ n ∷ ms) = ends_with_user (n ∷ ms)

-- The class of a history that goes on with `appended`, where `otherwise` says what it is with
-- neither a user's message nor a tool's.
unfoldable pub appended_class : EventClass → List Message → EventClass
appended_class otherwise appended =
    if any_user appended
    then new_user
    else if has_tool_continuation appended
    then client_tool_continuation
    else otherwise

abbrev pub is_new_user : EventClass → Bool
is_new_user new_user = true
is_new_user _ = false

unfoldable pub update_class : EventClass → Bool → EventDetail → EventDetail
update_class c human detail = record detail { event_class = c; new_human_turn = human }

module _ (std : Stdlib) where
  unfoldable pub fingerprints : List Message → List Text
  fingerprints [] = []
  fingerprints (m ∷ ms) = message_fingerprint std m ∷ fingerprints ms

  unfoldable pub head_slide_alignment : List Message → List Message → Option (ℕ × ℕ)
  unfolding slide_from slides_by fingerprints
  head_slide_alignment previous current =
      if leb (length previous) min_head_slide_overlap || not (is_nonempty current)
      then none
      else slide_from (fingerprints previous) (fingerprints current) 1
          (length previous - min_head_slide_overlap)

  -- Neither an extension nor a slide: the last group was edited, or the history is another.
  unfoldable pub classify_edit : List Message → List Message → ℕ → EventDetail → EventDetail
  unfolding update_class
  classify_edit previous current prefix detail =
      if leb (last_group_start previous) prefix && leb (last_group_start current) prefix
      then update_class edit_tail (ends_with_user current) detail
      else update_class branch true detail

  -- `if prefix == 0:` with its early return.
  unfoldable pub classify_slide : List Message → List Message → EventDetail → EventDetail
  unfolding classify_edit update_class appended_class head_slide_alignment
  classify_slide previous current detail = elim (head_slide_alignment previous current) [
    | none ↦ classify_edit previous current 0 detail
    | some (slide, overlap) ↦
        let appended = drop overlap current in
        let c = appended_class (if is_nonempty appended then continuation else retry) appended in
        update_class c (is_new_user c) (record detail { head_slide = some (slide, overlap) })
  ]

  unfoldable pub classify_changed : List Message → List Message → ℕ → EventDetail → EventDetail
  unfolding classify_slide
  classify_changed previous current prefix detail =
      if prefix == length previous && length current == prefix
      then update_class retry false detail
      else if prefix == length previous && ltb (length previous) (length current)
      then (let c = appended_class continuation (drop prefix current) in
          update_class c (is_new_user c) detail)
      else if prefix == length current && ltb (length current) (length previous)
      then update_class roll false detail
      else if prefix == 0
      then classify_slide previous current detail
      else classify_edit previous current prefix detail

  -- The detail before a class is chosen. An absent previous history is the empty one.
  unfoldable pub start_detail : List Message → List Message → EventDetail
  start_detail previous_messages current_messages =
      let strict_previous = non_system_messages previous_messages in
      let strict_current = non_system_messages current_messages in
      let strict_prefix = common_prefix_length std strict_previous strict_current in
      let previous = non_system_messages (normalize_history_event_messages std previous_messages) in
      let current = non_system_messages (normalize_history_event_messages std current_messages) in
      let prefix = common_prefix_length std previous current in
      record {
        event_class = initial;
        common_prefix_messages = prefix;
        strict_common_prefix_messages = strict_prefix;
        transient_history_changes_ignored = ltb strict_prefix prefix;
        previous_non_system_messages = length previous;
        current_non_system_messages = length current;
        new_human_turn = is_nonempty current;
        head_slide = none;
      }

  unfoldable pub classify_history_event : List Message → List Message → EventDetail
  unfolding classify_changed start_detail
  classify_history_event previous_messages current_messages =
      let previous = non_system_messages (normalize_history_event_messages std previous_messages) in
      let current = non_system_messages (normalize_history_event_messages std current_messages) in
      let detail = start_detail previous_messages current_messages in
      if is_nonempty previous
      then classify_changed previous current (common_prefix_length std previous current) detail
      else detail
