-- ===== src/Window/Events.antt =====
-- The comparison of histories in context_window.py: what of a message counts, with the transient
-- media and echoes taken out, and the fingerprint by which messages are compared. With it the
-- recognition of expired-image notes in client_extra.py.
use shenyugateway.Common.{
  ℕ, suc, String, Bool, true, false, not, ◌||◌, List, [], ◌∷◌, ◌++◌, if◌then◌else◌,
}
use shenyugateway.Text.{Text, codes, text_eq, starts_with, strip, is_empty}
use shenyugateway.Json.{
  Json, Items, Fields, Message, null, str, arr, obj, nil, cons, end, field, get, put, truthy,
  is_text, items, has_role, Stdlib, str_or_empty,
}
use shenyugateway.Echo.{strip_leading_echo}

-- client_extra.py, `CLIENT_EXTRA_BUNDLE_ATTACHMENT_RE`
abbrev pub client_extra_bundle_pattern : Text
client_extra_bundle_pattern =
    codes
      "\\s*<attachment\\b(?=[^>]*\\bid\\s*=\\s*['\\\"]?message_insert_extra_bundle_[^'\\\"\\s>]+['\\\"]?)[^>]*>.*?</attachment>"

abbrev pub expired_image_note_prefix : Text
expired_image_note_prefix = codes "圆圆发来的照片我已经看过"

abbrev pub image_lineage_marker : Text
image_lineage_marker = codes "shenyu_history_image"

-- client_extra.py, `is_expired_image_note`
unfoldable pub is_expired_image_note : Text → Bool
is_expired_image_note text = starts_with (strip text) expired_image_note_prefix

-- `"\n".join(parts)`
unfoldable pub join_lines : List Text → Text
join_lines [] = []
join_lines (t ∷ []) = t
join_lines (t ∷ u ∷ parts) = t ++ (10 ∷ join_lines (u ∷ parts))

unfoldable pub text_block : Text → Json
text_block text = obj (field "type" (str (codes "text")) (field "text" (str text) end))

module _ (std : Stdlib) where
  -- `_stable_json`
  unfoldable pub stable_json : Json → Text
  stable_json value = std.dumps value

  -- The entries that are not `None`, of the keys that count.
  unfoldable pub payload_of : List String → Message → Fields
  payload_of [] message = end
  payload_of (key ∷ keys) message =
      let rest = payload_of keys message in
      elim (get key message) [ null ↦ rest | value ↦ field key value rest ]

  unfoldable pub message_fingerprint : Message → Text
  message_fingerprint message = std.sha256_hex (
      stable_json (
        obj
          (payload_of ("role" ∷ "content" ∷ "name" ∷ "tool_call_id" ∷ "tool_calls" ∷ []) message)))

  unfoldable pub is_image_type : Text → Bool
  is_image_type block_type =
      text_eq block_type (codes "image_url")
      || text_eq block_type (codes "input_image")
      || text_eq block_type (codes "image")

  -- An `image_url` that is a `dict` with a `url`, or a text.
  unfoldable pub has_image_url : Json → Bool
  has_image_url (obj d) = truthy (get "url" d)
  has_image_url (str t) = not (is_empty t)
  has_image_url _ = false

  unfoldable pub has_image_source : Json → Bool
  has_image_source (obj d) =
      starts_with (std.lower (str_or_empty std (get "media_type" d))) (codes "image/")
  has_image_source _ = false

  unfoldable pub is_image_block : Json → Bool
  unfolding is_image_type has_image_url has_image_source
  is_image_block (obj d) =
      is_image_type (std.lower (str_or_empty std (get "type" d)))
      || has_image_url (get "image_url" d)
      || has_image_source (get "source" d)
  is_image_block _ = false

  unfoldable pub normalize_event_text : Json → Text
  normalize_event_text value =
      let text = strip (std.regex_sub client_extra_bundle_pattern [] (str_or_empty std value)) in
      if is_expired_image_note text then [] else text

  -- `_normalize_event_content`: the variables of the loop over the blocks.
  pub record Blocks : Type 0 where
    pub blocks : List Json
    pub text_parts : List Text
    pub has_non_text : Bool

  unfoldable pub add_text : Text → Blocks → Blocks
  add_text [] b = b
  add_text (c ∷ t) b = record b {
    blocks = b.blocks ++ text_block (c ∷ t) ∷ [];
    text_parts = b.text_parts ++ (c ∷ t) ∷ [];
  }

  unfoldable pub add_other : Json → Blocks → Blocks
  add_other item b = record b { blocks = b.blocks ++ item ∷ []; has_non_text = true }

  unfoldable pub add_block : Json → Blocks → Blocks
  unfolding add_text add_other
  add_block (str t) b = add_text (normalize_event_text (str t)) b
  add_block (obj d) b =
      if is_image_block (obj d)
      then b
      else if is_text (codes "text") (get "type" d)
      then add_text (normalize_event_text (get "text" d)) b
      else add_other (obj d) b
  add_block item b = add_other item b

  unfoldable pub add_blocks : Items → Blocks → Blocks
  add_blocks nil b = b
  add_blocks (cons item rest) b = add_blocks rest (add_block item b)

  unfoldable pub normalize_event_content : Json → Json
  unfolding add_blocks add_block
  normalize_event_content (str t) = str (normalize_event_text (str t))
  normalize_event_content (arr content) =
      let b = add_blocks content (record { blocks = []; text_parts = []; has_non_text = false }) in
      if not b.has_non_text then str (join_lines b.text_parts) else arr (items b.blocks)
  normalize_event_content content = content

  -- The marker that a logged history keeps in place of an image.
  unfoldable pub image_marker : Json → Json
  image_marker item = obj (
      field "type" (str (codes "image")) (
        field "source"
          (obj (
            field "type" (str image_lineage_marker)
              (field "fingerprint" (str (std.sha256_hex (stable_json item))) end)))
          end))

  unfoldable pub compact_items : Items → Items
  compact_items nil = nil
  compact_items (cons item rest) =
      cons (if is_image_block item then image_marker item else item) (compact_items rest)

  unfoldable pub compact_event_content : Json → Json
  unfolding compact_items
  compact_event_content (arr content) = arr (compact_items content)
  compact_event_content content = content

  unfoldable pub compact_message : Message → Message
  compact_message m =
      if has_role "user" m then put "content" (compact_event_content (get "content" m)) m else m

  unfoldable pub compact_history_event_messages : List Message → List Message
  unfolding compact_message
  compact_history_event_messages [] = []
  compact_history_event_messages (m ∷ ms) = compact_message m ∷ compact_history_event_messages ms

  unfoldable pub strip_echo_content : Json → Message → Message
  strip_echo_content (str t) m = put "content" (str (strip_leading_echo t)) m
  strip_echo_content _ m = m

  unfoldable pub normalize_message : Message → Message
  unfolding strip_echo_content
  normalize_message m =
      if has_role "user" m
      then put "content" (normalize_event_content (get "content" m)) m
      else if has_role "assistant" m
      then strip_echo_content (get "content" m) m
      else m

  unfoldable pub normalize_history_event_messages : List Message → List Message
  unfolding normalize_message
  normalize_history_event_messages [] = []
  normalize_history_event_messages (m ∷ ms) =
      normalize_message m ∷ normalize_history_event_messages ms

  unfoldable pub common_prefix_length : List Message → List Message → ℕ
  common_prefix_length [] right = 0
  common_prefix_length (old ∷ left) [] = 0
  common_prefix_length (old ∷ left) (new ∷ right) =
      if text_eq (message_fingerprint old) (message_fingerprint new)
      then suc (common_prefix_length left right)
      else 0
