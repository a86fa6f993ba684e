-- ===== src/Window/HistoryTests.antt =====
-- Runs of the classification, and of the merging of a bridge, at concrete histories.
use shenyugateway.Common.{
  ◌++◌, ◌-◌, ◌+◌, ◌≤◌, ◌<◌, ◌≡◌, true, false, none, some, List, [], ◌∷◌, refl, arith, String,
  length, drop, take, min, ◌==◌, if◌then◌else◌,
}
use shenyugateway.Text.{Text, codes, is_space, lstrip, rstrip, strip, find}
use shenyugateway.Json.{
  Json, str, obj, end, field, Message, Stdlib, get, put, has_role, str_or_empty,
}
use shenyugateway.Echo.{strip_leading_echo, split_leading_echo, feed, finish}
use shenyugateway.Window.Groups.{non_system_messages, any_user, has_tool_continuation}
use shenyugateway.Window.Classify.{
  retry, continuation, roll, fingerprints, head_slide_alignment, min_head_slide_overlap, slide_from,
  slides_by, is_nonempty, appended_class,
}
use shenyugateway.Window.Events.{
  message_fingerprint, normalize_history_event_messages, common_prefix_length, stable_json,
  payload_of, normalize_message, normalize_event_content, normalize_event_text,
  is_expired_image_note, strip_echo_content,
}
use shenyugateway.Window.Lineage.{LongestPrefix, common_prefix_length-LongestPrefix}
use shenyugateway.Window.Slide.{
  SlidesBy, FirstSlide, head_slide_alignment-FirstSlide, head_slide_alignment-none,
}
use shenyugateway.Window.Meaning.{previous, current, detail, extension_class, roll_class}
use shenyugateway.Window.Bridge.{deduplicate_bridge_messages, insert_bridge_messages, insert_at}
use shenyugateway.Window.Merge.{LongestOverlap, deduplicate-longest, insert_bridge-merged}

abbrev text_or_nil : Json → Text
text_or_nil (str t) = t
text_or_nil _ = []

-- A message's content tells it apart from the others here.
abbrev content_of : Json → Text
content_of (obj d) = text_or_nil (get "content" d)
content_of _ = []

abbrev std : Stdlib
std = record {
  repr = content_of;
  dumps = content_of;
  sha256_hex = λ t. t;
  lower = λ t. t;
  regex_sub = λ pattern new t. t;
}

program : Unit {0}
unfolding is_space lstrip rstrip strip find get put has_role str_or_empty non_system_messages
    any_user has_tool_continuation head_slide_alignment slide_from slides_by fingerprints
    appended_class message_fingerprint normalize_history_event_messages common_prefix_length
    stable_json payload_of normalize_message normalize_event_content normalize_event_text
    is_expired_image_note strip_echo_content strip_leading_echo split_leading_echo feed finish
    deduplicate_bridge_messages insert_bridge_messages insert_at
program = tt

abbrev message : String → String → Message
message role content = field "role" (str (codes role)) (field "content" (str (codes content)) end)

abbrev shared : List Message
shared =
    message "user" "b"
    ∷ message "assistant" "c"
    ∷ message "user" "d"
    ∷ message "assistant" "e"
    ∷ message "user" "f"
    ∷ message "assistant" "g"
    ∷ message "user" "h"
    ∷ message "assistant" "i"
    ∷ []

abbrev older : List Message
older = message "assistant" "a" ∷ shared

abbrev newer : List Message
newer = shared ++ message "user" "j" ∷ []

slid : head_slide_alignment std older newer ≡ some (1, 8)
unfolding program
slid = refl

head_slide_alignment-FirstSlide_run :
    FirstSlide (fingerprints std older) (fingerprints std newer) 1 1 8
    × (min_head_slide_overlap ≤ 8)
head_slide_alignment-FirstSlide_run = head_slide_alignment-FirstSlide std older newer 1 8 slid

not_slid : head_slide_alignment std newer older ≡ none
unfolding program
not_slid = refl

long : 1 + min_head_slide_overlap ≤ length newer
unfolding program
long = omega arith

fits : length newer - 1 ≤ length older
unfolding program
fits = omega arith

head_slide_alignment-none_run : ¬ SlidesBy (fingerprints std newer) (fingerprints std older) 1
head_slide_alignment-none_run =
    head_slide_alignment-none std newer older 1 not_slid (omega arith) long fits

common_prefix_length-LongestPrefix_run :
    LongestPrefix std shared newer (common_prefix_length std shared newer)
common_prefix_length-LongestPrefix_run = common_prefix_length-LongestPrefix std shared newer

full : is_nonempty (previous std shared newer) ≡ true
unfolding program
full = refl

longer : length (previous std shared newer) ≤ length (current std shared newer)
unfolding program
longer = omega arith

extended :
    fingerprints std (previous std shared newer)
    ≡ take (length (previous std shared newer)) (fingerprints std (current std shared newer))
unfolding program
extended = refl

extension_class_run :
    ((detail std shared newer).event_class ≡ (
      if length (current std shared newer) == length (previous std shared newer)
      then retry
      else appended_class continuation
          (drop (length (previous std shared newer)) (current std shared newer))))
    × ((detail std shared newer).new_human_turn
        ≡ any_user (drop (length (previous std shared newer)) (current std shared newer)))
extension_class_run = extension_class std shared newer full longer extended

shorter : length (current std newer shared) < length (previous std newer shared)
unfolding program
shorter = omega arith

rolled :
    fingerprints std (current std newer shared)
    ≡ take (length (current std newer shared)) (fingerprints std (previous std newer shared))
unfolding program
rolled = refl

roll_class_run :
    ((detail std newer shared).event_class ≡ roll)
    × ((detail std newer shared).new_human_turn ≡ false)
roll_class_run = roll_class std newer shared shorter rolled

deduplicate-longest_example :
    ((deduplicate_bridge_messages std shared older).bridge
      ≡ take (length older - (deduplicate_bridge_messages std shared older).overlap) older)
    × LongestOverlap std older
        (drop (insert_at shared) shared)
        (min (length older) (length (drop (insert_at shared) shared)))
        (deduplicate_bridge_messages std shared older).overlap
deduplicate-longest_example = deduplicate-longest std shared older

insert_bridge-merged_example :
    (insert_bridge_messages std shared older
      ≡ take (insert_at shared) shared
        ++ ((deduplicate_bridge_messages std shared older).bridge
            ++ drop (insert_at shared) shared))
    × (fingerprints std
          ((deduplicate_bridge_messages std shared older).bridge ++ drop (insert_at shared) shared)
        ≡ fingerprints std (
            older
            ++ drop
                (deduplicate_bridge_messages std shared older).overlap
                (drop (insert_at shared) shared)))
insert_bridge-merged_example = insert_bridge-merged std shared older
