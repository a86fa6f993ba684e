-- ===== src/Capture.antt =====
-- shenyu_gateway/response_capture.py: the filter that takes private heartbeat blocks out of the
-- model's replies, and the storing of what it took.
pub mod Enough
pub mod Steps
pub mod Split
mod Tests
use shenyugateway.Common.{
  ℕ, zero, suc, ◌+◌, Bool, true, false, Option, none, some, List, [], ◌∷◌, ◌++◌, ◌==◌,
  if◌then◌else◌, length,
}
use shenyugateway.Text.{Text, codes, is_space, lstrip, strip, join, is_empty}

-- One character of a pattern under IGNORECASE, where the pattern has a small letter.
unfoldable pub same_letter : ℕ → ℕ → Bool
same_letter letter c = if c == letter then true else c + 32 == letter

-- What is left of a text after a word, if it begins with it.
unfoldable pub after_word : Text → Text → Option Text
unfolding same_letter
after_word [] s = some s
after_word (letter ∷ word) [] = none
after_word (letter ∷ word) (c ∷ s) =
    let rest = after_word word s in if same_letter letter c then rest else none

unfoldable pub after_first : ℕ → Text → Option Text
after_first d [] = none
after_first d (c ∷ s) = if c == d then some s else none

-- `[^>]*>`
unfoldable pub after_bracket : Text → Option Text
after_bracket [] = none
after_bracket (c ∷ s) = let rest = after_bracket s in if c == 62 then some s else rest

-- `(?:\s[^>]*)?>`
unfoldable pub open_end : Text → Option Text
unfolding after_bracket
open_end [] = none
open_end (c ∷ s) = if c == 62 then some s else if is_space c then after_bracket s else none

-- HEARTBEAT_OPEN_RE and HEARTBEAT_CLOSE_RE at a text's beginning: what comes after the match.
unfoldable pub match_open : Text → Option Text
unfolding after_first after_word open_end lstrip
match_open s = elim (after_first 60 s) [
  | none ↦ none
  | some inside ↦ elim (after_word (codes "heartbeat") (lstrip inside)) [
    | none ↦ none
    | some rest ↦ open_end rest
  ]
]

unfoldable pub match_close : Text → Option Text
unfolding after_first after_word lstrip
match_close s = elim (after_first 60 s) [
  | none ↦ none
  | some inside ↦ elim (after_first 47 (lstrip inside)) [
    | none ↦ none
    | some name ↦ elim (after_word (codes "heartbeat") (lstrip name)) [
      | none ↦ none
      | some rest ↦ after_first 62 (lstrip rest)
    ]
  ]
]

-- `pattern.search(text)`: the text before the first match, and the text after it.
unfoldable pub search : (Text → Option Text) → Text → Option (Text × Text)
search pattern [] = none
search pattern (c ∷ s) =
    let later = search pattern s in
    elim (pattern (c ∷ s)) [
      | some after ↦ some ([], after)
      | none ↦ elim later [ none ↦ none | some (before, after) ↦ some (c ∷ before, after) ]
    ]

-- The text before the last `<`, and the text from it on.
unfoldable pub last_bracket : Text → Option (Text × Text)
last_bracket [] = none
last_bracket (c ∷ s) = elim (last_bracket s) [
  | some (before, tail) ↦ some (c ∷ before, tail)
  | none ↦ if c == 60 then some ([], c ∷ s) else none
]

pub record TagFilter : Type 0 where
  pub buffer : Text
  pub active : Bool
  pub active_parts : List Text
  pub captured : List Text

-- `AssistantTagFilter.__init__`
abbrev pub new_filter : TagFilter
new_filter = record { buffer = []; active = false; active_parts = []; captured = [] }

-- A block's content is kept if it is not blank.
unfoldable pub noted : List Text → List Text → List Text
unfolding strip join
noted captured parts =
    let content = strip (join parts) in
    if is_empty content then captured else captured ++ content ∷ []

-- `_consume_active_buffer`
unfoldable pub consume_active_buffer : TagFilter → Bool × TagFilter
unfolding search last_bracket noted match_close
consume_active_buffer f = elim (search match_close f.buffer) [
  | some (before, after) ↦ (
    true,
    record {
      buffer = after;
      active = false;
      active_parts = [];
      captured = noted f.captured (f.active_parts ++ before ∷ []);
    },
  )
  | none ↦ elim (last_bracket f.buffer) [
    | some (before, tail) ↦
        if is_empty before
        then (false, f)
        else (false, record f { buffer = tail; active_parts = f.active_parts ++ before ∷ [] })
    | none ↦ (false, record f { buffer = []; active_parts = f.active_parts ++ f.buffer ∷ [] })
  ]
]

-- The end of the loop, where no tag opens: what cannot begin one goes out.
unfoldable pub let_out : TagFilter → TagFilter × List Text
unfolding last_bracket
let_out f = elim (last_bracket f.buffer) [
  | some (before, tail) ↦
      if is_empty before then (f, []) else (record f { buffer = tail }, before ∷ [])
  | none ↦ (record f { buffer = [] }, f.buffer ∷ [])
]

-- The loop of `feed`, for at most `fuel` rounds: the filter, and the parts that go out.
unfoldable pub rounds : ℕ → TagFilter → TagFilter × List Text
unfolding consume_active_buffer let_out search match_open
rounds zero f = (f, [])
rounds (suc fuel) f = elim f.buffer [
  | [] ↦ (f, [])
  | c ∷ s ↦ elim f.active [
    | true ↦
        let (consumed, g) = consume_active_buffer f in
        elim consumed [ true ↦ rounds fuel g | false ↦ (g, []) ]
    | false ↦ elim (search match_open f.buffer) [
      | some (before, after) ↦
          let (g, output) =
            rounds fuel (record f { buffer = after; active = true; active_parts = [] }) in
          (g, before ∷ output)
      | none ↦ let_out f
    ]
  ]
]

unfoldable pub feed : Text → TagFilter → TagFilter × Text
unfolding rounds join
feed [] f = (f, [])
feed (c ∷ text) f =
    let (g, output) =
      rounds (suc (length (f.buffer ++ c ∷ text))) (record f { buffer = f.buffer ++ c ∷ text }) in
    (g, join output)

unfoldable pub flush : TagFilter → TagFilter × Text
unfolding noted
flush f =
    if f.active
    then (
      record {
        buffer = [];
        active = false;
        active_parts = [];
        captured = noted f.captured (f.active_parts ++ f.buffer ∷ []);
      },
      [],
    )
    else (record f { buffer = [] }, f.buffer)

unfoldable pub get_heartbeat : TagFilter → Text
unfolding strip join
get_heartbeat f = strip (join f.captured)

-- `split_private_assistant_tags`
unfoldable pub split_private_assistant_tags : Text → Text × Text
unfolding feed flush get_heartbeat
split_private_assistant_tags content =
    let (fed, clean) = feed content new_filter in
    let (done, rest) = flush fed in (clean ++ rest, get_heartbeat done)

unfoldable pub clean_text_from_filter_source : Text → Text
unfolding feed flush
clean_text_from_filter_source content =
    let (fed, clean) = feed content new_filter in clean ++ (flush fed).1
