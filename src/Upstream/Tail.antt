-- ===== src/Upstream/Tail.antt =====
-- The end of `_openai_to_anthropic` of upstream_adapter.py: the breakpoint on the stable tail, with
-- `_guarded_user_message_index`.
use mathlib.Core.List.{reverse}
use shenyugateway.Common.{
  ℕ, zero, suc, ◌-◌, Bool, true, false, not, ◌&&◌, Option, none, some, List, [], ◌∷◌, ◌==◌, leb,
  if◌then◌else◌, length,
}
use shenyugateway.Text.{Text}
use shenyugateway.Json.{Json, Message, has_role, Stdlib}
use shenyugateway.Layers.Assemble.{LayerTexts}
use shenyugateway.Upstream.Cache.{
  CachePath, stable_tail, content_at, CacheLimits, mark_last, is_tail_candidate,
}
use shenyugateway.Upstream.State.{ApiMessage, Conversion, is_island}
use shenyugateway.Upstream.Messages.{convert_messages}

-- The indices of the user's messages, from `i` on; the island is none of them.
unfoldable pub user_indices : ℕ → List Message → List ℕ
unfolding is_island
user_indices i [] = []
user_indices i (m ∷ ms) =
    let rest = user_indices (suc i) ms in
    if has_role "user" m && not (is_island m) then i ∷ rest else rest

unfoldable pub nth : List ℕ → ℕ → Option ℕ
nth [] i = none
nth (n ∷ ns) zero = some n
nth (n ∷ ns) (suc i) = nth ns i

-- `none` for -1
unfoldable pub guarded_user_message_index : List Message → ℕ → Option ℕ
unfolding user_indices nth
guarded_user_message_index messages zero = none
guarded_user_message_index messages (suc guard) =
    let indices = user_indices 0 messages in nth indices (length indices - suc guard - 1)

unfoldable pub lookup : List (ℕ × ℕ) → ℕ → Option ℕ
lookup [] key = none
lookup ((k, v) ∷ entries) key = let rest = lookup entries key in if k == key then some v else rest

-- The guarded user's turn, unless it stands before the island.
unfoldable pub guarded_turn : List Message → ℕ → Conversion → Option ℕ
unfolding guarded_user_message_index lookup
guarded_turn messages guard state = elim (guarded_user_message_index messages guard) [
  | none ↦ none
  | some source ↦ elim (lookup state.user_turns source) [
    | none ↦ none
    | some turn ↦ elim state.island [
      | none ↦ some turn
      | some island ↦ if leb turn island then none else some turn
    ]
  ]
]

-- The turns with a breakpoint on one of them.
pub record Tail : Type 0 where
  pub turns : List ApiMessage
  pub paths : List CachePath
  pub found : Bool

unfoldable pub tail_path : Option ℕ → ℕ → ℕ → CachePath
tail_path none turn block = content_at turn block
tail_path (some guarded) turn block =
    if turn == guarded then stable_tail turn block else content_at turn block

unfoldable pub mark_content :
    Option ℕ → CacheLimits → List CachePath → ℕ → ApiMessage → List ApiMessage → Tail
unfolding mark_last tail_path is_tail_candidate
mark_content guarded limits paths i turn rest =
    let marking = mark_last is_tail_candidate limits (tail_path guarded i) paths 0 turn.content in
    record {
      turns = record turn { content = marking.blocks } ∷ rest;
      paths = marking.paths;
      found = marking.found;
    }

-- The last of the first `count` turns that has a block to mark; the first turn's index is `i`.
unfoldable pub mark_tail : Option ℕ → CacheLimits → List CachePath → ℕ → ℕ → List ApiMessage → Tail
unfolding mark_content
mark_tail guarded limits paths i zero turns = record { turns = turns; paths = paths; found = false }
mark_tail guarded limits paths i (suc count) [] = record {
  turns = [];
  paths = paths;
  found = false;
}
mark_tail guarded limits paths i (suc count) (turn ∷ turns) =
    let later = mark_tail guarded limits paths (suc i) count turns in
    if later.found
    then record { turns = turn ∷ later.turns; paths = later.paths; found = true }
    else mark_content guarded limits paths i turn turns

-- How many turns there are up to the last one of the user's.
unfoldable pub user_end : List ApiMessage → ℕ
user_end [] = 0
user_end (turn ∷ turns) =
    let rest = user_end turns in
    if not (rest == 0) then suc rest else if turn.from_user then 1 else 0

unfoldable pub tail_end : Option ℕ → List ApiMessage → ℕ
unfolding user_end
tail_end none turns = user_end turns
tail_end (some guarded) turns = suc guarded

unfoldable pub marked_tail : Option ℕ → CacheLimits → List CachePath → List ApiMessage → Tail
unfolding tail_end mark_tail
marked_tail guarded limits paths turns =
    if leb limits.max_breakpoints (length paths)
    then record { turns = turns; paths = paths; found = false }
    else mark_tail guarded limits paths 0 (tail_end guarded turns) turns

-- What is returned, with no system block for `None`, and the paths of the breakpoints.
pub record Converted : Type 0 where
  pub system : List Json
  pub turns : List ApiMessage
  pub paths : List CachePath

unfoldable pub unconverted : List CachePath → Conversion
unconverted paths = record {
  system = [];
  turns = [];
  paths = paths;
  user_turns = [];
  island = none;
  volatile = [];
}

module _ (std : Stdlib) (loads : Text → Option Json) (new_id : ℕ → Json) where
  unfoldable pub openai_to_anthropic :
      List Message → LayerTexts → List CachePath → CacheLimits → ℕ → Converted
  unfolding convert_messages guarded_turn marked_tail unconverted
  openai_to_anthropic messages layers paths limits guard =
      let state = convert_messages std loads new_id layers limits 0 messages (unconverted paths) in
      let tail =
        marked_tail (guarded_turn messages guard state) limits state.paths (reverse state.turns) in
      record { system = state.system; turns = tail.turns; paths = tail.paths }
