-- ===== src/Upstream/Cache.antt =====
-- The cache breakpoints of upstream_adapter.py: `_add_cache_control`, and the searches for a block
-- to mark.
use shenyugateway.Common.{
  ℕ, suc, Bool, true, false, not, ◌&&◌, List, [], ◌∷◌, ◌++◌, if◌then◌else◌, length, leb,
}
use shenyugateway.Text.{Text, codes, text_eq}
use shenyugateway.Json.{Json, str, obj, Fields, field, end, get, put, truthy, is_text}

-- The paths that breakpoints are reported under.
pub data CachePath : Type 0 where
  before_island : ℕ → CachePath
  memory_island : ℕ → CachePath
  system_end : CachePath
  stable_tail : ℕ → ℕ → CachePath
  content_at : ℕ → ℕ → CachePath

pub record CacheLimits : Type 0 where
  pub max_breakpoints : ℕ
  pub cache_ttl : Text

unfoldable pub cache_control_value : Text → Json
cache_control_value cache_ttl = obj (
    field "type" (str (codes "ephemeral"))
      (if text_eq cache_ttl (codes "1h") then field "ttl" (str (codes "1h")) end else end))

-- Whether a block gets a breakpoint.
unfoldable pub can_mark : CacheLimits → Fields → List CachePath → Bool
can_mark limits block paths =
    not (leb limits.max_breakpoints (length paths)) && not (truthy (get "cache_control" block))

unfoldable pub marked_block : CacheLimits → Fields → List CachePath → Fields
unfolding cache_control_value can_mark
marked_block limits block paths =
    if can_mark limits block paths
    then put "cache_control" (cache_control_value limits.cache_ttl) block
    else block

unfoldable pub marked_paths : CacheLimits → Fields → CachePath → List CachePath → List CachePath
unfolding can_mark
marked_paths limits block path paths =
    if can_mark limits block paths then paths ++ path ∷ [] else paths

-- Blocks with one of them marked, if one was found to try.
pub record Marking : Type 0 where
  pub blocks : List Json
  pub paths : List CachePath
  pub found : Bool

unfoldable pub mark_here :
    (Fields → Bool) → CacheLimits → CachePath → List CachePath → Json → List Json → Marking
unfolding marked_block marked_paths
mark_here candidate limits path paths (obj d) rest =
    if candidate d
    then record {
      blocks = obj (marked_block limits d paths) ∷ rest;
      paths = marked_paths limits d path paths;
      found = true;
    }
    else record { blocks = obj d ∷ rest; paths = paths; found = false }
mark_here candidate limits path paths block rest = record {
  blocks = block ∷ rest;
  paths = paths;
  found = false;
}

-- The last block that is a candidate is tried; a path is told by the block's index.
unfoldable pub mark_last :
    (Fields → Bool) → CacheLimits → (ℕ → CachePath) → List CachePath → ℕ → List Json → Marking
unfolding mark_here
mark_last candidate limits path paths i [] = record { blocks = []; paths = paths; found = false }
mark_last candidate limits path paths i (block ∷ rest) =
    let later = mark_last candidate limits path paths (suc i) rest in
    if later.found
    then record { blocks = block ∷ later.blocks; paths = later.paths; found = true }
    else mark_here candidate limits (path i) paths block rest

unfoldable pub is_thinking : Fields → Bool
is_thinking d = is_text (codes "thinking") (get "type" d)

-- A block to try for the breakpoint at the end: one that has a breakpoint is passed over.
unfoldable pub is_tail_candidate : Fields → Bool
unfolding is_thinking
is_tail_candidate d = not (is_thinking d) && not (truthy (get "cache_control" d))
