-- ===== src/Upstream/Tests.antt =====
-- Runs of the conversion at a concrete request.
use shenyugateway.Common.{
  ℕ, ◌+◌, ◌≤◌, true, false, Option, none, String, List, [], ◌∷◌, ◌≡◌, refl, arith, length, map, all,
}
use shenyugateway.Text.{Text, codes}
use shenyugateway.Json.{Json, null, str, field, end, Message, Stdlib, get, has_role}
use shenyugateway.Layers.Assemble.{LayerTexts}
use shenyugateway.Upstream.Cache.{CacheLimits}
use shenyugateway.Upstream.State.{Conversion, is_island}
use shenyugateway.Upstream.Messages.{assistant_content, result_block, convert_messages}
use shenyugateway.Upstream.Tail.{openai_to_anthropic}
use shenyugateway.Upstream.Marks.{marks, turn_marks}
use shenyugateway.Upstream.Balance.{brought}
use shenyugateway.Upstream.Bounded.{breakpoints_bounded}
use shenyugateway.Upstream.Results.{is_tool_message, results_together}

abbrev std : Stdlib
std = record {
  repr = λ v. [];
  dumps = λ v. [];
  sha256_hex = λ t. t;
  lower = λ t. t;
  regex_sub = λ pattern new t. t;
}

abbrev loads : Text → Option Json
loads t = none

abbrev new_id : ℕ → Json
new_id i = null

abbrev layers : LayerTexts
layers = record {
  stable = codes "s";
  slow = [];
  heartbeat = [];
  tool_policy = [];
  format = [];
  mem = [];
  island_bumps = [];
  volatile = [];
}

abbrev limits : CacheLimits
limits = record { max_breakpoints = 2; cache_ttl = codes "1h" }

abbrev message : String → String → Message
message role content = field "role" (str (codes role)) (field "content" (str (codes content)) end)

abbrev request : List Message
request =
    message "system" "s"
    ∷ message "user" "a"
    ∷ message "assistant" "b"
    ∷ message "tool" "c"
    ∷ message "tool" "d"
    ∷ []

breakpoints_bounded_example :
    (length (openai_to_anthropic std loads new_id request layers [] limits 0).paths ≤ 2)
    × (marks (openai_to_anthropic std loads new_id request layers [] limits 0).system
          + turn_marks (openai_to_anthropic std loads new_id request layers [] limits 0).turns
          + 0
        ≡ brought std loads new_id request
          + length (openai_to_anthropic std loads new_id request layers [] limits 0).paths)
breakpoints_bounded_example =
    breakpoints_bounded std loads new_id request layers [] limits 0 (omega arith)

no_island : is_island (message "assistant" "b") ≡ false
unfolding is_island get
no_island = refl

is_assistant : has_role "assistant" (message "assistant" "b") ≡ true
unfolding has_role get
is_assistant = refl

both_results : all is_tool_message (message "tool" "c" ∷ message "tool" "d" ∷ []) ≡ true
unfolding all is_tool_message has_role get is_island
both_results = refl

abbrev begun : Conversion
begun = record {
  system = [];
  turns = [];
  paths = [];
  user_turns = [];
  island = none;
  volatile = [];
}

results_together_example :
    convert_messages std loads new_id layers limits 2
      (message "assistant" "b" ∷ message "tool" "c" ∷ message "tool" "d" ∷ [])
      begun
    ≡ record begun {
      turns =
          record {
            from_user = true;
            content =
                map (result_block std loads new_id) (message "tool" "c" ∷ message "tool" "d" ∷ []);
          }
          ∷ record {
            from_user = false;
            content = assistant_content std loads new_id (message "assistant" "b");
          }
          ∷ [];
    }
results_together_example =
    results_together std loads new_id layers limits 2 (message "assistant" "b") (message "tool" "c")
      (message "tool" "d" ∷ []) begun no_island is_assistant both_results
