-- ===== src/Upstream/Results.antt =====
-- The results of parallel calls, in the conversion of upstream_adapter.py.
use shenyugateway.Common.{
  all-append, ℕ, suc, Bool, true, false, not, ◌&&◌, Option, List, [], ◌∷◌, ◌++◌, ◌≡◌, refl, ap, ◌∙◌,
  arith, map, all, append_assoc, append-nil,
}
use shenyugateway.Text.{Text, codes}
use shenyugateway.Json.{Json, Message, get, has_role, Stdlib}
use shenyugateway.Layers.Assemble.{LayerTexts}
use shenyugateway.Layers.Calls.{is_text_other}
use shenyugateway.Upstream.Cache.{CacheLimits}
use shenyugateway.Upstream.State.{
  ApiMessage, Conversion, is_tool_result, is_tool_result_only_message, is_island,
}
use shenyugateway.Upstream.Messages.{
  result_block, with_result, assistant_content, convert_assistant, convert_tool, convert_message,
  convert_messages,
}

-- A tool's message, and no island.
unfoldable pub is_tool_message : Message → Bool
unfolding is_island
is_tool_message m = not (is_island m) && has_role "tool" m

module _ (std : Stdlib) (loads : Text → Option Json) (new_id : ℕ → Json) where
  result_blocks : List Message → List Json
  result_blocks ms = map (result_block std loads new_id) ms

  results_only : (ms : List Message) → all is_tool_result (result_blocks ms) ≡ true
  unfolding all is_tool_result result_block result_blocks get
  results_only [] = refl
  results_only (m ∷ ms) = results_only ms

  tool_flags :
      (m : Message) → is_tool_message m ≡ true → (is_island m ≡ false) × (has_role "tool" m ≡ true)
  unfolding is_tool_message
  tool_flags m h = ground arith

  convert_message-tool :
      (layers : LayerTexts) (limits : CacheLimits) (i : ℕ) (m : Message) (s : Conversion)
      → is_tool_message m ≡ true
      → convert_message std loads new_id layers limits i m s ≡ convert_tool std loads new_id m s
  unfolding convert_message has_role
  convert_message-tool layers limits i m s h =
      let (island, tool) = tool_flags m h in
      let system = is_text_other (codes "tool") (codes "system") (get "role" m) refl tool in
      let user = is_text_other (codes "tool") (codes "user") (get "role" m) refl tool in
      let assistant = is_text_other (codes "tool") (codes "assistant") (get "role" m) refl tool in
      rw (island, system, user, assistant, tool, convert_message, has_role) refl

  with_result-merged :
      (x b : Json) (bs : List Json) (ts : List ApiMessage)
      → all is_tool_result (b ∷ bs) ≡ true
      → with_result std loads new_id x (record { from_user = true; content = b ∷ bs } ∷ ts)
        ≡ record { from_user = true; content = (b ∷ bs) ++ x ∷ [] } ∷ ts
  unfolding with_result is_tool_result_only_message
  with_result-merged x b bs ts h = rw (h) refl

  -- A turn with results, and the results of a list after them.
  merges :
      (layers : LayerTexts) (limits : CacheLimits) (i : ℕ) (b : Json) (bs : List Json)
      (ts : List ApiMessage) (s : Conversion) (ms : List Message)
      → all is_tool_result (b ∷ bs) ≡ true
      → all is_tool_message ms ≡ true
      → convert_messages std loads new_id layers limits i ms
          (record s { turns = record { from_user = true; content = b ∷ bs } ∷ ts })
        ≡ record s {
          turns = record { from_user = true; content = (b ∷ bs) ++ result_blocks ms } ∷ ts;
        }
  unfolding convert_messages result_blocks convert_tool all
  merges layers limits i b bs ts s [] h k = rw (append-nil bs) refl
  merges layers limits i b bs ts s (m ∷ ms) h k =
      let x = result_block std loads new_id m in
      let here : convert_message std loads new_id layers limits i m
            (record s { turns = record { from_user = true; content = b ∷ bs } ∷ ts })
          ≡ record s { turns = record { from_user = true; content = (b ∷ bs) ++ x ∷ [] } ∷ ts } =
        convert_message-tool layers limits i m
          (record s { turns = record { from_user = true; content = b ∷ bs } ∷ ts }) (ground arith)
        ∙ ap (λ turns. record s { turns = turns }) (with_result-merged x b bs ts h) in
      let only : all is_tool_result ((b ∷ bs) ++ x ∷ []) ≡ true =
        all-append is_tool_result (b ∷ bs) (x ∷ []) h (results_only (m ∷ [])) in
      ap (convert_messages std loads new_id layers limits (suc i) ms) here
      ∙ merges layers limits (suc i) b (bs ++ x ∷ []) ts s ms only (ground arith)
      ∙ ap (λ c. record s { turns = record { from_user = true; content = b ∷ c } ∷ ts })
          (append_assoc bs (x ∷ []) (result_blocks ms))

  convert_message-assistant :
      (layers : LayerTexts) (limits : CacheLimits) (i : ℕ) (m : Message) (s : Conversion)
      → is_island m ≡ false
      → has_role "assistant" m ≡ true
      → convert_message std loads new_id layers limits i m s
        ≡ convert_assistant std loads new_id m s
  unfolding convert_message has_role
  convert_message-assistant layers limits i m s island assistant =
      let system =
        is_text_other (codes "assistant") (codes "system") (get "role" m) refl assistant in
      let user = is_text_other (codes "assistant") (codes "user") (get "role" m) refl assistant in
      rw (island, system, user, assistant, convert_message, has_role) refl

  -- The results of the calls in an assistant's message, any number of them but none, become one
  -- turn of the user's after the assistant's turn: it has a result block for each, in order, and
  -- nothing else of the conversion changes.
  pub results_together :
      (layers : LayerTexts) (limits : CacheLimits) (i : ℕ) (caller first : Message)
      (others : List Message) (s : Conversion)
      → is_island caller ≡ false
      → has_role "assistant" caller ≡ true
      → all is_tool_message (first ∷ others) ≡ true
      → convert_messages std loads new_id layers limits i (caller ∷ first ∷ others) s ≡ record s {
        turns =
            record {
              from_user = true;
              content = map (result_block std loads new_id) (first ∷ others);
            }
            ∷ record { from_user = false; content = assistant_content std loads new_id caller }
            ∷ s.turns;
      }
  unfolding convert_messages result_blocks convert_assistant convert_tool with_result
      is_tool_result_only_message all
  results_together layers limits i caller first others s island assistant k =
      let turn : ApiMessage = record {
        from_user = false;
        content = assistant_content std loads new_id caller;
      } in
      let called = convert_message-assistant layers limits i caller s island assistant in
      let one =
        convert_message-tool layers limits (suc i) first (record s { turns = turn ∷ s.turns })
          (ground arith) in
      ap (λ t. convert_messages std loads new_id layers limits (suc i) (first ∷ others) t) called
      ∙ ap (convert_messages std loads new_id layers limits (suc (suc i)) others) one
      ∙ merges layers limits (suc (suc i)) (result_block std loads new_id first) [] (turn ∷ s.turns)
          s others (results_only (first ∷ [])) (ground arith)
