-- ===== src/ToolLoop/Conversation.antt =====
-- `run_internal_tool_loop` of tool_loop.py as a conversation with the upstream.
use shenyugateway.Common.{
  ℕ, true, List, [], ◌∷◌, ◌++◌, ◌≡◌, refl, ap, sym, subst, ◌∙◌, inl, inr, append_assoc, map, all,
  Bool-cases,
}
use shenyugateway.Text.{Text, strip, is_empty}
use shenyugateway.Echo.{split_leading_echo}
use shenyugateway.Json.{obj, Fields, Message, get, has_role}
use shenyugateway.Upstream.Results.{is_tool_message}
use shenyugateway.Upstream.Caller.{assistant_tool_call_message}
use shenyugateway.ToolLoop.Calls.{first_message, content_text_only}
use shenyugateway.ToolLoop.State.{Context, Run, record_echo_segment, next_process_order}
use shenyugateway.ToolLoop.Mixed.{call_list}
use shenyugateway.ToolLoop.Rounds.{
  run_native_round, append_streamed_reply_content, append_assistant_tool_call_message,
  visible_round_content,
}
use shenyugateway.ToolLoop.Caller.{caller-Calling}
use shenyugateway.ToolLoop.Answered.{run_calls-messages}

-- Messages that begin with the prepared ones and go on in whole rounds: an assistant's message with
-- calls, and then a tool's message for each call, which names it, in the calls' order.
pub data Answered (prepared : List Message) : List Message → Type 0 where
  nothing_called : Answered prepared prepared
  round :
      {messages : List Message} (caller : Message) (calls : List Fields) (answers : List Message)
      → Answered prepared messages
      → has_role "assistant" caller ≡ true
      → get "tool_calls" caller ≡ call_list calls
      → map (get "tool_call_id") answers ≡ map (get "id") calls
      → all is_tool_message answers ≡ true
      → Answered prepared (messages ++ caller ∷ answers)

-- Of each list of messages in a list.
abbrev pub Each : (List Message → Type 0) → List (List Message) → Type 0
Each holds [] = Unit {0}
Each holds (messages ∷ rest) = holds messages × Each holds rest

module _ {W : Type 0} (ctx : Context W) where
  -- The state once a round's echo is recorded, and once its text and its calls are too.
  heard : Fields → Run W → Run W
  heard completion run =
      let content =
        content_text_only ctx.std ctx.loads (get "content" (first_message completion)) in
      record_echo_segment (split_leading_echo content).echo run

  before_calls : Fields → List Fields → Run W → Run W
  unfolding heard
  before_calls completion calls run =
      append_assistant_tool_call_message ctx completion calls
        (append_streamed_reply_content ctx completion (heard completion run))

  echo-messages :
      (echo : Text) (run : Run W)
      → (record_echo_segment echo run).working_messages ≡ run.working_messages
  unfolding record_echo_segment next_process_order
  echo-messages echo run = elim (Bool-cases (is_empty (strip echo))) [
    | inl e ↦ rw (e, record_echo_segment) refl
    | inr e ↦ rw (e, record_echo_segment) refl
  ]

  heard-messages :
      (completion : Fields) (run : Run W)
      → (heard completion run).working_messages ≡ run.working_messages
  unfolding heard
  heard-messages completion run = echo-messages _ run

  content-messages :
      (completion : Fields) (run : Run W)
      → (append_streamed_reply_content ctx completion run).working_messages ≡ run.working_messages
  unfolding append_streamed_reply_content
  content-messages completion run =
      elim (Bool-cases (is_empty (visible_round_content ctx completion))) [
        | inl e ↦ rw (e, append_streamed_reply_content) refl
        | inr e ↦ rw (e, append_streamed_reply_content) refl
      ]

  -- A round adds the assistant's message with its calls and a tool's message for each of them.
  pub run_native_round-messages :
      (i : ℕ) (completion : Fields) (calls : List Fields) (run : Run W)
      → (answers : List Message) × ((run_native_round ctx i completion calls run).working_messages
          ≡ run.working_messages
            ++ assistant_tool_call_message ctx.std ctx.dumps
                (first_message completion)
                (map (λ call. obj call) calls)
              ∷ answers)
        × (map (get "tool_call_id") answers ≡ map (get "id") calls)
        × (all is_tool_message answers ≡ true)
  unfolding run_native_round append_assistant_tool_call_message before_calls heard
  run_native_round-messages i completion calls run =
      let caller =
        assistant_tool_call_message ctx.std ctx.dumps (first_message completion)
          (map (λ call. obj call) calls) in
      let (answers, added, names, tools) =
        run_calls-messages ctx i calls (before_calls completion calls run) in
      let same =
        content-messages completion (heard completion run) ∙ heard-messages completion run in
      (
        answers,
        added
            ∙ ap (λ ms. (ms ++ caller ∷ []) ++ answers) same
            ∙ append_assoc run.working_messages (caller ∷ []) answers,
        names,
        tools,
      )

  pub native_round-Answered :
      (i : ℕ) (completion : Fields) (calls : List Fields) (run : Run W)
      → Answered ctx.prepared_messages run.working_messages
      → Answered ctx.prepared_messages
          (run_native_round ctx i completion calls run).working_messages
  unfolding call_list
  native_round-Answered i completion calls run h =
      let (answers, added, names, tools) = run_native_round-messages i completion calls run in
      let (listed, assistant, _) =
        caller-Calling ctx.std ctx.dumps (first_message completion)
          (map (λ call. obj call) calls) in
      subst (Answered ctx.prepared_messages) (sym added)
        (round {messages = run.working_messages} _ calls answers h assistant listed names tools)
