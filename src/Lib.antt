-- ===== src/Lib.antt =====
-- Verification of the Shenyu gateway, a proxy that stands between a chat client and an upstream
-- model: it keeps a stable prompt prefix over many requests, so that the upstream's prompt cache is
-- hit, and it takes private blocks out of the model's replies.
--
-- The parts that are modelled, and how they interact:
--   Echo.antt          shenyu_gateway/echo.py. `EchoStreamFilter` is the record EchoFilter, which
--                      `feed` and `finish` pass along. The loop of `feed` runs on fuel, for three
--                      rounds, one for each state; they are enough, since the stream agrees with
--                      the description in Echo/Scan.antt, which has no fuel and no rounds.
--   Window.antt        shenyu_gateway/context_window.py. Groups and Boundaries: human turns.
--                      Events: what of a message counts in comparisons (with Echo, it strips
--                      echoes). Classify, Lineage, Slide, Meaning: `classify_history_event`.
--                      Select, Stable, Bounds, Retry: `select_chunked_window`, which takes the
--                      class and the slide that classification gives. Bridge, Merge: the bridge.
--   SystemPrefix.antt  shenyu_gateway/system_prefix_buffer.py. The `epoch_reset` that
--                      `select_chunked_window` reports opens this gate.
--   MemoryIsland.antt  shenyu_gateway/memory_island.py, stars/_render.py and utils.py: rendering;
--                      below it Lanes: `_choose_lane`; Resolve: `resolve_memory_island`, whose
--                      state is a record as the function itself writes it; Retained: when a lane
--                      keeps its items; Kept: what stays. The island's state rides in the window's
--                      state, which passes it through.
--   Orchard.antt       shenyu_gateway/orchard.py: the tables of conditions; below it Weather:
--                      rules, scars and the choice of a line; Fruit: buckets and conditions.
--   Pending.antt       shenyu_gateway/store/_pending.py, and below it CallIds, Same: the canonical
--                      call ids of store/_base.py. The table of waiting tool turns is a list of
--                      rows, and each SQL statement a function on it; the one that takes the
--                      newest row is an argument, since SQL leaves open which one of equal times
--                      it takes. Turns: pruning and consuming. Created: a turn is found again.
--   Layers.antt        shenyu_gateway/context_layers.py. Turns: the trimming of the client's
--                      messages, where `tool_safe_trim_start` calls itself on fuel; Calls,
--                      Settled, Start and Trim: it is enough to have fuel for one call more than
--                      the start's index, where only assistants call tools. Place: where the
--                      island may stand. Assemble, Kept: the layers, the bridge of
--                      Window/Bridge.antt and the island of MemoryIsland.antt put around the
--                      messages. ColdStart: the sources. McpResults, Aged: old results of tools.
--   Registry.antt      shenyu_gateway/tool_registry.py, with the names of tool_schemas.py and
--                      room_tools.py in Names. Tools, Merge: the tools of a request. Arguments,
--                      Dispatch: `execute_gateway_tool`, on fuel for two calls, which are enough;
--                      an outcome says which service a call goes to.
--   Upstream.antt      shenyu_gateway/upstream_adapter.py: the messages that Layers assembles in
--                      the form of Anthropic's API. Normal, Blocks: texts and content blocks;
--                      Cache: breakpoints; State, Messages, Tail: `_openai_to_anthropic`, one
--                      message after the other and then the breakpoint on the tail; Pieces: the
--                      tools, the reason of a stop, and the chunks of a text. Marks, Balance,
--                      Bounded: the breakpoints, counted. Contents, Sanitize, Sendable: the
--                      messages for an OpenAI-compatible upstream. Caller: an assistant's message
--                      with calls.
--   Capture.antt       shenyu_gateway/response_capture.py. `AssistantTagFilter` is the record
--                      TagFilter; its loop runs on fuel, for one round more than the buffer has
--                      characters, which is enough, since Split.antt reads the whole reply.
--   ToolLoop.antt      shenyu_gateway/tool_loop.py. Calls, Errors: the reading of calls and of
--                      failed results; State: `InternalToolLoopContext` with its callables, what
--                      the loop keeps, and a list of what goes out; Album: `finish_album_action`
--                      of album_media.py; Execute: one call, with the cache; Mixed: the last reply
--                      (with Echo, Capture and Upstream/Caller); Rounds: the loop, by recursion on
--                      the rounds that are left. One callable is the way from the working messages
--                      to the completion: `hydrate_album_views`, which puts photos into a copy of
--                      them, `build_upstream_request`, which may raise before anything is sent,
--                      and `call_upstream_json`. A request is recorded by the messages before the
--                      photos. The calls go to Registry.antt's `execute_gateway_tool`, and the
--                      turns that wait to Pending.antt; the answered rounds come back to
--                      Upstream.antt. Effects, Answered, Caller, Silent, Final, Conversation,
--                      Asked, Keys, Once, OnceRounds, OnceOnly, Receipts, Converted, Decorated,
--                      Shaped, Ids and Forwarded are about these.
-- Common.antt, Text.antt and Json.antt are what they share: lists measured by native numbers,
-- Python's `str` as a list of code points, and JSON values with Python's reading of them.
--
-- Parameters: `Stdlib` in Json.antt holds what the code calls of Python's library (json.dumps,
-- SHA-256, str.lower, re.sub and repr). `parse_ts` reads an ISO time as microseconds, or as
-- nothing. `Today` and `Calendar` are the dates that the island and the orchard call; `first_byte`
-- is a digest's first byte, `float_of` and `loads` are `float` and json.loads. Nothing is supposed
-- of any of these, but that a drawn call id is not empty, and that SQL's newest row is one that
-- none is newer than, where a theorem says so. `dumps` is json.dumps with keys in their order. The
-- tool loop's world `W` and what its callables do there are parameters. The ids that the code
-- draws at random are arguments. `details` and `description` are what a tool's schema says besides
-- its name, and the tools of MCP servers are an argument.
--
-- Numbers are unbounded as Python's are; subtraction stops at 0 where the code clamps. Idle times
-- are whole seconds. The overlap of two lanes is compared with its threshold without division, and
-- `round` is computed on exact numbers, in place of floating-point ones.
--
-- Messages, tool calls and sources are dicts, as the code takes them to be. An offset of the island
-- is not negative.
--
-- Not modelled: HTTP routes, network clients, the rest of the store and of the services over
-- remote tables, the handlers of the tools, the way back from Anthropic's form, and the clients.
-- Of the tool loop: the streaming variant, which yields the same rounds as events; the round
-- logs; a process event's details; the id of the reply's version in what is logged; and what is
-- attached to the reply for the client's display. A declared error kind is hashable, as the code
-- takes it to be.
pub mod Common
pub mod Text
pub mod Json
pub mod Echo
pub mod Window
pub mod SystemPrefix
pub mod Orchard
pub mod MemoryIsland
pub mod Pending
pub mod Layers
pub mod Registry
pub mod Upstream
pub mod Capture
pub mod ToolLoop
