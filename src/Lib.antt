-- ===== src/Lib.antt =====
-- The patched inference server (lucebox-patch/server/src): how an HTTP request is read and a model
-- chosen for it, what it may generate and from which cached state it starts, how generated tokens
-- become the events of three API formats, where a tool call stands in the text, how a job's bytes
-- reach its client, and of the backend the paged sequence, the snapshot slots, the parking of its
-- models and the floor on tokens.
--
-- Parts and files. Paths are from the repository's root; server/src stands for
-- lucebox-patch/server/src.
--   Base        lists, byte strings, Boolean tests on native numbers, the lemmas all parts use
--   Json        the calls of nlohmann::json, a parameter of the parts that read declarations
--   Sse         server/src/server/sse_emitter.cpp and sse_emitter.h, class SseEmitter
--     Event       the events of the formats, as data in place of their JSON text
--     Wire        the state of the delta functions, and the log `sent` of all events: a function of
--                 the source that returns chunks appends to this log here
--     Token, Reasoning, Content, Loop     emit_token; one round of its `while (true)` is `round`
--     Start       the constructor, emit_start, suppress_undeclared_tool_protocol_token
--     ThinkClose  find_top_level_think_close
--     Timings     build_timings_json
--     Finish, Final   emit_finish; `before_final` computes the finish reason, `final_in` closes
--     Session     the calls that a request makes, in order; Session/Reason, the finish reason
--     Loop/Invariant, Carry   what every step keeps, as records that the proofs fill
--     View        the client's view of the deltas; Blocks, the Anthropic protocol of blocks
--   ToolSyntax, ToolTable     server/src/server/tool_parser.cpp, 56-220; ToolTable.request_toolkit
--               fills the emitter's interface Sse.Toolkit with them
--   ToolCall    server/src/server/tool_parser.cpp, from 320 on: the matching of braces, the test for
--               a malformed object; Signature, parse_function_sig_args; Schema, the arguments of a
--               call against the tool's schema; Cleaned, the text without the calls
--   Server      parts of server/src/server/http_server.cpp: Heartbeat (the stream of a job),
--               Delivery (tokens to the emitter), Queue (the list of jobs), Prompt (tests on
--               prompts, and two of server/src/qwen35/qwen35_backend.cpp)
--     Http      read_http_request and format_http_response; the socket is a list of the pieces that
--               recv returns. Request writes a message and reads it back; Cut breaks it off
--     Routing   route_model_request: what a client's thread does between two points where another
--               thread may run is a turn; System, the turns of all clients in any order; Pass and
--               Priority, one client's way over the models
--     Budget    apply_request_reasoning and the generation cap of prepare_generation_inputs; Body reads
--               the request, and a step that throws is `none`. Effort, Precedence: what a body asks for
--     Cache     prepare_generation_cache (Lookup, Disk, Target), finalize_generation_cache (Finalize)
--               and the replay of remember_agent_turn (Replay). The record Stores stands for the
--               backend's snapshots, PrefixCache and the disk cache, over one outside state; what the
--               server tells them is logged in `calls`, the newest call first. Balance and Settled
--               count the reservations in that log; Kept, the server's own tables
--   Backend     server/src/qwen35/qwen35_backend.cpp: Paged, the paged sequence of a request, with
--               PagedKvPool as an interface; Snapshots, the snapshot slots, with ggml's contexts and
--               the copies of the target's state as an interface, and TensorNames, what a name says.
--               Its calls on slots are those that Server.Cache.Stores asks of a backend. Residency,
--               park and unpark, with what is loaded and released in `calls`, the newest call first;
--               Floor, the floor on the number of tokens, over any type of scores
--   Tests       runs at concrete inputs
--
-- State is passed on explicitly: an operation takes a record and returns it. A position that the
-- source marks with npos or -1 is an Option. A `std::string` is a list of bytes; a byte is a number
-- and no operation makes one above 255 from bytes. Lengths and counters are natural numbers: the
-- source's `size_t` and `int` count bytes and tokens of one response, which fit. An `int` that may be
-- negative (slots, positions, budgets) is an integer of Base.Int, without overflow.
--
-- Fuel. The loop of emit_token gets |window| + 2 rounds (Sse.Loop.loop_fuel); each round that
-- continues lowers a measure of mode and window that starts below that. The scan for `</think>` gets
-- one step for each byte, and every step consumes a byte. parse_function_sig_args gets one pass for
-- each byte and one more, and every pass but the last consumes a byte.
--
-- Not modelled: JSON text and logging, locks and waiting (but for the choice of a model, an operation
-- runs as a whole under its mutex), the patterns of parse_tool_calls (an argument of the emitter),
-- utf8_utils.h and the tokenizer (arguments, not part of the repository), sockets and curl, the
-- parsing of endpoints, the rewriting and the rendering of prompts, the status pages, and the GPU
-- backend but for its paged sequence, its snapshot slots, the parking of its models and the floor on
-- tokens. The classes PrefixCache and DiskCache, PagedKvPool and ggml are not part of the repository.
pub mod Backend
pub mod Base
pub mod Json
pub mod Server
pub mod Sse
pub mod Tests
pub mod ToolCall
pub mod ToolSyntax
pub mod ToolTable
