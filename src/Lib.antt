-- ===== src/Lib.antt =====
-- OpenCovibe drives the command-line interfaces of coding agents (Claude, Codex) from a desktop
-- application or a web server. Its core is the session actor, one task per session, that owns the
-- CLI's process: it queues messages, starts one turn at a time, reads the CLI's output, answers or
-- passes on its requests, and ends turns that hang.
--
-- Paths are from the repository's root.
--
-- Common: numbers, lists, maps and texts that the other modules share.
-- Models: src-tauri/src/models.rs, the run status and the events; Models/Json is serde_json's Value.
-- Storage/Runs: src-tauri/src/storage/runs.rs, meta.json of a run (with_meta, update_status).
-- Storage/Events, Storage/Writer: src-tauri/src/storage/events.rs. Events is the reading of
--   events.jsonl (next_seq, list_bus_events), Writer the EventWriter. The writer's calls are lists of
--   steps, one for each lock that a call takes, in the order in which the locks are had. A file is its
--   bytes; serde_json is the record Serde, and what a proof needs of it the record Prints.
-- Pricing: src-tauri/src/pricing.rs, in whole fractions of a dollar.
-- Claude: src-tauri/src/agent/claude_protocol.rs, the lines of the Claude CLI as events (map_event).
--   State is ProtocolState; System, Stream, Messages and Result are the types of lines. Lines is about
--   many lines, one after the other.
-- Storage/Index: src-tauri/src/storage/run_index.rs, the summary of each run; Update keeps it by the
--   fingerprints of the files.
-- Codex/Protocol: src-tauri/src/agent/session_protocol.rs.
-- Codex/Server, Codex/Response, Codex/Requests: src-tauri/src/agent/codex_appserver.rs, the frames of
--   the driver. Codex/Parse is its parse_line, Codex/Events and Codex/Items the events that it makes,
--   the latter with the names of src-tauri/src/agent/codex_parser.rs.
-- Codex/Pipe: src-tauri/src/agent/pipe_parser.rs, the lines of `codex exec`, the other transport.
-- Session/Turn: src-tauri/src/agent/turn_engine.rs.
-- Session: src-tauri/src/agent/session_actor.rs.
--   SpawnLocks is src-tauri/src/agent/spawn_locks.rs, and Attachments the payload of a message
--   (build_user_payload) and the names of saved files.
--   Actor is the state and its primitives (emit_state, persist_idle_running, the writes to stdin),
--   Ralph the state of a loop that repeats a prompt, Dispatch the start of turns (try_dispatch),
--   Finish their end (ralph_on_turn_end), Timeout the clock (on_tick_timeout), Control the control
--   messages, Stdout and Stderr the lines of the CLI, Loop the commands and the select loop.
--   CodexControl is handle_codex_control, with the permission modes of src-tauri/src/agent/adapter.rs
--   and src-tauri/src/commands/session.rs.
--   Frame, Invariant, Ledger and Safe are what the proofs share: what the primitives leave alone,
--   the invariant, the count of replies and of Ralph loops, and both together. The proofs about a
--   part are in the modules below it: Keeps for the invariant, others named for what they say.
--
-- Web/Auth: src-tauri/src/web_server/auth.rs and the rotation of the token in
--   src-tauri/src/commands/web_server.rs; a session there is a browser's, not a CLI's. Seconds.
-- Web/Live: src-tauri/src/web_server/ws.rs. A connection has three tasks that share a session; each
--   function is what a task does between two of its locks or sends, and a run is a list of such steps
--   in any order. The flush of a buffer is run on fuel in Flush alone, where enough fuel is given.
-- Web/Emitter: src-tauri/src/web_server/broadcaster.rs, which writes an event and then broadcasts it.
--
-- The actor's state is the record SessionActor, field by field; each handler is a function from a
-- state to a state. What a handler does to the outside is an entry of the field log, the newest
-- first: events, replies to callers, lines written, the kill. Its time is in milliseconds and is
-- read once for an input. A write to the CLI's stdin may fail at any time, as a field of Pipe says.
-- A run of the loop is a list of inputs, in the order in which the select loop takes them.
--
-- Loops are structural: over the events of a line, the tickets of a queue, the inputs of a run.
-- There nothing runs on fuel. Turn indices and ids are natural numbers; the source has u32, u64 and
-- i64 counters, whose overflow is out of reach of a session. The counts of Claude and Storage/Index
-- wrap around as a release build's do.
--
-- Parameters, the record Wire: serde_json's from_str and to_string, the saving of attachments, new
-- ids of messages, and how a number of dollars is written in JSON. Numbers in JSON are natural numbers.
-- The events that the actor passes on are told apart in the log from its own. The record Reader of
-- Storage/Index has from_str and the time between two dates (chrono), and the names of attachments
-- take the table of char::is_alphanumeric.
--
-- Not modelled: the saving of attachments, the dispatch of web commands, the other commands and
-- stores, and the frontend.
pub mod Common
pub mod Models
pub mod Pricing
pub mod Storage
pub mod Claude
pub mod Codex
pub mod Session
pub mod Web
