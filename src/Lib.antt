-- ===== src/Lib.antt =====
-- Shared Go module of Rysh, an agentic terminal multiplexer: the parts that its daemons, its agents
-- and its front ends have in common.
--
-- peercoord/ is the protocol by which the daemons of a team share a board of tasks. A Store holds
-- the board's State (peers, agents, the leadership with its term and lease, tasks with their
-- attempts) and the hashes of the secrets of peers and of executions. engine.go is a pure function
-- Apply of the store, the caller's credentials, one request and the time; a server keeps the log
-- and calls it once per request. provider/ talks to language models; before each request
-- HealToolPairing (provider/toolpairing.go) repairs the transcript, so that each call of a tool has
-- its result, and requests that fail are made again under a RetryPolicy. secretnat/ replaces
-- secrets in what is sent by tokens, and keeps the table by which the answers are translated back.
-- agentic/ is the loop in which a model uses tools: the orchestrator (agentic/orchestrator.go)
-- sends the conversation to the provider, runs the tools that the answer calls, and goes on until
-- the answer calls none. Before it runs a call it asks detectLoop, the grounding gate, the
-- permissions, ReadTracker and decideApproval with ApprovalMemory, and where these say so a human.
-- tools/ holds the registry in which the orchestrator finds a tool. forge/ calls APIs, for which a
-- TokenManager (forge/runtime/token.go) keeps a token.
--
-- Which file models what:
--   Prelude            names and lemmas that all parts share: Boolean tests, lists measured by native
--                      numbers, Go maps with string keys, `int64` as a bit pattern, results
--   Peercoord/Types    peercoord/types.go: State, Store, Request, Auth, Event, Response, and the codes
--   Peercoord/Text     the checks on names, texts and credentials at the top of peercoord/engine.go
--   Peercoord/Transition   transition and its helpers: event, peer, ownAgent, leader, ResolveAgent
--   Peercoord/Registry     join, register and appoint
--   Peercoord/Board, Leaders   the cases of transition.apply on peers, leadership and messages
--   Peercoord/Tasks    assign, execution and change
--   Peercoord/Work, Execution  the cases of transition.task
--   Peercoord/Engine   transition.apply, Apply and VerifyPeer
--   Peercoord/Effects  what an accepted operation may change, operation by operation
--   Peercoord/Lifecycle    the graph of a task's states, and what holds of the tasks between requests
--   Peercoord/Authority    credentials, leases, terms, claims and events
--   Provider/Turns     ConversationTurn and its parts: provider/agentic_provider.go, contentblock.go
--                      and thinking.go
--   Provider/Pairing   HealToolPairing and ValidateToolPairing; Pairing/Paired states the pairing rule
--   Provider/NeutralTurns  provider/turns.go: the neutral turns, and the conversions to and from them
--   Provider/Retry     provider/retry.go: classifying failures, backoffFor, retryWithPolicy
--   Secretnat/Mapping  secretnat/mapping.go: MappingTable
--   Secretnat/Stream   secretnat/stream.go: StreamRestorer, on bytes
--   Agentic/ReadTracker    agentic/read_tracker.go: the protection of edits of files that have changed
--   Agentic/ApprovalMemory agentic/approval_memory.go: what a human has approved for good
--   Agentic/Permissions    agentic/permissions.go: rules on the paths of a call, glob patterns
--   Agentic/Policy     agentic/approval_policy.go: what a policy may decide about an approval
--   Agentic/PatchParse     agentic/patch_parse.go: the files that a unified diff touches
--   Agentic/Grounding  agentic/grounding.go: the gate that a report opens, and the report
--   Agentic/OutputShape    agentic/output_shape.go: cutting a long output of a tool
--   Agentic/SessionMemory  agentic/session_memory.go: the turns of a session, CloseDanglingToolCalls
--   Agentic/TurnModel  agentic/turn_model.go: who has written a turn, and the notes for another model
--   Agentic/Orchestrator   agentic/orchestrator.go, in parts:
--     State            the world that answers (Env), the state of a run (Orchestrator), the effects
--     Decisions        detectLoop, decideApproval and approveAlways
--     Calls            executeTool: its gates, previews, approvals and the run of the tool
--     Compaction       maybeCompact and compactConversation
--     Rounds           runLoop, a round of it, and how it ends
--   Tools/Registry     tools/registry.go: ToolRegistry
--   Forge/TokenResponse    forge/runtime/token.go: parsing what a token endpoint answers
--   Forge/Token        forge/runtime/token.go: TokenManager
--
-- How code becomes a definition. A function keeps its name, with `_` between words; a method takes
-- its receiver, and returns the new one where it writes to it. A function that returns an error is
-- one into `Outcome`, whose error is the code (ErrForbidden is `forbidden`); the texts of errors
-- are left out. The switch of transition.apply is a data type of operations (`Op`, from the
-- request's string by `op_of`), so that a request for an unknown operation is a value as well. The
-- copy that Apply makes of the store is the value that it was given, and an error returns that
-- value. Apply's `transact` is the run without that return.
--
-- A Go map is an association list. A `range` over it is a loop over the list, whose order stands
-- for the one that Go happens to take; a theorem holds for each order, as it holds for each list.
-- `IsMap` says that a key stands once. Where two Go maps share the records that they point at,
-- these are places in a list, the heap. Times are nanoseconds since the zero time. An `int` or
-- `int64` is a number below 2 ^ 64, its bit pattern: `slt` compares as signed, and `inc64` wraps
-- around.
--
-- What the source takes from packages outside it is a parameter, the record Env of Peercoord/Types:
-- uuid.Parse, uuid.NewString (by the number of the call), uuid.NewSHA1, SHA-256 in hexadecimal, and
-- the JSON text of a state's summary. Theorems that need new ids to be new have that as a
-- hypothesis, IsFresh.
--
-- What provider/retry.go asks of its callers and of the standard library is a parameter as well:
-- for retryWithPolicy the record Caller gives what the closure returns at each attempt, when the
-- context ends, and the random part of a wait; Headers and TransportError give what the standard
-- library makes of a header or of an error. World gives the files, paths and hashes at the time of
-- a call of ReadTracker. AuthWorld gives what a token endpoint answers, the time, the environment
-- and the decoders. A `float64` is its bit pattern. The closure that mints a token is a function of
-- the number, and IsNew says that its token is not in the table yet.
--
-- The orchestrator is a function of the world, the record Env of Agentic/Orchestrator/State. The
-- state of a run is in two records: Orchestrator has the conversation and the counters of the run,
-- and Desk in it has what a call of a tool reads and writes, with a clock and a log of effects.
-- Each question to the world (a request to the provider for a reply or for the summary of a
-- compaction, the run of a tool, the wait for a human, the cancellation of the actor) is answered
-- by a function of the clock, and moves the clock on, so that no two questions share an answer; the
-- log has each of those requests, each run of a tool and each answer of a human, in order; what a
-- sub-agent does in its own run is not in it. A tool that returns no error returns an output. JSON,
-- SHA-256 of parameters, the regexp package, filepath.Match, the slice of a text at a byte and the
-- texts that sum up a step are parameters. The run of a sub-agent is an answer of the world.
--
-- Fuel: a number is printed in decimal with 20 digits, and a number below 2 ^ 64 has at most that
-- many. run_loop gives its rounds one more than the maximum of iterations as fuel, and a theorem
-- says that they never run out of it. The loop of retryWithPolicy goes down on the attempts that
-- are left, and all other loops go over a list.
--
-- Not modelled: nil entries in the maps of a store, which no operation writes; a request whose
-- texts are not UTF-8, which the JSON decoder never gives; a store that is shared between
-- goroutines (the tables that have a mutex hold it through each call); what the orchestrator only
-- shows (displayed outputs, status and step events, metrics, screenshots); an orchestrator without
-- a provider; AllSpecs and Names of a registry; the remaining parts of the repository, which are
-- listed in the manifest.
pub mod Prelude
pub mod Peercoord
pub mod Provider
pub mod Secretnat
pub mod Tools
pub mod Forge
pub mod Agentic
