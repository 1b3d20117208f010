-- ===== src/Lib.antt =====
-- A verification library for the core of picoclaw, a personal AI assistant in Go: how a message finds
-- its agent and its session, how the agent answers it with a language model and tools, how a request to
-- a model falls back from provider to provider, how a long answer is split, and how scheduled jobs run.
--
-- The parts and their files:
--   Base, Base/Tests, Base/Lists, Base/Maps, Base/Ints: shared names, tests on numbers, lists and texts,
--     the Go map as an association list (`Dict`), and Go's int64 with its wrap-around.
--   Strings: Go's `strings` functions on the bytes of a string. `trim_space` is `strings.TrimSpace` with
--     the UTF-8 forms of all white space; `to_lower` is `strings.ToLower`. The letters above 127 go by
--     the record `Unicode`, an instance argument, since Unicode's case table is not part of the
--     repository; nothing is assumed of it. Strings/Paths is `filepath.Join` on Unix.
--   Routing/AgentId: pkg/routing/agent_id.go (NormalizeAgentID, NormalizeAccountID).
--   Routing/SessionKey: pkg/routing/session_key.go (BuildAgentMainSessionKey, BuildAgentPeerSessionKey,
--     ParseAgentSessionKey, IsSubagentSessionKey, resolveLinkedPeerID). A Go map of identity links is a
--     list in the order in which `range` visits it, which Go leaves open.
--   Routing/Route: pkg/routing/route.go (ResolveRoute and the helpers of its seven tiers). It builds its
--     keys by Routing/SessionKey, and normalises IDs by Routing/AgentId.
--   Providers/Types: FailoverReason and FailoverError of pkg/providers/types.go.
--   Providers/Cooldown: pkg/providers/cooldown.go; CooldownTracker is a record, each method a function
--     on it that takes the clock's value in nanoseconds. The methods hold the tracker's mutex, so one
--     call is one step. Counters are Go ints without a bound here; a time is a natural number, and 0 is
--     Go's zero time.
--   Providers/Regex: a backtracking matcher for the part of Go's `regexp` that the classifier uses.
--   Providers/Classifier: pkg/providers/error_classifier.go (ClassifyError and its pattern tables).
--   Providers/ModelRef: pkg/providers/model_ref.go (ParseModelRef, NormalizeProvider, ModelKey).
--   Providers/Fallback: pkg/providers/fallback.go (ResolveCandidates, Execute, ExecuteImage). What the
--     clock, the context and the function `run` answer in the round of a candidate is a record `Turn`;
--     the chain classifies errors by Providers/Classifier, and reads and marks the tracker of
--     Providers/Cooldown.
--   Message: pkg/utils/message.go (SplitMessage). The loop runs on fuel, one round for each
--     chunk, since it need not end; the results say for which texts which fuel is enough, and for which
--     none is. The limit is a natural number.
--   Session: pkg/session/manager.go (GetOrCreate, AddFullMessage, GetHistory, SetSummary,
--     TruncateHistory, SetHistory and the rest of SessionManager) and the message types of
--     pkg/providers/protocoltypes/types.go. Session/Disk has Save, loadSessions and NewSessionManager: a
--     directory is a list of names and entries, a file's JSON stands for the session that it decodes to,
--     where Strings/Utf8 replaces the bytes that are not UTF-8, and which steps of Save succeed is a record
--     `SaveIo`.
--   Providers/ToolCalls: pkg/providers/toolcall_utils.go (NormalizeToolCall). What encoding/json does with
--     the arguments of a call is the record `Arguments`, an instance argument.
--   Providers/Extraction: pkg/providers/tool_call_extract.go, with findMatchingBrace of
--     claude_cli_provider.go. What encoding/json decodes a text to is an argument.
--   Providers/Models: the models of pkg/config/config.go (GetModelConfig with its round-robin counter) and
--     the pool of pkg/providers/pool.go; what CreateProviderFromConfig does is an argument.
--   Skills/SearchCache: pkg/skills/search_cache.go. A similarity is a fraction.
--   Bus: pkg/bus/bus.go. A channel is a list with room for 100 messages, and a call that would block has
--     no result. Bus/Steps interleaves publishers, consumers and Close as a step relation.
--   Agent/Instance, Agent/Registry: pkg/agent/instance.go and registry.go, with the parts of
--     pkg/config/config.go that they read. The candidates of an agent come from Providers/Fallback, its
--     sessions from Session/Disk.
--   Agent/Context: pkg/agent/context.go (BuildMessages, sanitizeHistoryForProvider). The static prompt and
--     the text with the time are arguments.
--   Agent/Compress, Agent/Summary: pkg/agent/loop.go (forceCompression; summarizeSession). A provider is a
--     function from a prompt to an answer or none.
--   Agent/Tools: the tool "message" of pkg/tools/message.go and ExecuteWithContext of
--     pkg/tools/registry.go; the results of other tools are arguments.
--   Agent/Turn, Agent/Iteration: pkg/agent/loop.go (runLLMIteration). The answers of an iteration are a
--     record `Answers`; the loop is a recursion on the iterations that are left, MaxIterations at first,
--     and the retries on the two that are left. It calls the chain of Providers/Fallback, and reads and
--     writes a session by Session.
--   Agent/Background: the goroutine that maybeSummarize of pkg/agent/loop.go starts.
--   Agent/Loop, Agent/Process, Agent/Commands: pkg/agent/loop.go (runAgentLoop; processMessage,
--     processSystemMessage and a round of Run; handleCommand). A message is routed by Routing/Route and
--     Agent/Registry. The bus is taken to be open there.
--   Cron: pkg/cron/service.go. The store's file is part of the state, and a write may fail and tear it. Cron/Runs has the operations that
--     compute next runs and the runs of due jobs; `tick` stands for gronx.NextTickAfter of the library
--     github.com/adhocore/gronx. A handler is a function from the job and the service to the service that
--     is left when it ends, so it may call the service, as other goroutines may.
--   State: pkg/state/state.go. Which steps of a save succeed is a record `SaveIo`.
--   Tools/Edit: pkg/tools/edit.go (replaceEditContent, editFile, appendFile). The file system is a record
--     of its answers.
-- Each part has child modules for what is proved of it, and a module Examples with tests and with the
-- theorems at concrete inputs.
--
-- Not modelled: the clients of chat services and model providers, the other tools, skills,
-- authentication, configuration files, heartbeat, devices, migration and the command line, which are
-- network and file I/O and glue; asynchronous tools; and the texts of logs and of most errors.
pub mod Base
pub mod Strings
pub mod Providers
pub mod Routing
pub mod Message
pub mod Agent
pub mod Bus
pub mod Cron
pub mod Session
pub mod Skills
pub mod State
pub mod Tools
