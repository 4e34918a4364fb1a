-- ===== src/Lib.antt =====
-- Ragivka: a model of the Go program, an orchestration server for tenants' conversations with
-- language models, and the theorems about it.
--
-- The parts and how they meet. An HTTP endpoint and the chat channels hand a user's message to the
-- orchestrator, which loads the session and runs the handler of its tier: L0 asks the model, L1
-- retrieves chunks, asks for a structured answer and lets the confidence gate decide between the
-- answer and a human, L2 enqueues a job. Workers of the queue write answers, run tools, ingest
-- documents and expire sessions. All of them go through repositories over PostgreSQL; a session's
-- row is a state machine with an optimistic lock. Graphs of nodes are run by an engine of its own.
--
-- Which file models what.
--   Prelude and its children: shared names, lists, Go's int, maps, decimal texts.
--   Errors: Go's error values and errors.Is, and results that are a value, an error or a panic.
--   Tenant: pkg/tenant/context.go, tenantIDFromCtx of pkg/runtime/types.go and the
--     tenantUUIDFromCtx of the other repositories. Every repository call starts with one of them.
--   World: the tables, the calls that left the process (models, tools, embedder, queue) in their
--     order, the clock, and a schedule that says which database statements fail; a call of the
--     program is a function from a world to a result and a world. World.Keeps says what a call
--     leaves as it was, World.Laws how a statement behaves under the schedule.
--   Runtime.Fsm, Runtime.Types: pkg/runtime/fsm.go and types.go.
--   Runtime.Sessions: pkg/runtime/session_repo.go (Create, GetByID, GetActiveByUserID, Transition,
--     ListExpired), one definition each. Sessions.Concurrency has the interleavings: a step is a
--     creation, a read or a transition of some worker.
--   Runtime.Messages: pkg/runtime/message_repo.go (Create, ListForSession, GetByJobID).
--   Runtime.Users: pkg/runtime/user_repo.go. Runtime.Isolation: what a tenant sees of the tables
--     and of the queue. Runtime.Worker: pkg/runtime/worker.go and what cmd/worker/main.go gives it.
--   Runtime.GenerateJob, Runtime.Expiry: the two workers of pkg/runtime/jobs.go.
--   Runtime.ToolJob: pkg/runtime/tool_job.go.
--   Runtime.ArtifactJob: pkg/runtime/artifact_job.go. Runtime.Retry: a job that the queue runs
--     again.
--   Tools: pkg/tools (types.go, registry.go, hitl.go, audit.go). Tools.Generators:
--     pkg/tools/generators.
--   Storage: pkg/storage/artifact_repo.go and types.go.
--   Aicore: pkg/aicore (types.go, router.go, registry.go, sanitize.go, ollama.go).
--   Obs.Cost: the prices of pkg/obs/cost.go.
--   Orchestrator: pkg/orchestrator (SingleShot is l0.go, Grounded l1.go, Queued l2.go, Dispatch
--     orchestrator.go, Endpoint handler.go).
--   Knowledge: pkg/knowledge/types.go, pkg/knowledge/ingestion (Chunker is chunker.go, Documents
--     and Indexer are indexer.go, Pipeline is pipeline.go with jobs.go, pii.go and ParserFor,
--     Parsers the parsers of parser.go, Connector connector.go), and pkg/knowledge/retrieval
--     (Retrieval is types.go, Hybrid retriever.go, Reranker reranker.go); the Embedder beside them
--     is pkg/knowledge/ingestion/embedder.go, which both packages call.
--   Channel: pkg/channel (Broadcaster is web/broadcaster.go, Web the handlers of
--     web/messages_handler.go, session_handler.go and ws.go, Telegram is telegram/handler.go,
--     sender.go and types.go).
--   Paths: strings.Split(strings.Trim(path, "/"), "/"), which the handlers take paths apart with.
--   Middleware: pkg/middleware (Auth is jwtauth.go and telegramauth.go, RateLimit is ratelimit.go,
--     RequestId is requestid.go and errenvelope.go).
--   Server: cmd/server/main.go: the middleware chains, the configuration, (Wiring) the
--     orchestrator and the Telegram webhook with their parts put in, (Mux) the patterns of the
--     routes and (Routes) what a request runs. Server.Traces puts requests and jobs in a row.
--   Graph: pkg/graph (Types and the nodes are types.go and nodes.go, Engine is engine.go, Registry
--     is registry.go).
--
-- How the code is read. A UUID is a number and its text form a pair of functions that agree
-- (Tenant.Uuid); uuid.New() is an argument. A time is a number of ticks, and float64 is a type
-- with a test for `<` and with operations of which nothing is known. A token count is a natural
-- number, and so is a version. The integers of a configuration are signed (Prelude.Int), without
-- an upper bound. Go maps are association lists; where Go ranges over a map, the list's order
-- stands for the order that was met. Error texts keep their fixed part, and not the formatted
-- values. Logging and metrics are left out.
--
-- Loops and fuel. The engine's loop runs on fuel: Engine.Progress gives a bound that is computed
-- from the graph. The chunker's loop and the embedding loop take the length of their input, since
-- each turn moves by at least one rune or one chunk; printing n in decimal takes n. All other
-- loops are structural.
--
-- Parameters. Language models, tools, the embedder, the queue and the parsers answer by functions
-- that see the number of earlier calls, so that an answer may change from call to call. SHA-256,
-- JSON decoding, regular expressions, strings.ToLower, the audit table behind AuditWriter (its
-- comments' promises are Guards.IsDurable, which the table in World fulfils), JWT verification,
-- strconv.Atoi and ParseFloat, the embedder's HTTP post, the bot API, what the libraries read from
-- HTML, PDF and DOCX, strings.TrimSpace, Fpdf and Excelize with the object store behind the
-- generators, its signed URLs and what they answer, the scores of pgvector and ts_rank and
-- pgvector's check of a literal are parameters too. A retriever is a parameter of its clients, with
-- the hypothesis, where one needs it, that it writes no message.
--
-- Not modelled. The S3 client, the cache, metrics, tracing and cost logs, migrations, the starting
-- and stopping of the servers and of River's queue, all of them calls of libraries; percent escapes
-- in a path, the headers and bodies of answers behind a route; the rows of tenant and the foreign
-- keys to tenant and user; the values that a tool or a model may change in the database on its own;
-- crashes between two statements of one run.
pub mod Prelude
pub mod Errors
pub mod Tenant
pub mod Paths
pub mod Obs
pub mod Aicore
pub mod Knowledge
pub mod Storage
pub mod World
pub mod Tools
pub mod Runtime
pub mod Orchestrator
pub mod Graph
pub mod Channel
pub mod Middleware
pub mod Server
