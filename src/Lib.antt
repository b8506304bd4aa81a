-- ===== src/Lib.antt =====
-- The Dapr MCP server: a Go program that offers the building blocks of a Dapr sidecar as MCP
-- tools. This library models its core in antt.
--
-- The parts and how they interact. `main` (cmd/dapr-mcp-server/main.go) connects to its own
-- sidecar and to those of the configured workflow apps, registers the tools of the packages
-- under pkg that the sidecar's components call for, and serves them on stdio or behind an
-- HTTP authentication middleware with health probes beside it. A tool is a handler: it takes
-- typed arguments, calls a Dapr client, and returns a text, a flag for an error and a
-- structured result.
--
-- Files and what they model:
-- - Base and its children: shared names, lists, maps with their order, text functions of Go's
--   package strings, sorting, integers. A Go map is an association list with distinct keys
--   (IsMap); a text is a list of code points.
-- - Mcp: toolError and toolSuccess, and the calls of a client: an action takes the world to a
--   value or the text of an error, and a new world. A handler returns at its first error; its
--   Go error is always nil. Mcp.Outcomes: what a chain of calls guarantees; Mcp.Calls: tools
--   that make one call.
-- - Workflow.Client: the interface WorkflowClient of pkg/workflow/tools.go, a parameter,
--   since its implementation is durabletask-go.
-- - Workflow.Registry: pkg/workflow/registry.go (newRegistry, multiApp, appIDs, targets,
--   clientFor).
-- - Workflow.Config: pkg/workflow/config.go (ParseAppsConfig).
-- - Workflow.Instance: the tools of pkg/workflow/tools.go that act on one instance
--   (startWorkflowTool to purgeWorkflowTool), with their arguments and texts in
--   Workflow.Instance.Texts. The `uint32` range of an event ID is written out.
-- - Workflow.History: describeEvent and getWorkflowHistoryTool.
-- - Workflow.Listing: listWorkflowsTool. Workers is listApp, Workers.Interleave the
--   goroutines of the fan-out as a step relation under any schedule, Sums the loop over the
--   listings, Report the texts and the structured result.
-- - Auth: pkg/auth/auth.go. Auth.Config is config.go, Auth.Middleware is middleware.go,
--   Auth.Sentry is sentry.go with its cache of keys as state, Auth.Sentry.Checks its checks
--   of the claims, Auth.Sentry.Concurrent its look-ups by concurrent requests, Auth.Spiffe
--   and Auth.Oidc are spiffe.go and oidc.go with their constructors.
-- - State, Lock, Pubsub, Secrets, Crypto, Invoke, Bindings, Actors, Metadata, Conversation:
--   the tools of pkg/state/tool.go, pkg/lock/tools.go, pkg/pubsub/tools.go and so on, one
--   file for each package. The package's client is a record of actions that a tool takes as
--   an argument, in place of the package variable that RegisterTools sets. State.Store holds
--   the laws of a state store, Lock.Exclusion those of a lock store, State.Transactions what
--   follows for sequences of calls, Metadata.Packages the list of components against the
--   registration of main.
-- - Registration: RegisterTools of each package, as the list of its calls of mcp.AddTool,
--   with names, texts, annotations and handlers; one child for a package.
-- - Tools: what holds of the tools of all these packages.
-- - Telemetry: pkg/telemetry/telemetry.go (parseHeaders, DefaultConfig, Init, Shutdown);
--   Telemetry.Metrics is metrics.go with its timers, Telemetry.Instruments their creation,
--   Telemetry.Logs the log levels, Telemetry.Middleware the response writer of middleware.go.
-- - Health: pkg/health/health.go.
-- - Server: cmd/dapr-mcp-server/main.go. Server.Connect is connectWithRetry and
--   initializeWorkflowApps, Server.Components the registration by components,
--   Server.Authentication is buildAuthenticators and the choice of the middleware,
--   Server.Offered the tools that main registers and whether their read-only annotations are
--   true, Server.Start the start of main from the pool to the HTTP handler that stands before
--   the MCP endpoint, Server.Http the routes of the HTTP server and HTTPMiddleware,
--   Server.Instructions the texts of the instructions, Server.Packages the constructors of
--   package auth as buildAuthenticators calls them, Server.Main the whole of main with the
--   two ways it ends and what it defers.
-- - Examples: concrete runs, with clients that log their calls.
--
-- Bounds. connectWithRetry makes five attempts, which is a recursion on the number of
-- attempts left. A page of workflows has at most 500 instances. Every loop is a recursion on
-- the list it runs over, so there is no fuel; the goroutines of list_workflows run by a
-- schedule. A `time.Duration` is an integer of nanoseconds, and the time since the last
-- refresh stops at the largest one. Time passes in the calls of the world only, not between
-- two readings of the clock.
--
-- Not modelled. Logs and tracing spans; the redirects of http.ServeMux to clean paths; the
-- JSON encoding of replies; the MCP SDK, which keeps the tools, derives the schemas of their
-- arguments and decodes those; the libraries durabletask-go, go-jose, go-oidc, go-spiffe, the
-- Dapr SDK and OpenTelemetry, whose calls are parameters; random UUIDs, floating-point
-- numbers and JSON, which are parameters.

pub mod Base
pub mod Mcp
pub mod Actors
pub mod Auth
pub mod Bindings
pub mod Conversation
pub mod Crypto
pub mod Examples
pub mod Health
pub mod Invoke
pub mod Lock
pub mod Metadata
pub mod Pubsub
pub mod Registration
pub mod Secrets
pub mod Server
pub mod State
pub mod Telemetry
pub mod Tools
pub mod Workflow
