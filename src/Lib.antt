-- ===== src/Lib.antt =====
-- Observer: the monitoring of cron jobs by agents on the hosts and a central server.
--
-- The server (apps/server) keeps hosts, jobs, executions, metrics, alerts, commands, credentials and
-- enrollment tokens in PostgreSQL. Its HTTP handlers authenticate a request (internal/api/auth.go),
-- and call services (internal/service) that run the statements of repositories
-- (internal/repository); a timer runs the alert rules (internal/alerting/evaluator.go). The agents
-- (apps/agent) discover cron jobs, observe their runs and report them.
--
-- Common is shared: tests and lists over the native numbers, equality as an interface, association
-- lists (Assoc), tables (Tables) and Go's strings over texts (Strings).
-- Server.Auth models apps/server/internal/api/auth.go: AuthManager is a record, each method a function
-- from a manager to a manager and a result. The clock, the random bytes and the credential validator
-- are arguments. A request is a step of Server.Auth.Request; each method holds its lock for its
-- change, so that the requests are a sequence.
-- Server.Domain models internal/domain/models.go.
-- Server.Store is the database: `Db` holds the tables, and an `Action` passes it on with a result or an
-- error. PostgreSQL, the clock, the UUID parser, SHA-256 and the random source are no code of the
-- repository: an `Env` gives for every step whether the statement fails, the time and the id drawn.
-- Server.Repository has a module for each file of internal/repository, a function for each method: a
-- SELECT, INSERT or UPDATE is written with find, select, append and update_where, and the
-- constraints of the schema (apps/server/migrations) as tests that end in an error.
-- Server.Service has a module for each file of internal/service, and Server.Alerting models
-- internal/alerting/evaluator.go.
-- Server.Request models the payloads of internal/api/request.go: the decoder of the standard library
-- is left out, and a panic is a missing result.
-- Server.Api has the handlers of internal/api/handlers.go, as functions from the tables to a response and
-- the tables, and the routes of router.go: `serve` is a request to the server, whose state is the
-- AuthManager and the tables.
-- Server.Config models internal/config/config.go, and Server.Start cmd/server/main.go with internal/db: a
-- server that serves is a sequence of requests and of rounds of the alert rules.
-- Server.StatsRepo models repository/stats.go, and its child Recovery the failure episodes.
-- Server.Delivery, Server.Enrollment and Server.Reports are the sequences of operations on the commands,
-- the enrollment tokens and the reports that the theorems are about.
-- Agent.Discovery models apps/agent/internal/discovery/cron.go, and Agent.MailSpool
-- apps/agent/internal/observer/mailspool.go, which counts its readings of the clock.
-- Agent.World is what the agent meets and holds: an `AgentEnv` gives for every step whether bbolt fails,
-- the time, the UUID, and whether a request succeeds; `World` holds the state file and the uploads
-- that the server accepted. bbolt is the interface Agent.Bolt, with an implementation in memory.
-- Agent.Store models apps/agent/internal/state/store.go, Agent.Reporter internal/reporter/reporter.go,
-- Agent.Process internal/observer/process.go and journal.go, and Agent.App internal/app/app.go: its
-- `Memory` is the maps of an `Agent`, and `round` what a ticker of the main loop does.
-- Agent.Client models internal/client/client.go, over a `Transport` that answers requests, Agent.Config
-- internal/config/config.go, and Agent.Probes internal/probes/runner.go.
-- Agent.Machine is what the command line of the agent meets: files, processes and standard input; a
-- `MachineEnv` gives for every step whether a system call fails. Agent.Machine.Stores has the state files
-- by their paths, and state.Open. Agent.Paths, Agent.Setup and
-- Agent.Commands (init, status), Agent.Status (the summaries) and Agent.Daemon (run, daemon) model
-- cmd/agent/main.go over it, and Agent.Start the start of internal/app/app.go up to its main loop.
-- Handshake joins the agent's client to the server's routes.
--
-- Loops over lists are structural recursions; no fuel is used. A text is a list of character codes.
-- Times are natural numbers of nanoseconds. Two statements of concurrent requests interleave only
-- where a theorem says so.
--
-- Not modelled: the row scanners and log lines, which only convert and print; the HTTP server with its
-- third-party middleware, the decoding and encoding of JSON, the connection pool, the web application,
-- the sample data; the declaration of the flags; the reading of the crontabs, of the process
-- table and of the journal, whose contents are arguments.
pub mod Common
pub mod Server
pub mod Agent
pub mod Handshake
