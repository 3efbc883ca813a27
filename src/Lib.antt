-- ===== src/Lib.antt =====
-- fleetcore is a control plane for machines: an admin API keeps tenants, groups of machines and modules
-- to run; an agent API enrolls machines, sends each the modules that it shall have, and takes their
-- status. This library models the server's core and the agent: its reconcile loop, its stream, its
-- identity, and what it reads of its host.
--
-- Parts and files (paths from the repository's root):
--   internal/api/types.go: Api (Records, Samples), the wire records with the source's fields; float64 is
--     a parameter.
--   internal/store/store.go: Store and its children Tokens, Machines, Modules, Groups, the FileStore: its
--     maps in memory, the JSON file as the data that it decodes to, and every operation under the
--     source's name (ConsumeToken is consume_token). Store.Writes lists the writing calls as one type.
--   internal/store/turso.go: Turso (the protocol's values and exec) and its children Tables, Accounts,
--     Machines, Modules and Groups, with each SQL statement as a function on the tables (Turso.Table).
--     Turso.Schema is OpenTurso and migrate on the columns of the tables.
--     Turso.Agrees says which tables stand for FileStore's maps, and Turso.Retry what attempts do to them.
--   internal/bus/bus.go: Bus, the channels of each topic with the signals that wait in them.
--   internal/server/groups.go: Resolver (selectorMatches, computeModules, Recompute) and Admin.Groups (the
--     handlers).
--   internal/server/commands.go: Commands (names and pruning), Admin.Commands, Admin.Scripts and
--     Admin.Listings (the handlers).
--   internal/server/admin.go: Admin, Admin.Tenants, Admin.Machines.
--   internal/server/server.go: AgentApi.
--   internal/server/live.go: Live (the registry and pushes), Live.Stream, Live.Snapshot (the snapshot of the
--     fleet) and Live.Gauges.Samples.
--   internal/server/metrics.go: Live.Gauges, whose children are Facts (the facts of heartbeats) and Escape.
--   internal/ca/ca.go: Authority, whose keys, certificates and PEM are the standard library's.
--   cmd/fleet-agent/main.go and cmd/fleet-server/main.go: Startup (the commands of the agent and Run of
--     internal/agent/agent.go) and Startup.Names (the names of the server's certificate, TLSConfig).
--   internal/agent/modules.go: Agent, the reconcile loop that runs modules and remembers them.
--   internal/agent/agent.go: Agent.Runtime (streamOnce, streamLoop, retryLoop) and Agent.Enrollment
--     (Enroll, init, maybeRenewCert).
--   internal/agent/metrics.go, netinfo.go, procsample.go: Sampling (the readings of /proc), Sampling.Tick
--     (one tick of the metrics loop), Sampling.Rates and Sampling.Processes, and Interfaces.
--   internal/agent/inventory.go: Inventory (services and the Kubernetes role) and Inventory.Host.
--   internal/agent/updates.go: Updates.
--   internal/agent/kubernetes.go: Kubernetes (the cgroup tree) and Kubernetes.Pods (names and samples).
--
-- How they interact: a handler (Admin, AgentApi) is a call on Server, the state that holds the store, the
-- bus, the clock and the supply of identities. It reads and writes the store, and has the Resolver
-- recompute the desired modules of the machines that a change concerns; the Resolver saves each machine
-- whose modules changed and publishes its identity on the bus, which wakes the machine's stream. An
-- agent reconciles what the stream sends it, and reports the statuses to the agent API. A tick of its
-- metrics loop makes a sample (Sampling.Tick), which the agent API keeps in the live registry (Live); the
-- admin API reads the registry in the streams, the snapshot and the scrape.
--
-- How it is modelled: a call is a function from a state to a result and a state (Prelude.Exec), so what
-- was written before an error stays written. A Go map is a list of entries in the order of a range loop
-- (GoMap), and sort.Slice is an insertion sort (Sort). Go ranges over a map in a new order each time:
-- where a theorem speaks of two calls and this matters, the second has its entries in any order
-- (Resolver.Repeated). A mutex that is held throughout makes a call one
-- step. Which writes of the file work, the time, random identities, signatures, certificates and the
-- conversions between strings and bytes are parameters, and so is float64 with its operations
-- (Prelude.Float). What the agent reads of its host is text as a list of bytes (Prelude.Bytes), with
-- the functions of Go's library that read it; a uint64 wraps around at 2^64. Numbers that are never
-- negative are ℕ, without a bound, and so is the time of a sample that is pushed, which JSON could make
-- negative; the time in a command's name is bounded by the largest int64, at
-- which ParseInt stops.
--
-- Fuel: print_digits has the number itself as fuel, which is enough because a number has no more digits
-- than its value. The walk of the cgroup tree has the levels that are left, which the source counts up to
-- three. Every other loop goes down a list or a string.
--
-- Not modelled: the agent's heartbeat loop and its local push, alerts, the dashboard and the install script,
-- the parse of flags and the listeners of fleet-server, HTTP,
-- JSON texts, TLS, the text that format verbs make of labels and numbers, logging, and the interleaving
-- of two requests (a handler runs without another one in between).
pub mod Prelude
pub mod GoMap
pub mod Sort
pub mod Api
pub mod Store
pub mod Bus
pub mod Server
pub mod Resolver
pub mod Commands
pub mod Admin
pub mod AgentApi
pub mod Authority
pub mod Startup
pub mod Agent
pub mod Live
pub mod Inventory
pub mod Interfaces
pub mod Sampling
pub mod Updates
pub mod Kubernetes
pub mod Turso
pub mod Tests
