-- ===== src/Lib.antt =====
-- microbe
--
-- microbe runs stacks of microVMs from a compose document: a command line plans a stack's network,
-- asks a root daemon for bridges, taps and firewall rules, starts the guests, and talks to an
-- agent inside each guest over a vsock connection.
--
-- Base holds what the parts share: Go's strings as lists of bytes (Text), maps as association
-- lists (Map), errors (Result), 64-bit integers (the type with pos and negsuc), white space
-- (Spaces), and code that changes a state and may fail (Action), with the properties that such
-- code keeps (Base/Keeping).
--
-- Config is internal/config: Schema is schema.go, Defaults the applyDefaults of load.go, and
-- Errors, Names, Ports, Graph, Validate and Compose are validate.go, one function for each part of
-- Validate. Graph/Visit, Graph/Cycles, Graph/Decides and Graph/Declared, Filled, Published and
-- Accepted hold proofs. A range over a map visits the entries in the order of a list, and the
-- theorems range over all lists. The recursion of detectCycle's visit runs on fuel, the number of
-- services: a service is visited only while it is white.
--
-- Hostnet is internal/hostnet, internal/netutil and the record of internal/lockfile/lockfile.go:
-- Prefix is the arithmetic on prefixes and addresses, Names the device names (with TapID of
-- internal/nix/flakegen/stack.go), Plan is plan.go. Stable and Permanent hold proofs. Parsing and
-- printing of addresses, random bytes and SHA-256 are parameters.
--
-- Provisiond is internal/provisiond: Specs is internal/hostnet/ops.go, Expr and Nft and
-- Fingerprints and Rules are nft.go (expression lists, the connection and its chains, tags, and
-- the four operations on ports and rules), Links is netops.go, Ula is prefix.go with
-- internal/state/hoststate.go, Method, Protocol and Client are protocol.go, server.go and
-- client.go. Firewall states what nftables is relied on to do with a transaction, and Growing,
-- Applied, Cleared, Within, Taps and Remote hold proofs. The nftables and netlink packages, JSON
-- and the file system are parameters with their documented behaviour as hypotheses; the tests give
-- instances.
--
-- Vsock is the session with a guest: Frame is internal/vsockexec/protocol.go, Dial is dial.go,
-- Agent is internal/nix/flakegen/agent/main.go, Serving is its handleConn with the header that
-- opens a session, Session is internal/cmd/agentsession.go. RoundTrip, Delivery, Outputs, Cut,
-- Ends, Served, Reply and Answered hold proofs. The guest's kernel and its commands are parameters
-- that answer each call. The session loop and pumpInput run on fuel; a frame takes five bytes at
-- least, so the length of the stream is enough.
--
-- Lifecycle is internal/cmd/lifecycle.go with its records: Stack is
-- internal/nix/flakegen/stack.go, State internal/state/store.go with its migration, Identity
-- internal/state/id.go, Specs the specs for the daemon, Devices the names of devices and the sweep
-- of internal/cmd/down.go, Order is startOrder, Build is buildStore, Reconcile is reconcileVMState
-- of internal/cmd/ps.go with its proofs, and Statuses holds the words for a service's state.
-- Spared, Steps, Topological, Built and Migrated hold proofs. The recursion of startOrder's visit
-- runs on fuel, one more than there are selected services.
--
-- Commands is internal/cmd/up.go and internal/cmd/down.go: World has resolvePlan and what the
-- commands share, Down is downRun, Up is upRun, Shares the virtiofs shares of a service. A command
-- is an action on the lock, the state file and the list of the calls that were made; each call is
-- answered by the host, a parameter that may depend on all that was done before, and may fail.
-- Kept, DownFailed, DownKept, Downed, Rounds, Resolved, Started and Ordered hold proofs.
--
-- Purge is internal/cmd/purge.go and internal/cmd/rm.go: World has the state files of all stacks,
-- what was asked for, and the prompt; Sweep is the sweep of network devices, Vms is stopStackVMs,
-- Volumes removeVolumesForStore and rmRun, Run the subcommands. Swept, Stopped, Halted, Unrecorded
-- and Failed hold proofs.
--
-- Runtime is internal/runtime/runner.go and internal/cmd/health.go: Process is processAlive and
-- StopService, Poll the polling loops and probeHealth, Volume is ParseVolumeSize and EnsureVolume.
-- Stopping and Polled hold proofs. Clocks are parameters that advance by at least what is waited
-- for. StopService runs on 52 rounds of fuel, one for each tenth of a second of its grace and two
-- more; the probe runs on one round for each nanosecond of its budget and two more, which is
-- enough since each round takes some time.
--
-- Not modelled: JSON, sockets, the start of processes, terminals and the contents of files, which
-- are system calls or library code; what the commands print; the attachment of volumes to the
-- rendered stack in up; cleanRunDir; the copy of the agent under microbe-demo; the generation of
-- Nix sources; the mutex of EnsurePrefix, whose calls are single steps here; and concurrency of
-- several clients of the daemon.
pub mod Base
pub mod Commands
pub mod Config
pub mod Hostnet
pub mod Lifecycle
pub mod Provisiond
pub mod Purge
pub mod Runtime
pub mod Vsock
