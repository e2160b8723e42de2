-- ===== src/Lib.antt =====
-- nullnet-grpc is the gRPC controller of the Nullnet architecture. Nodes announce the services
-- that they host; a proxy asks for a service on behalf of a client, and the controller sets up a
-- VLAN or VXLAN between the proxy and a replica of the service, and one for each edge of the
-- service's dependency chain. It tears the networks down when clients time out, nodes disconnect,
-- or the configuration changes.
--
-- The parts, and the file that models each (a file's child modules split it or hold its theorems):
-- - Base: lists, native numbers, equality, maps and sets of the standard library. A HashMap is an
--   association list whose order stands for the unspecified order of iteration; a BTreeSet is an
--   ascending list. Base/Sorting is sort_by_key and the order of texts.
-- - Proto: the messages of src/proto/nullnet_grpc.rs.
-- - NetIdPool: src/net_id_pool.rs, the pool that hands out network identifiers. A u32 is a number
--   that wraps where the code adds. NetIdPool/Invariant has the consistency of the pool,
--   NetIdPool/History runs of calls.
-- - Net: src/net.rs, the addresses of a network and the setup and teardown messages. The crate
--   ipnetwork is the parameter IpNetworkCrate; IsLawful in Net/Sides states its documented
--   behaviour.
-- - Clients and Edge: src/services/clients.rs and src/services/edge.rs. An Instant is a number of
--   nanoseconds, and the clock's reading an argument.
-- - Orchestrator: src/orchestrator.rs, the control channels, the setups that wait for an
--   acknowledgement, and the pool. What a node answers, or that it does not, is an argument
--   (Reply).
-- - ServiceInfo: src/services/service_info.rs. Defs has the types, Queries and Updates the
--   methods, Chain the building of linear chains.
-- - Changes: src/services/changes.rs. Detect finds what changed, Collect walks the dependency
--   chains, Teardown and Apply take them down. The state is World: the services behind their lock,
--   and the orchestrator.
-- - Input: src/services/input.rs, the services that services.toml declares, and its update.
--   Input/Watch is the load of the file and the loop that watches it; the file, its parse and the
--   clock come with each event.
-- - Timeout: src/timeout.rs, the clients whose time is over and the sleep until the next check.
-- - GrpcImpl: src/nullnet_grpc_impl.rs. EdgeTask is the task that net_chain_setup spawns for one
--   edge, as a state machine whose steps are the sections under one lock; ChainSetup runs the
--   tasks of all edges under any schedule and settles; Proxy with Decision, Backend and
--   ServicesList are the handlers, Methods the methods of the service in front of them, and
--   Channel a node's control channel with the end of its stream (src/orchestrator.rs); the other
--   child modules hold theorems.
-- - Env: src/env.rs, the two variables of the environment.
-- - Graphviz: src/graphviz.rs, the drawing of the services.
-- - ClientLib: nullnet-grpc-lib/src/lib.rs, the client of the service. The endpoint of tonic and
--   the generated client are the parameters Endpoint and NullnetGrpcClient.
-- - Stubs: the generated code between the two, and what src/main.rs serves. Stubs/Client is the
--   client's half (nullnet-grpc-lib/src/proto/nullnet_grpc.rs), which fills NullnetGrpcClient;
--   Stubs/Server is the server's half with its dispatch on the path (src/proto/nullnet_grpc.rs),
--   whose trait the methods of GrpcImpl fill. tonic's own client, server and codecs are the
--   parameters TonicClient, TonicServer and Codecs, and Stubs/Transport states their documented
--   behaviour.
-- - Server: the whole server as a transition system: its state is the World, the setup tasks under
--   way, and the networks that requests have decided to share but not yet shared; each step is
--   what the code does under one hold of its locks. start is NullnetGrpcImpl::new. Server/Sound,
--   Server/Tasks, Server/Reach and Server/Start hold its invariant, Server/Refines relates the
--   handlers to its runs, so that they keep it; Changes/Kept is the interface through which an
--   invariant passes apply_changes, and Changes/After looks at what the changes leave.
-- - Tests: concrete instances.
--
-- Handlers work on the World of ServiceInfo and Orchestrator; GrpcImpl, Timeout, Input and
-- Orchestrator's disconnection all go through Changes.apply_changes, which sends its teardowns
-- through the Orchestrator, and that frees the identifier in the NetIdPool.
--
-- Fuel and schedules: collect_dep_chain_edges loops along proxy dependencies, and the model bounds
-- its rounds by fuel and gives none when it runs out; its callers pass the fuel on. Any fuel above
-- a rank of the services, by which every proxy dependency lies below its service, is enough.
-- net_chain_setup takes the order in which the tasks get their turns as an argument, and gives
-- none if the list ends before the tasks do; five turns for each task are enough.
--
-- Not modelled: the signals and the panic hook of src/main.rs, the wire of tonic (a parameter),
-- the settings of the stubs that the program never changes, the file system and its watcher, the
-- parse of TOML and of addresses (parameters), the endless loops of src/timeout.rs and
-- src/graphviz.rs around what they repeat, and the printed messages. In GrpcImpl a handler's
-- decision and its act run without another handler between them, and a task's steps interleave
-- with the steps of the other tasks of its chain; in Server any two steps interleave. The two
-- setups of an edge, which the code joins, are one step with the waits for their answers
-- (exchange), so no other step comes between them. A control channel has room for 64 messages in
-- the code, and a send into a full one waits; here it takes a message at once, so what is said to
-- return does so while the channels have room.
mod Base
pub mod Proto
pub mod NetIdPool
pub mod Net
pub mod Clients
pub mod Edge
pub mod Orchestrator
pub mod ServiceInfo
pub mod Changes
pub mod Input
pub mod Timeout
pub mod GrpcImpl
pub mod Env
pub mod Graphviz
pub mod ClientLib
pub mod Stubs
pub mod Server
pub mod Tests
