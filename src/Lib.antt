-- ===== src/Lib.antt =====
-- The OPI bridge to NVIDIA devices: a gRPC service that keeps NVMe subsystems, controllers and
-- namespaces in a key-value store, virtio-blk devices in a map, and asks the SPDK of a device,
-- by JSON-RPC, to create, attach, list and delete them.
--
-- The parts of the program and the files:
--   * pkg/frontend/frontend.go is Server.antt. `Server` holds the maps `VirtioCtrls`, `NQNs` and
--     `Pagination`; `State` adds the states of the store, of the device and of the generators of
--     identifiers, and `calls`, the JSON-RPC calls made so far, which nothing reads. `new_server`
--     is `NewServer`. Server/Rules.antt, Server/Steps.antt and Server/Paging.antt have the rules by
--     which handlers are reasoned about, Server/Outcomes.antt compares the states before and after.
--   * pkg/frontend/nvme_subsystem.go and nvme_subsystem_validate.go are Subsystem.antt and its
--     children, nvme_controller.go and nvme_controller_validate.go are Controller.antt,
--     nvme_namespace.go and nvme_namespace_validate.go are Namespace.antt, virtio.go and
--     virtio_validate.go are Virtio.antt. In each, Validate has the validators, Create, Delete,
--     Queries and Stats have the handlers, named as in the source in lower case: `CreateNvmeSubsystem`
--     is `create_nvme_subsystem`. A long handler is cut where the source has a comment or an early
--     return: `create_new` is what follows the lookup of an existing object, `attach` and `detach`
--     start with the parameters of the call. Outcome, Paths, Finding, Listing and Reading say what a
--     handler does, Success when it succeeds.
--   * pkg/models/spdk.go is Models.antt: a call is a constructor of `Rpc`, named as the method, with
--     its parameters, and `Reply` is the type of its result.
--   * Service.antt is the service as a state machine: a step is one call of any handler; Service/Queries
--     has those that only read. Service/Sound is what every step keeps. Service/Spec is the service
--     as a client sees it, objects under names and NQNs that are taken, which each call changes by one
--     transition, and Service/Refines relates the handlers to it. Service/Formed says which pointers of
--     stored objects are set. Service/Calls has the creates and the deletes by the kind of the object,
--     Service/Repeats and Service/Undone are about two calls, one after the other.
--     Service/Unimplemented is about the four update handlers, of which Service/Rejected has the ends.
--   * cmd/main.go is Command.antt with its children: Command/Process.antt is `main`, Command/Grpc.antt
--     `runGrpcServer`, which starts the server of this bridge, Command/Gateway.antt `runGatewayServer`.
--     A part of the process is a function of the list of events so far; the answers of other packages
--     are the record `System`. `go runGatewayServer` is `beside`: a panic of the gateway ends the
--     process with no deferred call of `main`, and a schedule, which is an argument of `main`, tells
--     after how many further events it does, or that `main` ends first. Process/Ends says how `main`
--     ends, Process/Beside what the gateway's panic leaves; the other parts have a child for what is
--     proved of them.
--   * The pattern of NQNs is Nqn.antt, on the regular expressions of Regexp.antt.
--   * Base.antt has what Go's language and standard library give: machine integers with their
--     wrap-around, maps, `sort.Slice`, `strconv.FormatInt` and `path.Base`.
--
-- A handler is a function of the state that returns a value, an error or a panic (Exec.antt) and the
-- state after it. What was written before an error or a panic stays written. A pointer is an
-- `Option`, and reading through nil panics. Handlers run one at a time.
--
-- The packages that the bridge calls are the operations of `Externals` (Externals.antt): the store
-- (gokv), the device behind JSON-RPC (gospdk), generators of identifiers, the validators of the API's
-- conventions, and the helpers of opi-spdk-bridge/pkg/utils. What is assumed of them is in
-- Externals/Laws.antt: that a store returns what was put in and a failed write changes nothing,
-- that a clone equals its original, that identifiers have no slash, and that names of different kinds
-- that are made of such identifiers differ. Examples/Bridge.antt has packages that behave so, and the
-- modules beside it run the handlers on them.
--
-- Bounds: `format_int` has fuel for 20 digits, which is enough for 64-bit integers. `sort.Slice` is
-- modelled by insertion, which is what the standard library does up to 12 elements; of longer slices
-- the theorems use only that the result is a sorted permutation, or a panic.
--
-- Not modelled: the imports of pkg/tools/tools.go, logging, contexts and their cancellation, the time
-- limits of the HTTP server, the JSON encoding of the calls, how the events of the gateway and those of
-- the gRPC server interleave, of which only the gateway's panic matters to `main`, and interleavings of
-- handlers, which share the maps of the server without a lock.
pub mod Base
pub mod Api
pub mod Models
pub mod Error
pub mod Exec
pub mod Externals
pub mod Server
pub mod Regexp
pub mod Nqn
pub mod Subsystem
pub mod Command
pub mod Controller
pub mod Namespace
pub mod Virtio
pub mod Service
pub mod Examples
