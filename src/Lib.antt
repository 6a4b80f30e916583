-- ===== src/Lib.antt =====
-- kube-baremetal: a set of Kubernetes controllers that hand out bare metal machines. A user creates
-- a network, a hardware and an instance; the controllers give the instance a hardware, create an
-- endpoint for each of its nics, and give each endpoint an address of its network.
--
-- A controller is a function `Reconcile`, run for one object at a time, that reads objects from the
-- API server, writes at most one of them, records events, and returns a result or an error. It is
-- modelled as a computation `Exec` (Client.antt): the answers of the server are the record `Server`,
-- an argument of every reconciler; what it leaves is an outcome (completed, failed, panicked,
-- diverged) and the list of its writes and events. The API server, its client, the clock, the parsing
-- and printing of addresses, the matching of labels and taints and the random numbers are not the
-- program's code: they are parameters, with their documented behaviour as named hypotheses where a
-- theorem needs it.
--
-- The parts, and the code that they model:
--   Ip              addresses as bytes: `net.IP` of Go's library, and `Network.inc` of
--                   controllers/baremetalendpoint/network.go; Ip/Text.antt holds the parameters for texts
--   Condition       apis/condition/v1: `GetCondition`, `SetCondition`
--   Api             api/v1alpha1/*_types.go and apis/meta/v1/types.go: the records of the objects
--   Finalizer       api/helpers.go: `HasFinalizer`, `RemoveFinalizer`
--   Client          the server, computations, and rules for those that write at most once (Once) or
--                   not at all (Quiet); a request that an agent accepted is one of the writes
--   Endpoint        controllers/baremetalendpoint: Controller.antt is `Controller.Reconcile`,
--                   Network.antt is `Network.Reconcile` cut at its blocks, Search.antt its loop over
--                   the range; Phases, Lifecycle and Life hold the state machine of the status, Address
--                   and Change what address is given, Cluster the stored endpoints
--   Hardware        controllers/baremetalhardware_controller.go: Controller.antt and Reconcile.antt are
--                   `Reconcile`, Move.antt the writes that it may make
--   Instance        controllers/baremetalinstance: Controller.antt is `Controller.Reconcile`,
--                   Hardware.antt the loop over the hardwares of `Scheduler.Reconcile`,
--                   Scheduler.antt the rest of it, Scheduler/Move.antt the steps of its state machine;
--                   Provisioner is provisioner.go: Agent.antt its requests to agents, Clean, Claim,
--                   Network, Links and Image the blocks of `Provisioner.Reconcile`, Move.antt the
--                   writes that it may make, Safety what it needs not to panic; Life is the instance
--                   under all three reconcilers and the discovery server
--   Agent           pkg/agent: Manager.antt is manager.go, Server.antt the handlers of server.go,
--                   Disk.antt the partition arithmetic of action/image.go, Http.antt what a client of
--                   an agent gets from the libraries, Answers.antt agent and provisioner together
--   Discovery       pkg/discovery/server.go: the handlers `ipxeBoot`, `ready` and `discover`
--   Network         controllers/baremetalnetwork_controller.go: `Reconcile`
--   Webhook         webhooks: Network, Instance, Endpoint, Hardware and Discovery are the defaults and
--                   the validations of one kind each, Conditions and Duplicates what they share
--
-- The parts meet in the objects. The discovery server stores the address of an agent in an instance;
-- the provisioner asks that agent to clean and to image, and reads its status; the controller of an
-- endpoint frees its address and that of an instance ends it. The life of an instance
-- (Instance/Life) takes one reconcile after another, each on the object as it is stored: a reconcile
-- on an object that is out of date is refused by the server and is not a step.
--
-- A byte is a number below 256 and `inc` wraps it. The loop over a range of addresses runs on fuel,
-- one round for each address of the range and one for the test that ends it, and no run uses it up
-- where the range ends before the last address there is; every other loop is structural. The two
-- locks make the reconciles of one process follow each other, so a reconcile is run against one
-- set of answers of the server. The client of the source reads from a cache that may be out of date;
-- a theorem that needs an answer to be up to date names that as a hypothesis. Texts of events and log lines are left out, and of an answer over HTTP the
-- text of its error. A `Selector` or a set of labels is a list of pairs in the order of their keys, a time a number. What the
-- libraries print, parse and encode is a field of the records `Http`, `Printer` and `Boot`. The
-- sectors of a disk are unsigned integers of 64 or of 32 bits, with their wrap-around written out.
--
-- Not modelled: the discovery reconciler, which does nothing; the admission glue, generated code,
-- and the wiring of controllers and servers (cmd, `SetupWithManager`, `Run`); of the agent, the
-- reading of /sys (hardware.go), the loop that reports to the discovery server (`SendReady`), and
-- the commands and writes on disks of the two actions, which are I/O.
pub mod Prelude
pub mod Ip
pub mod Condition
pub mod Api
pub mod Finalizer
pub mod Client
pub mod Endpoint
pub mod Hardware
pub mod Instance
pub mod Network
pub mod Discovery
pub mod Agent
pub mod Webhook
