-- ===== src/Lib.antt =====
-- openAUTOSAR: a verification library for the core of the platform.
--
-- The program is an AUTOSAR Adaptive style platform in C++. Its runtime consists of managers that
-- keep their state in memory and return `Result` values; this library models these of them:
--
-- - bsw/core/ara-core: `ErrorCode` and `Result` are the data of Base/Results.
-- - platform/os/process: the data of a launch and the interface `IProcessLauncher` (Process).
-- - bsw/runtime/execution-management (`ExecutionManager`): processes, their starts, stops and
--   restart budgets, and the state of the function group. Execution has the data, Execution/Manager
--   the methods; Calls are histories of calls, and Laws, Budget, Transitions, Reachability and
--   Records are the proofs. The launcher is a parameter, over an abstract state of its own.
-- - bsw/runtime/state-management (`StateManager`): function groups with their definitions, requests
--   with priorities, process actions, history and observers, on top of Execution Management.
--   Validation, Queue, Manager, Finish and Apply are the code; Cases, Outcome, Selection, Serving,
--   Groups, Definitions, Allowed, Sync, Agreement and Settled are the proofs.
-- - bsw/runtime/update-management (`UpdateManager`, `IUpdateBackend`, `RaucBackendSimulator`): the
--   transaction of a software update over two slots. Backend, Policy and Manager are the code;
--   Lifecycle, Trust, AuditTrail, Recovery, Slots and Versions are the proofs. The manager's laws
--   hold for any backend, those on the slots for the simulator.
-- - bsw/runtime/platform-health-management (`PlatformHealthManager`): Supervision is what the
--   methods do with an entity's state, Manager the methods; Restarts, Sequence and Alive are the
--   proofs.
-- - bsw/communication/e2e-protection: Frame is the wire layout (`SerializeFrameWithCrc`,
--   `ParseProtectedFrame`), Crc is `CalculateCrc32` and `CrcMaterial`, Config the configuration and
--   the counters, Protect is `ProtectPayload` with its fault injection, Check is `CheckPayload`;
--   RoundTrip, Xor, Channel, Detection, Faults, Counters, Stream and Acceptance are the proofs.
-- - bsw/runtime/vehicle-update-management (`VehicleUpdateManager`): campaigns over the ECUs of a
--   vehicle. VehicleUpdate has the data; Eligibility, Campaigns, Activation and Confirmation are the
--   code; Planning, StepStates, Coherence and Stuck are the proofs, over the Calls.
-- - bsw/communication/someip-protocol: SomeIp has the data; Bytes, Messages, Correlation
--   (`RequestCorrelator`), Discovery and Stream (`ReadExact`, `WriteAll`, and `Send` and `Receive` of
--   `TcpConnection`) are the code; RoundTrip, Completion, Announcement, Delivery and Transfer are the
--   proofs. `recv` and `send` of the operating system are parameters of Stream; what the proofs rely
--   on of them (they move at least one byte and at most what is asked for, in order, and interrupt a
--   bounded number of times) stands in Delivery and Transfer.
-- - bsw/security/identity-access-management: Policy is `AccessPolicyEngine`, Trust is `TrustStore`,
--   Events is `SecurityEventCollector`; Decisions, Revocation and Counting are the proofs.
-- - bsw/security/firewall (`FirewallManager`): Tokens, Cidr, Validation, Expressions and Plans are the
--   code, which asks the access policy before it installs a plan; Soundness, Installation, Addresses
--   and Injection are the proofs.
-- - bsw/security/intrusion-detection-system-management (`IdsmManager`): Idsm has the data, Recording
--   the code; Privacy and Forwarding are the proofs, over the Calls. It takes the severities and the
--   security events of Access.
-- - bsw/runtime/registry (`RegistryManager`): Validation and Manager are the code; Lookups, Records
--   and Histories are the proofs. Its test of identifiers is that of the firewall.
--
-- How code becomes definitions. A method is a function from the manager's state to the new state
-- and its result, under the source's name in snake case; a method of an entry found through a
-- pointer writes the entry back. References to other components (`backend_`, `execution_`, the
-- launcher) are part of the state that holds them. Enumerations are data types, compared through
-- their codes; maps keyed by text are association lists, where a write replaces an entry or appends
-- one. Numbers are natural numbers, and the wrap-around of 32 and 64 bits is written where the
-- source can reach it; bytes are numbers below 256. `std::chrono` counts are signed. Texts are
-- compared as `std::string` does, by their code points. Calls of `std::function` objects, which the
-- source keeps for observers, are modelled by what they are handed. Sorting is by insertion,
-- where the source's order does not depend on how equal elements stand. Loops are structural
-- recursion on the list that they run over, or on a constant count (eight rounds for each byte of
-- the checksum, four octets of an address), with three exceptions on fuel: `ReadExact` and
-- `WriteAll`, which need one unit for each byte, each interruption and the end, as the theorem on
-- transfers shows, and `std::to_string`, which has 20 units for the at most 20 digits of a 64-bit
-- number.
--
-- Not modelled: most of the `ToString` functions; copying and moving of values; memory exhaustion;
-- threads (the managers are not synchronised and are modelled as sequences of calls); the calls of
-- the operating system that connect, listen and close, and UDP endpoints. The remaining parts of the
-- repository, among them the communication bindings, diagnostics, persistency, time and network
-- management, log and trace, the applications and the Python tools, have no model here.
pub mod Base
pub mod Process
pub mod Execution
pub mod StateManagement
pub mod Health
pub mod UpdateManagement
pub mod VehicleUpdate
pub mod Registry
pub mod E2e
pub mod Access
pub mod Firewall
pub mod Idsm
pub mod SomeIp
