-- ===== src/StateManagement.antt =====
-- bsw/runtime/state-management: the data of state_manager.h.
pub mod Validation
pub mod Queue
pub mod Manager
pub mod Finish
pub mod Apply
pub mod Selection
pub mod Cases
pub mod Outcome
pub mod Groups
pub mod Sync
pub mod Agreement
pub mod Examples
pub mod Settled
pub mod Serving
pub mod Definitions
pub mod Calls
pub mod Allowed
use open_autosar.Base.{ℕ, ◌==◌, Bool, String, List}
use open_autosar.Execution.{ExecutionManager, FunctionGroupState, ProcessState}

pub data StateRequestPriority : Type 0 where
  low normal high critical : StateRequestPriority

-- `static_cast<std::uint8_t>` of a priority.
abbrev pub priority_code : StateRequestPriority → ℕ
priority_code low = 0
priority_code normal = 1
priority_code high = 2
priority_code critical = 3

pub data ProcessTransitionActionKind : Type 0 where
  start stop restart : ProcessTransitionActionKind

pub record ProcessTransitionAction : Type 0 where
  pub process_name : String
  pub action : ProcessTransitionActionKind
  pub required : Bool

pub record FunctionGroupTransition : Type 0 where
  pub from : FunctionGroupState
  pub to : FunctionGroupState
  pub process_actions : List ProcessTransitionAction
  pub enter_degraded_on_failure : Bool
  pub failure_state : FunctionGroupState
  pub rationale : String

pub record FunctionGroupDefinition : Type 0 where
  pub name : String
  pub initial_state : FunctionGroupState
  pub allowed_states : List FunctionGroupState
  pub transitions : List FunctionGroupTransition

pub record StateRequest : Type 0 where
  pub requester : String
  pub function_group : String
  pub requested_state : FunctionGroupState
  pub priority : StateRequestPriority
  pub reason : String

pub record ProcessActionReport : Type 0 where
  pub process_name : String
  pub action : ProcessTransitionActionKind
  pub required : Bool
  pub success : Bool
  pub resulting_state : ProcessState
  pub error : String

pub record TransitionRecord : Type 0 where
  pub sequence : ℕ  -- uint64
  pub request : StateRequest
  pub previous_state : FunctionGroupState
  pub resulting_state : FunctionGroupState
  pub accepted : Bool
  pub completed : Bool
  pub failure : String
  pub actions : List ProcessActionReport

pub record FunctionGroupRecord : Type 0 where
  pub definition : FunctionGroupDefinition
  pub state : FunctionGroupState

pub record PendingRequest : Type 0 where
  pub sequence : ℕ  -- uint64
  pub request : StateRequest

-- `execution_` is a reference: the manager behind it is part of this state. `observed` holds what
-- the registered observers were called with, the number of the observer first, oldest call first.
pub record StateManager (L : Type 0) : Type 0 where
  pub execution : ExecutionManager L
  pub function_groups : List FunctionGroupRecord
  pub pending_requests : List PendingRequest
  pub history : List TransitionRecord
  pub observers : List ℕ
  pub observed : List (ℕ × TransitionRecord)
  pub next_sequence : ℕ  -- uint64
