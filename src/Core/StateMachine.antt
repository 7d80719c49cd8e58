-- ===== src/Core/StateMachine.antt =====
-- apps/api/app/core/state_machine.py: the table of legal transitions and its check.
pub mod Graph
use hamicloud.Prelude.{◌+s◌, String, Bool, true, false, List, [], ◌∷◌, any, if◌then◌else◌}
use hamicloud.Models.Jobs.{
  JobState, queued, admitted, starting, running, succeeded, retry_wait, recovery_pending, failed,
  cancel_requested, cancelled,
}

-- The position of a state in its enumeration, by which two states are compared.
abbrev pub same_state : JobState → JobState → Bool
same_state queued queued = true
same_state admitted admitted = true
same_state starting starting = true
same_state running running = true
same_state succeeded succeeded = true
same_state retry_wait retry_wait = true
same_state recovery_pending recovery_pending = true
same_state failed failed = true
same_state cancel_requested cancel_requested = true
same_state cancelled cancelled = true
same_state _ _ = false

abbrev pub state_in : JobState → List JobState → Bool
state_in s states = any (same_state s) states

-- TERMINAL_JOB_STATES
abbrev pub terminal_job_states : List JobState
terminal_job_states = succeeded ∷ failed ∷ cancelled ∷ []

-- LEGAL_JOB_TRANSITIONS
unfoldable pub legal_job_transitions : JobState → List JobState
legal_job_transitions queued = admitted ∷ cancel_requested ∷ []
legal_job_transitions admitted = starting ∷ cancel_requested ∷ []
legal_job_transitions starting = running ∷ retry_wait ∷ failed ∷ cancel_requested ∷ []
legal_job_transitions running =
    succeeded ∷ retry_wait ∷ failed ∷ cancel_requested ∷ recovery_pending ∷ []
legal_job_transitions retry_wait = queued ∷ cancel_requested ∷ []
legal_job_transitions recovery_pending = retry_wait ∷ failed ∷ cancel_requested ∷ []
legal_job_transitions cancel_requested = cancelled ∷ []
legal_job_transitions succeeded = []
legal_job_transitions failed = []
legal_job_transitions cancelled = []

unfoldable pub is_terminal_job_state : JobState → Bool
is_terminal_job_state s = state_in s terminal_job_states

-- How a transition is checked: accepted, or one of the two subclasses of JobTransitionError.
pub data Verdict : Type 0 where
  accepted terminal_state_error invalid_state_transition_error : Verdict

unfoldable pub validate_job_transition : JobState → JobState → Verdict
unfolding is_terminal_job_state legal_job_transitions
validate_job_transition current next_state =
    if is_terminal_job_state current
    then terminal_state_error
    else if state_in next_state (legal_job_transitions current)
    then accepted
    else invalid_state_transition_error

-- `state.value`
abbrev pub state_value : JobState → String
state_value queued = "QUEUED"
state_value admitted = "ADMITTED"
state_value starting = "STARTING"
state_value running = "RUNNING"
state_value succeeded = "SUCCEEDED"
state_value retry_wait = "RETRY_WAIT"
state_value recovery_pending = "RECOVERY_PENDING"
state_value failed = "FAILED"
state_value cancel_requested = "CANCEL_REQUESTED"
state_value cancelled = "CANCELLED"

-- The text of the exception that a refused transition raises.
abbrev pub transition_error : JobState → JobState → Verdict → String
transition_error s t accepted = ""
transition_error s t terminal_state_error =
    "Cannot transition out of terminal state '" +s state_value s +s "'"
transition_error s t invalid_state_transition_error =
    "Invalid job state transition from '" +s state_value s +s "' to '" +s state_value t +s "'"
