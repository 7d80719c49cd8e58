-- ===== src/Core/StateMachine/Graph.antt =====
-- The transitions of a job as a graph (contracts/state-machines), against the checks of
-- apps/api/app/core/state_machine.py.
use hamicloud.Prelude.{subst, inr, true, inl, false, ◌⊎◌, ◌⊎◌, ◌≡◌, refl, arith, ◌↔◌}
use hamicloud.Models.Jobs.{
  JobState, queued, admitted, starting, running, succeeded, retry_wait, recovery_pending, failed,
  cancel_requested, cancelled,
}
use hamicloud.Core.StateMachine.{is_terminal_job_state, validate_job_transition, accepted}

-- Why a job may move, an edge to a constructor.
infix 40 ◌⟶◌ ◌⟶*◌
pub data ◌⟶◌ : JobState → JobState → Type 0 where
  admit : queued ⟶ admitted
  start : admitted ⟶ starting
  run : starting ⟶ running
  succeed : running ⟶ succeeded
  lose_worker : running ⟶ recovery_pending
  retry_start : starting ⟶ retry_wait
  retry_run : running ⟶ retry_wait
  retry_recovery : recovery_pending ⟶ retry_wait
  requeue : retry_wait ⟶ queued
  fail_start : starting ⟶ failed
  fail_run : running ⟶ failed
  fail_recovery : recovery_pending ⟶ failed
  cancel_queued : queued ⟶ cancel_requested
  cancel_admitted : admitted ⟶ cancel_requested
  cancel_starting : starting ⟶ cancel_requested
  cancel_running : running ⟶ cancel_requested
  cancel_retry : retry_wait ⟶ cancel_requested
  cancel_recovery : recovery_pending ⟶ cancel_requested
  finish_cancel : cancel_requested ⟶ cancelled

pub data ◌⟶*◌ : JobState → JobState → Type 0 where
  here : {s : JobState} → s ⟶* s
  followed_by : {s t u : JobState} → s ⟶ t → t ⟶* u → s ⟶* u

ruleset edges = (
  admit, start, run, succeed, lose_worker, retry_start, retry_run, retry_recovery, requeue,
  fail_start, fail_run, fail_recovery, cancel_queued, cancel_admitted, cancel_starting,
  cancel_running, cancel_retry, cancel_recovery, finish_cancel,
)

edge-accepted : {s t : JobState} → s ⟶ t → validate_job_transition s t ≡ accepted
unfolding validate_job_transition
edge-accepted admit = refl
edge-accepted _ = refl

accepted-edge : (s t : JobState) → validate_job_transition s t ≡ accepted → s ⟶ t
unfolding validate_job_transition
accepted-edge s t h = grind (arith, edges)

-- A transition is accepted exactly when the graph has an edge for it.
pub validate_iff_edge : (s t : JobState) → (validate_job_transition s t ≡ accepted) ↔ (s ⟶ t)
validate_iff_edge s t = (accepted-edge s t, edge-accepted)

terminal_end : {s t : JobState} → s ⟶ t → is_terminal_job_state s ≡ true → ⊥
unfolding is_terminal_job_state
terminal_end admit h = cc
terminal_end _ h = cc

-- From a terminal state no accepted transitions lead to another state.
pub terminal_stays : {s t : JobState} → s ⟶* t → is_terminal_job_state s ≡ true → t ≡ s
terminal_stays here h = refl
terminal_stays (followed_by e _) h = absurd (terminal_end e h)

-- From every state that is not terminal accepted transitions lead to CANCELLED.
pub can_cancel : (s : JobState) → is_terminal_job_state s ≡ false → s ⟶* cancelled
unfolding is_terminal_job_state
can_cancel succeeded h = absurd (cc)
can_cancel failed h = absurd (cc)
can_cancel cancelled h = here
can_cancel _ h = search (here, followed_by, edges)

cancelled_stays : {t : JobState} → cancelled ⟶* t → t ≡ cancelled
unfolding is_terminal_job_state
cancelled_stays path = terminal_stays path refl

cancel_step : {s t : JobState} → s ⟶ t → s ≡ cancel_requested → t ≡ cancelled
cancel_step admit e = cc
cancel_step _ e = cc

-- Once cancellation is requested a job is only ever CANCEL_REQUESTED or CANCELLED.
pub cancel_is_final :
    {s t : JobState} → s ⟶* t → s ≡ cancel_requested → (t ≡ cancel_requested) ⊎ (t ≡ cancelled)
cancel_is_final here e = inl e
cancel_is_final {t = t} (followed_by step path) e =
    inr (cancelled_stays (subst (λ u. u ⟶* t) (cancel_step step e) path))
