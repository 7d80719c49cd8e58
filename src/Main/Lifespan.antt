-- ===== src/Main/Lifespan.antt =====
-- `lifespan` of apps/api/app/main.py: what the service opens when it starts, and closes when it
-- stops. The calls that open and close raise nothing here.
use hamicloud.Env.{Settings}
use hamicloud.Core.Config.{Paths, validate_runtime_environment}
use hamicloud.Prelude.{
  Option, refl, ◌||◌, subst, none, inl, some, inr, not, ◌⊎◌, ◌&&◌, ◌≡◌, String, false,
  if◌then◌else◌, true, Bool,
}

-- How the wait for the dispatcher's task ends; the task itself has ended in each case, since a
-- timeout cancels it.
pub data TaskEnd : Type 0 where
  finished timed_out cancelled failed : TaskEnd

-- What the service has open.
pub record Resources : Type 0 where
  pub redis : Bool
  pub dispatcher_task : Bool
  pub engine : Bool

abbrev opened_resources : Bool → Resources
opened_resources dispatcher_enabled = record {
  redis = true;
  dispatcher_task = dispatcher_enabled;
  engine = true;
}

-- What a start gives: the exception that refuses it, or what has been opened.
abbrev started : Bool → Option String → String ⊎ Resources
started dispatcher_enabled (some message) = inl message
started dispatcher_enabled none = inr (opened_resources dispatcher_enabled)

unfoldable pub start_up : Paths → Settings → Bool → String ⊎ Resources
unfolding validate_runtime_environment
start_up paths s dispatcher_enabled =
    started dispatcher_enabled (validate_runtime_environment paths s)

-- `except (asyncio.TimeoutError, asyncio.CancelledError)`
abbrev is_caught : TaskEnd → Bool
is_caught finished = true
is_caught timed_out = true
is_caught cancelled = true
is_caught failed = false

-- What is open after the cleanup, and whether it ended with no exception.
unfoldable pub shut_down : TaskEnd → Resources → Resources × Bool
shut_down task r =
    if r.dispatcher_task && not (is_caught task)
    then (record r { dispatcher_task = false }, false)
    else (record { redis = false; dispatcher_task = false; engine = false }, true)

started-opened_resources :
    (dispatcher_enabled : Bool) (refusal : Option String) (r : Resources)
    → started dispatcher_enabled refusal ≡ inr r
    → opened_resources dispatcher_enabled ≡ r
started-opened_resources dispatcher_enabled none r h = cc
started-opened_resources dispatcher_enabled (some message) r h = absurd (cc)

-- Whether everything is closed, as the ending of the cleanup tells.
abbrev Closed : Bool → TaskEnd → Resources → Type 0
Closed dispatcher_enabled task r =
    ((shut_down task r).0.dispatcher_task ≡ false)
    × ((shut_down task r).0.redis ≡ not (shut_down task r).1)
    × ((shut_down task r).0.engine ≡ not (shut_down task r).1)
    × ((shut_down task r).1 ≡ (not dispatcher_enabled || is_caught task))

opened_resources-Closed :
    (dispatcher_enabled : Bool) (task : TaskEnd)
    → Closed dispatcher_enabled task (opened_resources dispatcher_enabled)
unfolding shut_down
opened_resources-Closed false task = (refl, refl, refl, refl)
opened_resources-Closed true finished = (refl, refl, refl, refl)
opened_resources-Closed true timed_out = (refl, refl, refl, refl)
opened_resources-Closed true cancelled = (refl, refl, refl, refl)
opened_resources-Closed true failed = (refl, refl, refl, refl)

-- The cleanup of a service that has started leaves no dispatcher's task; it ends with no exception
-- exactly where Redis and the engine are closed behind it, which is wherever no dispatcher was
-- started or its task did not end with an exception of its own.
pub start_up-Closed :
    (paths : Paths) (s : Settings) (dispatcher_enabled : Bool) (task : TaskEnd) (r : Resources)
    → start_up paths s dispatcher_enabled ≡ inr r
    → Closed dispatcher_enabled task r
unfolding start_up
start_up-Closed paths s dispatcher_enabled task r h =
    subst (Closed dispatcher_enabled task)
      (started-opened_resources dispatcher_enabled (validate_runtime_environment paths s) r h)
      (opened_resources-Closed dispatcher_enabled task)
