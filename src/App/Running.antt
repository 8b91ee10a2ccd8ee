-- ===== src/App/Running.antt =====
-- The runs of the two processes and what they leave behind: appRun, closeResources, startServer and
-- Runner.MustRun of internal/app/runner.go; workerRun and closeWorker of worker_runner.go. The errors
-- of closing are only logged.
pub mod Ending
use mathlib.Core.List.{append_assoc}
use service_courier_platform.Prelude.{
  All, ◌↔◌, ◌≡◌, refl, String, Bool, true, false, List, [], ◌∷◌, ◌++◌, count, Option, none, some,
  if◌then◌else◌, sym, ap, ◌∙◌,
}
use service_courier_platform.Errors.{Err, text, errors_is, canceled, deadline_exceeded}
use service_courier_platform.App.{
  Signal, context_done, server_stopped, pprof_stopped, Wait, waiting, over, wait_for_shutdown,
  wait_for_shutdown_any,
}

-- What a process does to its parts.
pub data Action : Type 0 where
  start_auto_release listen_server listen_pprof : Action
  shutdown_server shutdown_pprof : Action
  close_server close_consumer close_orders close_pool : Action

-- The parts that may be missing.
pub record Parts : Type 0 where
  pub server : Bool
  pub pprof : Bool
  pub consumer : Bool
  pub orders_closer : Bool
  pub pool : Bool

abbrev pub where_there : Bool → Action → List Action
where_there true a = a ∷ []
where_there false a = []

-- `closeResources` and `closeWorker`.
unfoldable pub close_resources : Parts → List Action
close_resources p =
    where_there p.server close_server
    ++ (where_there p.orders_closer close_orders ++ where_there p.pool close_pool)

unfoldable pub close_worker : Parts → List Action
close_worker p =
    where_there p.consumer close_consumer
    ++ (where_there p.orders_closer close_orders ++ where_there p.pool close_pool)

-- How a run stands: what has been done, and its error once it has returned.
pub record Run : Type 0 where
  pub done : List Action
  pub state : Wait

-- `appRun`, with the shutdown of both servers; the deferred `closeResources` comes last.
shut_down : Parts → List Action
shut_down p = shutdown_server ∷ where_there p.pprof shutdown_pprof

begun : Parts → List Action
begun p = start_auto_release ∷ listen_server ∷ where_there p.pprof listen_pprof

ended : Parts → Wait → Run
unfolding shut_down begun
ended p waiting = record { done = begun p; state = waiting }
ended p (over e) = record { done = (begun p ++ shut_down p) ++ close_resources p; state = over e }

unfoldable pub app_run : Parts → List Signal → Run
unfolding ended
app_run p signals = ended p (wait_for_shutdown_any p.pprof signals)

-- `workerRun`, on how `Consumer.Run` stands.
worked : Parts → Wait → Run
worked p waiting = record { done = []; state = waiting }
worked p (over e) = record { done = close_worker p; state = over e }

unfoldable pub worker_run : Parts → Wait → Run
unfolding worked
worker_run p consumer = if p.consumer then worked p consumer else record {
  done = [];
  state = over (some (text "kafka consumer is nil: worker container misconfigured"));
}

-- What `startServer` sends, given what `ListenAndServe` returned.
unfoldable pub server_error : Option Err → (Err → Bool) → Option Err
server_error none is_closed = none
server_error (some e) is_closed = if is_closed e then none else some e

-- What `Runner.MustRun` says of the error of its run.
pub data Said : Type 0 where
  silent : Said
  info : String → Said
  failure : Err → Said

unfoldable pub runner_must_run : Option Err → Bool → Bool → Said
unfolding errors_is
runner_must_run none container logger = silent
runner_must_run (some e) container logger =
    if container
    then if logger
      then if errors_is canceled e
        then info "shutdown requested, exiting"
        else if errors_is deadline_exceeded e
        then info "startup aborted: startup timeout exceeded"
        else failure e
      else silent
    else silent
