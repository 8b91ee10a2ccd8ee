-- ===== src/App.antt =====
-- The life of the processes: internal/app/helpers.go, runner.go and worker_runner.go. The opening of
-- the pool, the timers and the servers are arguments. Logging is left out.
pub mod Connecting
pub mod Stopping
pub mod Running
pub mod Releasing
use service_courier_platform.Prelude.{
  ℕ, zero, suc, ◌-◌, ℤ, pos_part, Bool, true, false, ◌||◌, Option, none, some, List, [], ◌∷◌, ltb,
  if◌then◌else◌,
}
use service_courier_platform.Errors.{
  Err, text, wrap, Result, ok, err, errors_is, canceled, deadline_exceeded,
}

-- What `connectDbWithRetry` meets: the answer of each attempt to open the pool, and the context's
-- error where the context ends before the delay after the attempt is over.
pub record Attempts (P : Type 0) : Type 0 where
  pub open_pool : ℕ → Result P
  pub interrupted : ℕ → Option Err

module _ {P : Type 0} (retries : ℤ) (w : Attempts P) where
  -- After the attempts: the last error, which is nil where there was no attempt.
  pub given_up : Option Err → Result P
  given_up none = err (text "db connect failed")
  given_up (some e) = err (wrap "db connect failed" e)

  pub waited : Option Err → Result P → Result P
  waited none later = later
  waited (some e) later = err e

  pub attempted : ℕ → Result P → (Option Err → Result P) → Result P
  attempted i (ok p) later = ok p
  attempted i (err e) later =
      if ltb i (pos_part retries) then waited (w.interrupted i) (later (some e)) else later (some e)

  -- The loop from attempt `i` on, with the number of attempts that are left.
  unfoldable pub attempts : ℕ → ℕ → Option Err → Result P
  unfolding given_up waited attempted
  attempts zero i last = given_up last
  attempts (suc left) i last = attempted i (w.open_pool i) (attempts left (suc i))

  -- `connectDbWithRetry`.
  unfoldable pub connect_db_with_retry : Result P
  unfolding attempts
  connect_db_with_retry = attempts (pos_part retries) 1 none

-- What the select statements of the runner receive.
pub data Signal : Type 0 where
  context_done : Err → Signal
  server_stopped pprof_stopped : Option Err → Signal

-- How a wait stands: still waiting, or over with the error that is returned.
pub data Wait : Type 0 where
  waiting : Wait
  over : Option Err → Wait

-- `waitForShutdown`, which does not look at the pprof server.
unfoldable pub wait_for_shutdown : List Signal → Wait
wait_for_shutdown [] = waiting
wait_for_shutdown (context_done e ∷ ss) = over (some e)
wait_for_shutdown (server_stopped e ∷ ss) = over e
wait_for_shutdown (pprof_stopped e ∷ ss) = wait_for_shutdown ss

-- `waitForShutdownAny`, with or without a pprof server.
unfoldable pub wait_for_shutdown_any : Bool → List Signal → Wait
unfolding wait_for_shutdown
wait_for_shutdown_any false ss = wait_for_shutdown ss
wait_for_shutdown_any true [] = waiting
wait_for_shutdown_any true (context_done e ∷ ss) = over (some e)
wait_for_shutdown_any true (server_stopped e ∷ ss) = over e
wait_for_shutdown_any true (pprof_stopped e ∷ ss) = wait_for_shutdown ss

-- What `WorkerRunner.MustRun` does with the error of the run.
pub data Exit : Type 0 where
  returns : Exit
  panics : Err → Exit

unfoldable pub must_run : Option Err → Exit
unfolding errors_is
must_run none = returns
must_run (some e) = if errors_is canceled e then returns else panics e
