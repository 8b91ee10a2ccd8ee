-- ===== src/App/Stopping.antt =====
-- The wait for the end of internal/app/runner.go.
use service_courier_platform.Prelude.{◌≡◌, refl, Bool, true, false, List, [], ◌∷◌}
use service_courier_platform.App.{
  Signal, context_done, server_stopped, pprof_stopped, wait_for_shutdown, wait_for_shutdown_any,
}

-- The signals that are not of the pprof server.
pub without_pprof : List Signal → List Signal
without_pprof [] = []
without_pprof (context_done e ∷ ss) = context_done e ∷ without_pprof ss
without_pprof (server_stopped e ∷ ss) = server_stopped e ∷ without_pprof ss
without_pprof (pprof_stopped e ∷ ss) = without_pprof ss

plain_wait : (ss : List Signal) → wait_for_shutdown ss ≡ wait_for_shutdown (without_pprof ss)
unfolding wait_for_shutdown without_pprof
plain_wait [] = refl
plain_wait (context_done e ∷ ss) = refl
plain_wait (server_stopped e ∷ ss) = refl
plain_wait (pprof_stopped e ∷ ss) = plain_wait ss

-- With a pprof server or without one, the service waits and ends as if it saw only the context and
-- its own server: the stop of the pprof server, with whatever error, ends nothing.
pub wait_for_shutdown_any-without_pprof :
    (pprof : Bool) (signals : List Signal)
    → wait_for_shutdown_any pprof signals ≡ wait_for_shutdown (without_pprof signals)
unfolding wait_for_shutdown_any without_pprof wait_for_shutdown
wait_for_shutdown_any-without_pprof false ss = plain_wait ss
wait_for_shutdown_any-without_pprof true [] = refl
wait_for_shutdown_any-without_pprof true (context_done e ∷ ss) = refl
wait_for_shutdown_any-without_pprof true (server_stopped e ∷ ss) = refl
wait_for_shutdown_any-without_pprof true (pprof_stopped e ∷ ss) = plain_wait ss
