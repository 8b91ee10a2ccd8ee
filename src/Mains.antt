-- ===== src/Mains.antt =====
-- The two programs: cmd/service-courier/main.go and cmd/worker/main.go. dig is an argument, and its
-- Invoke stands for the run; the signals that end the context are among what that meets.
use service_courier_platform.Prelude.{
  sym, ◌∙◌, ◌≡◌, refl, Bool, true, false, [], ◌∷◌, Option, none, some, if◌then◌else◌, Bool-cases,
  inl, inr,
}
use service_courier_platform.Errors.{Err, Result, ok, err, errors_is, canceled}
use service_courier_platform.App.{Exit, returns, panics, must_run}
use service_courier_platform.App.Running.{Said, runner_must_run}
use service_courier_platform.Container.{
  Dig, build, build_worker, error_of, app_run_needs, worker_run_needs,
}
use service_courier_platform.Container.Constructors.{Built, container, fatal, must_build}
use service_courier_platform.Container.Processes.{Documented, build_worker-panics}

-- How a program ends: the container is not built, or the run is over.
pub data Program (E : Type 0) : Type 0 where
  not_built : Err → Program E
  ran : E → Program E

pub ran_in : {C E : Type 0} → (C → E) → Built C → Program E
ran_in run (container c) = ran (run c)
ran_in run (fatal message e) = not_built e

logger_there : Option Err → Bool
logger_there none = true
logger_there (some e) = false

module _ (dig : Dig) where
  -- `main` of the worker.
  unfoldable pub main_worker : Program Exit
  unfolding ran_in
  main_worker =
      ran_in (λ c. must_run (error_of (dig.invoke worker_run_needs c)))
        (must_build "failed to build worker container" (build_worker dig))

  -- `main` of the HTTP service, with what its runner says of the error.
  unfoldable pub main_service : Program Said
  unfolding ran_in logger_there
  main_service =
      ran_in
        (λ c.
          runner_must_run (error_of (dig.invoke app_run_needs c)) true
            (logger_there (error_of (dig.invoke ("logx.Logger" ∷ []) c))))
        (must_build "failed to build container" (build dig))

  -- What `MustRun` returns from.
  must_run_returns :
      (e : Err)
      → (if errors_is canceled e then returns else panics e) ≡ returns
      → errors_is canceled e ≡ true
  must_run_returns e h = elim (Bool-cases (errors_is canceled e)) [
    | inl k ↦ k
    | inr k ↦ absurd (panics_returns (rw k at h))
  ]
    where
      panics_returns : panics e ≡ returns → ⊥
      panics_returns h = cc

  run-returns :
      Documented dig
      → (r : Result dig.Container) → r ≡ build_worker dig
      → ran_in
          (λ c. must_run (error_of (dig.invoke worker_run_needs c)))
          (must_build "failed to build worker container" r)
        ≡ ran returns
      → (c : dig.Container) × (e : Err) × (dig.invoke worker_run_needs c ≡ err e)
        × (errors_is canceled e ≡ true)
  unfolding ran_in must_build
  run-returns doc (err x) s h = cc
  run-returns doc (ok c) s h =
      let (handler, port, e, failed, exit) = build_worker-panics dig doc (sym s) in
      (c, e, failed, must_run_returns e (sym exit ∙ ran_inj h))
    where
      ran_inj : {a b : Exit} → ran a ≡ ran b → a ≡ b
      ran_inj h = cc

  -- The worker's program ends without a panic only where Invoke fails with the error of a canceled
  -- context: it never comes to its work.
  pub main_worker-returns :
      Documented dig
      → main_worker ≡ ran returns
      → (c : dig.Container) × (e : Err) × (dig.invoke worker_run_needs c ≡ err e)
        × (errors_is canceled e ≡ true)
  unfolding main_worker must_build
  main_worker-returns doc h = run-returns doc (build_worker dig) refl h
