-- ===== src/Examples/Starting.antt =====
-- The start and the end of the processes: internal/app (container.go, runner.go, worker_runner.go).
use service_courier_platform.Prelude.{
  ◌≡◌, ◌↔◌, refl, String, true, false, List, [], ◌∷◌, ◌++◌, All, some, if◌then◌else◌, Bool-cases,
  inl, inr, sym,
}
use service_courier_platform.Errors.{
  Err, Result, ok, err, text, sentinel, canceled, errors_is, ok_inj,
}
use service_courier_platform.App.{
  returns, Signal, context_done, pprof_stopped, waiting, panics, must_run,
}
use service_courier_platform.App.Running.{Parts, app_run}
use service_courier_platform.App.Running.Ending.{Tidy, app_run-Tidy, IsOfPprof, app_run_waiting_iff}
use service_courier_platform.Container.{
  error_of, Provider, Dig, build, build_worker, worker_run_needs, app_run_needs, http, core, db,
  domain_services, worker,
}
use service_courier_platform.Container.Available.{
  Available, AllAvailable, AllAvailable-of_made, made_by, all_in,
}
use service_courier_platform.Container.Processes.{Documented, build_worker-panics}

-- A container that keeps its providers, and makes types in the order of their registration.
abbrev invoke_on : List String → List Provider → Result (Unit {0})
invoke_on needs ps =
    if all_in (made_by ps []) needs then ok tt else err (text "missing dependencies")

abbrev plain_dig : Dig
plain_dig = record {
  Container = List Provider;
  new = [];
  provide = λ p ps. ok (ps ++ (p ∷ []));
  invoke = invoke_on;
}

not_made :
    (needs : List String) (ps : List Provider)
    → ¬ AllAvailable ps needs
    → (e : Err) × (invoke_on needs ps ≡ err e)
not_made needs ps n = elim (Bool-cases (all_in (made_by ps []) needs)) [
  | inl e ↦ absurd (n (AllAvailable-of_made ps needs e))
  | inr e ↦ (text "missing dependencies", rw e refl)
]

plain_dig-Documented : Documented plain_dig
plain_dig-Documented = record {
  held = λ ps. ps;
  at_first = refl;
  provided = λ p c d h. ok_inj (sym h);
  missing = not_made;
}

abbrev worker_container : List Provider
worker_container = core ++ (db ++ (domain_services ++ worker))

worker_built : build_worker plain_dig ≡ ok worker_container
unfolding build_worker service_courier_platform.Container.register
    service_courier_platform.Container.provide_all
worker_built = refl

build_worker-panics_example :
    (¬ Available (plain_dig-Documented.held worker_container) "app.ordersHandler")
    × (¬ Available (plain_dig-Documented.held worker_container) "orders.DeliveryPort")
    × (e : Err) × (invoke_on worker_run_needs worker_container ≡ err e)
    × (must_run (error_of (invoke_on worker_run_needs worker_container))
        ≡ (if errors_is canceled e then returns else panics e))
build_worker-panics_example = build_worker-panics plain_dig plain_dig-Documented worker_built

abbrev parts : Parts
parts = record { server = true; pprof = true; consumer = false; orders_closer = false; pool = true }

abbrev signals : List Signal
signals = pprof_stopped (some (text "address in use")) ∷ context_done (sentinel canceled) ∷ []

app_run-Tidy_example : Tidy parts (app_run parts signals)
app_run-Tidy_example = app_run-Tidy parts signals

app_run_waiting_iff_example : ((app_run parts signals).state ≡ waiting) ↔ All IsOfPprof signals
app_run_waiting_iff_example = app_run_waiting_iff parts signals
