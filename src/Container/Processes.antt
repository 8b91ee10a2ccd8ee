-- ===== src/Container/Processes.antt =====
-- What the two processes get from their containers: internal/app/container.go, with the Invoke of
-- runner.go and worker_runner.go.
use mathlib.Core.List.{append-nil, append_assoc}
use service_courier_platform.Prelude.{
  ◌≡◌, ◌∙◌, sym, ap, refl, subst, String, if◌then◌else◌, List, [], ◌∷◌, ◌++◌,
}
use service_courier_platform.Errors.{Err, Result, ok, err, ok_inj, errors_is, canceled}
use service_courier_platform.App.{returns, panics, must_run}
use service_courier_platform.Container.{
  Provider, Dig, app_run_needs, worker_run_needs, and_then, labelled, error_of, provide_all,
  register, build, build_worker,
}
use service_courier_platform.Container.Available.{
  Available, AllAvailable, not-Available, not-AllAvailable, AllAvailable-of_made, never_made,
  made_by,
}

-- What the documentation of dig says: a container holds what has been provided; and Invoke fails
-- where a type that the function takes is not there.
pub record Documented (dig : Dig) : Type 0 where
  pub held : dig.Container → List Provider
  pub at_first : held dig.new ≡ []
  pub provided :
      (p : Provider) (c d : dig.Container) → dig.provide p c ≡ ok d → held d ≡ held c ++ (p ∷ [])
  pub missing :
      (needs : List String) (c : dig.Container)
      → ¬ AllAvailable (held c) needs
      → (e : Err) × (dig.invoke needs c ≡ err e)

module _ (dig : Dig) (doc : Documented dig) where
  and_then_ok :
      (r : Result dig.Container) (f : dig.Container → Result dig.Container) {d : dig.Container}
      → and_then dig r f ≡ ok d
      → (c : dig.Container) × (r ≡ ok c) × (f c ≡ ok d)
  unfolding and_then
  and_then_ok (ok c) f h = (c, refl, h)
  and_then_ok (err e) f h = cc

  labelled_ok :
      (m : String) (r : Result dig.Container) {c : dig.Container}
      → labelled dig m r ≡ ok c
      → r ≡ ok c
  labelled_ok m (ok c) h = h
  labelled_ok m (err e) h = cc

  provide_all_ok :
      (ps : List Provider) (c : dig.Container) {d : dig.Container}
      → provide_all dig ps c ≡ ok d
      → doc.held d ≡ doc.held c ++ ps
  unfolding provide_all
  provide_all_ok [] c h = ap doc.held (sym (ok_inj h)) ∙ sym (append-nil (doc.held c))
  provide_all_ok (p ∷ ps) c h =
      let (next, put, rest) = and_then_ok (labelled dig "provide" (dig.provide p c)) _ h in
      let one = doc.provided p c next (labelled_ok "provide" (dig.provide p c) put) in
      provide_all_ok ps next rest ∙ ap (λ qs. qs ++ ps) one ∙ append_assoc (doc.held c) (p ∷ []) ps

  abbrev all_of : List (String × List Provider) → List Provider
  all_of [] = []
  all_of ((m, ps) ∷ rest) = ps ++ all_of rest

  register_ok :
      (groups : List (String × List Provider)) (c : dig.Container) {d : dig.Container}
      → register dig groups c ≡ ok d
      → doc.held d ≡ doc.held c ++ all_of groups
  unfolding register
  register_ok [] c h = ap doc.held (sym (ok_inj h)) ∙ sym (append-nil (doc.held c))
  register_ok ((m, ps) ∷ rest) c h =
      let (next, put, end) = and_then_ok (labelled dig m (provide_all dig ps c)) _ h in
      let one = provide_all_ok ps c (labelled_ok m (provide_all dig ps c) put) in
      register_ok rest next end
      ∙ ap (λ qs. qs ++ all_of rest) one
      ∙ append_assoc (doc.held c) ps (all_of rest)

  from_empty :
      (groups : List (String × List Provider)) {d : dig.Container}
      → register dig groups dig.new ≡ ok d
      → doc.held d ≡ all_of groups
  from_empty groups h = register_ok groups dig.new h ∙ ap (λ qs. qs ++ all_of groups) doc.at_first

  -- Every type that `appRun` takes is made in the container of the HTTP process.
  pub build-AllAvailable :
      {c : dig.Container} → build dig ≡ ok c → AllAvailable (doc.held c) app_run_needs
  unfolding build made_by
  build-AllAvailable h =
      subst (λ ps. AllAvailable ps app_run_needs) (sym (from_empty _ h))
        (AllAvailable-of_made _ app_run_needs refl)

  -- Where dig does what it documents and the worker's container is built, that container has no
  -- way to make an `app.ordersHandler`, the interface that `makeOrdersKafka` takes, nor an
  -- `orders.DeliveryPort`: the Invoke of `workerRun` fails, and `MustRun` panics with its error,
  -- unless that says that the context has been canceled.
  pub build_worker-panics :
      {c : dig.Container}
      → build_worker dig ≡ ok c
      → (¬ Available (doc.held c) "app.ordersHandler")
        × (¬ Available (doc.held c) "orders.DeliveryPort")
        × (e : Err) × (dig.invoke worker_run_needs c ≡ err e)
        × (must_run (error_of (dig.invoke worker_run_needs c))
            ≡ (if errors_is canceled e then returns else panics e))
  unfolding build_worker never_made must_run error_of
  build_worker-panics {c} h =
      let held = sym (from_empty _ h) in
      let (e, failed) = doc.missing worker_run_needs c (
        subst (λ ps. ¬ AllAvailable ps worker_run_needs) held
          (not-AllAvailable ("app.ordersHandler" ∷ "kafka.HandleFunc" ∷ "*kafka.Consumer" ∷ []) _
            refl refl)) in
      (
        subst (λ ps. ¬ Available ps "app.ordersHandler") held
            (not-Available ("app.ordersHandler" ∷ []) _ refl refl),
        subst (λ ps. ¬ Available ps "orders.DeliveryPort") held
            (not-Available ("orders.DeliveryPort" ∷ []) _ refl refl),
        e,
        failed,
        rw failed refl,
      )
