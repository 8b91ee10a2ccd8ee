-- ===== src/App/Running/Ending.antt =====
-- When appRun of internal/app/runner.go returns, and what it has closed by then.
use mathlib.Core.List.{append_assoc}
use service_courier_platform.Prelude.{
  All, ◌↔◌, ◌≡◌, refl, Bool, true, false, List, [], ◌∷◌, ◌++◌, count, Option, sym, ap, ◌∙◌,
}
use service_courier_platform.Errors.{Err}
use service_courier_platform.App.{
  Signal, context_done, server_stopped, pprof_stopped, Wait, waiting, over, wait_for_shutdown,
  wait_for_shutdown_any,
}
use service_courier_platform.App.Running.{
  Action, Parts, where_there, close_resources, Run, shut_down, begun, ended, app_run,
  start_auto_release, listen_server, listen_pprof, shutdown_server, shutdown_pprof, close_server,
  close_consumer, close_orders, close_pool,
}

abbrev pub is_release : Action → Bool
is_release close_server = true
is_release close_consumer = true
is_release close_orders = true
is_release close_pool = true
is_release _ = false

abbrev pub is_pool : Action → Bool
is_pool close_pool = true
is_pool _ = false

-- Nothing is closed before the wait is over; then the pool, where there is one, is closed once and
-- as the last of all.
pub data Tidy (p : Parts) : Run → Type 0 where
  still_open :
      {done : List Action}
      → count is_release done ≡ 0
      → Tidy p (record { done = done; state = waiting })
  all_closed :
      {e : Option Err} {done : List Action} (before : List Action)
      → done ≡ before ++ where_there p.pool close_pool
      → count is_pool before ≡ 0
      → Tidy p (record { done = done; state = over e })

before_pool : Bool → Bool → Bool → List Action
before_pool pprof server orders =
    (start_auto_release ∷ listen_server ∷ where_there pprof listen_pprof)
    ++ (shutdown_server ∷ where_there pprof shutdown_pprof)
    ++ (where_there server close_server ++ where_there orders close_orders)

no_pool : (pprof server orders : Bool) → count is_pool (before_pool pprof server orders) ≡ 0
unfolding before_pool
no_pool true true true = refl
no_pool true true false = refl
no_pool true false true = refl
no_pool true false false = refl
no_pool false true true = refl
no_pool false true false = refl
no_pool false false true = refl
no_pool false false false = refl

nothing_closed :
    (pprof : Bool)
    → count is_release (start_auto_release ∷ listen_server ∷ where_there pprof listen_pprof) ≡ 0
nothing_closed true = refl
nothing_closed false = refl

pool_last :
    (xs ys zs : List Action) (p : Parts)
    → (xs ++ ys)
        ++ (where_there p.server close_server ++ (where_there p.orders_closer close_orders ++ zs))
      ≡ (xs
          ++ ys
          ++ (where_there p.server close_server ++ where_there p.orders_closer close_orders))
        ++ zs
pool_last xs ys zs p =
    let s = where_there p.server close_server in
    let o = where_there p.orders_closer close_orders in
    ap (λ t. (xs ++ ys) ++ t) (sym (append_assoc s o zs))
    ∙ sym (append_assoc (xs ++ ys) (s ++ o) zs)

ended-Tidy : (p : Parts) (w : Wait) → Tidy p (ended p w)
unfolding ended close_resources before_pool
ended-Tidy p waiting = still_open (nothing_closed p.pprof)
ended-Tidy p (over e) =
    all_closed (before_pool p.pprof p.server p.orders_closer)
      (pool_last (begun p) (shut_down p) (where_there p.pool close_pool) p)
      (no_pool p.pprof p.server p.orders_closer)

-- Whatever signals come to the service, nothing is closed while it waits; and when its run has
-- returned, the pool, where there is one, has been closed once, after everything else.
pub app_run-Tidy : (p : Parts) (signals : List Signal) → Tidy p (app_run p signals)
unfolding app_run
app_run-Tidy p signals = ended-Tidy p (wait_for_shutdown_any p.pprof signals)

abbrev pub IsOfPprof : Signal → Type 0
IsOfPprof (context_done e) = ⊥
IsOfPprof (server_stopped e) = ⊥
IsOfPprof (pprof_stopped e) = Unit

ended-state : (p : Parts) (w : Wait) → (ended p w).state ≡ w
unfolding ended
ended-state p waiting = refl
ended-state p (over e) = refl

over_waiting : {e : Option Err} → over e ≡ waiting → ⊥
over_waiting h = cc

waits_iff : (ss : List Signal) → (wait_for_shutdown ss ≡ waiting) ↔ All IsOfPprof ss
unfolding wait_for_shutdown
waits_iff [] = (λ _. tt, λ _. refl)
waits_iff (context_done e ∷ ss) = (λ h. absurd (over_waiting h), λ a. absurd a.0)
waits_iff (server_stopped e ∷ ss) = (λ h. absurd (over_waiting h), λ a. absurd a.0)
waits_iff (pprof_stopped e ∷ ss) = (λ h. (tt, (waits_iff ss).0 h), λ a. (waits_iff ss).1 a.1)

any_waits_iff :
    (pprof : Bool) (ss : List Signal)
    → (wait_for_shutdown_any pprof ss ≡ waiting) ↔ All IsOfPprof ss
unfolding wait_for_shutdown_any
any_waits_iff false ss = waits_iff ss
any_waits_iff true [] = (λ _. tt, λ _. refl)
any_waits_iff true (context_done e ∷ ss) = (λ h. absurd (over_waiting h), λ a. absurd a.0)
any_waits_iff true (server_stopped e ∷ ss) = (λ h. absurd (over_waiting h), λ a. absurd a.0)
any_waits_iff true (pprof_stopped e ∷ ss) =
    (λ h. (tt, (waits_iff ss).0 h), λ a. (waits_iff ss).1 a.1)

-- The run of the service goes on exactly as long as no signal has come but that its pprof server
-- has stopped: the end of the context, or of its own server with an error or without one, ends it.
pub app_run_waiting_iff :
    (p : Parts) (signals : List Signal)
    → ((app_run p signals).state ≡ waiting) ↔ All IsOfPprof signals
unfolding app_run
app_run_waiting_iff p signals =
    let same = ended-state p (wait_for_shutdown_any p.pprof signals) in
    (
      λ h. (any_waits_iff p.pprof signals).0 (sym same ∙ h),
      λ a. same ∙ (any_waits_iff p.pprof signals).1 a,
    )
