-- ===== src/App/Releasing.antt =====
-- The loop that releases couriers: startAutoReleaseLoop of internal/app/runner.go.
use service_courier_platform.Prelude.{ℤ, pos, List, [], ◌∷◌, leb_ℤ, if◌then◌else◌}
use service_courier_platform.Domain.{Time}
use service_courier_platform.Database.{Db}
use service_courier_platform.DeliveryService.{release_expired}
use service_courier_platform.System.{Reachable, next, tick}

-- What the loop receives: a tick, at the time that the service's clock shows then, or the end of
-- the context.
pub data Event : Type 0 where
  fired : Time → Event
  stopped : Event

-- The body of the loop; an error of ReleaseExpired is only logged.
unfoldable pub auto_release : List Event → Db → Db
auto_release [] db = db
auto_release (stopped ∷ es) db = db
auto_release (fired now ∷ es) db = auto_release es (release_expired now db).1

-- How the goroutine of the loop ends: `time.NewTicker` panics unless the interval is more than 0.
pub data Loop : Type 0 where
  panicked : Loop
  ran : Db → Loop

-- `startAutoReleaseLoop`, on what its loop receives.
unfoldable pub start_auto_release_loop : ℤ → List Event → Db → Loop
start_auto_release_loop interval es db =
    if leb_ℤ interval (pos 0) then panicked else ran (auto_release es db)

-- The loop leads from one reachable database to another, whatever its ticks find.
pub auto_release-Reachable :
    (es : List Event) {db : Db} → Reachable db → Reachable (auto_release es db)
unfolding auto_release
auto_release-Reachable [] r = r
auto_release-Reachable (stopped ∷ es) r = r
auto_release-Reachable (fired now ∷ es) r = auto_release-Reachable es (next r (tick now))
