-- ===== src/Router/Served.antt =====
-- What the requests to the API do to the database and to the rate limiter.
use service_courier_platform.Prelude.{
  ◌≡◌, sym, subst, String, Bool, true, false, List, [], ◌∷◌, Option, none, some,
}
use service_courier_platform.Domain.{Time}
use service_courier_platform.Database.{Db, call}
use service_courier_platform.Database.Calls.{SameData, call-SameData}
use service_courier_platform.Database.Keeps.{Keeps}
use service_courier_platform.HttpModels.{Response}
use service_courier_platform.Handlers
use service_courier_platform.Handlers.{
  Param, refused, absent, given, get_with, list_limit, list_offset, param, id_from_url,
}
use service_courier_platform.Middleware.{Front, handler, passed, client_ip}
use service_courier_platform.System
use service_courier_platform.System.{Step, Reachable, next, outage}
use service_courier_platform.Router.Reads.{got_with, limit_with}
use service_courier_platform.Router.{
  Route, system, api, not_found, ApiRoute, courier_get, courier_list, courier_post, courier_put,
  assign_post, unassign_post, Request, serve_api, unlimited, limited, serve,
}

-- A call that only reads leads to a database that the driver's failures alone can lead to.
read-Reachable : (a b : Db) → SameData a b → Reachable b → Reachable a
read-Reachable a b s r = subst Reachable (sym same) (next r (outage a.faults))
  where
    same : a ≡ record b { faults = a.faults }
    same = λ i. record {
      couriers = s.couriers i;
      deliveries = s.deliveries i;
      last_courier = s.last_courier i;
      last_delivery = s.last_delivery i;
      faults = a.faults;
    }

call-Reachable : Keeps Reachable call
call-Reachable = record { at = λ db r. read-Reachable (call db).1 db (call-SameData db) r }

api-Reachable :
    (e : ApiRoute) (q : Request) (db : Db) → Reachable db → Reachable (serve_api e q db).1
unfolding serve_api Handlers.get_by_id Handlers.list
api-Reachable courier_get q db r = got_with call-Reachable (id_from_url q.id) db r
api-Reachable courier_list q db r = limit_with call-Reachable (param q.limit) (param q.offset) db r
api-Reachable courier_post q db r = next r (System.post_courier q.new_courier)
api-Reachable courier_put q db r = next r (System.put_courier q.courier_update)
api-Reachable assign_post q db r = next r (System.post_assign q.now q.delivery)
api-Reachable unassign_post q db r = next r (System.post_unassign q.delivery)

module _ {L : Type 0} (metrics swagger : Response)
    (admit : Option (Time → String → L → Bool × L)) where
  -- The requests of any clients, in the order in which they are served.
  unfoldable pub serve_all : List Request → Front L Db → Front L Db
  serve_all [] s = s
  serve_all (q ∷ qs) s = serve_all qs (serve metrics swagger admit q.route q s).1

  passed-Reachable :
      (a : String → L → Bool × L) (e : ApiRoute) (q : Request) (o : Bool × L) (s : Front L Db)
      → Reachable s.inner
      → Reachable (passed a (serve_api e q) o s).1.inner
  unfolding passed
  passed-Reachable a e q (true, l) s r = api-Reachable e q s.inner r
  passed-Reachable a e q (false, l) s r = r

  limited-Reachable :
      (a : Option (Time → String → L → Bool × L)) (e : ApiRoute) (q : Request) (s : Front L Db)
      → Reachable s.inner
      → Reachable (limited metrics swagger admit a e q s).1.inner
  unfolding limited unlimited handler
  limited-Reachable none e q s r = api-Reachable e q s.inner r
  limited-Reachable (some a) e q s r =
      passed-Reachable (a q.now) e q (a q.now (client_ip q.remote_addr) s.limiter) s r

  serve-Reachable :
      (e : Route) (q : Request) (s : Front L Db)
      → Reachable s.inner
      → Reachable (serve metrics swagger admit e q s).1.inner
  unfolding serve
  serve-Reachable (system e) q s r = r
  serve-Reachable (api e) q s r = limited-Reachable admit e q s r
  serve-Reachable not_found q s r = r

  -- Whatever requests come to the API, in any order, with any rate limiter or with none, the
  -- database stays one that the system can reach: all that holds of those holds of it.
  pub serve_all-Reachable :
      (qs : List Request) (s : Front L Db) → Reachable s.inner → Reachable (serve_all qs s).inner
  unfolding serve_all
  serve_all-Reachable [] s r = r
  serve_all-Reachable (q ∷ qs) s r = serve_all-Reachable qs _ (serve-Reachable q.route q s r)
