-- ===== src/Router.antt =====
-- The HTTP API as one handler: internal/http/router/router.go. Which route a request takes, the
-- endpoints of Prometheus and Swagger, and the middlewares of chi are arguments; a nil rate limiter is
-- no limiter.
pub mod Served
pub mod Reads
pub mod Changes
use service_courier_platform.Prelude.{ℕ, String, Bool, true, false, Option, none, some}
use service_courier_platform.Domain.{Time}
use service_courier_platform.Database.{Db}
use service_courier_platform.DeliveryService.{deadline}
use service_courier_platform.HttpModels.{
  Response, CreateCourierRequest, UpdateCourierRequest, DeliveryRequest,
}
use service_courier_platform.Handlers
use service_courier_platform.Handlers.{RequestBody, ping, healthcheck_head, route_not_found}
use service_courier_platform.Middleware.{Reply, answered, Front, handler}

-- The routes outside the group, and those of the group that is limited.
pub data SystemRoute : Type 0 where
  get_ping get_metrics head_healthcheck get_swagger : SystemRoute

pub data ApiRoute : Type 0 where
  courier_get courier_list courier_post courier_put assign_post unassign_post : ApiRoute

pub data Route : Type 0 where
  system : SystemRoute → Route
  api : ApiRoute → Route
  not_found : Route

-- The method and the pattern that a route is registered under.
abbrev pub registered : Route → Option (String × String)
registered (system get_ping) = some ("GET", "/ping")
registered (system get_metrics) = some ("GET", "/metrics")
registered (system head_healthcheck) = some ("HEAD", "/healthcheck")
registered (system get_swagger) = some ("GET", "/swagger/*")
registered (api courier_get) = some ("GET", "/courier/{id}")
registered (api courier_list) = some ("GET", "/couriers")
registered (api courier_post) = some ("POST", "/courier")
registered (api courier_put) = some ("PUT", "/courier")
registered (api assign_post) = some ("POST", "/delivery/assign")
registered (api unassign_post) = some ("POST", "/delivery/unassign")
registered not_found = none

-- What the handlers read of a request, and the time of it.
pub record Request : Type 0 where
  pub route : Route
  pub remote_addr : String
  pub now : Time
  pub id : String
  pub limit : String
  pub offset : String
  pub new_courier : RequestBody CreateCourierRequest
  pub courier_update : RequestBody UpdateCourierRequest
  pub delivery : RequestBody DeliveryRequest

-- The handler of each route of the group.
unfoldable pub serve_api : ApiRoute → Request → Db → Response × Db
serve_api courier_get r db = Handlers.get_by_id r.id db
serve_api courier_list r db = Handlers.list r.limit r.offset db
serve_api courier_post r db = Handlers.create r.new_courier db
serve_api courier_put r db = Handlers.update r.courier_update db
serve_api assign_post r db = Handlers.assign deadline r.now r.delivery db
serve_api unassign_post r db = Handlers.unassign r.delivery db

module _ {L : Type 0} (metrics swagger : Response)
    (admit : Option (Time → String → L → Bool × L)) where
  serve_system : SystemRoute → Response
  serve_system get_ping = ping
  serve_system get_metrics = metrics
  serve_system head_healthcheck = healthcheck_head
  serve_system get_swagger = swagger

  pub unlimited : ApiRoute → Request → Front L Db → Reply Response × Front L Db
  unlimited e r s =
      (answered (serve_api e r s.inner).0, record s { inner = (serve_api e r s.inner).1 })

  pub limited :
      Option (Time → String → L → Bool × L)
      → ApiRoute
      → Request
      → Front L Db
      → Reply Response × Front L Db
  unfolding unlimited
  limited none e r s = unlimited e r s
  limited (some a) e r s = handler (a r.now) (serve_api e r) r.remote_addr s

  -- The handler that `New` returns.
  unfoldable pub serve : Route → Request → Front L Db → Reply Response × Front L Db
  unfolding serve_system limited
  serve (system e) r s = (answered (serve_system e), s)
  serve (api e) r s = limited admit e r s
  serve not_found r s = (answered route_not_found, s)
