-- ===== src/Router/Changes.antt =====
-- What a request to the API may change: the handler of internal/http/router/router.go.
use service_courier_platform.Prelude.{
  suc, ◌≡◌, String, Bool, true, false, Option, none, some, ◌⊎◌, inr,
}
use service_courier_platform.Domain.{Time}
use service_courier_platform.Database.{Db}
use service_courier_platform.Database.Calls.{SameTables}
use service_courier_platform.Database.Keeps.{Keeps}
use service_courier_platform.DeliveryService.{deadline}
use service_courier_platform.HttpModels.{Response, UpdateCourierRequest, update_to_model}
use service_courier_platform.Handlers
use service_courier_platform.Handlers.{RequestBody, decode_json}
use service_courier_platform.Handlers.Answers.{AssignDone, UnassignDone}
use service_courier_platform.Handlers.Registration.{CreateDone}
use service_courier_platform.Board.{board, editing, Move}
use service_courier_platform.Middleware.{Reply, answered, too_many_requests, Front, client_ip}
use service_courier_platform.Router.{
  Route, SystemRoute, system, api, not_found, ApiRoute, courier_get, courier_list, courier_post,
  courier_put, assign_post, unassign_post, Request,
}

-- The board has changed as an update of the courier of a body may change it.
pub record Edited (body : RequestBody UpdateCourierRequest) (db end : Db) : Type 0 where
  pub request : UpdateCourierRequest
  pub decoded : decode_json body ≡ inr request
  pub moved : Move (board db) (board end) (editing (update_to_model request).id)

-- What the request of each method and path may do, besides nothing.
abbrev Effect : ApiRoute → Request → Db → Db → Type 0
Effect courier_get q db end = ⊥
Effect courier_list q db end = ⊥
Effect courier_post q db end = CreateDone q.new_courier db end
Effect courier_put q db end = Edited q.courier_update db end
Effect assign_post q db end = AssignDone deadline q.now q.delivery db end
Effect unassign_post q db end = UnassignDone q.delivery db end

module _ {L : Type 0} (metrics swagger : Response)
    (admit : Option (Time → String → L → Bool × L)) where
  -- The limiter lets a request pass; a router without one lets all pass.
  abbrev admits : Option (Time → String → L → Bool × L) → Request → L → Bool
  admits none q l = true
  admits (some a) q l = (a q.now (client_ip q.remote_addr) l).0

  -- How a request to a route is handled, from its state to its reply and the state after it.
  pub data Handled (q : Request) (s : Front L Db)
      : Route → Reply Response × Front L Db → Type 0 where
    outside : {e : SystemRoute} {r : Response} → Handled q s (system e) (answered r, s)
    unrouted : {r : Response} → r.status ≡ 404 → Handled q s not_found (answered r, s)
    through :
        {e : ApiRoute} {r : Response} {end : Front L Db}
        → admits admit q s.limiter ≡ true
        → end.exceeded ≡ s.exceeded
        → SameTables end.inner s.inner ⊎ Effect e q s.inner end.inner
        → Handled q s (api e) (answered r, end)
    turned_away :
        {e : ApiRoute} {end : Front L Db}
        → admits admit q s.limiter ≡ false
        → end.exceeded ≡ suc s.exceeded
        → end.inner ≡ s.inner
        → Handled q s (api e) (too_many_requests, end)
