-- ===== src/PprofServer.antt =====
-- The server of profiles: internal/http/pprofserver/server.go. What `Request.BasicAuth` finds in a
-- request is a field of it; the profiles themselves are net/http/pprof.
pub mod Addresses
pub mod Access
use Prim.Native.Char.{code}
use service_courier_platform.Prelude.{
  ℕ, String, Bool, true, false, not, ◌||◌, ◌==◌, List, [], ◌∷◌, Option, none, some, eqb,
  text_length, trim_space, if◌then◌else◌,
}
use service_courier_platform.Middleware.{split_host}
use service_courier_platform.PprofServer.Addresses.{Ip, parse_ip, ip_is_loopback}

pub record Config : Type 0 where
  pub user : String
  pub pass : String

pub record Request : Type 0 where
  pub remote_addr : String
  pub basic_auth : Option (String × String)
  pub path : String

-- The handlers of the mux.
pub data Profile : Type 0 where
  index profile symbol trace cmdline : Profile
  named : String → Profile
  no_route : Profile

-- The routes of `Handler` that stand for one path. The mux takes them before the route of
-- `/debug/pprof/`, which stands for all paths below it; its redirects are left out.
abbrev exact_routes : List (String × Profile)
exact_routes =
    ("/debug/pprof/profile", profile)
    ∷ ("/debug/pprof/symbol", symbol)
    ∷ ("/debug/pprof/trace", trace)
    ∷ ("/debug/pprof/cmdline", cmdline)
    ∷ ("/debug/pprof/heap", named "heap")
    ∷ ("/debug/pprof/goroutine", named "goroutine")
    ∷ ("/debug/pprof/allocs", named "allocs")
    ∷ ("/debug/pprof/block", named "block")
    ∷ ("/debug/pprof/mutex", named "mutex")
    ∷ ("/debug/pprof/threadcreate", named "threadcreate")
    ∷ []

starts_with : String → String → Bool
starts_with String.[] s = true
starts_with (String.◌∷◌ c p) String.[] = false
starts_with (String.◌∷◌ c p) (String.◌∷◌ d s) =
    let rest = starts_with p s in if eqb (code c) (code d) then rest else false

route_in : List (String × Profile) → String → Profile
route_in [] path = if starts_with "/debug/pprof/" path then index else no_route
route_in ((p, h) ∷ rs) path = let rest = route_in rs path in if p == path then h else rest

unfoldable pub route : String → Profile
unfolding starts_with route_in
route path = route_in exact_routes path

-- `secureEq`; ConstantTimeCompare of texts of the same length is their equality.
unfoldable pub secure_eq : String → String → Bool
secure_eq u s = if not (eqb (text_length u) (text_length s)) then false else u == s

host_of : String → Option String → String
host_of remote_addr none = remote_addr
host_of remote_addr (some host) = host

loopback_of : Option Ip → Bool
loopback_of none = false
loopback_of (some ip) = ip_is_loopback ip

-- `isLoopback`.
unfoldable pub is_loopback : String → Bool
unfolding host_of loopback_of
is_loopback remote_addr =
    loopback_of (parse_ip (trim_space (host_of remote_addr (split_host remote_addr))))

-- What a client gets: 401 with the realm, or what the handler of the path answers.
pub data Reply : Type 0 where
  unauthorized : Reply
  served : Profile → Reply

credentials_match : Config → Option (String × String) → Bool
credentials_match cfg none = false
credentials_match cfg (some (u, p)) =
    if not (secure_eq u cfg.user) || not (secure_eq p cfg.pass) then false else true

-- `Handler`, which is `authOrLocalOnly` round the mux.
unfoldable pub handler : Config → Request → Reply
unfolding credentials_match
handler cfg r =
    if is_loopback r.remote_addr
    then served (route r.path)
    else if cfg.user == "" || cfg.pass == ""
    then unauthorized
    else if credentials_match cfg r.basic_auth
    then served (route r.path)
    else unauthorized
