-- ===== src/Middleware.antt =====
-- The rate limit middleware: internal/http/middleware/ratelimit/middleware.go, and the limiter that
-- internal/app/container_ratelimit.go gives it. Logging is left out.
pub mod Served
pub mod Addresses
use Prim.Native.Char.{Char, code}
use service_courier_platform.Prelude.{
  ℕ, suc, ℤ, String, Bool, true, false, not, ◌&&◌, ◌||◌, ◌==◌, Option, none, some, eqb,
  if◌then◌else◌,
}
use service_courier_platform.Domain.{Time}
use service_courier_platform.RateLimit.{Float64, Config, Limiter, new, nop_allow, allow}

abbrev pub is_char : ℕ → Char → Bool
is_char n c = eqb (code c) n

unfoldable pub has_char : ℕ → String → Bool
has_char n String.[] = false
has_char n (String.◌∷◌ c s) = if is_char n c then true else has_char n s

-- The text before the last character with a code, and the texts before and after the first one.
before_last : ℕ → String → Option String
before_last n String.[] = none
before_last n (String.◌∷◌ c s) = elim (before_last n s) [
  | some t ↦ some (String.◌∷◌ c t)
  | none ↦ if is_char n c then some String.[] else none
]

cut_first : ℕ → String → Option (String × String)
cut_first n String.[] = none
cut_first n (String.◌∷◌ c s) =
    let rest = cut_first n s in
    if is_char n c
    then some (String.[], s)
    else elim rest [ none ↦ none | some (t, u) ↦ some (String.◌∷◌ c t, u) ]

-- The rest of a bracketed address: one colon, right after the bracket.
port_follows : String → Bool
port_follows String.[] = false
port_follows (String.◌∷◌ c s) = is_char b':' c && not (has_char b':' s)

bracketed : Option (String × String) → Option String
bracketed none = none
bracketed (some (host, rest)) =
    if port_follows rest
      && (not (has_char b'[' host) && (not (has_char b'[' rest) && not (has_char b']' rest)))
    then some host
    else none

plain : String → Option String → Option String
plain text none = none
plain text (some host) =
    if has_char b':' host || (has_char b'[' text || has_char b']' text) then none else some host

-- The host of `net.SplitHostPort`, where it reports no error.
unfoldable pub split_host : String → Option String
unfolding has_char before_last cut_first port_follows bracketed plain
split_host String.[] = none
split_host (String.◌∷◌ c s) =
    if is_char b'[' c
    then bracketed (cut_first b']' s)
    else plain (String.◌∷◌ c s) (before_last b':' (String.◌∷◌ c s))

-- The address where there is no host.
whole : String → String
whole remote_addr = if remote_addr == "" then "unknown" else remote_addr

pub pick : Option String → String → String
unfolding whole
pick none remote_addr = whole remote_addr
pick (some host) remote_addr = if host == "" then whole remote_addr else host

-- `clientIP`.
unfoldable pub client_ip : String → String
unfolding pick
client_ip remote_addr = pick (split_host remote_addr) remote_addr

-- What a client gets: the answer 429 with `Retry-After: 1`, or what the next handler answers.
pub data Reply (R : Type 0) : Type 0 where
  too_many_requests : Reply R
  answered : R → Reply R

-- The limiter, the counter of refused requests, and the state of the next handler.
pub record Front (L T : Type 0) : Type 0 where
  pub limiter : L
  pub exceeded : ℕ
  pub inner : T

module _ {L T R : Type 0} (admit : String → L → Bool × L) (next : T → R × T) where
  unfoldable pub passed : Bool × L → Front L T → Reply R × Front L T
  passed (true, l) s =
      (answered (next s.inner).0, record s { limiter = l; inner = (next s.inner).1 })
  passed (false, l) s = (too_many_requests, record s { limiter = l; exceeded = suc s.exceeded })

  -- `Middleware.Handler`, on the request from an address that the next handler would get.
  unfoldable pub handler : String → Front L T → Reply R × Front L T
  unfolding passed
  handler remote_addr s = passed (admit (client_ip remote_addr) s.limiter) s

-- The limiter that `newRateLimiter` chooses, as what it answers and what it becomes.
pub data Chosen (F : Float64) : Type 0 where
  nop : Chosen F
  buckets : Limiter F → Chosen F

module _ (F : Float64) where
  unfoldable pub new_rate_limiter : Bool → Config F → Chosen F
  new_rate_limiter enabled cfg = if enabled then buckets (new F cfg) else nop

  unfoldable pub chosen_allow : String → Time → Chosen F → Bool × Chosen F
  chosen_allow key now nop = (nop_allow key, nop)
  chosen_allow key now (buckets l) =
      let (admitted, after) = allow F key now l in (admitted, buckets after)
