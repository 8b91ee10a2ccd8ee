-- ===== src/Repository/Pool.antt =====
-- NewPool of internal/repository/db.go: what pgxpool.New and Ping answer are arguments.
use service_courier_platform.Prelude.{◌≡◌, ◌↔◌, refl, Bool, true, false, Option, none, some}
use service_courier_platform.Errors.{Err, Result, ok, err, err_ok}

-- What the driver answers: the pool, and the error of its ping.
pub record Opening (P : Type 0) : Type 0 where
  pub made : Result P
  pub ping : Option Err

-- The answer, and whether a pool stays open.
pub record Opened (P : Type 0) : Type 0 where
  pub answer : Result P
  pub stays_open : Bool

pinged : {P : Type 0} → P → Option Err → Opened P
pinged p none = record { answer = ok p; stays_open = true }
pinged p (some e) = record { answer = err e; stays_open = false }

made_then : {P : Type 0} → Result P → Option Err → Opened P
unfolding pinged
made_then (err e) ping = record { answer = err e; stays_open = false }
made_then (ok p) ping = pinged p ping

-- `NewPool`.
unfoldable pub new_pool : {P : Type 0} → Opening P → Opened P
unfolding made_then
new_pool o = made_then o.made o.ping

pinged_iff :
    {P : Type 0} (p : P) (ping : Option Err)
    → ((pinged p ping).stays_open ≡ true) ↔ ((q : P) × ((pinged p ping).answer ≡ ok q))
unfolding pinged
pinged_iff p none = (λ h. (p, refl), λ a. refl)
pinged_iff p (some e) = (λ h. cc, λ a. absurd (err_ok a.1))

made_then_iff :
    {P : Type 0} (made : Result P) (ping : Option Err)
    → ((made_then made ping).stays_open ≡ true) ↔ ((q : P) × ((made_then made ping).answer ≡ ok q))
unfolding made_then
made_then_iff (err e) ping = (λ h. cc, λ a. absurd (err_ok a.1))
made_then_iff (ok p) ping = pinged_iff p ping

-- A pool stays open exactly when it is what NewPool answers: none is lost on an error.
pub new_pool_iff :
    {P : Type 0} (o : Opening P)
    → ((new_pool o).stays_open ≡ true) ↔ ((p : P) × ((new_pool o).answer ≡ ok p))
unfolding new_pool
new_pool_iff o = made_then_iff o.made o.ping
