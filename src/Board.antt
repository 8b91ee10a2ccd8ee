-- ===== src/Board.antt =====
-- What the dispatch of couriers promises, without tables, rows and transactions: the status of
-- each courier, and who holds each order and until when. internal/service/delivery,
-- internal/service/courier and internal/service/orders implement it.
pub mod Statuses
pub mod Holders
pub mod Moves
pub mod Lapse
pub mod Editing
pub mod Refinement
pub mod Custody
use service_courier_platform.Prelude.{
  ℤ, ◌+◌, ◌*◌, ◌<◌, ◌≤◌, ◌≡◌, String, Bool, ◌==◌, Option, none, some, map, eqb_ℤ, if◌then◌else◌,
  ◌⊎◌,
}
use service_courier_platform.Domain.{
  Courier, Delivery, Time, CourierStatus, status_available, status_busy,
}
use service_courier_platform.Database.{Db}
use service_courier_platform.Repository.{find_courier}
use service_courier_platform.Repository.Deliveries.{find_delivery}
use service_courier_platform.DeliveryService.{minute}

pub record Board : Type 0 where
  -- by the courier's id
  pub status_of : ℤ → Option CourierStatus
  -- by the order's id: the courier, and the deadline
  pub holder_of : String → Option (ℤ × Time)

abbrev pub status_in : Option Courier → Option CourierStatus
status_in none = none
status_in (some c) = some c.status

abbrev pub holder_in : Option Delivery → Option (ℤ × Time)
holder_in none = none
holder_in (some d) = some (d.courier_id, d.deadline)

-- The board that the tables stand for. The order of rows, their other columns, the sequences and
-- the health of the driver are forgotten.
abbrev pub board : Db → Board
board db = record {
  status_of = λ i. status_in (find_courier i db.couriers);
  holder_of = λ o. holder_in (find_delivery o db.deliveries);
}

abbrev pub SameAs : {A B : Type 0} → (A → B) → (A → B) → Type 0
SameAs {A} f g = (a : A) → f a ≡ g a

-- A courier's status is written.
abbrev pub turned : ℤ → CourierStatus → (ℤ → Option CourierStatus) → ℤ → Option CourierStatus
turned i s f j = if eqb_ℤ j i then some s else f j

-- An order gets a holder, or loses it.
abbrev pub held_by :
    String → Option (ℤ × Time) → (String → Option (ℤ × Time)) → String → Option (ℤ × Time)
held_by order h f o = if o == order then h else f o

-- What a request asks for.
pub data Request : Type 0 where
  assigning : Time → String → Request
  unassigning completing : String → Request
  expiring : Time → Request
  registering nothing : Request
  editing : ℤ → Request

-- A courier is late with some order.
pub record Late (b : Board) (now : Time) (i : ℤ) : Type 0 where
  pub order : String
  pub due : Time
  pub holds : b.holder_of order ≡ some (i, due)
  pub passed : due < now

-- What the end of the deadlines means for one courier: a busy and late one becomes available, and
-- every other one stays as it was.
pub data Expiry (b : Board) (now : Time) (i : ℤ) (after : Option CourierStatus) : Type 0 where
  freed :
      b.status_of i ≡ some status_busy
      → Late b now i
      → after ≡ some status_available
      → Expiry b now i after
  kept :
      ¬ ((b.status_of i ≡ some status_busy) × Late b now i)
      → after ≡ b.status_of i
      → Expiry b now i after

-- The moves that are allowed. A request may always be refused, and then nothing moves.
pub data Move (b : Board) (c : Board) : Request → Type 0 where
  stays :
      {r : Request} → SameAs c.status_of b.status_of → SameAs c.holder_of b.holder_of → Move b c r
  takes :
      (now : Time) (order : String) (i : ℤ) (due : Time)
      → now < due
      → due ≤ now + 30 * minute
      → b.status_of i ≡ some status_available
      → b.holder_of order ≡ none
      → SameAs c.status_of (turned i status_busy b.status_of)
      → SameAs c.holder_of (held_by order (some (i, due)) b.holder_of)
      → Move b c (assigning now order)
  gives_back :
      (order : String) (i : ℤ) (due : Time)
      → b.holder_of order ≡ some (i, due)
      → SameAs c.status_of (turned i status_available b.status_of)
      → SameAs c.holder_of (held_by order none b.holder_of)
      → Move b c (unassigning order)
  finishes :
      (order : String) (i : ℤ) (due : Time)
      → b.holder_of order ≡ some (i, due)
      → SameAs c.status_of (turned i status_available b.status_of)
      → SameAs c.holder_of b.holder_of
      → Move b c (completing order)
  lapses :
      (now : Time)
      → ((i : ℤ) → Expiry b now i (c.status_of i))
      → SameAs c.holder_of b.holder_of
      → Move b c (expiring now)
  joins :
      (i : ℤ) (s : CourierStatus)
      → b.status_of i ≡ none
      → SameAs c.status_of (turned i s b.status_of)
      → SameAs c.holder_of b.holder_of
      → Move b c registering
  changes :
      (i : ℤ) (old new : CourierStatus)
      → b.status_of i ≡ some old
      → SameAs c.status_of (turned i new b.status_of)
      → SameAs c.holder_of b.holder_of
      → Move b c (editing i)
