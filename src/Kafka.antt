-- ===== src/Kafka.antt =====
-- The consumer of a claim: internal/transport/kafka (consumer.go and dto.go). The group session
-- and the claim's channel are the sequence of what the `select` receives; the decoder of JSON and
-- the handler are arguments. Logging is left out.
pub mod Delivery
pub mod Consumer
use service_courier_platform.Prelude.{
  ℕ, String, Bool, ◌==◌, List, [], ◌∷◌, Option, none, some, if◌then◌else◌, trim_space,
}
use service_courier_platform.Errors.{Err, Result, ok, err, is_permanent}
use service_courier_platform.Domain.{Time}
use service_courier_platform.Orders.{Event}

pub record EventDto : Type 0 where
  pub order_id : String
  pub status : String
  pub created_at : Time

-- `ToDomain`.
unfoldable pub to_domain : EventDto → Event
to_domain dto = record {
  order_id = trim_space dto.order_id;
  status = trim_space dto.status;
  created_at = dto.created_at;
}

pub record Message : Type 0 where
  pub offset : ℕ
  pub value : String

-- What one round of the loop receives.
pub data Received : Type 0 where
  session_done : Received
  closed : Received
  message : Message → Received

-- How the claim stands when there is nothing more to receive.
pub data Outcome : Type 0 where
  waiting : Outcome
  returned : Option Err → Outcome

-- The marked offsets in order, the outcome, and the state that the handler left.
pub record Claim (S : Type 0) : Type 0 where
  pub marked : List ℕ
  pub outcome : Outcome
  pub state : S

-- What becomes of one message: it is marked, or the loop ends with an error.
pub data Verdict : Type 0 where
  mark : Verdict
  give_up : Err → Verdict

module _ {S : Type 0} (unmarshal : String → Result EventDto)
    (handler : Event → S → Result (Unit {0}) × S) where
  unfoldable pub judge : Result (Unit {0}) × S → Verdict × S
  judge (ok _, s) = (mark, s)
  judge (err e, s) = (if is_permanent e then mark else give_up e, s)

  unfoldable pub decoded : Result EventDto → S → Verdict × S
  unfolding judge
  decoded (err e) s = (mark, s)
  decoded (ok dto) s =
      if (to_domain dto).order_id == "" then (mark, s) else judge (handler (to_domain dto) s)

  -- The body of the loop on one message.
  unfoldable pub consume_message : Message → S → Verdict × S
  unfolding judge decoded
  consume_message msg s = decoded (unmarshal msg.value) s

  -- How the loop goes on after a message.
  unfoldable pub proceed : Message → (S → Claim S) → Verdict × S → Claim S
  proceed msg rest (mark, s) = let c = rest s in record c { marked = msg.offset ∷ c.marked }
  proceed msg rest (give_up e, s) = record { marked = []; outcome = returned (some e); state = s }

  -- `groupHandler.ConsumeClaim`.
  unfoldable pub consume_claim : List Received → S → Claim S
  unfolding proceed
  consume_claim [] s = record { marked = []; outcome = waiting; state = s }
  consume_claim (session_done ∷ rs) s = record { marked = []; outcome = returned none; state = s }
  consume_claim (closed ∷ rs) s = record { marked = []; outcome = returned none; state = s }
  consume_claim (message msg ∷ rs) s = proceed msg (consume_claim rs) (consume_message msg s)
