-- ===== src/Worker/Consumed.antt =====
-- The worker on a whole claim: internal/transport/kafka/consumer.go over internal/app/kafka_orders.go
-- and internal/service/orders/processor.go.
use service_courier_platform.Prelude.{
  String, ◌==◌, Bool-cases, inl, inr, List, [], ◌∷◌, Option, none, some, ◌≡◌, refl, subst, sym,
}
use service_courier_platform.Errors.{Result, ok, err}
use service_courier_platform.Domain.{Time}
use service_courier_platform.Database.{Db}
use service_courier_platform.DeliveryService.{deadline}
use service_courier_platform.Gateway.{Order}
use service_courier_platform.Orders.{Event, delivery_port, handle}
use service_courier_platform.Kafka.{
  EventDto, to_domain, Received, session_done, closed, message, Message, Verdict, mark, give_up,
  judge, decoded, consume_message, proceed, consume_claim,
}
use service_courier_platform.Worker.{make_orders_kafka, looked_up, refresh}
use service_courier_platform.Worker.Messages.{worker}
use service_courier_platform.System.{Reachable, next, event}

module _ (clock : Event → Time) (gateway : Option (String → Result (Option Order)))
    (unmarshal : String → Result EventDto) where
  -- The handler, with the time at which it handles each event.
  abbrev pub at_work : Event → Db → Result (Unit {0}) × Db
  at_work e db = worker deadline (clock e) gateway e db

  looked_up-Reachable :
      (now : Time) (answer : Result (Option Order)) (e : Event) (db : Db)
      → Reachable db
      → Reachable (looked_up (handle (delivery_port deadline now)) answer e db).1
  unfolding looked_up
  looked_up-Reachable now (err x) e db r = r
  looked_up-Reachable now (ok none) e db r = r
  looked_up-Reachable now (ok (some o)) e db r = next r (event now (refresh o e))

  handled-Reachable :
      (now : Time) (g : Option (String → Result (Option Order))) (e : Event) (db : Db)
      → Reachable db
      → Reachable (worker deadline now g e db).1
  unfolding make_orders_kafka
  handled-Reachable now none e db r = next r (event now e)
  handled-Reachable now (some get_by_id) e db r =
      looked_up-Reachable now (get_by_id e.order_id) e db r

  judge_state : (o : Result (Unit {0}) × Db) → (judge unmarshal at_work o).1 ≡ o.1
  unfolding judge
  judge_state (ok x, db) = refl
  judge_state (err e, db) = refl

  decoded-Reachable :
      (d : Result EventDto) (db : Db) → Reachable db → Reachable (decoded unmarshal at_work d db).1
  unfolding decoded
  decoded-Reachable (err e) db r = r
  decoded-Reachable (ok dto) db r = elim (Bool-cases ((to_domain dto).order_id == "")) [
    | inl blank ↦ rw blank r
    | inr named ↦ rw named (
        subst Reachable (sym (judge_state (at_work (to_domain dto) db)))
          (handled-Reachable (clock (to_domain dto)) gateway (to_domain dto) db r))
  ]

  proceed-Reachable :
      (rs : List Received) (msg : Message) (v : Verdict × Db)
      → ((db : Db) → Reachable db → Reachable (consume_claim unmarshal at_work rs db).state)
      → Reachable v.1
      → Reachable (proceed unmarshal at_work msg (consume_claim unmarshal at_work rs) v).state
  unfolding proceed
  proceed-Reachable rs msg (mark, db) h r = h db r
  proceed-Reachable rs msg (give_up e, db) h r = r

  -- Whatever a claim brings, with a gateway or without one, at whatever times: the database stays
  -- one that the system can reach, up to the message with which the claim ends.
  pub consume_claim-Reachable :
      (rs : List Received) (db : Db)
      → Reachable db
      → Reachable (consume_claim unmarshal at_work rs db).state
  unfolding consume_claim consume_message
  consume_claim-Reachable [] db r = r
  consume_claim-Reachable (session_done ∷ rs) db r = r
  consume_claim-Reachable (closed ∷ rs) db r = r
  consume_claim-Reachable (message msg ∷ rs) db r =
      proceed-Reachable rs msg (consume_message unmarshal at_work msg db)
        (consume_claim-Reachable rs) (decoded-Reachable (unmarshal msg.value) db r)
