-- ===== src/System/Progress.antt =====
-- The release of couriers and the next request for one: what the ticker of
-- internal/app/runner.go is for.
use service_courier_platform.Prelude.{
  ◌≡◌, ◌∙◌, sym, refl, subst, String, true, false, ◌==◌, List, [], any, In, All-In, both_tests,
  some, Option-cases, inl, inr, trim_space, text_length, leb, ◌<◌,
}
use service_courier_platform.Errors.{ok}
use service_courier_platform.Domain.{
  Courier, Delivery, Time, AssignResult, status_busy, status_available,
}
use service_courier_platform.Database.{exec, Db}
use service_courier_platform.Database.Calls.{call-no_faults}
use service_courier_platform.Repository.Valid.{restatus}
use service_courier_platform.Repository.Deliveries.{
  of_order, first_available, is_available, is_expired, release_couriers, release_rows,
}
use service_courier_platform.Repository.Deliveries.Choice.{
  first_available-none, first_available-IsFirst,
}
use service_courier_platform.DeliveryService.{deadline, build_result, assign, release_expired}
use service_courier_platform.DeliveryService.Release.{expired_of_row, In-map}
use service_courier_platform.DeliveryService.Outcomes.{
  assign_answer, courier_answer, place_answer, assign-answer,
}
use service_courier_platform.System.{Reachable, next, tick}
use service_courier_platform.System.Deadlines.{Due, Reachable-Due}

release_healthy :
    (now : Time) (db : Db)
    → db.faults ≡ []
    → release_expired now db ≡ (ok tt, (release_rows now db).1)
unfolding release_expired release_couriers release_rows exec
release_healthy now db h = rw (call-no_faults db h) refl

some_available :
    (ds : List Delivery) (cs : List Courier) (c : Courier)
    → In c cs
    → is_available c ≡ true
    → (d : Courier) × (first_available ds cs ≡ some d)
some_available ds cs c i a = elim (Option-cases (first_available ds cs)) [
  | inr f ↦ f
  | inl e ↦
      absurd
        (both_tests a (All-In (λ d. is_available d ≡ false) cs c (first_available-none ds cs e) i))
]

-- What the database and the next request are like when a courier is late.
pub record Overdue (db : Db) (now : Time) (raw : String) : Type 0 where
  pub healthy : db.faults ≡ []
  pub courier : Courier
  pub listed : In courier db.couriers
  pub busy : courier.status ≡ status_busy
  pub old : Delivery
  pub recorded : In old db.deliveries
  pub own : old.courier_id ≡ courier.id
  pub late : old.deadline < now
  pub named : (trim_space raw == "") ≡ false
  pub fits : leb (text_length (trim_space raw)) 255 ≡ true
  pub fresh : any (of_order (trim_space raw)) db.deliveries ≡ false

module _ {db : Db} (now : Time) (raw : String) (reached : Reachable db)
    (o : Overdue db now raw) where
  abbrev end : Db
  end = (release_rows now db).1

  end-Reachable : Reachable end
  end-Reachable =
      subst (λ x. Reachable x.1) (release_healthy now db o.healthy) (next reached (tick now))

  freed_available : (d : Courier) × (first_available end.deliveries end.couriers ≡ some d)
  unfolding release_rows
  freed_available =
      let expired =
        expired_of_row now db.deliveries o.courier o.old o.busy o.recorded o.own o.late in
      some_available db.deliveries _
        (restatus (is_expired now db.deliveries) status_available o.courier)
        (In-map (restatus (is_expired now db.deliveries) status_available) db.couriers o.courier
          o.listed)
        (rw expired refl)

  answered :
      (c : Courier)
      → first_available end.deliveries end.couriers ≡ some c
      → Due c.transport_type now
      → (r : AssignResult) × (assign_answer deadline now end raw ≡ ok r)
  unfolding assign_answer courier_answer place_answer release_rows
  answered c e d =
      (build_result d.due (trim_space raw) c, rw (o.named, e, d.given, o.fits, o.fresh) refl)

  -- In a reachable database, when a busy courier is late with a delivery and the driver works, a
  -- tick frees one for the next order: an assignment of a fresh order, with an id that is neither
  -- blank nor too long, succeeds right after it.
  pub tick-serves :
      (r : AssignResult) × ((assign deadline now raw (release_expired now db).1).0 ≡ ok r)
  unfolding release_rows
  tick-serves =
      let (c, e) = freed_available in
      let listed = (first_available-IsFirst end.deliveries end.couriers e).listed in
      let due =
        All-In (λ x. Due x.transport_type now) end.couriers c (Reachable-Due now end-Reachable)
          listed in
      let (r, a) = answered c e due in
      (
        r,
        subst (λ x. (assign deadline now raw x.1).0 ≡ ok r) (sym (release_healthy now db o.healthy))
            (assign-answer deadline now end raw o.healthy ∙ a),
      )
