-- ===== src/Board/Lapse.antt =====
-- The board after the release of couriers whose deadline has passed.
use service_courier_platform.Prelude.{
  none-some, both_true, In_of_any, ℤ, ◌≡◌, ◌∙◌, sym, ap, refl, subst, true, map, Option, none, some,
  some_inj, eqb_ℤ_iff, eq_iff, Bool-cases, Option-cases, both_tests, inl, inr, ◌<◌, ltb→lt,
}
use service_courier_platform.Domain.{Courier, Delivery, Time, status_busy, status_available}
use service_courier_platform.Database.{Db}
use service_courier_platform.Repository.{find_courier}
use service_courier_platform.Repository.Deliveries.{find_delivery, is_expired}
use service_courier_platform.Repository.Valid.{restatus, restatus_id, IsValid}
use service_courier_platform.DeliveryService.Release.{Released, expired_of_row}
use service_courier_platform.Board.{
  board, status_in, holder_in, expiring, Late, Expiry, freed, kept, Move, lapses,
}
use service_courier_platform.Board.Statuses.{find_courier-map, find_courier_id, mapped}
use service_courier_platform.Board.Holders.{find_delivery-In, In-find_delivery}

module _ (before : Db) (v : IsValid before) where
  Late-of_expired :
      (now : Time) (c : Courier)
      → is_expired now before.deliveries c ≡ true
      → (c.status ≡ status_busy) × Late (board before) now c.id
  Late-of_expired now c h =
      let (busy, some_late) = both_true h in
      let (d, i, t) = In_of_any _ before.deliveries some_late in
      let (own, passed) = both_true t in
      (
        (eq_iff _ _).0 busy,
        record {
          order = d.order_id;
          due = d.deadline;
          holds =
              ap holder_in (find_delivery-In d before.deliveries i (v.orders d.order_id))
              ∙ ap (λ x. some (x, d.deadline)) ((eqb_ℤ_iff _ _).0 own);
          passed = ltb→lt d.deadline now passed;
        },
      )

  row-Late :
      (now : Time) (c : Courier) (i : ℤ)
      → c.id ≡ i
      → c.status ≡ status_busy
      → (l : Late (board before) now i) → (d : Delivery)
      → find_delivery l.order before.deliveries ≡ some d
      → is_expired now before.deliveries c ≡ true
  row-Late now c i same busy l d e =
      let pair : (d.courier_id, d.deadline) ≡ (i, l.due) =
        some_inj (sym (ap holder_in e) ∙ l.holds) in
      expired_of_row now before.deliveries c d busy (In-find_delivery l.order before.deliveries d e)
        (ap (λ x. x.0) pair ∙ sym same) (subst (λ x. x < now) (sym (ap (λ x. x.1) pair)) l.passed)

  expired_of_Late :
      (now : Time) (c : Courier) (i : ℤ)
      → c.id ≡ i
      → c.status ≡ status_busy
      → Late (board before) now i
      → is_expired now before.deliveries c ≡ true
  expired_of_Late now c i same busy l =
      elim (Option-cases (find_delivery l.order before.deliveries)) [
        | inl gone ↦
            let nobody : none ≡ some (i, l.due) = ap holder_in (sym gone) ∙ l.holds in
            absurd (none-some nobody)
        | inr (d, e) ↦ row-Late now c i same busy l d e
      ]

  abbrev release : Time → Courier → Courier
  release now = restatus (is_expired now before.deliveries) status_available

  found_released :
      (now : Time) (i : ℤ) (o : Option Courier)
      → find_courier i before.couriers ≡ o
      → status_in (find_courier i (map (release now) before.couriers))
        ≡ status_in (mapped (release now) o)
  found_released now i o e = ap status_in (
      find_courier-map (release now)
        (restatus_id (is_expired now before.deliveries) status_available) i before.couriers
      ∙ ap (mapped (release now)) e)

  -- The release of couriers, for one courier.
  lapse :
      (now : Time) (i : ℤ)
      → Expiry (board before) now i (status_in (find_courier i (map (release now) before.couriers)))
  lapse now i = elim (Option-cases (find_courier i before.couriers)) [
    | inl gone ↦
        kept (λ p. none-some (ap status_in (sym gone) ∙ p.0))
          (found_released now i none gone ∙ ap status_in (sym gone))
    | inr (c, e) ↦ elim (Bool-cases (is_expired now before.deliveries c)) [
      | inl h ↦
          let (busy, late) = Late-of_expired now c h in
          freed (ap status_in e ∙ ap some busy)
            (subst (Late (board before) now) (find_courier_id i before.couriers e) late)
            (found_released now i (some c) e ∙ rw h refl)
      | inr h ↦
          kept
            (λ p.
              both_tests
                (expired_of_Late now c i (find_courier_id i before.couriers e)
                  (some_inj (ap status_in (sym e) ∙ p.0)) p.1)
                h)
            (found_released now i (some c) e ∙ rw h (ap status_in (sym e)))
    ]
  ]

  pub Released-Move :
      (after : Db) (now : Time)
      → Released now before after
      → Move (board before) (board after) (expiring now)
  Released-Move after now r =
      lapses now
        (λ i.
          subst (λ cs. Expiry (board before) now i (status_in (find_courier i cs))) (sym r.couriers)
            (lapse now i))
        (λ o. ap (λ ds. holder_in (find_delivery o ds)) r.deliveries)
