-- ===== src/Orders/Dispatch.antt =====
-- Which action an event's status selects: actionFactory of internal/service/orders/factory.go.
use service_courier_platform.Prelude.{
  String, ◌≡◌, ◌↔◌, ◌⊎◌, some, arith, eq_iff, trim_space, to_lower,
}
use service_courier_platform.Orders.{on_created, on_canceled, on_completed, get, lookup, by_status}

-- The status as the map is asked for it.
abbrev pub key : String → String
key status = to_lower (trim_space status)

module _ (k : String) where
  to_created : (lookup k by_status ≡ some on_created) ↔ (k ≡ "created")
  unfolding lookup
  to_created =
      ground
        (arith, eq_iff "created" k, eq_iff "canceled" k, eq_iff "deleted" k, eq_iff "completed" k)

  to_canceled : (lookup k by_status ≡ some on_canceled) ↔ ((k ≡ "canceled") ⊎ (k ≡ "deleted"))
  unfolding lookup
  to_canceled = ground (
    arith,
    eq_iff "created" k,
    eq_iff "canceled" k,
    eq_iff "deleted" k,
    eq_iff "completed" k,
    eq_iff "created" "canceled",
    eq_iff "created" "deleted",
  )

  to_completed : (lookup k by_status ≡ some on_completed) ↔ (k ≡ "completed")
  unfolding lookup
  to_completed = ground (
    arith,
    eq_iff "created" k,
    eq_iff "canceled" k,
    eq_iff "deleted" k,
    eq_iff "completed" k,
    eq_iff "created" "completed",
    eq_iff "canceled" "completed",
    eq_iff "deleted" "completed",
  )

-- Trimmed and in lower case, exactly `created` selects the assignment, exactly `canceled` and
-- `deleted` the removal, and exactly `completed` the release.
pub get_iff :
    (status : String)
    → ((get status ≡ some on_created) ↔ (key status ≡ "created"))
      × ((get status ≡ some on_canceled) ↔ ((key status ≡ "canceled") ⊎ (key status ≡ "deleted")))
      × ((get status ≡ some on_completed) ↔ (key status ≡ "completed"))
unfolding get
get_iff status = (to_created (key status), to_canceled (key status), to_completed (key status))
